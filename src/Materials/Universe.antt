-- ===== src/Materials/Universe.antt =====
-- The universe beside canonical form.
use native.Mathlib.Decide.{ℕ_discrete}
use helpmate_tablebase.Base.{
  In-map_inv, In-flat_map_inv, In-flat_map, head_least, tail-IsSorted, length, In, In-append_left,
  In-append_right, In-append, In-map, IsSorted, ℕ, zero, suc, ◌+◌, ◌-◌, ◌≤◌, String, ◌≡◌, refl, sym,
  ap, ◌∙◌, subst, ◌↔◌, inl, inr, true, false, some, List, [], ◌∷◌, ◌++◌, map, arith, string_eq,
  pair_eq, nat_eq, option_eq, list_eq, bool_eq,
}
use helpmate_tablebase.Materials.Names.{
  canonical-name_of, canonical-inv, side-IsSorted, checked_name-inv, checked_name_of-IsSorted,
}
use helpmate_tablebase.Materials.{
  Piece, queen, rook, bishop, knight, pawn, order, less, side, name_of, canonical, combinations,
  classes, by_white, universe,
}

-- Men in strictly rising rank, as in `ORDER`.
abbrev Rising : List Piece → Type 0
Rising [] = Unit
Rising (x ∷ xs) = ((z : Piece) → In z xs → less x z ≡ true) × Rising xs

order-Rising : Rising order
order-Rising = (
  (λ z m. ground arith),
  (
    (λ z m. ground arith),
    ((λ z m. ground arith), ((λ z m. ground arith), ((λ z m. ground arith), tt))),
  ),
)

In-order : (x : Piece) → In x order
In-order queen = inl refl
In-order rook = inr (inl refl)
In-order bishop = inr (inr (inl refl))
In-order knight = inr (inr (inr (inl refl)))
In-order pawn = inr (inr (inr (inr (inl refl))))

-- A sorted list of `k` men that stand in `xs`.
abbrev Combination : List Piece → ℕ → List Piece → Type 0
Combination xs k c = IsSorted less c × (length c ≡ k) × ((y : Piece) → In y c → In y xs)

cons-IsSorted :
    (x : Piece) (c : List Piece)
    → ((y : Piece) → In y c → less y x ≡ false)
    → IsSorted less c
    → IsSorted less (x ∷ c)
cons-IsSorted x [] h s = tt
cons-IsSorted x (y ∷ c) h s = (h y (inl refl), s)

not_less :
    (x : Piece) (xs : List Piece) → Rising (x ∷ xs) → (y : Piece) → In y (x ∷ xs) → less y x ≡ false
not_less x xs h y (inl e) = rw e (ground arith)
not_less x xs h y (inr m) = ground (arith, h.0 y m)

combinations_sound :
    (xs : List Piece) (k : ℕ) (c : List Piece)
    → Rising xs
    → In c (combinations xs k)
    → Combination xs k c
unfolding combinations
combinations_sound xs zero c h (inl e) = rw e (tt, refl, λ y m. absurd m)
combinations_sound xs zero c h (inr m) = elim m [ ]
combinations_sound [] (suc k) c h m = elim m [ ]
combinations_sound (x ∷ xs) (suc k) c h m =
    elim (In-append c (map (λ d. x ∷ d) (combinations (x ∷ xs) k)) (combinations xs (suc k)) m) [
      | inl l ↦
          let (d, i, e) = In-map_inv (λ (d : List Piece). x ∷ d) c (combinations (x ∷ xs) k) l in
          with_first d e (combinations_sound (x ∷ xs) k d h i)
      | inr l ↦ let (s, q, i) = combinations_sound xs (suc k) c h.1 l in (s, q, λ y j. inr (i y j))
    ]
  where
    with_first :
        (d : List Piece) → c ≡ x ∷ d → Combination (x ∷ xs) k d → Combination (x ∷ xs) (suc k) c
    with_first d e (s, q, i) = rw e (
      cons-IsSorted x d (λ y j. not_less x xs h y (i y j)) s,
      ap suc q,
      λ y j. elim j [ inl z ↦ inl z | inr z ↦ i y z ],
    )

combinations_complete :
    (xs : List Piece) (k : ℕ) (c : List Piece)
    → Rising xs
    → Combination xs k c
    → In c (combinations xs k)
unfolding combinations
combinations_complete xs zero [] h (s, q, i) = inl refl
combinations_complete xs zero (y ∷ c) h (s, q, i) = absurd (omega arith)
combinations_complete [] (suc k) [] h (s, q, i) = absurd (omega arith)
combinations_complete [] (suc k) (y ∷ c) h (s, q, i) = absurd (i y (inl refl))
combinations_complete (x ∷ xs) (suc k) [] h (s, q, i) = absurd (omega arith)
combinations_complete (x ∷ xs) (suc k) (y ∷ c) h (s, q, i) = elim (i y (inl refl)) [
  | inl e ↦ In-append_left (y ∷ c) _ (combinations xs (suc k)) (
      subst (λ w. In (w ∷ c) (map (λ d. x ∷ d) (combinations (x ∷ xs) k))) (sym e)
        (In-map (λ d. x ∷ d) c (combinations (x ∷ xs) k)
          (combinations_complete (x ∷ xs) k c h
            (tail-IsSorted less trans y c s, omega arith, λ z j. i z (inr j)))))
  | inr m ↦
      In-append_right (y ∷ c) (map (λ d. x ∷ d) (combinations (x ∷ xs) k)) (combinations xs (suc k))
        (combinations_complete xs (suc k) (y ∷ c) h.1 (s, q, behind m))
]
  where
    trans : (a b' c' : Piece) → less b' a ≡ false → less c' b' ≡ false → less c' a ≡ false
    trans a b' c' e f = ground arith

    behind : In y xs → (z : Piece) → In z (y ∷ c) → In z xs
    behind m z j = elim (i z j) [
      | inr l ↦ l
      | inl e ↦ elim j [
        | inl f ↦ subst (λ w. In w xs) (sym f) m
        | inr g ↦ absurd (ground (arith, h.0 y m, head_least less trans y c s z g))
      ]
    ]

In-classes :
    (k w : ℕ) (ws bs : List Piece)
    → IsSorted less ws
    → IsSorted less bs
    → length ws ≡ w
    → length bs ≡ k - w
    → In (name_of ws bs) (classes k w)
unfolding classes
In-classes k w ws bs s t e f =
    In-flat_map _ (name_of ws bs) ws (combinations order w)
      (combinations_complete order w ws order-Rising (s, e, λ y _. In-order y))
      (In-map (λ c. name_of ws c) bs (combinations order (k - w))
        (combinations_complete order (k - w) bs order-Rising (t, f, λ y _. In-order y)))

In-classes_inv :
    (k w : ℕ) (name : String)
    → In name (classes k w)
    → (ws bs : List Piece) × (name ≡ name_of ws bs)
      × IsSorted less ws
      × IsSorted less bs
      × (length ws ≡ w)
      × (length bs ≡ k - w)
unfolding classes
In-classes_inv k w name h =
    let (ws, i, j) =
      In-flat_map_inv (λ ws. map (λ bs. name_of ws bs) (combinations order (k - w))) name
        (combinations order w) h in
    let (bs, l, e) = In-map_inv (λ bs. name_of ws bs) name (combinations order (k - w)) j in
    let (s, q, _) = combinations_sound order w ws order-Rising i in
    let (t, f, _) = combinations_sound order (k - w) bs order-Rising l in (ws, bs, e, s, t, q, f)

In-by_white :
    (k w : ℕ) (ws bs : List Piece)
    → IsSorted less ws
    → IsSorted less bs
    → length ws ≤ w
    → length bs ≡ k - length ws
    → In (name_of ws bs) (by_white k w)
unfolding by_white
In-by_white k zero ws bs s t e f = In-classes k 0 ws bs s t (omega arith) (omega arith)
In-by_white k (suc w) ws bs s t e f = elim (ℕ_discrete (length ws) (suc w)) [
  | yes here ↦
      In-append_left _ (classes k (suc w)) (by_white k w)
        (In-classes k (suc w) ws bs s t here (omega arith))
  | no below ↦
      In-append_right _ (classes k (suc w)) (by_white k w)
        (In-by_white k w ws bs s t (omega arith) f)
]

-- The names of the classes with `k` men beside the kings.
abbrev Named : ℕ → String → Type 0
Named k name =
    (ws bs : List Piece) × (name ≡ name_of ws bs)
    × IsSorted less ws
    × IsSorted less bs
    × (length ws + length bs ≡ k)

In-by_white_inv : (k w : ℕ) (name : String) → w ≤ k → In name (by_white k w) → Named k name
unfolding by_white
In-by_white_inv k zero name l h =
    let (ws, bs, e, s, t, f, g) = In-classes_inv k 0 name h in (ws, bs, e, s, t, omega arith)
In-by_white_inv k (suc w) name l h = elim (In-append name (classes k (suc w)) (by_white k w) h) [
  | inl i ↦
      let (ws, bs, e, s, t, f, g) = In-classes_inv k (suc w) name i in
      (ws, bs, e, s, t, omega arith)
  | inr i ↦ In-by_white_inv k w name (omega arith) i
]

Named-canonical :
    (k : ℕ) (name : String) → 1 ≤ k → k ≤ 4 → Named k name → canonical name ≡ some name
Named-canonical k name lo hi (ws, bs, e, s, t, c) =
    subst (λ x. canonical x ≡ some x) (sym e)
      (canonical-name_of ws bs ∙ checked_name_of-IsSorted ws bs s t (omega arith) (omega arith))

-- Every name of the universe is canonical.
universe-canonical : (name : String) → In name universe → canonical name ≡ some name
unfolding universe
universe-canonical name h =
    elim (In-append name (by_white 1 1) (by_white 2 2 ++ (by_white 3 3 ++ by_white 4 4)) h) [
      | inl i ↦
          Named-canonical 1 name (omega arith) (omega arith)
            (In-by_white_inv 1 1 name (omega arith) i)
      | inr h' ↦ elim (In-append name (by_white 2 2) (by_white 3 3 ++ by_white 4 4) h') [
        | inl i ↦
            Named-canonical 2 name (omega arith) (omega arith)
              (In-by_white_inv 2 2 name (omega arith) i)
        | inr h₂ ↦ elim (In-append name (by_white 3 3) (by_white 4 4) h₂) [
          | inl i ↦
              Named-canonical 3 name (omega arith) (omega arith)
                (In-by_white_inv 3 3 name (omega arith) i)
          | inr i ↦
              Named-canonical 4 name (omega arith) (omega arith)
                (In-by_white_inv 4 4 name (omega arith) i)
        ]
      ]
    ]

In-universe_of :
    (k : ℕ) (ws bs : List Piece)
    → IsSorted less ws
    → IsSorted less bs
    → length ws + length bs ≡ k
    → 1 ≤ k
    → k ≤ 4
    → In (name_of ws bs) universe
unfolding universe
In-universe_of zero ws bs s t e lo hi = absurd (omega arith)
In-universe_of (suc zero) ws bs s t e lo hi =
    In-append_left _ (by_white 1 1) (by_white 2 2 ++ (by_white 3 3 ++ by_white 4 4))
      (In-by_white 1 1 ws bs s t (omega arith) (omega arith))
In-universe_of (suc (suc zero)) ws bs s t e lo hi =
    In-append_right _ (by_white 1 1) (by_white 2 2 ++ (by_white 3 3 ++ by_white 4 4)) (
      In-append_left _ (by_white 2 2) (by_white 3 3 ++ by_white 4 4)
        (In-by_white 2 2 ws bs s t (omega arith) (omega arith)))
In-universe_of (suc (suc (suc zero))) ws bs s t e lo hi =
    In-append_right _ (by_white 1 1) (by_white 2 2 ++ (by_white 3 3 ++ by_white 4 4)) (
      In-append_right _ (by_white 2 2) (by_white 3 3 ++ by_white 4 4) (
        In-append_left _ (by_white 3 3) (by_white 4 4)
          (In-by_white 3 3 ws bs s t (omega arith) (omega arith))))
In-universe_of (suc (suc (suc (suc zero)))) ws bs s t e lo hi =
    In-append_right _ (by_white 1 1) (by_white 2 2 ++ (by_white 3 3 ++ by_white 4 4)) (
      In-append_right _ (by_white 2 2) (by_white 3 3 ++ by_white 4 4) (
        In-append_right _ (by_white 3 3) (by_white 4 4)
          (In-by_white 4 4 ws bs s t (omega arith) (omega arith))))
In-universe_of (suc (suc (suc (suc (suc k))))) ws bs s t e lo hi = absurd (omega arith)

canonical-In : (name : String) → canonical name ≡ some name → In name universe
canonical-In name h =
    let (ws, bs, c) = canonical-inv name name h in
    let (e, lo, hi) = checked_name-inv ws bs name c in
    subst (λ x. In x universe) (sym e)
      (In-universe_of (length (side ws) + length (side bs)) (side ws) (side bs) (side-IsSorted ws)
        (side-IsSorted bs) refl lo hi)

-- A text is one of the names of `universe()` exactly if it is its own canonical form.
pub In-universe_iff : (name : String) → In name universe ↔ (canonical name ≡ some name)
In-universe_iff name = (universe-canonical name, canonical-In name)
