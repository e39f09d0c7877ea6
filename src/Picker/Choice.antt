-- ===== src/Picker/Choice.antt =====
-- tools/problem_picker.py, `pick`: no two chosen problems share an idea, and none is left out.
use helpmate_tablebase.Base.{
  ltb, ltb→lt, ◌==◌, beq_refl, eq_of_beq, Bool-cases, get_or_else, if◌then◌else◌, length, In,
  filter, find, any, length-append, In-append_left, In-append_right, In-append, In-filter,
  In-filter_of, find-In, any_of_In, ℕ, zero, suc, ◌≤◌, ◌<◌, max, String, ◌≡◌, refl, sym, subst, ◌⊎◌,
  inl, inr, true, false, Option, none, some, List, [], ◌∷◌, ◌++◌, arith, remove, In-remove,
  In-remove_of, string_eq, pair_eq, nat_eq, option_eq, list_eq, bool_eq,
}
use helpmate_tablebase.Picker.{
  Candidate, candidate_eq, ratio_less, same_idea, nearness, farthest, is_fresh, pick_loop, seed_of,
  pick,
}

-- No candidate shares its idea with one before it.
abbrev pub NoTwins : List Candidate → Type 0
NoTwins [] = Unit
NoTwins (k ∷ ks) = ((c : Candidate) → In c ks → same_idea c k ≡ false) × NoTwins ks

NoTwins-append :
    (ks : List Candidate) (c : Candidate)
    → NoTwins ks
    → ((k : Candidate) → In k ks → same_idea c k ≡ false)
    → NoTwins (ks ++ (c ∷ []))
NoTwins-append [] c v h = ((λ d i. absurd i), tt)
NoTwins-append (k ∷ ks) c v h = (
  (λ d i. elim (In-append d ks (c ∷ []) i) [
    | inl j ↦ v.0 d j
    | inr (inl e) ↦ subst (λ x. same_idea x k ≡ false) (sym e) (h k (inl refl))
    | inr (inr j) ↦ absurd j
  ]),
  NoTwins-append ks c v.1 (λ x i. h x (inr i)),
)

fresh-differs :
    (chosen : List Candidate) (c k : Candidate)
    → is_fresh chosen c ≡ true
    → In k chosen
    → same_idea c k ≡ false
fresh-differs chosen c k f i = elim (Bool-cases (same_idea c k)) [
  | inr e ↦ e
  | inl e ↦ absurd (cc (rw (any_of_In (same_idea c) chosen k i e) at f))
]

farthest-In :
    (chosen : List Candidate) (best : Candidate) (cs : List Candidate)
    → In (farthest chosen best cs) (best ∷ cs)
unfolding farthest
farthest-In chosen best [] = inl refl
farthest-In chosen best (c ∷ cs) = ground (
  arith,
  farthest-In chosen (if ratio_less (nearness chosen best) (nearness chosen c) then c else best) cs,
)

length-remove :
    (a : Candidate) (xs : List Candidate) → In a xs → suc (length (remove a xs)) ≡ length xs
length-remove a [] i = absurd i
length-remove a (x ∷ xs) i = ground (arith, length-remove a xs, candidate_eq.equal_iff a x)

-- The cases of one round.
data Round (limit : ℕ) (pool chosen : List Candidate) (fuel : ℕ) (end : List Candidate)
    : Type 0 where
  full : ltb (length chosen) limit ≡ false → end ≡ chosen → Round limit pool chosen fuel end
  used_up : pool ≡ [] → end ≡ chosen → Round limit pool chosen fuel end
  only_twins : filter (is_fresh chosen) pool ≡ [] → end ≡ chosen → Round limit pool chosen fuel end
  chooses :
      (best : Candidate)
      → In best pool
      → is_fresh chosen best ≡ true
      → length chosen < limit
      → end ≡ pick_loop fuel limit (remove best pool) (chosen ++ (best ∷ []))
      → Round limit pool chosen fuel end

round_lem :
    (fuel limit : ℕ) (pool chosen : List Candidate)
    → Round limit pool chosen fuel (pick_loop (suc fuel) limit pool chosen)
unfolding pick_loop
round_lem fuel limit [] chosen = used_up refl refl
round_lem fuel limit (p ∷ pool) chosen = elim (Bool-cases (ltb (length chosen) limit)) [
  | inr t ↦ full t (rw (t, pick_loop) refl)
  | inl t ↦ by_fresh (filter (is_fresh chosen) (p ∷ pool)) refl t
]
  where
    by_fresh :
        (fresh : List Candidate)
        → filter (is_fresh chosen) (p ∷ pool) ≡ fresh
        → ltb (length chosen) limit ≡ true
        → Round limit (p ∷ pool) chosen fuel (pick_loop (suc fuel) limit (p ∷ pool) chosen)
    by_fresh [] e t = only_twins e (rw (t, pick_loop) (rw e refl))
    by_fresh (c ∷ cs) e t =
        let (i, f) =
          In-filter (is_fresh chosen) (farthest chosen c cs) (p ∷ pool)
            (subst (In (farthest chosen c cs)) (sym e) (farthest-In chosen c cs)) in
        chooses (farthest chosen c cs) i f (ltb→lt (length chosen) limit t)
          (rw (t, pick_loop) (rw e refl))

-- What the chosen are at each step.
pub record IsChoice (limit : ℕ) (candidates chosen : List Candidate) : Type 0 where
  pub no_twins : NoTwins chosen
  pub within : (c : Candidate) → In c chosen → In c candidates
  pub few : length chosen ≤ max 1 limit

pick_loop-IsChoice :
    (fuel limit : ℕ) (candidates pool chosen : List Candidate)
    → ((c : Candidate) → In c pool → In c candidates)
    → IsChoice limit candidates chosen
    → IsChoice limit candidates (pick_loop fuel limit pool chosen)
unfolding pick_loop
pick_loop-IsChoice zero limit candidates pool chosen sub v = v
pick_loop-IsChoice (suc fuel) limit candidates pool chosen sub v =
    by_round (round_lem fuel limit pool chosen) (λ best i w.
      pick_loop-IsChoice fuel limit candidates (remove best pool) (chosen ++ (best ∷ []))
        (λ c j. sub c (In-remove c best pool j)) w)
  where
    by_round :
        {end : List Candidate}
        → Round limit pool chosen fuel end
        → ((best : Candidate)
            → In best pool
            → IsChoice limit candidates (chosen ++ (best ∷ []))
            → IsChoice limit candidates
                (pick_loop fuel limit (remove best pool) (chosen ++ (best ∷ []))))
        → IsChoice limit candidates end
    by_round (full t e) ih = rw e v
    by_round (used_up t e) ih = rw e v
    by_round (only_twins t e) ih = rw e v
    by_round (chooses best i f lt e) ih = rw e (
        ih best i (record {
          no_twins = NoTwins-append chosen best v.no_twins (λ k. fresh-differs chosen best k f);
          within = λ c j. elim (In-append c chosen (best ∷ []) j) [
            | inl k ↦ v.within c k
            | inr (inl same) ↦ subst (λ x. In x candidates) (sym same) (sub best i)
            | inr (inr k) ↦ absurd k
          ];
          few = let few = v.few in omega (arith, length-append chosen (best ∷ []), lt, few);
        }))

-- What a choice that ends leaves out.
abbrev Covers : ℕ → List Candidate → List Candidate → List Candidate → Type 0
Covers limit pool chosen end =
    ((c : Candidate) → In c chosen → In c end)
    × (length end < limit → (c : Candidate) → In c pool → In c end ⊎ (any (same_idea c) end ≡ true))

twin_of_stale :
    (chosen : List Candidate) (c : Candidate) (pool : List Candidate)
    → filter (is_fresh chosen) pool ≡ []
    → In c pool
    → any (same_idea c) chosen ≡ true
twin_of_stale chosen c pool e i = elim (Bool-cases (any (same_idea c) chosen)) [
  | inl t ↦ t
  | inr t ↦ absurd (subst (In c) e (In-filter_of (is_fresh chosen) c pool i (rw t refl)))
]

pick_loop-Covers :
    (fuel limit : ℕ) (pool chosen : List Candidate)
    → length pool ≤ fuel
    → Covers limit pool chosen (pick_loop fuel limit pool chosen)
unfolding pick_loop
pick_loop-Covers zero limit [] chosen h = ((λ c i. i), λ s c i. absurd i)
pick_loop-Covers zero limit (p ∷ pool) chosen h = absurd (omega arith)
pick_loop-Covers (suc fuel) limit pool chosen h =
    by_round (round_lem fuel limit pool chosen) (λ best i.
      pick_loop-Covers fuel limit (remove best pool) (chosen ++ (best ∷ []))
        (omega (arith, length-remove best pool i)))
  where
    by_round :
        {end : List Candidate}
        → Round limit pool chosen fuel end
        → ((best : Candidate)
            → In best pool
            → Covers limit
                (remove best pool)
                (chosen ++ (best ∷ []))
                (pick_loop fuel limit (remove best pool) (chosen ++ (best ∷ []))))
        → Covers limit pool chosen end
    by_round (full t e) ih = rw e ((λ c i. i), λ s c i. absurd (ground (arith, t, s)))
    by_round (used_up t e) ih = rw e ((λ c i. i), λ s c i. absurd (subst (In c) t i))
    by_round (only_twins t e) ih = rw e ((λ c i. i), λ s c i. inr (twin_of_stale chosen c pool t i))
    by_round (chooses best i f lt e) ih = rw e (
      (λ c j. (ih best i).0 c (In-append_left c chosen (best ∷ []) j)),
      λ s c j. elim (Bool-cases (c == best)) [
        | inl t ↦
            inl ((ih best i).0 c (In-append_right c chosen (best ∷ []) (inl (eq_of_beq c best t))))
        | inr t ↦ (ih best i).1 s c (In-remove_of c best pool j (λ q. cc (beq_refl best)))
      ],
    )

default-In :
    (o : Option Candidate) (c : Candidate) (cs : List Candidate)
    → ((k : Candidate) → o ≡ some k → In k cs)
    → In c cs
    → In (get_or_else o c) cs
default-In none c cs found i = i
default-In (some k) c cs found i = found k refl

seed_of-In :
    (seed_fen : Option String) (c : Candidate) (cs : List Candidate)
    → In (seed_of seed_fen c cs) (c ∷ cs)
unfolding seed_of
seed_of-In seed_fen c cs =
    default-In (find (λ k. some k.fen == seed_fen) (c ∷ cs)) c (c ∷ cs)
      (λ k z. (find-In (λ x. some x.fen == seed_fen) (c ∷ cs) k z).0) (inl refl)

pick-IsChoice :
    (candidates : List Candidate) (limit : ℕ) (seed_fen : Option String)
    → IsChoice limit candidates (pick candidates limit seed_fen).0
unfolding pick
pick-IsChoice [] limit seed_fen = record { no_twins = tt; within = λ c i. i; few = omega arith }
pick-IsChoice (c ∷ cs) limit seed_fen =
    let seed = seed_of seed_fen c cs in
    pick_loop-IsChoice (length (remove seed (c ∷ cs))) limit (c ∷ cs) (remove seed (c ∷ cs))
      (seed ∷ []) (λ d i. In-remove d seed (c ∷ cs) i)
      (record {
        no_twins = ((λ d i. absurd i), tt);
        within = λ d i. elim i [
          | inl e ↦ subst (λ x. In x (c ∷ cs)) (sym e) (seed_of-In seed_fen c cs)
          | inr n ↦ absurd n
        ];
        few = omega arith;
      })

-- Every chosen candidate is one of those given; no two of the chosen share an idea, the later
-- compared with the earlier; and they are at most `limit`, or one where that is 0.
pub pick_choice :
    (candidates : List Candidate) (limit : ℕ) (seed_fen : Option String) (c : Candidate)
    → In c (pick candidates limit seed_fen).0
    → In c candidates
      × NoTwins (pick candidates limit seed_fen).0
      × (length (pick candidates limit seed_fen).0 ≤ max 1 limit)
pick_choice candidates limit seed_fen c i =
    let v = pick-IsChoice candidates limit seed_fen in (v.within c i, v.no_twins, v.few)

-- When fewer than `limit` are chosen, each candidate is chosen or shares its idea with one that is.
pub pick_complete :
    (candidates : List Candidate) (limit : ℕ) (seed_fen : Option String) (c : Candidate)
    → length (pick candidates limit seed_fen).0 < limit
    → In c candidates
    → In c (pick candidates limit seed_fen).0
      ⊎ (any (same_idea c) (pick candidates limit seed_fen).0 ≡ true)
unfolding pick
pick_complete [] limit seed_fen c few i = absurd i
pick_complete (k ∷ ks) limit seed_fen c few i =
    let seed = seed_of seed_fen k ks in
    let (kept, covered) =
      pick_loop-Covers (length (remove seed (k ∷ ks))) limit (remove seed (k ∷ ks)) (seed ∷ [])
        (omega arith) in
    elim (Bool-cases (c == seed)) [
      | inl t ↦ inl (kept c (inl (eq_of_beq c seed t)))
      | inr t ↦ covered few c (In-remove_of c seed (k ∷ ks) i (λ q. cc (beq_refl seed)))
    ]
