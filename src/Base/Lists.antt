-- ===== src/Base/Lists.antt =====
-- Lists measured by native numbers, membership as a relation and as Python's `in`, list
-- comprehensions, `next`, `sorted`.
use Prim.Native.Nat.{ℕ, zero, suc, ◌+◌, ◌≤◌}
use native.Mathlib.Decide.{ℕ_discrete}
use mathlib.Core.Path.{◌≡◌, refl, ap, subst}
use mathlib.Core.Logic.{◌≢◌, ◌⊎◌, ◌↔◌, inl, inr}
use mathlib.Core.Bool.{Bool, true, false, ◌&&◌, ◌||◌}
use mathlib.Core.Option.{Option, none, some}
use mathlib.Core.List.{List, [], ◌∷◌, ◌++◌, map}
use native.Mathlib.Omega.{arith}
use helpmate_tablebase.Base.Tests.{Eq, ◌==◌, if◌then◌else◌, Bool-cases}

module _ {ℓ} {A : Type ℓ} where
  abbrev pub length : List A → ℕ
  length [] = 0
  length (x ∷ xs) = suc (length xs)

  -- [x for x in xs if p(x)]
  abbrev pub filter : (A → Bool) → List A → List A
  filter p [] = []
  filter p (x ∷ xs) = let rest = filter p xs in if p x then x ∷ rest else rest

  -- next((x for x in xs if p(x)), None)
  abbrev pub find : (A → Bool) → List A → Option A
  find p [] = none
  find p (x ∷ xs) = let rest = find p xs in if p x then some x else rest

  abbrev pub any : (A → Bool) → List A → Bool
  any p [] = false
  any p (x ∷ xs) = p x || any p xs

  abbrev pub all : (A → Bool) → List A → Bool
  all p [] = true
  all p (x ∷ xs) = p x && all p xs

  abbrev pub head? : List A → Option A
  head? [] = none
  head? (x ∷ xs) = some x

  -- not xs
  abbrev pub is_empty : List A → Bool
  is_empty [] = true
  is_empty (x ∷ xs) = false

  abbrev pub take : ℕ → List A → List A
  take zero xs = []
  take (suc n) [] = []
  take (suc n) (x ∷ xs) = x ∷ take n xs

  abbrev pub drop : ℕ → List A → List A
  drop zero xs = xs
  drop (suc n) [] = []
  drop (suc n) (x ∷ xs) = drop n xs

module _ {ℓ} {A : Type ℓ} where
  pub length-append : (xs ys : List A) → length (xs ++ ys) ≡ length xs + length ys
  length-append [] ys = omega arith
  length-append (x ∷ xs) ys = omega (arith, length-append xs ys)

-- The program's lists hold values of small types.
module _ {A : Type 0} where
  -- x in xs, as a relation
  abbrev pub In : A → List A → Type 0
  In a [] = ⊥
  In a (x ∷ xs) = (a ≡ x) ⊎ In a xs

  pub In-append_left : (a : A) (xs ys : List A) → In a xs → In a (xs ++ ys)
  In-append_left a [] ys h = elim h [ ]
  In-append_left a (x ∷ xs) ys (inl e) = inl e
  In-append_left a (x ∷ xs) ys (inr h) = inr (In-append_left a xs ys h)

  pub In-append_right : (a : A) (xs ys : List A) → In a ys → In a (xs ++ ys)
  In-append_right a [] ys h = h
  In-append_right a (x ∷ xs) ys h = inr (In-append_right a xs ys h)

  pub In-append : (a : A) (xs ys : List A) → In a (xs ++ ys) → In a xs ⊎ In a ys
  In-append a [] ys h = inr h
  In-append a (x ∷ xs) ys h = ground (arith, In-append a xs ys)

  pub In-filter : (p : A → Bool) (a : A) (xs : List A) → In a (filter p xs) → In a xs × (p a ≡ true)
  In-filter p a [] h = elim h [ ]
  In-filter p a (x ∷ xs) h = ground (arith, In-filter p a xs)

  pub In-filter_of :
      (p : A → Bool) (a : A) (xs : List A) → In a xs → p a ≡ true → In a (filter p xs)
  In-filter_of p a [] h e = h
  In-filter_of p a (x ∷ xs) h e = ground (arith, In-filter_of p a xs)

  pub find-In : (p : A → Bool) (xs : List A) (a : A) → find p xs ≡ some a → In a xs × (p a ≡ true)
  find-In p [] a h = cc
  find-In p (x ∷ xs) a h = ground (arith, find-In p xs a)

  pub find-none : (p : A → Bool) (xs : List A) (a : A) → find p xs ≡ none → In a xs → p a ≡ false
  find-none p [] a h m = elim m [ ]
  find-none p (x ∷ xs) a h m = ground (arith, find-none p xs a)

  pub all-In : (p : A → Bool) (xs : List A) (a : A) → all p xs ≡ true → In a xs → p a ≡ true
  all-In p [] a h m = elim m [ ]
  all-In p (x ∷ xs) a h m = ground (arith, all-In p xs a)

  pub any_of_In : (p : A → Bool) (xs : List A) (a : A) → In a xs → p a ≡ true → any p xs ≡ true
  any_of_In p [] a m h = elim m [ ]
  any_of_In p (x ∷ xs) a m h = ground (arith, any_of_In p xs a)

  pub any-In : (p : A → Bool) (xs : List A) → any p xs ≡ true → (a : A) × In a xs × (p a ≡ true)
  any-In p [] h = absurd (cc)
  any-In p (x ∷ xs) h = elim (Bool-cases (p x)) [
    | inl e ↦ (x, inl refl, e)
    | inr e ↦ let (a, m, q) = any-In p xs (ground arith) in (a, inr m, q)
  ]

module _ {A B : Type 0} where
  pub In-map : (f : A → B) (a : A) (xs : List A) → In a xs → In (f a) (map f xs)
  In-map f a [] h = elim h [ ]
  In-map f a (x ∷ xs) (inl e) = inl (ap f e)
  In-map f a (x ∷ xs) (inr h) = inr (In-map f a xs h)

module _ {A B : Type 0} where
  pub In-map_inv :
      (f : A → B) (b : B) (xs : List A) → In b (map f xs) → (a : A) × In a xs × (b ≡ f a)
  In-map_inv f b [] h = elim h [ ]
  In-map_inv f b (x ∷ xs) (inl e) = (x, inl refl, e)
  In-map_inv f b (x ∷ xs) (inr h) = let (a, m, q) = In-map_inv f b xs h in (a, inr m, q)

  -- [y for x in xs for y in f(x)]
  abbrev pub flat_map : (A → List B) → List A → List B
  flat_map f [] = []
  flat_map f (x ∷ xs) = f x ++ flat_map f xs

  pub In-flat_map_inv :
      (f : A → List B) (b : B) (xs : List A) → In b (flat_map f xs) → (a : A) × In a xs × In b (f a)
  In-flat_map_inv f b [] h = elim h [ ]
  In-flat_map_inv f b (x ∷ xs) h = elim (In-append b (f x) (flat_map f xs) h) [
    | inl l ↦ (x, inl refl, l)
    | inr k ↦ let (a, m, q) = In-flat_map_inv f b xs k in (a, inr m, q)
  ]

  pub In-flat_map :
      (f : A → List B) (b : B) (a : A) (xs : List A) → In a xs → In b (f a) → In b (flat_map f xs)
  In-flat_map f b a [] m h = elim m [ ]
  In-flat_map f b a (x ∷ xs) (inl e) h =
      In-append_left b (f x) (flat_map f xs) (subst (λ y. In b (f y)) e h)
  In-flat_map f b a (x ∷ xs) (inr m) h =
      In-append_right b (f x) (flat_map f xs) (In-flat_map f b a xs m h)

module _ {A : Type 0} ⦃e : Eq A⦄ where
  -- a in xs
  abbrev pub contains : List A → A → Bool
  contains [] a = false
  contains (x ∷ xs) a = a == x || contains xs a

  pub contains→In : (xs : List A) (a : A) → contains xs a ≡ true → In a xs
  contains→In [] a h = absurd (cc)
  contains→In (x ∷ xs) a h = ground (arith, e.equal_iff a x, contains→In xs a)

  pub In→contains : (xs : List A) (a : A) → In a xs → contains xs a ≡ true
  In→contains [] a h = elim h [ ]
  In→contains (x ∷ xs) a h = ground (arith, e.equal_iff a x, In→contains xs a)

-- Insertion sort: stable, ascending for the test `less`.
module _ {A : Type 0} (less : A → A → Bool) where
  unfoldable pub insert_by : A → List A → List A
  insert_by a [] = a ∷ []
  insert_by a (x ∷ xs) = let rest = insert_by a xs in if less a x then a ∷ x ∷ xs else x ∷ rest

  unfoldable pub sorted_onto : List A → List A → List A
  sorted_onto acc [] = acc
  sorted_onto acc (x ∷ xs) = sorted_onto (insert_by x acc) xs

  unfoldable pub sorted_by : List A → List A
  unfolding insert_by sorted_onto
  sorted_by xs = sorted_onto [] xs

  -- No element stands directly before a smaller one.
  abbrev pub IsSorted : List A → Type 0
  IsSorted [] = Unit
  IsSorted (x ∷ []) = Unit
  IsSorted (x ∷ y ∷ xs) = (less y x ≡ false) × IsSorted (y ∷ xs)

  In-insert_by : (b a : A) (xs : List A) → In b (insert_by a xs) → (b ≡ a) ⊎ In b xs
  unfolding insert_by
  In-insert_by b a [] h = h
  In-insert_by b a (x ∷ xs) h = ground (arith, In-insert_by b a xs)

  In-insert_by_of : (b a : A) (xs : List A) → (b ≡ a) ⊎ In b xs → In b (insert_by a xs)
  unfolding insert_by
  In-insert_by_of b a [] h = h
  In-insert_by_of b a (x ∷ xs) h = ground (arith, In-insert_by_of b a xs)

  In-sorted_onto : (b : A) (acc xs : List A) → In b (sorted_onto acc xs) → In b acc ⊎ In b xs
  unfolding sorted_onto
  In-sorted_onto b acc [] h = inl h
  In-sorted_onto b acc (x ∷ xs) h =
      ground (arith, In-sorted_onto b (insert_by x acc) xs h, In-insert_by b x acc)

  In-sorted_onto_of : (b : A) (acc xs : List A) → In b acc ⊎ In b xs → In b (sorted_onto acc xs)
  unfolding sorted_onto
  In-sorted_onto_of b acc [] (inl h) = h
  In-sorted_onto_of b acc [] (inr h) = elim h [ ]
  In-sorted_onto_of b acc (x ∷ xs) h =
      In-sorted_onto_of b (insert_by x acc) xs (ground (arith, In-insert_by_of b x acc))

  pub In-sorted_by : (b : A) (xs : List A) → In b (sorted_by xs) ↔ In b xs
  unfolding sorted_by
  In-sorted_by b xs =
      ((λ h. ground (arith, In-sorted_onto b [] xs h)), (λ h. In-sorted_onto_of b [] xs (inr h)))

  module _ (asymm : (a b : A) → less a b ≡ true → less b a ≡ false) where
    insert_by-IsSorted_onto :
        (a x : A) (xs : List A)
        → less a x ≡ false
        → IsSorted (x ∷ xs)
        → IsSorted (x ∷ insert_by a xs)
    unfolding insert_by
    insert_by-IsSorted_onto a x [] h s = (h, tt)
    insert_by-IsSorted_onto a x (y ∷ xs) h s = elim (Bool-cases (less a y)) [
      | inl e ↦ rw e (h, (asymm a y e, s.1))
      | inr e ↦ rw e (s.0, insert_by-IsSorted_onto a y xs e s.1)
    ]

    insert_by-IsSorted : (a : A) (xs : List A) → IsSorted xs → IsSorted (insert_by a xs)
    unfolding insert_by
    insert_by-IsSorted a [] s = tt
    insert_by-IsSorted a (x ∷ xs) s = elim (Bool-cases (less a x)) [
      | inl e ↦ rw e (asymm a x e, s)
      | inr e ↦ rw e (insert_by-IsSorted_onto a x xs e s)
    ]

    sorted_onto-IsSorted : (acc xs : List A) → IsSorted acc → IsSorted (sorted_onto acc xs)
    unfolding sorted_onto
    sorted_onto-IsSorted acc [] s = s
    sorted_onto-IsSorted acc (x ∷ xs) s =
        sorted_onto-IsSorted (insert_by x acc) xs (insert_by-IsSorted x acc s)

    pub sorted_by-IsSorted : (xs : List A) → IsSorted (sorted_by xs)
    unfolding sorted_by
    sorted_by-IsSorted xs = sorted_onto-IsSorted [] xs tt

-- Sums are the same in every order.
module _ {A : Type 0} (f : A → ℕ) where
  abbrev pub sum_of : List A → ℕ
  sum_of [] = 0
  sum_of (x ∷ xs) = f x + sum_of xs

  sum_of-insert_by :
      (less : A → A → Bool) (a : A) (xs : List A) → sum_of (insert_by less a xs) ≡ f a + sum_of xs
  unfolding insert_by
  sum_of-insert_by less a [] = refl
  sum_of-insert_by less a (x ∷ xs) = ground (arith, sum_of-insert_by less a xs)

  sum_of-sorted_onto :
      (less : A → A → Bool) (acc xs : List A)
      → sum_of (sorted_onto less acc xs) ≡ sum_of acc + sum_of xs
  unfolding sorted_onto
  sum_of-sorted_onto less acc [] = omega arith
  sum_of-sorted_onto less acc (x ∷ xs) =
      omega (arith, sum_of-sorted_onto less (insert_by less x acc) xs, sum_of-insert_by less x acc)

  pub sum_of-sorted_by :
      (less : A → A → Bool) (xs : List A) → sum_of (sorted_by less xs) ≡ sum_of xs
  unfolding sorted_by
  sum_of-sorted_by less xs = omega (arith, sum_of-sorted_onto less [] xs)

  pub sum_of_zero : (xs : List A) → ((x : A) → In x xs → f x ≡ 0) → sum_of xs ≡ 0
  sum_of_zero [] h = refl
  sum_of_zero (x ∷ xs) h =
      let here = h x (inl refl) in
      let rest = sum_of_zero xs (λ y m. h y (inr m)) in omega (arith, here, rest)

  pub sum_of_pos : (xs : List A) → sum_of xs ≢ 0 → (x : A) × In x xs × (f x ≢ 0)
  sum_of_pos [] h = absurd (h refl)
  sum_of_pos (x ∷ xs) h = elim (ℕ_discrete (f x) 0) [
    | yes e ↦ let (y, m, q) = sum_of_pos xs (λ r. h (omega arith)) in (y, inr m, q)
    | no n ↦ (x, inl refl, n)
  ]

  pub sum_of-ge : (xs : List A) (x : A) → In x xs → f x ≤ sum_of xs
  sum_of-ge [] x m = elim m [ ]
  sum_of-ge (y ∷ xs) x m = ground (arith, sum_of-ge xs x)
