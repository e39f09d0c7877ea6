-- ===== src/Base/Sorting.antt =====
-- More on insertion sort: lengths, and a sorted list as a fixed point.
use mathlib.Core.Path.{◌≡◌, refl, ◌∙◌, ap, sym, subst}
use mathlib.Core.Logic.{inl, inr}
use mathlib.Core.Bool.{Bool, false}
use mathlib.Core.List.{List, [], ◌∷◌, ◌++◌, append-nil, append_assoc}
use Prim.Native.Nat.{suc, ◌+◌}
use native.Mathlib.Omega.{arith}
use helpmate_tablebase.Base.Lists.{
  length, In, In-append, insert_by, sorted_onto, sorted_by, IsSorted,
}

module _ {A : Type 0} (less : A → A → Bool) where
  length-insert_by : (a : A) (xs : List A) → length (insert_by less a xs) ≡ suc (length xs)
  unfolding insert_by
  length-insert_by a [] = refl
  length-insert_by a (x ∷ xs) = ground (arith, length-insert_by a xs)

  length-sorted_onto : (acc xs : List A) → length (sorted_onto less acc xs) ≡ length acc + length xs
  unfolding sorted_onto
  length-sorted_onto acc [] = omega arith
  length-sorted_onto acc (x ∷ xs) =
      omega (arith, length-sorted_onto (insert_by less x acc) xs, length-insert_by x acc)

  pub length-sorted_by : (xs : List A) → length (sorted_by less xs) ≡ length xs
  unfolding sorted_by
  length-sorted_by xs = omega (arith, length-sorted_onto [] xs)

  insert_by-last :
      (x : A) (acc : List A)
      → ((y : A) → In y acc → less x y ≡ false)
      → insert_by less x acc ≡ acc ++ (x ∷ [])
  unfolding insert_by
  insert_by-last x [] h = refl
  insert_by-last x (y ∷ acc) h =
      rw (h y (inl refl)) (ap (λ l. y ∷ l) (insert_by-last x acc (λ z m. h z (inr m))))

  module _ (trans : (a b c : A) → less b a ≡ false → less c b ≡ false → less c a ≡ false) where
    pub head_least :
        (x : A) (xs : List A) → IsSorted less (x ∷ xs) → (y : A) → In y xs → less y x ≡ false
    head_least x [] s y m = elim m [ ]
    head_least x (z ∷ xs) s y (inl e) = subst (λ w. less w x ≡ false) (sym e) s.0
    head_least x (z ∷ xs) s y (inr m) = trans x z y s.0 (head_least z xs s.1 y m)

    pub tail-IsSorted : (x : A) (xs : List A) → IsSorted less (x ∷ xs) → IsSorted less xs
    tail-IsSorted x [] s = tt
    tail-IsSorted x (y ∷ xs) s = s.1

    sorted_onto-append :
        (acc xs : List A)
        → ((y z : A) → In y acc → In z xs → less z y ≡ false)
        → IsSorted less xs
        → sorted_onto less acc xs ≡ acc ++ xs
    unfolding sorted_onto
    sorted_onto-append acc [] h s = rw append-nil
    sorted_onto-append acc (x ∷ xs) h s =
        ap (λ l. sorted_onto less l xs) (insert_by-last x acc (λ y m. h y x m (inl refl)))
        ∙ sorted_onto-append (acc ++ (x ∷ [])) xs below (tail-IsSorted x xs s)
        ∙ append_assoc acc (x ∷ []) xs
      where
        below : (y z : A) → In y (acc ++ (x ∷ [])) → In z xs → less z y ≡ false
        below y z m k = elim (In-append y acc (x ∷ []) m) [
          | inl l ↦ h y z l (inr k)
          | inr (inl e) ↦ subst (λ w. less z w ≡ false) (sym e) (head_least x xs s z k)
          | inr (inr e) ↦ elim e [ ]
        ]

    -- Sorting a sorted list changes nothing.
    pub sorted_by_of-IsSorted : (xs : List A) → IsSorted less xs → sorted_by less xs ≡ xs
    unfolding sorted_by
    sorted_by_of-IsSorted xs s = sorted_onto-append [] xs (λ y z m. absurd m) s
