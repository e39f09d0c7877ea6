-- ===== src/Base/Sets.antt =====
-- Lists without repetition, and the removal of one element.
use mathlib.Core.Path.{◌≡◌}
use mathlib.Core.Logic.{◌≢◌, ◌⊎◌, inl, inr}
use mathlib.Core.Option.{some}
use mathlib.Core.List.{List, [], ◌∷◌}
use native.Mathlib.Omega.{arith}
use helpmate_tablebase.Base.Tests.{Eq, ◌==◌, if◌then◌else◌, Bool-cases}
use helpmate_tablebase.Base.Lists.{In}
use helpmate_tablebase.Base.Dicts.{Dict, lookup, insert}

module _ {A : Type 0} where
  -- No element stands twice.
  abbrev pub Distinct : List A → Type 0
  Distinct [] = Unit
  Distinct (x ∷ xs) = ¬ In x xs × Distinct xs

module _ {A : Type 0} ⦃e : Eq A⦄ where
  -- xs.remove(a), for an element that is there
  abbrev pub remove : A → List A → List A
  remove a [] = []
  remove a (x ∷ xs) = let rest = remove a xs in if a == x then xs else x ∷ rest

  pub In-remove : (b a : A) (xs : List A) → In b (remove a xs) → In b xs
  In-remove b a [] h = h
  In-remove b a (x ∷ xs) h = ground (arith, In-remove b a xs)

  pub In-remove_of : (b a : A) (xs : List A) → In b xs → b ≢ a → In b (remove a xs)
  In-remove_of b a [] h n = h
  In-remove_of b a (x ∷ xs) h n = ground (arith, In-remove_of b a xs, e.equal_iff a x)

  pub remove-Distinct : (a : A) (xs : List A) → Distinct xs → Distinct (remove a xs)
  remove-Distinct a [] d = d
  remove-Distinct a (x ∷ xs) d = ground (arith, remove-Distinct a xs, In-remove x a xs)

  pub not_In-remove : (a : A) (xs : List A) → Distinct xs → ¬ In a (remove a xs)
  not_In-remove a [] d h = h
  not_In-remove a (x ∷ xs) d h = ground (arith, not_In-remove a xs, e.equal_iff a x)

-- Entries of dictionaries.
module _ {K V : Type 0} ⦃e : Eq K⦄ where
  pub lookup-In : (k : K) (v : V) (d : Dict K V) → lookup k d ≡ some v → In (k, v) d
  lookup-In k v [] h = absurd (cc)
  lookup-In k v ((j, w) ∷ d) h = elim (Bool-cases (k == j)) [
    | inl t ↦ inl (ground (arith, e.equal_iff k j, h))
    | inr t ↦ inr (lookup-In k v d (rw t at h))
  ]

  pub In-insert :
      (k : K) (v : V) (d : Dict K V) (p : K × V) → In p (insert k v d) → (p ≡ (k, v)) ⊎ In p d
  In-insert k v [] p i = i
  In-insert k v ((j, w) ∷ d) p i = ground (arith, In-insert k v d p, e.equal_iff k j)
