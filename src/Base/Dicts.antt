-- ===== src/Base/Dicts.antt =====
-- Python's `dict`, in insertion order.
use mathlib.Core.Path.{◌≡◌, refl}
use mathlib.Core.Bool.{Bool}
use mathlib.Core.Option.{Option, none, some}
use mathlib.Core.List.{List, [], ◌∷◌}
use native.Mathlib.Omega.{arith}
use helpmate_tablebase.Base.Tests.{Eq, ◌==◌, if◌then◌else◌, is_some}

abbrev pub Dict {ℓ κ} : Type ℓ → Type κ → Type (ℓ ⊔ κ)
Dict K V = List (K × V)

module _ {ℓ κ} {K : Type ℓ} {V : Type κ} ⦃e : Eq K⦄ where
  -- d.get(k)
  abbrev pub lookup : K → Dict K V → Option V
  lookup k [] = none
  lookup k ((j, v) ∷ d) = let rest = lookup k d in if k == j then some v else rest

  -- k in d
  abbrev pub has : K → Dict K V → Bool
  has k d = is_some (lookup k d)

  -- d[k] = v
  abbrev pub insert : K → V → Dict K V → Dict K V
  insert k v [] = (k, v) ∷ []
  insert k v ((j, w) ∷ d) = let rest = insert k v d in if k == j then (k, v) ∷ d else (j, w) ∷ rest

  -- d.setdefault(k, v)
  abbrev pub setdefault : K → V → Dict K V → Dict K V
  setdefault k v d = if has k d then d else insert k v d

  pub lookup-insert :
      (j k : K) (v : V) (d : Dict K V)
      → lookup j (insert k v d) ≡ (if j == k then some v else lookup j d)
  lookup-insert j k v [] = refl
  lookup-insert j k v ((i, w) ∷ d) =
      ground (arith, e.equal_iff j k, e.equal_iff k i, e.equal_iff j i, lookup-insert j k v d)

  pub lookup-setdefault :
      (j k : K) (v : V) (d : Dict K V)
      → lookup j (setdefault k v d)
        ≡ (if has j d then lookup j d else if j == k then some v else none)
  lookup-setdefault j k v d = ground (arith, e.equal_iff j k, lookup-insert j k v d)

  -- d.pop(k, None)
  abbrev pub erase : K → Dict K V → Dict K V
  erase k [] = []
  erase k ((j, v) ∷ d) = let rest = erase k d in if k == j then rest else (j, v) ∷ rest

  pub lookup-erase :
      (j k : K) (d : Dict K V) → lookup j (erase k d) ≡ (if j == k then none else lookup j d)
  lookup-erase j k [] = ground arith
  lookup-erase j k ((i, w) ∷ d) =
      ground (arith, e.equal_iff j k, e.equal_iff k i, e.equal_iff j i, lookup-erase j k d)
