-- ===== src/Tests/Probing.antt =====
-- Instances of the theorems on the probes of a table's deepest positions.
use helpmate_tablebase.Base.{
  ◌==◌, if◌then◌else◌, ℕ, ◌≤◌, String, ◌≡◌, refl, inl, inr, some, [], ◌∷◌, string_eq, pair_eq,
  nat_eq, option_eq, list_eq, bool_eq,
}
use helpmate_tablebase.Verify.{pass, fail}
use helpmate_tablebase.Verify.Deepest.{Probed, value, DeepestSidecar, check_deepest}
use helpmate_tablebase.Verify.Deepest.Probes.{check_deepest_unique}

abbrev deep_sidecar : DeepestSidecar
deep_sidecar = record {
  recorded = some 12;
  deepest = "a" ∷ "b" ∷ [];
  deepest_unique = "c" ∷ [];
  uniqueness = some (
      ("btm", (some 10, "1" ∷ "2" ∷ []) ∷ (some 12, "2" ∷ []) ∷ [])
      ∷ ("wtm", (some 9, "1" ∷ []) ∷ [])
      ∷ []);
}

abbrev stored_value : String → Probed
stored_value fen = if fen == "c" then value 10 1 else value 12 2

deep_passes : check_deepest stored_value (some deep_sidecar) ≡ pass
unfolding check_deepest
deep_passes = refl

-- A deeper position with one solution is a problem.
deeper_fails :
    check_deepest stored_value
      (some (record deep_sidecar { uniqueness = some (("btm", (some 11, "1" ∷ []) ∷ []) ∷ []) }))
    ≡ fail
unfolding check_deepest
deeper_fails = refl

check_deepest_unique_example : (d : ℕ) × (stored_value "c" ≡ value d 1) × (9 ≤ d)
check_deepest_unique_example =
    check_deepest_unique stored_value deep_sidecar "c"
      (("btm", (some 10, "1" ∷ "2" ∷ []) ∷ (some 12, "2" ∷ []) ∷ [])
        ∷ ("wtm", (some 9, "1" ∷ []) ∷ [])
        ∷ [])
      "wtm" ((some 9, "1" ∷ []) ∷ []) 9 ("1" ∷ []) deep_passes (inl refl) refl (inr (inl refl))
      (inl refl) refl
