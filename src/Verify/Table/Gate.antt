-- ===== src/Verify/Table/Gate.antt =====
-- What a report that passes says about its table.
use helpmate_tablebase.Base.{
  string_eq, Bool-cases, all, String, ◌≡◌, ◌↔◌, ◌⊎◌, inl, inr, Bool, true, false, ◌&&◌, Option,
  none, some, List, [], ◌∷◌, ◌++◌, arith, pair_eq, nat_eq, option_eq, list_eq, bool_eq,
}
use helpmate_tablebase.Verify.{Check, not_failed, TableReport, passed}
use helpmate_tablebase.Verify.Table.{
  TableChecks, check_identical, note, duplicate_part, sampled_part, full_part, behind_structure,
  verify_table,
}

all-snoc :
    {A : Type 0} (p : A → Bool) (xs : List A) (x : A) → all p (xs ++ (x ∷ [])) ≡ (all p xs && p x)
all-snoc p [] x = ground arith
all-snoc p (y ∷ xs) x = ground (arith, all-snoc p xs x)

passed-note : (c : Check) (rep : TableReport) → passed (note c rep) ≡ (passed rep && not_failed c)
unfolding passed
passed-note c rep = all-snoc not_failed rep.checks c

note-passed :
    (c : Check) (rep : TableReport)
    → passed (note c rep) ≡ true
    → (passed rep ≡ true) × (not_failed c ≡ true)
note-passed c rep h = ground (arith, h, passed-note c rep)

check_identical_lem :
    (payload : Option String) (want source : String)
    → (not_failed (check_identical payload want source) ≡ true) ↔ (payload ≡ some want)
unfolding check_identical
check_identical_lem none want source = ((λ h. cc), (λ h. cc))
check_identical_lem (some payload) want source = ground (arith, string_eq.equal_iff payload want)

-- V6 and V7 have run and not failed, or did not run: for a marker table or an unreadable sidecar.
abbrev pub Sampled : TableChecks → String ⊎ List String → Type 0
Sampled t (inl exc) = Unit
Sampled t (inr extra) =
    (not_failed (t.consistency extra).0 ≡ true)
    × (not_failed (t.oracle (t.consistency extra).1) ≡ true)

-- What stands behind a table that is no duplicate, and behind one that must equal `want`.
abbrev pub Behind : TableChecks → Option String → Bool → Type 0
Behind t none probe_deepest =
    (not_failed t.deepest ≡ true) × ((t.marker ≡ true) ⊎ Sampled t t.extra)
Behind t (some want) probe_deepest =
    (t.sidecar.1 ≡ some want) × (probe_deepest ≡ true → not_failed t.deepest ≡ true)

sampled_part-passed :
    (t : TableChecks) (rep : TableReport) (extra : String ⊎ List String)
    → passed (sampled_part t rep extra) ≡ true
    → (passed rep ≡ true) × Sampled t extra
unfolding sampled_part
sampled_part-passed t rep (inl exc) h = ((note-passed _ rep (note-passed _ _ h).0).0, tt)
sampled_part-passed t rep (inr extra) h =
    let (a, b) = note-passed _ _ h in let (c, d) = note-passed _ rep a in (c, (d, b))

full_part-passed :
    (t : TableChecks) (rep : TableReport)
    → passed (full_part t rep) ≡ true
    → (passed rep ≡ true) × Behind t none false
unfolding full_part sampled_part
full_part-passed t rep h = elim (Bool-cases t.marker) [
  | inl m ↦
      let (a, b) =
        note-passed t.deepest rep
          (note-passed _ _ (note-passed _ _ (rw (m, full_part) at h)).0).0 in
      (a, (b, inl m))
  | inr m ↦ elim (Bool-cases (passed (note t.deepest rep))) [
    | inl p ↦
        let (q, r) =
          sampled_part-passed t (note t.deepest rep) t.extra (rw (m, p, full_part) at h) in
        let (a, b) = note-passed t.deepest rep q in (a, (b, inr r))
    | inr p ↦
        let (a, _) =
          note-passed _ (note t.deepest rep) (note-passed _ _ (rw (m, p, full_part) at h)).0 in
        absurd (cc)
  ]
]

duplicate_part-passed :
    (t : TableChecks) (want source : String) (probe_deepest : Bool) (rep : TableReport)
    → passed (duplicate_part t want source probe_deepest rep) ≡ true
    → (passed rep ≡ true)
      × (rep.payload_sha256 ≡ some want)
      × (probe_deepest ≡ true → not_failed t.deepest ≡ true)
unfolding duplicate_part
duplicate_part-passed t want source true rep h =
    elim (Bool-cases (passed (note (check_identical rep.payload_sha256 want source) rep))) [
      | inl p ↦
          let (a, b) =
            note-passed t.deepest _
              (note-passed _ _ (note-passed _ _ (rw (p, duplicate_part) at h)).0).0 in
          let (c, d) = note-passed _ rep a in
          (c, (check_identical_lem rep.payload_sha256 want source).0 d, λ z. b)
      | inr p ↦
          let (a, _) =
            note-passed _ _ (note-passed _ _ (note-passed _ _ (rw (p, duplicate_part) at h)).0).0 in
          absurd (cc)
    ]
duplicate_part-passed t want source false rep h =
    let a = note-passed _ _ (note-passed _ _ (note-passed _ _ h).0).0 in
    let (b, c) = note-passed _ rep a.0 in
    (b, (check_identical_lem rep.payload_sha256 want source).0 c, λ z. cc)

behind_structure-passed :
    (t : TableChecks) (published : Option String) (source : String) (probe_deepest : Bool)
    (rep : TableReport)
    → passed (behind_structure t published source probe_deepest rep) ≡ true
    → (passed rep ≡ true) × (not_failed t.sidecar.0 ≡ true) × Behind t published probe_deepest
unfolding behind_structure passed
behind_structure-passed t none source probe_deepest rep h =
    let (a, b) = full_part-passed t _ h in let (c, d) = note-passed t.sidecar.0 rep a in (c, d, b)
behind_structure-passed t (some want) source probe_deepest rep h =
    let (a, b, e) = duplicate_part-passed t want source probe_deepest _ h in
    let (c, d) = note-passed t.sidecar.0 rep a in (c, d, (b, e))

-- If the report of `verify_table` passes then the file exists, V2, V3 and V4 have not failed, and:
-- for a table that must equal a published or earlier one, its payload hash is that one's, and V5
-- has run and not failed where it was asked for; for any other table V5 has run and not failed,
-- and so have V6 and V7, unless it is a marker table or its sidecar's positions are unreadable.
pub verify_table-passed :
    (material : String) (t : TableChecks) (published : Option String) (source : String)
    (probe_deepest : Bool)
    → passed (verify_table material t published source probe_deepest) ≡ true
    → (t.exists ≡ true)
      × (not_failed t.header ≡ true)
      × (not_failed t.block_integrity ≡ true)
      × (not_failed t.sidecar.0 ≡ true)
      × Behind t published probe_deepest
unfolding verify_table
verify_table-passed material t published source probe_deepest h =
    let rep : TableReport = record { material = material; checks = []; payload_sha256 = none } in
    let rep2 = note t.header rep in
    let rep3 = note t.block_integrity rep2 in
    elim (Bool-cases t.exists) [
      | inl x ↦ elim (Bool-cases (passed rep2)) [
        | inl p ↦ elim (Bool-cases (passed rep3)) [
          | inl q ↦
              let (a, b, c) =
                behind_structure-passed t published source probe_deepest rep3 (rw (x, p, q) at h) in
              (x, (note-passed t.header rep p).1, (note-passed t.block_integrity rep2 q).1, b, c)
          | inr q ↦ absurd (cc (rw (x, p, q, verify_table) at h))
        ]
        | inr p ↦ absurd (cc (rw (x, p, verify_table) at h))
      ]
      | inr x ↦ absurd (cc (rw (x, verify_table) at h))
    ]
