-- ===== src/Verify/Table.antt =====
-- contrib/verify.py, `verify_table`: which checks run on a table, and in which order.
pub mod Gate
use helpmate_tablebase.Base.{
  ◌==◌, if◌then◌else◌, String, ◌<>◌, ◌⊎◌, inl, inr, Bool, not, ◌&&◌, Option, none, some, List, [],
  ◌∷◌, ◌++◌, string_eq, pair_eq, nat_eq, option_eq, list_eq, bool_eq,
}
use helpmate_tablebase.Verify.{pass, fail, skip, Check, check_of, TableReport, passed}

-- What the checks themselves say of one table, and what they read: contrib/checks.py,
-- consistency.py and oracle.py over the files of one directory.
pub record TableChecks : Type 0 where
  pub exists : Bool
  pub header : Check
  pub block_integrity : Check
  pub sidecar : Check × Option String
  pub deepest : Check
  pub marker : Bool
  -- The deepest positions of the sidecar, or why it is unreadable.
  pub extra : String ⊎ List String
  pub consistency : List String → Check × List String
  pub oracle : List String → Check

-- `check_identical`, without the digits of the hash in its detail
unfoldable pub check_identical : Option String → String → String → Check
check_identical none published source =
    check_of "V8" "identical to the published table" fail "payload unknown (V4 did not decode)"
check_identical (some payload) published source =
    if not (payload == published)
    then check_of "V8" "identical to the published table" fail ("content differs from " <> source)
    else check_of "V8" "identical to the published table" pass ("identical to " <> source)

abbrev skip_v5 : String → Check
skip_v5 why = check_of "V5" "deepest positions probe as recorded" skip why

abbrev skip_v6 : String → Check
skip_v6 why = check_of "V6" "local consistency" skip why

abbrev skip_v7 : String → Check
skip_v7 why = check_of "V7" "independent solver" skip why

-- `note`: a check is added at the end of the report.
abbrev note : Check → TableReport → TableReport
note check rep = record rep { checks = rep.checks ++ (check ∷ []) }

-- The part for a duplicate, behind V4.
duplicate_part : TableChecks → String → String → Bool → TableReport → TableReport
duplicate_part t published source probe_deepest rep =
    let rep8 = note (check_identical rep.payload_sha256 published source) rep in
    let why = λ (r : TableReport).
      if passed r
      then "independent reproduction: identical to " <> source
      else "an earlier check failed" in
    if probe_deepest && passed rep8
    then (let rep5 = note t.deepest rep8 in
        note (skip_v7 (why rep5)) (note (skip_v6 (why rep5)) rep5))
    else note (skip_v7 (why rep8)) (note (skip_v6 (why rep8)) (note (skip_v5 (why rep8)) rep8))

-- V6 and V7 by the sidecar's deepest positions.
sampled_part : TableChecks → TableReport → String ⊎ List String → TableReport
sampled_part t rep (inl exc) =
    let why = "sidecar unreadable: " <> exc in note (skip_v7 why) (note (skip_v6 why) rep)
sampled_part t rep (inr extra) =
    let (v6, fens) = t.consistency extra in note (t.oracle fens) (note v6 rep)

-- The part for a table that is no duplicate, behind V4.
full_part : TableChecks → TableReport → TableReport
full_part t rep =
    let rep5 = note t.deepest rep in
    if t.marker
    then note (skip_v7 "marker table") (note (skip_v6 "marker table") rep5)
    else if not (passed rep5)
    then note (skip_v7 "an earlier check failed") (note (skip_v6 "an earlier check failed") rep5)
    else sampled_part t rep5 t.extra

-- V4, and what follows it.
behind_structure : TableChecks → Option String → String → Bool → TableReport → TableReport
behind_structure t published source probe_deepest rep =
    let (v4, payload) = t.sidecar in
    let rep4 = record (note v4 rep) { payload_sha256 = payload } in
    elim published [
      | none ↦ full_part t rep4
      | some want ↦ duplicate_part t want source probe_deepest rep4
    ]

-- `verify_table`, without the progress lines
unfoldable pub verify_table : String → TableChecks → Option String → String → Bool → TableReport
unfolding passed check_identical duplicate_part sampled_part full_part behind_structure
verify_table material t published source probe_deepest =
    let rep : TableReport = record { material = material; checks = []; payload_sha256 = none } in
    if not t.exists
    then note (check_of "V2" "header and identity" fail "not found") rep
    else let rep2 = note t.header rep in
      if not (passed rep2)
      then rep2
      else let rep3 = note t.block_integrity rep2 in
        if not (passed rep3) then rep3 else behind_structure t published source probe_deepest rep3
