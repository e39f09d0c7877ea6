-- ===== src/Storage/Presence.antt =====
-- storage.py, `fetch_state` and `start_fetch`: what the state of a table says about the files.
use helpmate_tablebase.Base.{
  ◌==◌, eq_of_beq, Bool-cases, Option-cases, length, contains, lookup, ℕ, String, ◌≡◌, refl, sym,
  ap, ◌∙◌, ◌⊎◌, inl, inr, true, Option, none, some, arith, string_eq, pair_eq, nat_eq, option_eq,
  list_eq, bool_eq,
}
use helpmate_tablebase.Storage.{
  Bytes, RemoteHub, FetchState, absent, fetching, failed, finished, cached, RemoteSource,
  is_safe_material, table_file, manifest, expected_size, size_state, file_state, recorded_state,
  fetch_state,
}
use helpmate_tablebase.Storage.Cleanup.{cleanup_removes}

-- What each answer says of the table's file afterwards: "cached", that it is there, and was tested
-- before, or has the manifest's size, or the manifest gives no size; "absent", that it is not there;
-- "fetching" and "failed", that the last download is in that state.
abbrev pub Answers : String → RemoteHub → RemoteSource → RemoteSource → FetchState → Type 0
Answers m hub r r' cached =
    (bytes : Bytes) × (lookup (table_file m) r'.cache ≡ some bytes)
    × ((contains r.verified m ≡ true)
        ⊎ (expected_size m (manifest hub r).1 ≡ some (length bytes))
        ⊎ (expected_size m (manifest hub r).1 ≡ none))
Answers m hub r r' absent = lookup (table_file m) r'.cache ≡ none
Answers m hub r r' fetching = lookup m r.states ≡ some fetching
Answers m hub r r' failed = lookup m r.states ≡ some failed
Answers m hub r r' finished = ⊥

size_state-Answers :
    (m : String) (hub : RemoteHub) (r r1 : RemoteSource) (bytes : Bytes) (expected : Option ℕ)
    → is_safe_material m ≡ true
    → expected_size m (manifest hub r).1 ≡ expected
    → lookup (table_file m) r1.cache ≡ some bytes
    → Answers m hub r (size_state m bytes r1 expected).0 (size_state m bytes r1 expected).1
unfolding size_state
size_state-Answers m hub r r1 bytes none safe e there = (bytes, there, inr (inr e))
size_state-Answers m hub r r1 bytes (some n) safe e there = elim (Bool-cases (length bytes == n)) [
  | inl t ↦ rw t (bytes, there, inr (inl (e ∙ sym (ap some (eq_of_beq (length bytes) n t)))))
  | inr t ↦ rw t (cleanup_removes m r1 safe).0
]

file_state-Answers :
    (m : String) (hub : RemoteHub) (r : RemoteSource)
    → is_safe_material m ≡ true
    → Answers m hub r (file_state m hub r).0 (file_state m hub r).1
unfolding file_state
file_state-Answers m hub r safe = elim (Option-cases (lookup (table_file m) r.cache)) [
  | inl z ↦ rw (z, file_state) z
  | inr (bytes, z) ↦
      rw (z, file_state)
        (elim (Bool-cases (contains r.verified m)) [
          | inl t ↦ rw t (bytes, z, inl t)
          | inr t ↦ rw t (
              size_state-Answers m hub r (manifest hub r).0 bytes _ safe refl
                (unfold manifest in ground (arith, z)))
        ])
]

recorded_state-Answers :
    (m : String) (hub : RemoteHub) (r : RemoteSource) (o : Option FetchState)
    → is_safe_material m ≡ true
    → lookup m r.states ≡ o
    → Answers m hub r (recorded_state m hub r o).0 (recorded_state m hub r o).1
unfolding recorded_state
recorded_state-Answers m hub r none safe e = file_state-Answers m hub r safe
recorded_state-Answers m hub r (some fetching) safe e = e
recorded_state-Answers m hub r (some failed) safe e = e
recorded_state-Answers m hub r (some absent) safe e = file_state-Answers m hub r safe
recorded_state-Answers m hub r (some finished) safe e = file_state-Answers m hub r safe
recorded_state-Answers m hub r (some cached) safe e = file_state-Answers m hub r safe

-- For a safe name every answer of `fetch_state` holds of the files: after "cached" the table's file
-- is there, and was tested before, or has the size in the manifest, or the manifest gives none;
-- after "absent" it is not there; "fetching" and "failed" are the recorded states of the last
-- download; and no other answer is given.
pub fetch_state-Answers :
    (m : String) (hub : RemoteHub) (r : RemoteSource)
    → is_safe_material m ≡ true
    → Answers m hub r (fetch_state m hub r).0 (fetch_state m hub r).1
unfolding fetch_state
fetch_state-Answers m hub r safe =
    rw (safe, fetch_state) (recorded_state-Answers m hub r (lookup m r.states) safe refl)
