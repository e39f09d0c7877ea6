-- ===== src/Storage/Serving.antt =====
-- storage.py, `_fetch` and `fetch_state`: a hub that serves a table's files leads to a cached table.
use helpmate_tablebase.Base.{
  string_eq, beq_refl, length, Dict, lookup, lookup-insert, String, ◌≡◌, refl, ap, ◌∙◌, true,
  Option, none, some, arith, pair_eq, nat_eq, option_eq, list_eq, bool_eq,
}
use helpmate_tablebase.Storage.{
  Bytes, FileEntry, Manifest, saved, RemoteHub, finished, cached, RemoteSource, is_safe_material,
  table_file, stats_file, manifest, expected_size, size_state, file_state, recorded_state,
  fetch_state, settle, keep_verified, verify_file, receive, fetch_file, fetch_files, fetch,
}
use helpmate_tablebase.Storage.Cleanup.{table_file-ne-stats_file}
use helpmate_tablebase.Storage.Fetching.{
  fetch_file_keeps, fetch_files_frame, lookup-settle, manifest-known,
}

module _ (sha256 : Bytes → String) where
  -- The hub serves a file of the manifest, as its entry describes it.
  abbrev pub Serves : RemoteHub → Dict String FileEntry → String → Bytes → Type 0
  Serves hub fs name bytes =
      (hub.download name ≡ saved bytes)
      × (lookup name fs
          ≡ some (record { size = some (length bytes); digest = some (sha256 bytes) }))

  Serves-verifies :
      (hub : RemoteHub) (mf : Manifest) (fs : Dict String FileEntry) (name : String) (bytes : Bytes)
      → mf.entries ≡ some fs
      → lookup name fs ≡ some (record { size = some (length bytes); digest = some (sha256 bytes) })
      → verify_file sha256 (some bytes) name mf ≡ some true
  unfolding verify_file
  Serves-verifies hub mf fs name bytes k h =
      rw (k, verify_file) (rw h (ap some (beq_refl (sha256 bytes))))

  fetch_file-Serves :
      (hub : RemoteHub) (mf : Manifest) (fs : Dict String FileEntry) (name : String) (bytes : Bytes)
      → (r : RemoteSource) → mf.entries ≡ some fs
      → Serves hub fs name bytes
      → ((fetch_file sha256 mf name hub r).1 ≡ true)
        × (lookup name (fetch_file sha256 mf name hub r).0.cache ≡ some bytes)
  unfolding fetch_file receive keep_verified
  fetch_file-Serves hub mf fs name bytes r k h =
      rw (k, fetch_file)
        (rw h.1 (
          rw (h.0, receive)
            (rw (Serves-verifies hub mf fs name bytes k h.1, keep_verified)
              (
                refl,
                ground
                    (arith, lookup-insert name name bytes r.cache, string_eq.equal_iff name name),
              ))))

  fetch_file-unlisted :
      (hub : RemoteHub) (mf : Manifest) (fs : Dict String FileEntry) (name : String)
      → (r : RemoteSource) → mf.entries ≡ some fs
      → lookup name fs ≡ none
      → (fetch_file sha256 mf name hub r).1 ≡ true
  unfolding fetch_file
  fetch_file-unlisted hub mf fs name r k h = rw (k, fetch_file) (rw h refl)

  fetch_files-Serves :
      (hub : RemoteHub) (mf : Manifest) (fs : Dict String FileEntry) (m : String)
      (table stats : Bytes)
      → (r : RemoteSource) → mf.entries ≡ some fs
      → Serves hub fs (table_file m) table
      → Serves hub fs (stats_file m) stats
      → ((fetch_files sha256 mf m hub r).1 ≡ true)
        × (lookup (table_file m) (fetch_files sha256 mf m hub r).0.cache ≡ some table)
  unfolding fetch_files
  fetch_files-Serves hub mf fs m table stats r k h t =
      let r1 = (fetch_file sha256 mf (table_file m) hub r).0 in
      let (first, there) = fetch_file-Serves hub mf fs (table_file m) table r k h in
      let (second, _) = fetch_file-Serves hub mf fs (stats_file m) stats r1 k t in
      let kept =
        fetch_file_keeps sha256 mf (stats_file m) hub r1 (table_file m)
          (table_file-ne-stats_file m) in
      rw first (second, kept ∙ there)

  -- A download from a hub that serves both files finishes, with the table in the cache.
  fetch-Serves :
      (hub : RemoteHub) (mf : Manifest) (fs : Dict String FileEntry) (m : String)
      (table stats : Bytes)
      → (r : RemoteSource) → (manifest hub r).1 ≡ some mf
      → mf.entries ≡ some fs
      → Serves hub fs (table_file m) table
      → Serves hub fs (stats_file m) stats
      → (lookup m (fetch sha256 m hub r).states ≡ some finished)
        × ((fetch sha256 m hub r).known ≡ some mf)
        × (lookup (table_file m) (fetch sha256 m hub r).cache ≡ some table)
  unfolding fetch
  fetch-Serves hub mf fs m table stats r a k h t =
      let r1 = (manifest hub r).0 in
      let end = fetch_files sha256 mf m hub r1 in
      let (ok, there) = fetch_files-Serves hub mf fs m table stats r1 k h t in
      rw (a, fetch)
        (rw ok (
          lookup-settle sha256 m true end.0,
          (unfold settle in
              (fetch_files_frame sha256 mf m hub r1).2 ∙ manifest-known sha256 hub r mf a),
          (unfold settle in there),
        ))

finished-cached :
    (m : String) (later : RemoteHub) (r : RemoteSource) (mf : Manifest) (fs : Dict String FileEntry)
    → (table : Bytes) (digest : Option String) → is_safe_material m ≡ true
    → mf.entries ≡ some fs
    → lookup (table_file m) fs ≡ some (record { size = some (length table); digest = digest })
    → lookup m r.states ≡ some finished
    → r.known ≡ some mf
    → lookup (table_file m) r.cache ≡ some table
    → (fetch_state m later r).1 ≡ cached
unfolding fetch_state recorded_state file_state size_state manifest expected_size
finished-cached m later r mf fs table digest safe k entry state known there = rw safe (
    rw (state, fetch_state)
      (rw (there, file_state) (ground (arith, known, k, entry, beq_refl (length table)))))

-- When the hub answers with a manifest and serves both files of a material with a safe name as the
-- manifest describes them, then `fetch_state` answers "cached" after the download, whatever the hub
-- does later, and whatever the cache held before.
pub fetch-cached :
    (sha256 : Bytes → String) (m : String) (hub later : RemoteHub) (r : RemoteSource)
    → (mf : Manifest) (fs : Dict String FileEntry) (table stats : Bytes) → is_safe_material m ≡ true
    → (manifest hub r).1 ≡ some mf
    → mf.entries ≡ some fs
    → Serves sha256 hub fs (table_file m) table
    → Serves sha256 hub fs (stats_file m) stats
    → (fetch_state m later (fetch sha256 m hub r)).1 ≡ cached
fetch-cached sha256 m hub later r mf fs table stats safe a k h t =
    let (state, known, there) = fetch-Serves sha256 hub mf fs m table stats r a k h t in
    finished-cached m later (fetch sha256 m hub r) mf fs table _ safe k h.1 state known there
