-- ===== src/Storage/Fetching.antt =====
-- storage.py, `_fetch`: what a download leaves in the cache directory.
use helpmate_tablebase.Base.{
  string_eq, Bool-cases, Option-cases, get_or_else, if◌then◌else◌, Dict, lookup, has, insert,
  lookup-insert, String, ◌≡◌, refl, ap, ◌∙◌, ◌≢◌, ◌⊎◌, inl, inr, Bool, true, false, none, some, [],
  arith, pair_eq, nat_eq, option_eq, list_eq, bool_eq,
}
use helpmate_tablebase.Storage.{
  Bytes, FileEntry, Manifest, Download, saved, raised, RemoteHub, failed, finished, RemoteSource,
  is_safe_material, table_file, stats_file, manifest, cleanup_cache_files, settle, keep_verified,
  verify_file, receive, fetch_file, fetch_files, fetch,
}
use helpmate_tablebase.Storage.Cleanup.{
  table_file-ne-stats_file, KeepsOthers, IsVerified, stands_verified, stands_verified_of,
  cleanup_removes, cleanup_keeps, keep_verified_keeps, keep_verified_passes,
}

module _ (sha256 : Bytes → String) where
  verified_digest :
      (bytes : Bytes) (name : String) (mf : Manifest) (entry : FileEntry)
      → verify_file sha256 (some bytes) name mf ≡ some true
      → lookup name (get_or_else mf.entries []) ≡ some entry
      → entry.digest ≡ some (sha256 bytes)
  unfolding verify_file
  verified_digest bytes name mf entry h e = elim (Option-cases entry.digest) [
    | inl d ↦ ground (arith, h)
    | inr (s, d) ↦ ground (arith, h, string_eq.equal_iff (sha256 bytes) s)
  ]

  receive_keeps :
      (mf : Manifest) (name : String) (r : RemoteSource) (d : Download) (other : String)
      → other ≢ name
      → lookup other (receive sha256 mf name r d).0.cache ≡ lookup other r.cache
  unfolding receive
  receive_keeps mf name r (saved b) other ne = ground (
    arith,
    keep_verified_keeps name (record r { cache = insert name b r.cache })
        (verify_file sha256 (some b) name mf) other ne,
    lookup-insert other name b r.cache,
    string_eq.equal_iff other name,
  )
  receive_keeps mf name r (raised none) other ne = refl
  receive_keeps mf name r (raised (some b)) other ne =
      ground (arith, lookup-insert other name b r.cache, string_eq.equal_iff other name)

  receive-IsVerified :
      (mf : Manifest) (name : String) (r : RemoteSource) (d : Download)
      → (receive sha256 mf name r d).1 ≡ true
      → IsVerified sha256 mf name (receive sha256 mf name r d).0.cache
  unfolding receive
  receive-IsVerified mf name r (saved b) h entry e =
      let start = record r { cache = insert name b r.cache } in
      let (v, same) = keep_verified_passes name start (verify_file sha256 (some b) name mf) h in
      (
        b,
        ap (λ (files : Dict String Bytes). lookup name files) same
            ∙ ground (arith, lookup-insert name name b r.cache, string_eq.equal_iff name name),
        verified_digest b name mf entry v e,
      )
  receive-IsVerified mf name r (raised none) h entry e = absurd (cc)
  receive-IsVerified mf name r (raised (some b)) h entry e = absurd (cc)

  receive_frame :
      (mf : Manifest) (name : String) (r : RemoteSource) (d : Download)
      → ((receive sha256 mf name r d).0.states ≡ r.states)
        × ((receive sha256 mf name r d).0.threads ≡ r.threads)
        × ((receive sha256 mf name r d).0.known ≡ r.known)
  unfolding receive keep_verified
  receive_frame mf name r d = ground arith

  -- One round touches the file of its name only.
  pub fetch_file_keeps :
      (mf : Manifest) (name : String) (hub : RemoteHub) (r : RemoteSource) (other : String)
      → other ≢ name
      → lookup other (fetch_file sha256 mf name hub r).0.cache ≡ lookup other r.cache
  unfolding fetch_file
  fetch_file_keeps mf name hub r other ne =
      ground (arith, receive_keeps mf name r (hub.download name) other ne)

  pub fetch_file_frame :
      (mf : Manifest) (name : String) (hub : RemoteHub) (r : RemoteSource)
      → ((fetch_file sha256 mf name hub r).0.states ≡ r.states)
        × ((fetch_file sha256 mf name hub r).0.threads ≡ r.threads)
        × ((fetch_file sha256 mf name hub r).0.known ≡ r.known)
  unfolding fetch_file
  fetch_file_frame mf name hub r = ground (arith, receive_frame mf name r (hub.download name))

  -- A round that does not raise leaves the file verified, if the manifest lists it.
  fetch_file-IsVerified :
      (mf : Manifest) (name : String) (hub : RemoteHub) (r : RemoteSource)
      → (fetch_file sha256 mf name hub r).1 ≡ true
      → IsVerified sha256 mf name (fetch_file sha256 mf name hub r).0.cache
  unfolding fetch_file
  fetch_file-IsVerified mf name hub r h entry e = elim (Option-cases mf.entries) [
    | inl z ↦ absurd (cc (rw (z, fetch_file) at h))
    | inr (fs, z) ↦ elim (Bool-cases (has name fs)) [
      | inl t ↦
          rw (z, fetch_file)
            (rw t (
              receive-IsVerified mf name r (hub.download name) (rw t at (rw (z, fetch_file) at h))
                entry e))
      | inr t ↦ absurd (ground (arith, e, z))
    ]
  ]

  -- The two rounds.
  fetch_files_keeps :
      (mf : Manifest) (m : String) (hub : RemoteHub) (r : RemoteSource)
      → KeepsOthers m r.cache (fetch_files sha256 mf m hub r).0.cache
  unfolding fetch_files
  fetch_files_keeps mf m hub r name a b = ground (
    arith,
    fetch_file_keeps mf (table_file m) hub r name a,
    fetch_file_keeps mf (stats_file m) hub (fetch_file sha256 mf (table_file m) hub r).0 name b,
  )

  pub fetch_files_frame :
      (mf : Manifest) (m : String) (hub : RemoteHub) (r : RemoteSource)
      → ((fetch_files sha256 mf m hub r).0.states ≡ r.states)
        × ((fetch_files sha256 mf m hub r).0.threads ≡ r.threads)
        × ((fetch_files sha256 mf m hub r).0.known ≡ r.known)
  unfolding fetch_files
  fetch_files_frame mf m hub r = ground (
    arith,
    fetch_file_frame mf (table_file m) hub r,
    fetch_file_frame mf (stats_file m) hub (fetch_file sha256 mf (table_file m) hub r).0,
  )

  fetch_files-IsVerified :
      (mf : Manifest) (m : String) (hub : RemoteHub) (r : RemoteSource)
      → (fetch_files sha256 mf m hub r).1 ≡ true
      → IsVerified sha256 mf (table_file m) (fetch_files sha256 mf m hub r).0.cache
        × IsVerified sha256 mf (stats_file m) (fetch_files sha256 mf m hub r).0.cache
  unfolding fetch_files
  fetch_files-IsVerified mf m hub r h =
      elim (Bool-cases (fetch_file sha256 mf (table_file m) hub r).1) [
        | inl t ↦
            let r1 = (fetch_file sha256 mf (table_file m) hub r).0 in
            let two : (fetch_file sha256 mf (stats_file m) hub r1).1 ≡ true = rw t at h in
            let kept =
              fetch_file_keeps mf (stats_file m) hub r1 (table_file m)
                (table_file-ne-stats_file m) in
            rw t (
              (λ entry e.
                  let (bytes, there, digest) =
                    fetch_file-IsVerified mf (table_file m) hub r t entry e in
                  (bytes, kept ∙ there, digest)),
              fetch_file-IsVerified mf (stats_file m) hub r1 two,
            )
        | inr t ↦ absurd (cc (rw t at h))
      ]

  -- How a download may end: finished and verified, or failed and removed.
  abbrev pub Outcome : String → RemoteSource → Type 0
  Outcome m r =
      ((lookup m r.states ≡ some finished)
        × ((mf : Manifest) × (r.known ≡ some mf)
            × (stands_verified sha256 mf (table_file m) r.cache ≡ true)
            × (stands_verified sha256 mf (stats_file m) r.cache ≡ true)))
      ⊎ ((lookup m r.states ≡ some failed)
          × (lookup (table_file m) r.cache ≡ none)
          × (lookup (stats_file m) r.cache ≡ none))

  pub lookup-settle :
      (m : String) (ok : Bool) (r : RemoteSource)
      → lookup m (settle m ok r).states ≡ some (if ok then finished else failed)
  unfolding settle
  lookup-settle m true r =
      ground (arith, lookup-insert m m finished r.states, string_eq.equal_iff m m)
  lookup-settle m false r =
      ground
        (arith, lookup-insert m m failed (cleanup_cache_files m r).states, string_eq.equal_iff m m)

  failed_outcome :
      (m : String) (r : RemoteSource) → is_safe_material m ≡ true → Outcome m (settle m false r)
  unfolding settle
  failed_outcome m r safe =
      inr (lookup-settle m false r, (cleanup_removes m r safe).0, (cleanup_removes m r safe).1)

  pub manifest-known :
      (hub : RemoteHub) (r : RemoteSource) (mf : Manifest)
      → (manifest hub r).1 ≡ some mf
      → (manifest hub r).0.known ≡ some mf
  unfolding manifest
  manifest-known hub r mf h = ground arith

  pub manifest-cache : (hub : RemoteHub) (r : RemoteSource) → (manifest hub r).0.cache ≡ r.cache
  unfolding manifest
  manifest-cache hub r = ground arith

  settled_outcome :
      (mf : Manifest) (m : String) (hub : RemoteHub) (r : RemoteSource) (ok : Bool)
      → is_safe_material m ≡ true
      → r.known ≡ some mf
      → (fetch_files sha256 mf m hub r).1 ≡ ok
      → Outcome m (settle m ok (fetch_files sha256 mf m hub r).0)
  unfolding settle
  settled_outcome mf m hub r false safe k e =
      failed_outcome m (fetch_files sha256 mf m hub r).0 safe
  settled_outcome mf m hub r true safe k e =
      let end = (fetch_files sha256 mf m hub r).0 in
      let (table, stats) = fetch_files-IsVerified mf m hub r e in
      inl (
        lookup-settle m true end,
        (
          mf,
          (fetch_files_frame mf m hub r).2 ∙ k,
          stands_verified_of sha256 mf (table_file m) end.cache table,
          stands_verified_of sha256 mf (stats_file m) end.cache stats,
        ),
      )

  -- Whatever the hub does, the download of a material with a safe name ends in one of two ways: its
  -- state is finished, and each of its two files that the manifest lists stands in the cache with
  -- the manifest's digest; or its state is failed, and neither file is there.
  pub fetch_outcome :
      (m : String) (hub : RemoteHub) (r : RemoteSource)
      → is_safe_material m ≡ true
      → Outcome m (fetch sha256 m hub r)
  unfolding fetch
  fetch_outcome m hub r safe = elim (Option-cases (manifest hub r).1) [
    | inl z ↦ rw (z, fetch) (failed_outcome m (manifest hub r).0 safe)
    | inr (mf, z) ↦
        rw (z, fetch)
          (settled_outcome mf m hub (manifest hub r).0 _ safe (manifest-known hub r mf z) refl)
  ]

  settle_keeps :
      (m : String) (ok : Bool) (r : RemoteSource) → KeepsOthers m r.cache (settle m ok r).cache
  unfolding settle
  settle_keeps m true r name a b = refl
  settle_keeps m false r name a b = cleanup_keeps m r name a b

  -- A download of one material leaves every file but that material's two as it was.
  pub fetch_keeps :
      (m : String) (hub : RemoteHub) (r : RemoteSource)
      → KeepsOthers m r.cache (fetch sha256 m hub r).cache
  unfolding fetch
  fetch_keeps m hub r name a b = elim (Option-cases (manifest hub r).1) [
    | inl z ↦
        rw (z, fetch)
          (settle_keeps m false (manifest hub r).0 name a b
            ∙ ap (lookup name) (manifest-cache hub r))
    | inr (mf, z) ↦
        let end = fetch_files sha256 mf m hub (manifest hub r).0 in
        rw (z, fetch)
          (settle_keeps m end.1 end.0 name a b
            ∙ fetch_files_keeps mf m hub (manifest hub r).0 name a b
            ∙ ap (lookup name) (manifest-cache hub r))
  ]
