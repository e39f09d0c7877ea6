-- ===== src/Pull/Stopped.antt =====
-- What a pull that meets a wrong file leaves in the tables directory.
use helpmate_tablebase.Base.{
  ◌==◌, beq_refl, Bool-cases, Dict, lookup, String, ◌≡◌, refl, sym, ap, ◌∙◌, subst, ◌≢◌, ◌⊎◌, inl,
  inr, Bool, Option, none, some, List, [], ◌∷◌, lookup-erase, string_eq, pair_eq, nat_eq, option_eq,
  list_eq, bool_eq,
}
use helpmate_tablebase.Push.{Directory, both_files}
use helpmate_tablebase.Pull.{
  Fetched, PullState, PullError, sha_mismatch, Pull, is_broken, download, discard, compare_sha,
  check_file, pull_file, pull_files, to_fetch, pull,
}
use helpmate_tablebase.CorpusDiff.{LocalFile, ManifestEntry, cache_hash}
use helpmate_tablebase.Effects.{◌>>=◌, pure, raise}
use helpmate_tablebase.Effects.Returns.{bind_stops}

compare_stops :
    (name : String) (f : LocalFile) (o : Option String) (bad : String) (s : PullState)
    → (compare_sha name f o s).0 ≡ inl (sha_mismatch bad)
    → lookup bad (compare_sha name f o s).1.dir ≡ none
unfolding compare_sha discard pure raise
compare_stops name f none bad s e = absurd (cc)
compare_stops name f (some sha) bad s e = elim (Bool-cases (f.sha256 == sha)) [
  | inl t ↦ absurd (let h = rw t at e in cc h)
  | inr t ↦
      let h = rw t at e in
      let q : name ≡ bad = cc h in rw (t, lookup-erase bad name s.dir, q, beq_refl bad) refl
]

check_stops :
    (name : String) (entry : ManifestEntry) (bad : String) (s : PullState)
    → (check_file name entry s).0 ≡ inl (sha_mismatch bad)
    → lookup bad (check_file name entry s).1.dir ≡ none
unfolding check_file discard raise
check_stops name entry bad s e = of_file (lookup name s.dir) e
  where
    run : Option LocalFile → (PullError ⊎ Unit {0}) × PullState
    run o = elim o [
      | none ↦ discard name s
      | some f ↦
          compare_sha name f entry.wanted_sha256 (record s { cache = cache_hash name f s.cache })
    ]

    of_file :
        (o : Option LocalFile)
        → (run o).0 ≡ inl (sha_mismatch bad)
        → lookup bad (run o).1.dir ≡ none
    of_file none x =
        let q : name ≡ bad = cc in rw (lookup-erase bad name s.dir, q, beq_refl bad) refl
    of_file (some f) x =
        compare_stops name f entry.wanted_sha256 bad
          (record s { cache = cache_hash name f s.cache }) x

download_stops :
    (hub : Directory → String → Fetched) (name bad : String) (s : PullState)
    → (download hub name s).0 ≢ inl (sha_mismatch bad)
unfolding download pure raise
download_stops hub name bad s e = elim (Bool-cases (is_broken (hub s.dir name))) [
  | inl t ↦ let h = rw t at e in cc h
  | inr t ↦ let h = rw t at e in cc h
]

pull_file_stops :
    (hub : Directory → String → Fetched) (name : String) (entry : ManifestEntry) (bad : String)
    (s : PullState)
    → (pull_file hub name entry s).0 ≡ inl (sha_mismatch bad)
    → lookup bad (pull_file hub name entry s).1.dir ≡ none
unfolding pull_file
pull_file_stops hub name entry bad s e =
    elim (bind_stops (download hub name) (λ z. check_file name entry) s (sha_mismatch bad) e) [
      | inl (a, b) ↦ absurd (download_stops hub name bad s a)
      | inr (a, c) ↦
          subst (λ (y : (PullError ⊎ Unit {0}) × PullState). lookup bad y.1.dir ≡ none) (sym c)
            (check_stops name entry bad (download hub name s).1
              (sym (ap (λ (y : (PullError ⊎ Unit {0}) × PullState). y.0) c) ∙ e))
    ]

pull_files_stops :
    (hub : Directory → String → Fetched) (files : Dict String ManifestEntry) (names : List String)
    (s : PullState) (bad : String)
    → (pull_files hub files names s).0 ≡ inl (sha_mismatch bad)
    → lookup bad (pull_files hub files names s).1.dir ≡ none
unfolding pull_files pure
pull_files_stops hub files [] s bad e = absurd (cc)
pull_files_stops hub files (n ∷ ns) s bad e =
    of_entry (lookup n files) e (λ t. pull_files_stops hub files ns t bad)
  where
    run : Option ManifestEntry → Pull Unit
    run o = elim o [
      | none ↦ pull_files hub files ns
      | some entry ↦ pull_file hub n entry >>= λ z. pull_files hub files ns
    ]

    of_entry :
        (o : Option ManifestEntry)
        → (run o s).0 ≡ inl (sha_mismatch bad)
        → ((t : PullState)
            → (pull_files hub files ns t).0 ≡ inl (sha_mismatch bad)
            → lookup bad (pull_files hub files ns t).1.dir ≡ none)
        → lookup bad (run o s).1.dir ≡ none
    of_entry none x ih = ih s x
    of_entry (some entry) x ih =
        elim (bind_stops (pull_file hub n entry) (λ z. pull_files hub files ns) s (sha_mismatch bad)
          x) [
            | inl (a, b) ↦
                ap (λ (y : PullState). lookup bad y.dir) b ∙ pull_file_stops hub n entry bad s a
            | inr (a, c) ↦
                subst (λ (y : (PullError ⊎ Unit {0}) × PullState). lookup bad y.1.dir ≡ none)
                  (sym c)
                  (ih (pull_file hub n entry s).1
                    (sym (ap (λ (y : (PullError ⊎ Unit {0}) × PullState). y.0) c) ∙ x))
          ]

-- A pull that stops at a file with another hash than the manifest's has removed that file.
pub pull-removes :
    (hub : Directory → String → Fetched) (manifest : Option (Option (Dict String ManifestEntry)))
    (material : List String) (missing : Bool) (s : PullState) (bad : String)
    → (pull hub manifest material missing s).0 ≡ inl (sha_mismatch bad)
    → lookup bad (pull hub manifest material missing s).1.dir ≡ none
unfolding pull raise
pull-removes hub none material missing s bad e = absurd (cc)
pull-removes hub (some none) material missing s bad e = absurd (cc)
pull-removes hub (some (some files)) material missing s bad e =
    pull_files_stops hub files (both_files (to_fetch files material missing s.dir s.cache)) s bad e
