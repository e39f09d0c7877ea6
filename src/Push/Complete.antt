-- ===== src/Push/Complete.antt =====
-- What a push that succeeds leaves on the dataset.
use mathlib.Core.Option
use helpmate_tablebase.Base.{
  get_or_else, if◌then◌else◌, length, contains, Dict, lookup, has, String, ◌≡◌, refl, sym, ap, ◌∙◌,
  ◌⊎◌, inr, Bool, true, false, ◌&&◌, Option, none, some, List, [], arith, string_eq, pair_eq,
  nat_eq, option_eq, list_eq, bool_eq,
}
use helpmate_tablebase.CorpusDiff.{LocalFile, ManifestEntry}
use helpmate_tablebase.Effects.{pure, raise, ◌>>=◌}
use helpmate_tablebase.Push.{
  Directory, manifest_file, Dataset, Remote, PushState, PushError, no_version, not_fetched,
  no_entry, Push, put_file, put_files, entry_of, build_manifest, gen_version, names_to_push,
  both_files, paths, update_entries, commit_chunk, batches, to_commit, commit_batches,
  write_manifest, or_raise, push,
}
use helpmate_tablebase.Push.Files.{
  existing-FromDirectory, has_name, existing-has_name, written_over, put_files-files,
  update_entries-lookup, build_manifest-LocalEntries,
}
use helpmate_tablebase.Push.Batches.{batches-flat, batches-cons, all_batches-dataset}

found_inv :
    {A : Type 0} (x : PushError) (o : Option A) (f : A → Push Unit) (s : PushState)
    → ((or_raise x o >>= f) s).0 ≡ inr tt
    → (a : A) × (o ≡ some a) × ((or_raise x o >>= f) s ≡ f a s)
unfolding pure raise ◌>>=◌
found_inv x none f s e = absurd (cc)
found_inv x (some a) f s e = (a, refl, refl)

-- The files that a push is to put.
abbrev pub pushed_files : Directory → List String → List (String × LocalFile)
pushed_files dir material = paths dir (names_to_push dir material)

-- What a push has found when it comes to its commits.
record Ready (remote : Remote) (dir : Directory) (material : List String) (s : PushState)
    (result : (PushError ⊎ Unit {0}) × PushState) : Type 0 where
  version : String
  manifest : Option (Dict String ManifestEntry)
  entries : Dict String ManifestEntry
  fetched : remote.fetch_manifest ≡ some manifest
  updated :
      update_entries (build_manifest dir) (pushed_files dir material) (get_or_else manifest [])
      ≡ some entries
  ends :
      result
      ≡ commit_batches remote version entries
          (batches (length (pushed_files dir material)) commit_chunk (pushed_files dir material))
          (record s { written = some (build_manifest dir) })

push-Ready :
    (remote : Remote) (version_in : LocalFile → Option String) (dir : Directory)
    (material : List String) (s : PushState)
    → (push remote version_in dir material s).0 ≡ inr tt
    → Ready remote dir material s (push remote version_in dir material s)
unfolding push write_manifest pure ◌>>=◌
push-Ready remote version_in dir material s e =
    let (version, a, b) = found_inv no_version (gen_version version_in dir) _ s e in
    let s1 : PushState = record s { written = some (build_manifest dir) } in
    let e1 = sym (ap (λ (x : (PushError ⊎ Unit {0}) × PushState). x.0) b) ∙ e in
    let (manifest, c, d) = found_inv not_fetched remote.fetch_manifest _ s1 e1 in
    let e2 = sym (ap (λ (x : (PushError ⊎ Unit {0}) × PushState). x.0) d) ∙ e1 in
    let (entries, f, g) =
      found_inv no_entry
        (update_entries (build_manifest dir) (pushed_files dir material) (get_or_else manifest []))
        _ s1 e2 in
    record {
      version = version;
      manifest = manifest;
      entries = entries;
      fetched = c;
      updated = f;
      ends = b ∙ (d ∙ g);
    }

as_if :
    {V : Type 0} (value : LocalFile → V) (dir : Directory) (name : String) (b c : Bool)
    (old : Option V)
    → b ≡ c
    → written_over value dir name b old ≡ (if c then Option.map value (lookup name dir) else old)
as_if value dir name b true old e = rw e refl
as_if value dir name b false old e = rw e refl

-- The names that a push puts: those of its materials that the directory has.
unfoldable pub is_pushed : Directory → List String → String → Bool
unfolding both_files names_to_push
is_pushed dir material name =
    contains (both_files (names_to_push dir material)) name && has name dir

-- When a push returns, the dataset has each file of its materials as the directory has it, and lists
-- it with that size and hash; every other file is as it was, and every other name is listed as in the
-- manifest that was fetched.
pub push-dataset :
    (remote : Remote) (version_in : LocalFile → Option String) (dir : Directory)
    (material : List String) (s : PushState) (name : String)
    → (push remote version_in dir material s).0 ≡ inr tt
    → (lookup name (push remote version_in dir material s).1.dataset.files ≡ (
        if is_pushed dir material name
        then Option.map (λ f. f.sha256) (lookup name dir)
        else lookup name s.dataset.files))
      × (lookup name (push remote version_in dir material s).1.dataset.listed ≡ (
          if is_pushed dir material name
          then Option.map entry_of (lookup name dir)
          else lookup name (get_or_else (get_or_else remote.fetch_manifest none) [])))
unfolding is_pushed paths
push-dataset remote version_in dir material s name e =
    let r = push-Ready remote version_in dir material s e in
    let ps = pushed_files dir material in
    let bs = batches (length ps) commit_chunk ps in
    let s1 : PushState = record s { written = some (build_manifest dir) } in
    let whole : (push remote version_in dir material s).1.dataset
        ≡ put_file (manifest_file r.version r.entries) (put_files (to_commit ps) s.dataset) =
      ap (λ (x : (PushError ⊎ Unit {0}) × PushState). x.1.dataset) r.ends
      ∙ (all_batches-dataset remote r.version r.entries bs s1
            (batches-cons (length ps) commit_chunk ps)
            (sym (ap (λ (x : (PushError ⊎ Unit {0}) × PushState). x.0) r.ends) ∙ e)
          ∙ ap
              (λ l.
                put_file (manifest_file r.version r.entries) (put_files (to_commit l) s.dataset))
              (batches-flat (length ps) commit_chunk ps (omega arith) (omega arith))) in
    let hit : has_name name ps ≡ is_pushed dir material name =
      existing-has_name dir (both_files (names_to_push dir material)) name in
    let from = existing-FromDirectory dir (both_files (names_to_push dir material)) in
    (
      ap (λ (d : Dataset). lookup name d.files) whole
          ∙ (put_files-files dir ps s.dataset name from
              ∙ as_if (λ f. f.sha256) dir name (has_name name ps) (is_pushed dir material name) _
                  hit),
      ap (λ (d : Dataset). lookup name d.listed) whole
          ∙ (update_entries-lookup dir (build_manifest dir) ps (get_or_else r.manifest []) r.entries
                name (build_manifest-LocalEntries dir) from r.updated
              ∙ rw r.fetched
                  (as_if entry_of dir name (has_name name ps) (is_pushed dir material name) _ hit)),
    )
