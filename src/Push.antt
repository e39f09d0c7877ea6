-- ===== src/Push.antt =====
-- src/packages/api/helpmate_server/tables_cli.py, the command push, and manifest.py, `build_manifest`.
-- A directory gives each file name its size, time and hash; names of materials have no slash. The
-- Hub's answers are an argument, and so is what json finds as the generator's version in a sidecar.
pub mod Files
pub mod Batches
pub mod Complete
pub mod Advertised
use helpmate_tablebase.Base.{
  get_or_else, length, take, drop, Dict, lookup, insert, ℕ, zero, suc, String, ◌<>◌, ◌⊎◌, inl, inr,
  Option, none, some, List, [], ◌∷◌, ◌++◌, map, string_eq, pair_eq, nat_eq, option_eq, list_eq,
  bool_eq,
}
use helpmate_tablebase.CorpusDiff.{LocalFile, ManifestEntry}
use helpmate_tablebase.Claims.{stems, to_set}
use helpmate_tablebase.Consistency.{sorted_text}
use helpmate_tablebase.Effects.{Act, pure, raise, ◌>>=◌, ◌>>◌}

abbrev pub Directory : Type 0
Directory = Dict String LocalFile

-- A file of a commit: a local file, or the manifest.
pub data CommitFile : Type 0 where
  table_file : String → String → CommitFile
  manifest_file : String → Dict String ManifestEntry → CommitFile

-- The dataset: the hash of each file, and what its manifest lists.
pub record Dataset : Type 0 where
  pub files : Dict String String
  pub listed : Dict String ManifestEntry

-- An exception of `commit_files` may come although the commit was made.
pub data CommitAnswer : Type 0 where
  made made_but_raised refused : CommitAnswer

-- The Hub. `fetch_manifest` is `none` where it raises, and else the files of the manifest, if there
-- is one; the answer to a commit may depend on the commits before it.
pub record Remote : Type 0 where
  pub fetch_manifest : Option (Option (Dict String ManifestEntry))
  pub commit_files : List (List CommitFile) → List CommitFile → CommitAnswer

pub record PushState : Type 0 where
  pub dataset : Dataset
  pub written : Option (Dict String ManifestEntry)
  pub commits : List (List CommitFile)

pub data PushError : Type 0 where
  no_version not_fetched not_committed no_entry : PushError

abbrev pub Push : Type 0 → Type 0
Push A = Act PushState PushError A

-- The files of one commit, on main.
abbrev pub put_file : CommitFile → Dataset → Dataset
put_file (table_file name sha) d = record d { files = insert name sha d.files }
put_file (manifest_file version entries) d = record d { listed = entries }

unfoldable pub put_files : List CommitFile → Dataset → Dataset
put_files [] d = d
put_files (f ∷ fs) d = put_files fs (put_file f d)

abbrev pub after_commit :
    CommitAnswer → List CommitFile → PushState → (PushError ⊎ Unit {0}) × PushState
unfolding put_files
after_commit made files s = (inr tt, record s { dataset = put_files files s.dataset })
after_commit made_but_raised files s =
    (inl not_committed, record s { dataset = put_files files s.dataset })
after_commit refused files s = (inl not_committed, s)

-- hub.commit_files
unfoldable pub commit : Remote → List CommitFile → Push Unit
unfolding put_files
commit remote files s =
    after_commit (remote.commit_files s.commits files) files
      (record s { commits = files ∷ s.commits })

abbrev pub entry_of : LocalFile → ManifestEntry
entry_of f = record { wanted_size = some f.size; wanted_sha256 = some f.sha256 }

unfoldable pub entries_of :
    Directory → List String → Dict String ManifestEntry → Dict String ManifestEntry
entries_of dir [] entries = entries
entries_of dir (name ∷ names) entries = elim (lookup name dir) [
  | none ↦ entries_of dir names entries
  | some f ↦ entries_of dir names (insert name (entry_of f) entries)
]

abbrev pub names_with : String → Directory → List String
names_with suffix dir =
    sorted_text (map (λ m. m <> suffix) (stems suffix (map (λ (e : String × LocalFile). e.0) dir)))

-- The files of `build_manifest`
unfoldable pub build_manifest : Directory → Dict String ManifestEntry
unfolding entries_of stems
build_manifest dir = entries_of dir (names_with ".hm" dir ++ names_with ".stats.json" dir) []

-- gen_version, `none` where the sidecar is no JSON
unfoldable pub gen_version : (LocalFile → Option String) → Directory → Option String
unfolding stems
gen_version version_in dir = elim (names_with ".stats.json" dir) [
  | [] ↦ some "unknown"
  | name ∷ names ↦ elim (lookup name dir) [ none ↦ none | some f ↦ version_in f ]
]

-- a.material or the stems of the tables
unfoldable pub names_to_push : Directory → List String → List String
unfolding stems to_set
names_to_push dir [] = sorted_text (to_set (stems ".hm" (map (λ e. e.0) dir)))
names_to_push dir (m ∷ ms) = m ∷ ms

unfoldable pub existing : Directory → List String → List (String × LocalFile)
existing dir [] = []
existing dir (name ∷ names) =
    let rest = existing dir names in
    elim (lookup name dir) [ none ↦ rest | some f ↦ (name, f) ∷ rest ]

unfoldable pub both_files : List String → List String
both_files [] = []
both_files (m ∷ ms) = (m <> ".hm") ∷ (m <> ".stats.json") ∷ both_files ms

-- `paths`
unfoldable pub paths : Directory → List String → List (String × LocalFile)
unfolding existing both_files
paths dir materials = existing dir (both_files materials)

-- remote_files[f.name] = local_files[f.name], `none` for a KeyError
unfoldable pub update_entries :
    Dict String ManifestEntry
    → List (String × LocalFile)
    → Dict String ManifestEntry
    → Option (Dict String ManifestEntry)
update_entries local_files [] remote_files = some remote_files
update_entries local_files ((name, f) ∷ fs) remote_files = elim (lookup name local_files) [
  | none ↦ none
  | some entry ↦ update_entries local_files fs (insert name entry remote_files)
]

abbrev pub commit_chunk : ℕ
commit_chunk = 64

-- [paths[i:i + n] for i in range(0, len(paths), n)] or [[]]; the fuel is the number of paths
unfoldable pub batches : ℕ → ℕ → List (String × LocalFile) → List (List (String × LocalFile))
batches fuel n [] = [] ∷ []
batches zero n (p ∷ ps) = [] ∷ []
batches (suc fuel) n (p ∷ ps) = elim (drop n (p ∷ ps)) [
  | [] ↦ (p ∷ ps) ∷ []
  | q ∷ qs ↦ take n (p ∷ ps) ∷ batches fuel n (q ∷ qs)
]

abbrev pub to_commit : List (String × LocalFile) → List CommitFile
to_commit batch = map (λ p. table_file p.0 p.1.sha256) batch

-- The loop over the batches; the manifest rides in the last one.
unfoldable pub commit_batches :
    Remote → String → Dict String ManifestEntry → List (List (String × LocalFile)) → Push Unit
unfolding commit pure ◌>>=◌
commit_batches remote version entries [] = pure tt
commit_batches remote version entries (batch ∷ []) =
    commit remote (to_commit batch ++ (manifest_file version entries ∷ []))
commit_batches remote version entries (batch ∷ next ∷ rest) = do
  commit remote (to_commit batch)
  commit_batches remote version entries (next ∷ rest)

unfoldable pub write_manifest : Dict String ManifestEntry → Push Unit
unfolding pure
write_manifest entries s = pure tt (record s { written = some entries })

-- A value, or the exception in its place.
abbrev pub or_raise : {A : Type 0} → PushError → Option A → Push A
unfolding pure raise
or_raise e none = raise e
or_raise e (some a) = pure a

-- The command push without --create-pr; it exits with 0 where this returns, and else with 1.
unfoldable pub push : Remote → (LocalFile → Option String) → Directory → List String → Push Unit
unfolding commit_batches write_manifest build_manifest gen_version paths update_entries batches pure
    raise ◌>>=◌
push remote version_in dir material = do
  version ← or_raise no_version (gen_version version_in dir)
  let local_files = build_manifest dir
  write_manifest local_files
  let files = paths dir (names_to_push dir material)
  manifest ← or_raise not_fetched remote.fetch_manifest
  entries ← or_raise no_entry (update_entries local_files files (get_or_else manifest []))
  commit_batches remote version entries (batches (length files) commit_chunk files)
