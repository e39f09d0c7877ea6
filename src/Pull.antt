-- ===== src/Pull.antt =====
-- src/packages/api/helpmate_server/tables_cli.py, the command pull. The Hub's manifest and what its
-- downloads leave in the tables directory are arguments.
pub mod Verified
pub mod Stopped
use helpmate_tablebase.Effects.{Act, pure, raise, ◌>>=◌, ◌>>◌}
use helpmate_tablebase.Base.{
  is_empty, ◌==◌, if◌then◌else◌, filter, contains, Dict, lookup, insert, String, Bool, true, false,
  not, Option, none, some, List, [], ◌∷◌, map, erase, string_eq, pair_eq, nat_eq, option_eq,
  list_eq, bool_eq,
}
use helpmate_tablebase.Push.{Directory, both_files}
use helpmate_tablebase.CorpusDiff.{LocalFile, ManifestEntry, ShaCache, cache_hash, to_pull, diff}
use helpmate_tablebase.Claims.{stems, to_set}
use helpmate_tablebase.Consistency.{sorted_text}

-- What `hub.download` leaves: the file, no file, or an exception and perhaps a part of the file.
pub data Fetched : Type 0 where
  saved : LocalFile → Fetched
  nothing : Fetched
  broken : Option LocalFile → Fetched

pub record PullState : Type 0 where
  pub dir : Directory
  pub cache : ShaCache

pub data PullError : Type 0 where
  no_manifest fetch_failed download_failed : PullError
  no_sha256 sha_mismatch : String → PullError

abbrev pub Pull : Type 0 → Type 0
Pull A = Act PullState PullError A

-- The directory after a download.
abbrev pub left_by : Fetched → String → Directory → Directory
left_by (saved f) name dir = insert name f dir
left_by nothing name dir = erase name dir
left_by (broken none) name dir = dir
left_by (broken (some f)) name dir = insert name f dir

abbrev pub is_broken : Fetched → Bool
is_broken (broken o) = true
is_broken f = false

-- f = hub.download(name, tables)
unfoldable pub download : (Directory → String → Fetched) → String → Pull Unit
unfolding pure raise
download hub name s =
    let fetched = hub s.dir name in
    let s' : PullState = record s { dir = left_by fetched name s.dir } in
    if is_broken fetched then raise download_failed s' else pure tt s'

-- f.unlink(missing_ok=True) and the error
unfoldable pub discard : String → Pull Unit
unfolding raise
discard name s = raise (sha_mismatch name) (record s { dir = erase name s.dir })

-- cache.hash(f) != files[name]["sha256"]
abbrev pub compare_sha : String → LocalFile → Option String → Pull Unit
unfolding discard pure raise
compare_sha name f none = raise (no_sha256 name)
compare_sha name f (some sha) = if not (f.sha256 == sha) then discard name else pure tt

-- The test of a downloaded file.
unfoldable pub check_file : String → ManifestEntry → Pull Unit
unfolding compare_sha discard cache_hash pure raise
check_file name entry s = elim (lookup name s.dir) [
  | none ↦ discard name s
  | some f ↦ compare_sha name f entry.wanted_sha256 (record s { cache = cache_hash name f s.cache })
]

unfoldable pub pull_file : (Directory → String → Fetched) → String → ManifestEntry → Pull Unit
unfolding download check_file ◌>>=◌
pull_file hub name entry = do download hub name; check_file name entry

-- The loop over the names of the files.
unfoldable pub pull_files :
    (Directory → String → Fetched) → Dict String ManifestEntry → List String → Pull Unit
unfolding pull_file pure ◌>>=◌
pull_files hub files [] = pure tt
pull_files hub files (name ∷ names) = elim (lookup name files) [
  | none ↦ pull_files hub files names
  | some entry ↦ pull_file hub name entry >> pull_files hub files names
]

-- The materials to pull; `missing` keeps those that `diff` calls new or changed.
unfoldable pub to_fetch :
    Dict String ManifestEntry → List String → Bool → Directory → ShaCache → List String
unfolding to_set stems diff to_pull
to_fetch files material missing dir cache =
    let materials =
      if is_empty material
      then sorted_text (to_set (stems ".hm" (map (λ e. e.0) files)))
      else material in
    if missing
    then filter (contains (to_pull (diff dir files false cache).0)) materials
    else materials

-- The command pull: it exits with 0 where this returns, and else with 1.
unfoldable pub pull :
    (Directory → String → Fetched)
    → Option (Option (Dict String ManifestEntry))
    → List String
    → Bool
    → Pull Unit
unfolding pull_files to_fetch both_files raise
pull hub none material missing s = raise fetch_failed s
pull hub (some none) material missing s = raise no_manifest s
pull hub (some (some files)) material missing s =
    pull_files hub files (both_files (to_fetch files material missing s.dir s.cache)) s
