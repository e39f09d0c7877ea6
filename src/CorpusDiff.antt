-- ===== src/CorpusDiff.antt =====
-- src/packages/api/helpmate_server/corpus_diff.py: a local directory of tables against the
-- dataset's manifest, with a cache of checksums.
pub mod Sound
use helpmate_tablebase.Base.{
  ◌==◌, get_or_else, if◌then◌else◌, filter, any, all, contains, sorted_by, Dict, lookup, insert, ℕ,
  ◌+◌, String, ◌<>◌, Bool, true, false, not, ◌&&◌, Option, none, some, List, [], ◌∷◌, ◌++◌, map,
  string_eq, pair_eq, nat_eq, option_eq, list_eq, bool_eq,
}
use helpmate_tablebase.Claims.{stems, to_set}
use helpmate_tablebase.Consistency.{sorted_text}

-- A local file: its size, its modification time and the hash of its content. An entry of the
-- cache has the same fields.
pub record LocalFile : Type 0 where
  pub size : ℕ
  pub mtime_ns : ℕ
  pub sha256 : String

-- A file's entry in the manifest.
pub record ManifestEntry : Type 0 where
  pub wanted_size : Option ℕ
  pub wanted_sha256 : Option String

-- `ShaCache`
pub record ShaCache : Type 0 where
  pub entries : Dict String LocalFile
  pub dirty : Bool

-- `ShaCache.get`
unfoldable pub cache_get : String → LocalFile → ShaCache → Option String
cache_get name file cache = elim (lookup name cache.entries) [
  | none ↦ none
  | some e ↦ if e.size == file.size && e.mtime_ns == file.mtime_ns then some e.sha256 else none
]

-- `ShaCache.hash`, the new cache
unfoldable pub cache_hash : String → LocalFile → ShaCache → ShaCache
cache_hash name file cache = record cache { entries = insert name file cache.entries; dirty = true }

-- The results of `file_status`.
pub data FileState : Type 0 where
  new_file changed_file current_file same_size : FileState

-- "current" if sha == entry.get("sha256") else "changed"
abbrev by_sha : String → ManifestEntry → FileState
by_sha sha entry = if some sha == entry.wanted_sha256 then current_file else changed_file

-- `file_status`, with the cache behind it
unfoldable pub file_status :
    String → Option LocalFile → ManifestEntry → Bool → ShaCache → FileState × ShaCache
unfolding cache_get cache_hash
file_status name none entry verify cache = (new_file, cache)
file_status name (some file) entry verify cache =
    if not (some file.size == entry.wanted_size)
    then (changed_file, cache)
    else elim (cache_get name file cache) [
      | some sha ↦ (by_sha sha entry, cache)
      | none ↦
          if not verify
          then (same_size, cache)
          else (by_sha file.sha256 entry, cache_hash name file cache)
    ]

-- The states of several files, in order.
file_states :
    Dict String LocalFile
    → Bool
    → List (String × ManifestEntry)
    → ShaCache
    → List FileState × ShaCache
file_states local verify [] cache = ([], cache)
file_states local verify ((name, entry) ∷ rest) cache =
    let (s, cache2) = file_status name (lookup name local) entry verify cache in
    let (ss, cache3) = file_states local verify rest cache2 in (s ∷ ss, cache3)

abbrev is_new : FileState → Bool
is_new s = elim s [ new_file ↦ true | _ ↦ false ]

abbrev is_pulled : FileState → Bool
is_pulled s = elim s [ new_file ↦ true | changed_file ↦ true | _ ↦ false ]

abbrev is_same_size : FileState → Bool
is_same_size s = elim s [ same_size ↦ true | _ ↦ false ]

-- The bytes of the files that are new or changed.
pulled_size : List (String × ManifestEntry) → List FileState → ℕ
pulled_size [] ss = 0
pulled_size (e ∷ es) [] = 0
pulled_size ((name, entry) ∷ es) (s ∷ ss) =
    let rest = pulled_size es ss in
    if is_pulled s then get_or_else entry.wanted_size 0 + rest else rest

-- `Diff`
pub record Diff : Type 0 where
  pub new : Dict String ℕ
  pub changed : Dict String ℕ
  pub current : List String
  pub size_only : List String
  pub local_only : List String

-- `Diff.to_pull`
unfoldable pub to_pull : Diff → List String
unfolding to_set sorted_by
to_pull d = sorted_text (to_set (map (λ e. e.0) d.new ++ map (λ e. e.0) d.changed))

-- The files of a material that the manifest has.
pub files_of : Dict String ManifestEntry → String → List (String × ManifestEntry)
files_of manifest m = entry_of (m <> ".hm") (entry_of (m <> ".stats.json") [])
  where
    entry_of : String → List (String × ManifestEntry) → List (String × ManifestEntry)
    entry_of name rest = elim (lookup name manifest) [ none ↦ rest | some e ↦ (name, e) ∷ rest ]

-- One material's place in the result.
place : String → List (String × ManifestEntry) → List FileState → Diff → Diff
place m files states out =
    if all is_new states
    then record out { new = out.new ++ ((m, pulled_size files states) ∷ []) }
    else if any is_pulled states
    then record out { changed = out.changed ++ ((m, pulled_size files states) ∷ []) }
    else record out {
      current = out.current ++ (m ∷ []);
      size_only = if any is_same_size states then out.size_only ++ (m ∷ []) else out.size_only;
    }

-- The loop over the materials.
diff_loop :
    Dict String LocalFile
    → Dict String ManifestEntry
    → Bool
    → List String
    → ShaCache
    → Diff
    → Diff × ShaCache
diff_loop local manifest verify [] cache out = (out, cache)
diff_loop local manifest verify (m ∷ ms) cache out =
    let (states, cache2) = file_states local verify (files_of manifest m) cache in
    diff_loop local manifest verify ms cache2 (place m (files_of manifest m) states out)

-- `diff`, with the cache that it saves
unfoldable pub diff :
    Dict String LocalFile → Dict String ManifestEntry → Bool → ShaCache → Diff × ShaCache
unfolding diff_loop place files_of pulled_size file_states file_status
diff local manifest verify cache =
    let materials = sorted_text (to_set (stems ".hm" (map (λ e. e.0) manifest))) in
    let (out, cache2) =
      diff_loop local manifest verify materials cache
        (record { new = []; changed = []; current = []; size_only = []; local_only = [] }) in
    (
      record out {
        local_only =
            sorted_text
              (filter (λ m. not (contains materials m)) (stems ".hm" (map (λ e. e.0) local)));
      },
      cache2,
    )
