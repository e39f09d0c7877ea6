-- ===== src/Storage.antt =====
-- storage.py and manifest.py, `verify_file`: the tables of a remote dataset and their local cache.
-- The state of a `RemoteSource` is explicit, and every operation returns the new one. The hub, that
-- is the network, is an argument of each operation, so that it may answer differently each time;
-- `sha256` stands for hashlib's digest. A file is its bytes, under its name in the cache directory.
pub mod Cleanup
pub mod Fetching
pub mod Presence
pub mod Serving
pub mod Interleaving
pub mod Chain
use helpmate_tablebase.Base.{
  ◌==◌, is_some, get_or_else, if◌then◌else◌, length, head?, contains, Dict, lookup, has, insert,
  codes, ℕ, String, ◌<>◌, Bool, true, false, not, ◌&&◌, ◌||◌, Option, none, some, List, [], ◌∷◌,
  erase, remove, string_eq, pair_eq, nat_eq, option_eq, list_eq, bool_eq,
}

abbrev pub Bytes : Type 0
Bytes = List ℕ

-- A manifest's entry of a file; a key may be missing.
pub record FileEntry : Type 0 where
  pub size : Option ℕ
  pub digest : Option String

-- A manifest: what stands under its key "files", if the key is there.
pub record Manifest : Type 0 where
  pub entries : Option (Dict String FileEntry)

-- What `hub.download` does: it returns with the file in place, or it raises, and may then have left
-- a part of the file.
pub data Download : Type 0 where
  saved : Bytes → Download
  raised : Option Bytes → Download

-- `RemoteHub`
pub record RemoteHub : Type 0 where
  pub fetch_manifest : Option Manifest
  pub download : String → Download

-- The values of `_states`, and those that `fetch_state` returns.
pub data FetchState : Type 0 where
  absent fetching failed finished cached : FetchState

-- `RemoteSource`, with the files of its cache directory and the download threads that have not
-- ended.
pub record RemoteSource : Type 0 where
  pub known : Option Manifest
  pub states : Dict String FetchState
  pub verified : List String
  pub cache : Dict String Bytes
  pub threads : List String

-- ".." in s
abbrev has_dots : List ℕ → Bool
has_dots [] = false
has_dots (c ∷ cs) = (c == b'.' && head? cs == some b'.') || has_dots cs

-- `_safe_material`
unfoldable pub is_safe_material : String → Bool
is_safe_material m =
    not (contains (codes m) b'/') && not (contains (codes m) b'\\') && not (has_dots (codes m))

abbrev pub table_file : String → String
table_file m = m <> ".hm"

abbrev pub stats_file : String → String
stats_file m = m <> ".stats.json"

-- `RemoteSource.manifest`; `none` stands for an exception of the hub.
unfoldable pub manifest : RemoteHub → RemoteSource → RemoteSource × Option Manifest
manifest hub r = elim r.known [
  | some m ↦ (r, some m)
  | none ↦ (record r { known = hub.fetch_manifest }, hub.fetch_manifest)
]

-- `_cleanup_cache_files`
unfoldable pub cleanup_cache_files : String → RemoteSource → RemoteSource
unfolding is_safe_material
cleanup_cache_files m r =
    if not (is_safe_material m)
    then r
    else record r { cache = erase (stats_file m) (erase (table_file m) r.cache) }

-- self.manifest()["files"][f"{material}.hm"]["size"]; `none` stands for an exception.
unfoldable pub expected_size : String → Option Manifest → Option ℕ
expected_size m none = none
expected_size m (some mf) = elim mf.entries [
  | none ↦ none
  | some fs ↦ elim (lookup (table_file m) fs) [ none ↦ none | some entry ↦ entry.size ]
]

-- The size test of `fetch_state`, when the manifest has answered.
unfoldable pub size_state : String → Bytes → RemoteSource → Option ℕ → RemoteSource × FetchState
unfolding cleanup_cache_files
size_state m bytes r none = (r, cached)
size_state m bytes r (some n) =
    if length bytes == n
    then (record r { verified = m ∷ r.verified }, cached)
    else (cleanup_cache_files m r, absent)

-- `fetch_state`, from the test of the file on.
unfoldable pub file_state : String → RemoteHub → RemoteSource → RemoteSource × FetchState
unfolding size_state manifest expected_size
file_state m hub r = elim (lookup (table_file m) r.cache) [
  | none ↦ (r, absent)
  | some bytes ↦
      if contains r.verified m
      then (r, cached)
      else size_state m bytes (manifest hub r).0 (expected_size m (manifest hub r).1)
]

-- `fetch_state`, on the recorded state.
unfoldable pub recorded_state :
    String → RemoteHub → RemoteSource → Option FetchState → RemoteSource × FetchState
unfolding file_state
recorded_state m hub r (some fetching) = (r, fetching)
recorded_state m hub r (some failed) = (r, failed)
recorded_state m hub r _ = file_state m hub r

-- `fetch_state`
unfoldable pub fetch_state : String → RemoteHub → RemoteSource → RemoteSource × FetchState
unfolding recorded_state is_safe_material
fetch_state m hub r =
    if not (is_safe_material m) then (r, absent) else recorded_state m hub r (lookup m r.states)

-- self._states.get(material) == "fetching"
abbrev pub is_fetching : Option FetchState → Bool
is_fetching (some fetching) = true
is_fetching _ = false

-- The locked part of `start_fetch`, and the start of the thread.
unfoldable pub enter : String → RemoteSource → RemoteSource
enter m r =
    if is_fetching (lookup m r.states)
    then r
    else record r { states = insert m fetching r.states; threads = m ∷ r.threads }

-- `start_fetch`
unfoldable pub start_fetch : String → RemoteHub → RemoteSource → RemoteSource
unfolding enter fetch_state
start_fetch m hub r =
    let answer = fetch_state m hub r in
    elim answer.1 [ fetching ↦ answer.0 | cached ↦ answer.0 | _ ↦ enter m answer.0 ]

-- The end of a download thread, without and with an exception.
unfoldable pub settle : String → Bool → RemoteSource → RemoteSource
unfolding cleanup_cache_files
settle m true r = record r { states = insert m finished r.states; threads = remove m r.threads }
settle m false r =
    let clean = cleanup_cache_files m r in
    record clean { states = insert m failed clean.states; threads = remove m clean.threads }

-- A downloaded file is kept if it verifies, and removed if not. The Boolean is false after an
-- exception.
unfoldable pub keep_verified : String → RemoteSource → Option Bool → RemoteSource × Bool
keep_verified name r (some true) = (r, true)
keep_verified name r (some false) = (record r { cache = erase name r.cache }, false)
keep_verified name r none = (r, false)

module _ (sha256 : Bytes → String) where
  -- `verify_file`, of a file's bytes if it is there; `none` stands for a KeyError. An entry without
  -- keys is falsy.
  unfoldable pub verify_file : Option Bytes → String → Manifest → Option Bool
  verify_file content name m = elim (lookup name (get_or_else m.entries [])) [
    | none ↦ some false
    | some entry ↦
        if not (is_some entry.size) && not (is_some entry.digest)
        then some false
        else elim content [
          | none ↦ some false
          | some bytes ↦ elim entry.digest [ none ↦ none | some d ↦ some (sha256 bytes == d) ]
        ]
  ]

  -- The download of a file that the manifest lists.
  unfoldable pub receive : Manifest → String → RemoteSource → Download → RemoteSource × Bool
  unfolding keep_verified verify_file
  receive m name r (saved bytes) =
      keep_verified name (record r { cache = insert name bytes r.cache })
        (verify_file (some bytes) name m)
  receive m name r (raised none) = (r, false)
  receive m name r (raised (some part)) = (record r { cache = insert name part r.cache }, false)

  -- One round of the loop of `_fetch`.
  unfoldable pub fetch_file : Manifest → String → RemoteHub → RemoteSource → RemoteSource × Bool
  unfolding receive
  fetch_file m name hub r = elim m.entries [
    | none ↦ (r, false)
    | some fs ↦ if not (has name fs) then (r, true) else receive m name r (hub.download name)
  ]

  -- The loop of `_fetch` over the two files.
  unfoldable pub fetch_files : Manifest → String → RemoteHub → RemoteSource → RemoteSource × Bool
  unfolding fetch_file
  fetch_files mf m hub r =
      let first = fetch_file mf (table_file m) hub r in
      if first.1 then fetch_file mf (stats_file m) hub first.0 else first

  -- `_fetch`, run to its end.
  unfoldable pub fetch : String → RemoteHub → RemoteSource → RemoteSource
  unfolding fetch_files settle manifest
  fetch m hub r =
      let answer = manifest hub r in
      elim answer.1 [
        | none ↦ settle m false answer.0
        | some mf ↦ let end = fetch_files mf m hub answer.0 in settle m end.1 end.0
      ]
