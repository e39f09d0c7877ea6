-- ===== src/Storage/Chain.antt =====
-- storage.py, `LocalDir`, `RemoteSource.catalog` and `ChainSource`: several directories and a remote
-- dataset as one source. Text order on material names is the order of `sorted`.
pub mod Merging
pub mod Resolving
use helpmate_tablebase.Base.{
  flat_map, ◌==◌, if◌then◌else◌, length, filter, sorted_by, Dict, lookup, has, insert, setdefault,
  codes, ℕ, String, Bool, not, Option, none, some, List, [], ◌∷◌, ◌++◌, map, string_eq, pair_eq,
  nat_eq, option_eq, list_eq, bool_eq,
}
use helpmate_tablebase.Storage.{
  Bytes, FileEntry, Manifest, RemoteHub, FetchState, fetching, failed, cached, RemoteSource,
  is_safe_material, table_file, stats_file, manifest, fetch_state,
}
use helpmate_tablebase.Claims.{strip_suffix}
use helpmate_tablebase.Consistency.{text_less}

-- Where a table of the catalog is.
pub data Location : Type 0 where
  local remote : Location

-- `SliceInfo`
pub record SliceInfo : Type 0 where
  pub material : String
  pub pieces : ℕ
  pub size_bytes : ℕ
  pub max_dtm : Option ℕ
  pub cells : Option ℕ
  pub location : Location

-- The two values of a sidecar that the catalog shows.
pub record SidecarStats : Type 0 where
  pub deepest : Option ℕ
  pub plane_size : Option ℕ

-- `LocalDir`, with the files of its directory.
pub record LocalDir : Type 0 where
  pub path : String
  pub files : Dict String Bytes

-- `_piece_count`
unfoldable pub piece_count : String → ℕ
piece_count m = length (filter (λ c. not (c == b'v')) (codes m))

abbrev pub by_material : SliceInfo → SliceInfo → Bool
by_material a b = text_less a.material b.material

module _ (parse_stats : Bytes → Option SidecarStats) where
  -- What the sidecar's text says, if it can be read and is a JSON object.
  sidecar_stats : LocalDir → String → Option SidecarStats
  sidecar_stats dir m = elim (lookup (stats_file m) dir.files) [
    | none ↦ none
    | some bytes ↦ parse_stats bytes
  ]

  -- `_info_from_files`
  unfoldable pub info_from_files : LocalDir → String → Bytes → SliceInfo
  unfolding sidecar_stats piece_count
  info_from_files dir m bytes = record {
    material = m;
    pieces = piece_count m;
    size_bytes = length bytes;
    max_dtm = elim (sidecar_stats dir m) [ none ↦ none | some s ↦ s.deepest ];
    cells = elim (sidecar_stats dir m) [ none ↦ none | some s ↦ s.plane_size ];
    location = local;
  }

  -- The table in a file of the directory, if its name ends in .hm.
  table_of_file : LocalDir → String × Bytes → List SliceInfo
  unfolding strip_suffix info_from_files
  table_of_file dir (name, bytes) = elim (strip_suffix ".hm" name) [
    | none ↦ []
    | some m ↦ info_from_files dir m bytes ∷ []
  ]

  -- `LocalDir.catalog`
  unfoldable pub local_catalog : LocalDir → List SliceInfo
  unfolding table_of_file sorted_by
  local_catalog dir = sorted_by by_material (flat_map (table_of_file dir) dir.files)

-- `LocalDir.resolve`
unfoldable pub local_resolve : String → LocalDir → Option String
unfolding is_safe_material
local_resolve m dir =
    if not (is_safe_material m)
    then none
    else if has (table_file m) dir.files
    then some dir.path
    else none

-- The loop of `RemoteSource.catalog`; `none` stands for a KeyError.
unfoldable pub remote_tables : Dict String FileEntry → Option (List SliceInfo)
unfolding strip_suffix piece_count
remote_tables [] = some []
remote_tables ((name, entry) ∷ files) = elim (strip_suffix ".hm" name) [
  | none ↦ remote_tables files
  | some m ↦ elim entry.size [
    | none ↦ none
    | some n ↦ elim (remote_tables files) [
      | none ↦ none
      | some rest ↦ some (
          record {
            material = m;
            pieces = piece_count m;
            size_bytes = n;
            max_dtm = none;
            cells = none;
            location = remote;
          }
          ∷ rest)
    ]
  ]
]

-- The catalog of a manifest.
unfoldable pub manifest_tables : Option Manifest → Option (List SliceInfo)
unfolding remote_tables sorted_by
manifest_tables none = none
manifest_tables (some mf) = elim mf.entries [
  | none ↦ none
  | some fs ↦ elim (remote_tables fs) [ none ↦ none | some ts ↦ some (sorted_by by_material ts) ]
]

-- `RemoteSource.catalog`
unfoldable pub remote_catalog : RemoteHub → RemoteSource → RemoteSource × Option (List SliceInfo)
unfolding manifest_tables manifest
remote_catalog hub r = ((manifest hub r).0, manifest_tables (manifest hub r).1)

-- `ChainSource`, with the path of the remote source's cache directory.
pub record ChainSource : Type 0 where
  pub locals : List LocalDir
  pub origin : Option RemoteSource
  pub cache_dir : String

-- for s in tables: seen.setdefault(s.material, s)
unfoldable pub merge : Dict String SliceInfo → List SliceInfo → Dict String SliceInfo
merge seen [] = seen
merge seen (s ∷ ss) = merge (setdefault s.material s seen) ss

-- sorted(seen.values())
unfoldable pub merged : List SliceInfo → List SliceInfo
unfolding merge sorted_by
merged tables = sorted_by by_material (map (λ e. e.1) (merge [] tables))

-- `ChainSource.catalog`; `none` stands for an exception of the remote source.
unfoldable pub catalog :
    (Bytes → Option SidecarStats) → RemoteHub → ChainSource → ChainSource × Option (List SliceInfo)
unfolding local_catalog remote_catalog merged
catalog parse_stats hub c =
    let here = flat_map (local_catalog parse_stats) c.locals in
    elim c.origin [
      | none ↦ (c, some (merged here))
      | some r ↦
          let there = remote_catalog hub r in
          (
            record c { origin = some there.0 },
            elim there.1 [ none ↦ none | some ts ↦ some (merged (here ++ ts)) ],
          )
    ]

-- The first directory that has the table.
unfoldable pub first_local : String → List LocalDir → Option String
unfolding local_resolve
first_local m [] = none
first_local m (dir ∷ dirs) = elim (local_resolve m dir) [
  | none ↦ first_local m dirs
  | some hit ↦ some hit
]

-- `ChainSource.resolve`
unfoldable pub resolve : String → RemoteHub → ChainSource → ChainSource × Option String
unfolding first_local fetch_state
resolve m hub c = elim (first_local m c.locals) [
  | some hit ↦ (c, some hit)
  | none ↦ elim c.origin [
    | none ↦ (c, none)
    | some r ↦
        let answer = fetch_state m hub r in
        (
          record c { origin = some answer.0 },
          elim answer.1 [ cached ↦ some c.cache_dir | _ ↦ none ],
        )
  ]
]

-- The pairs that `ChainSource.status` returns.
pub data SourceStatus : Type 0 where
  in_local in_cache : String → SourceStatus
  in_progress : FetchState → SourceStatus
  in_remote : SliceInfo → SourceStatus
  unknown : SourceStatus

-- {s.material: s for s in tables}
unfoldable pub by_name : Dict String SliceInfo → List SliceInfo → Dict String SliceInfo
by_name d [] = d
by_name d (s ∷ ss) = by_name (insert s.material s d) ss

-- The status of a table that is neither local nor cached nor on its way.
unfoldable pub remote_status : String → Option (List SliceInfo) → Option SourceStatus
unfolding by_name
remote_status m none = none
remote_status m (some ts) = elim (lookup m (by_name [] ts)) [
  | none ↦ some unknown
  | some info ↦ some (in_remote info)
]

-- `ChainSource.status`, on the answer of `fetch_state`.
unfoldable pub answered_status :
    String → RemoteHub → ChainSource → RemoteSource → FetchState → ChainSource × Option SourceStatus
unfolding remote_status remote_catalog
answered_status m hub c r cached = (record c { origin = some r }, some (in_cache c.cache_dir))
answered_status m hub c r fetching = (record c { origin = some r }, some (in_progress fetching))
answered_status m hub c r failed = (record c { origin = some r }, some (in_progress failed))
answered_status m hub c r _ =
    let there = remote_catalog hub r in
    (record c { origin = some there.0 }, remote_status m there.1)

-- `ChainSource.status`; `none` stands for an exception of the remote source.
unfoldable pub status : String → RemoteHub → ChainSource → ChainSource × Option SourceStatus
unfolding answered_status first_local fetch_state
status m hub c = elim (first_local m c.locals) [
  | some hit ↦ (c, some (in_local hit))
  | none ↦ elim c.origin [
    | none ↦ (c, some unknown)
    | some r ↦ answered_status m hub c (fetch_state m hub r).0 (fetch_state m hub r).1
  ]
]
