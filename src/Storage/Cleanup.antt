-- ===== src/Storage/Cleanup.antt =====
-- storage.py, `_cleanup_cache_files` and the parts of a download: what they leave in the cache.
use text.Mathlib.TextLemmas.{append_cancel_left}
use helpmate_tablebase.Base.{
  option_beq_iff, ◌==◌, string_eq, Option-cases, get_or_else, if◌then◌else◌, Dict, lookup, String,
  ◌≡◌, refl, ◌≢◌, inl, inr, Bool, true, false, ◌&&◌, ◌||◌, Option, none, some, [], arith, erase,
  lookup-erase, pair_eq, nat_eq, option_eq, list_eq, bool_eq,
}
use helpmate_tablebase.Storage.{
  Bytes, FileEntry, Manifest, RemoteSource, is_safe_material, table_file, stats_file,
  cleanup_cache_files, keep_verified,
}

pub table_file-ne-stats_file : (m : String) → table_file m ≢ stats_file m
table_file-ne-stats_file m h =
    absurd (
      cc ((string_eq.equal_iff ".hm" ".stats.json").1 (append_cancel_left m ".hm" ".stats.json" h)))

-- The files of other names are the same.
abbrev pub KeepsOthers : String → Dict String Bytes → Dict String Bytes → Type 0
KeepsOthers m old new =
    (name : String) → name ≢ table_file m → name ≢ stats_file m → lookup name new ≡ lookup name old

-- A file that the manifest lists is there, with the digest that its entry gives.
abbrev pub IsVerified : (Bytes → String) → Manifest → String → Dict String Bytes → Type 0
IsVerified sha256 mf name files =
    (entry : FileEntry)
    → lookup name (get_or_else mf.entries []) ≡ some entry
    → (bytes : Bytes) × (lookup name files ≡ some bytes) × (entry.digest ≡ some (sha256 bytes))

-- The test of that: an unlisted file passes.
abbrev pub stands_verified : (Bytes → String) → Manifest → String → Dict String Bytes → Bool
stands_verified sha256 mf name files = elim (lookup name (get_or_else mf.entries [])) [
  | none ↦ true
  | some entry ↦ elim (lookup name files) [
    | none ↦ false
    | some bytes ↦ entry.digest == some (sha256 bytes)
  ]
]

pub stands_verified_of :
    (sha256 : Bytes → String) (mf : Manifest) (name : String) (files : Dict String Bytes)
    → IsVerified sha256 mf name files
    → stands_verified sha256 mf name files ≡ true
stands_verified_of sha256 mf name files v =
    elim (Option-cases (lookup name (get_or_else mf.entries []))) [
      | inl z ↦ ground (arith, z)
      | inr (entry, z) ↦
          let (bytes, there, digest) = v entry z in
          ground (arith, option_beq_iff entry.digest (some (sha256 bytes)))
    ]

pub lookup-cleanup :
    (name m : String) (r : RemoteSource)
    → lookup name (cleanup_cache_files m r).cache ≡ (
        if is_safe_material m && (name == stats_file m || name == table_file m)
        then none
        else lookup name r.cache)
unfolding cleanup_cache_files
lookup-cleanup name m r = ground (
  arith,
  lookup-erase name (stats_file m) (erase (table_file m) r.cache),
  lookup-erase name (table_file m) r.cache,
)

pub cleanup_removes :
    (m : String) (r : RemoteSource)
    → is_safe_material m ≡ true
    → (lookup (table_file m) (cleanup_cache_files m r).cache ≡ none)
      × (lookup (stats_file m) (cleanup_cache_files m r).cache ≡ none)
cleanup_removes m r safe = (
  ground
      (arith, lookup-cleanup (table_file m) m r, string_eq.equal_iff (table_file m) (table_file m)),
  ground
      (arith, lookup-cleanup (stats_file m) m r, string_eq.equal_iff (stats_file m) (stats_file m)),
)

pub cleanup_keeps :
    (m : String) (r : RemoteSource) → KeepsOthers m r.cache (cleanup_cache_files m r).cache
cleanup_keeps m r name a b = ground (
  arith,
  lookup-cleanup name m r,
  string_eq.equal_iff name (table_file m),
  string_eq.equal_iff name (stats_file m),
)

pub keep_verified_keeps :
    (name : String) (r : RemoteSource) (v : Option Bool) (other : String)
    → other ≢ name
    → lookup other (keep_verified name r v).0.cache ≡ lookup other r.cache
unfolding keep_verified
keep_verified_keeps name r none other ne = refl
keep_verified_keeps name r (some true) other ne = refl
keep_verified_keeps name r (some false) other ne =
    ground (arith, lookup-erase other name r.cache, string_eq.equal_iff other name)

pub keep_verified_passes :
    (name : String) (r : RemoteSource) (v : Option Bool)
    → (keep_verified name r v).1 ≡ true
    → (v ≡ some true) × ((keep_verified name r v).0.cache ≡ r.cache)
unfolding keep_verified
keep_verified_passes name r none h = absurd (cc)
keep_verified_passes name r (some true) h = (refl, refl)
keep_verified_passes name r (some false) h = absurd (cc)
