-- ===== src/Tests/Corpus.antt =====
-- A local directory with one table, and a cache that knows it.
use helpmate_tablebase.Base.{
  In, sorted_by, Dict, String, ◌≡◌, refl, sym, ap, ◌∙◌, true, false, some, [], ◌∷◌, string_eq,
  pair_eq, nat_eq, option_eq, list_eq, bool_eq,
}
use helpmate_tablebase.CorpusDiff.{LocalFile, ManifestEntry, ShaCache, files_of, diff}
use helpmate_tablebase.CorpusDiff.Sound.{Faithful, Matches, diff-current}
use helpmate_tablebase.Claims.{stems, to_set}

abbrev local_table : LocalFile
local_table = record { size = 10; mtime_ns = 5; sha256 = "0a" }

abbrev local_files : Dict String LocalFile
local_files = ("KQvk.hm", local_table) ∷ []

abbrev small_manifest : Dict String ManifestEntry
small_manifest =
    ("KQvk.hm", record { wanted_size = some 10; wanted_sha256 = some "0a" })
    ∷ ("KRvk.hm", record { wanted_size = some 11; wanted_sha256 = some "0b" })
    ∷ []

abbrev known_cache : ShaCache
known_cache = record { entries = local_files; dirty = false }

known_cache-Faithful : Faithful local_files known_cache
known_cache-Faithful name e file l k s t =
    let same : some e ≡ some file = sym l ∙ k in ap (λ x. x.sha256) (let f : e ≡ file = cc in f)

current_and_new : (diff local_files small_manifest true known_cache).0 ≡ record {
  new = ("KRvk", 11) ∷ [];
  changed = [];
  current = "KQvk" ∷ [];
  size_only = [];
  local_only = [];
}
unfolding diff sorted_by to_set stems
current_and_new = refl

diff-current_example :
    ((m : String)
      → In m (diff local_files small_manifest true known_cache).0.current
      → (name : String) (entry : ManifestEntry) → In (name, entry) (files_of small_manifest m)
      → Matches local_files name entry)
    × Faithful local_files (diff local_files small_manifest true known_cache).1
diff-current_example = diff-current local_files small_manifest known_cache known_cache-Faithful
