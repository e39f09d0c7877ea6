-- ===== src/Tests/Caching.antt =====
-- Runs of the server's sources, and instances of the theorems on them.
use helpmate_tablebase.Base.{
  ◌==◌, if◌then◌else◌, In, Dict, lookup, String, ◌≡◌, refl, ◌↔◌, Option, none, some, [], ◌∷◌,
  Distinct, string_eq, pair_eq, nat_eq, option_eq, list_eq, bool_eq,
}
use helpmate_tablebase.Storage.{
  Bytes, FileEntry, Manifest, saved, raised, RemoteHub, fetching, cached, RemoteSource,
  is_safe_material, manifest, fetch_state, start_fetch, fetch,
}
use helpmate_tablebase.Storage.Fetching.{Outcome, fetch_outcome}
use helpmate_tablebase.Storage.Presence.{Answers, fetch_state-Answers}
use helpmate_tablebase.Storage.Serving.{fetch-cached}
use helpmate_tablebase.Storage.Interleaving
use helpmate_tablebase.Storage.Interleaving.{
  fresh_source, Reached, Reached-single_flight, start_fetch-Reached,
}
use helpmate_tablebase.Storage.Chain.{local, remote, SliceInfo, SidecarStats, ChainSource, catalog}

-- A digest that tells the test files apart.
abbrev digest_of : Bytes → String
digest_of [] = "empty"
digest_of (x ∷ xs) = if x == 7 then "seven" else "other"

abbrev listed_files : Dict String FileEntry
listed_files =
    ("KQvk.hm", record { size = some 2; digest = some "seven" })
    ∷ ("KQvk.stats.json", record { size = some 1; digest = some "other" })
    ∷ []

abbrev known_manifest : Manifest
known_manifest = record { entries = some listed_files }

abbrev good_hub : RemoteHub
good_hub = record {
  fetch_manifest = some known_manifest;
  download = λ name. if name == "KQvk.hm" then saved (7 ∷ 1 ∷ []) else saved (3 ∷ []);
}

-- A hub that breaks off the second file.
abbrev broken_hub : RemoteHub
broken_hub = record {
  fetch_manifest = some known_manifest;
  download = λ name. if name == "KQvk.hm" then saved (7 ∷ 1 ∷ []) else raised (some (3 ∷ []));
}

abbrev dead_hub : RemoteHub
dead_hub = record { fetch_manifest = none; download = λ name. raised none }

abbrev other_file : Dict String Bytes
other_file = ("KRvk.hm", 5 ∷ []) ∷ []

abbrev start : RemoteSource
start = fresh_source other_file

fetch_broken : (fetch digest_of "KQvk" broken_hub start).cache ≡ other_file
unfolding fetch
fetch_broken = refl

fetch_good :
    (fetch_state "KQvk" dead_hub (fetch digest_of "KQvk" good_hub start)).0.verified ≡ "KQvk" ∷ []
unfolding fetch fetch_state
fetch_good = refl

fetch_outcome_example : Outcome digest_of "KQvk" (fetch digest_of "KQvk" broken_hub start)
fetch_outcome_example =
    fetch_outcome digest_of "KQvk" broken_hub start (unfold is_safe_material in refl)

fetch-cached_example :
    (fetch_state "KQvk" dead_hub (fetch digest_of "KQvk" good_hub start)).1 ≡ cached
fetch-cached_example =
    fetch-cached digest_of "KQvk" good_hub dead_hub start known_manifest listed_files (7 ∷ 1 ∷ [])
      (3 ∷ []) (unfold is_safe_material in refl) (unfold manifest in refl) refl (refl, refl)
      (refl, refl)

fetch_state-Answers_example :
    Answers "KRvk" good_hub start
      (fetch_state "KRvk" good_hub start).0
      (fetch_state "KRvk" good_hub start).1
fetch_state-Answers_example =
    fetch_state-Answers "KRvk" good_hub start (unfold is_safe_material in refl)

abbrev downloading : RemoteSource
downloading = start_fetch "KQvk" good_hub start

downloading-Reached : Reached digest_of downloading
downloading-Reached =
    start_fetch-Reached digest_of "KQvk" good_hub start (Interleaving.starts other_file refl)

Reached-single_flight_example :
    Distinct downloading.threads
    × (In "KQvk" downloading.threads ↔ (lookup "KQvk" downloading.states ≡ some fetching))
Reached-single_flight_example = Reached-single_flight digest_of "KQvk" downloading-Reached

abbrev parse_none : Bytes → Option SidecarStats
parse_none bytes = none

abbrev chain : ChainSource
chain = record {
  locals =
      record { path = "a"; files = other_file }
      ∷ record { path = "b"; files = ("KRvk.hm", 5 ∷ 6 ∷ []) ∷ [] }
      ∷ [];
  origin = some start;
  cache_dir = "cache";
}

abbrev own_table : SliceInfo
own_table = record {
  material = "KRvk";
  pieces = 3;
  size_bytes = 1;
  max_dtm = none;
  cells = none;
  location = local;
}

abbrev remote_table : SliceInfo
remote_table = record {
  material = "KQvk";
  pieces = 3;
  size_bytes = 2;
  max_dtm = none;
  cells = none;
  location = remote;
}

catalog_run : (catalog parse_none good_hub chain).1 ≡ some (remote_table ∷ own_table ∷ [])
unfolding catalog
catalog_run = refl
