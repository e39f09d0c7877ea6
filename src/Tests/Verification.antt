-- ===== src/Tests/Verification.antt =====
-- Concrete tables, reports, files and registries for the theorems on verification and credit.
use helpmate_tablebase.Base.{
  is_empty, ◌==◌, Bool-cases, get_or_else, if◌then◌else◌, In, Dict, lookup, ℕ, ◌+◌, ◌≤◌, String,
  ◌≡◌, refl, subst, ◌≢◌, inl, inr, true, false, Option, none, some, [], ◌∷◌, arith, string_eq,
  pair_eq, nat_eq, option_eq, list_eq, bool_eq,
}
use helpmate_tablebase.Claims.{index_of, claim_for, stems, to_set}
use helpmate_tablebase.Materials.{canonical, universe}
use helpmate_tablebase.Accept.{payload, claim_of, decide_one}
use helpmate_tablebase.Registry.{Producer, TableRecord, Registry, record_table}
use helpmate_tablebase.Registry.Credit.{Kept, WellFormed, Credits, record_table-WellFormed}
use helpmate_tablebase.Overview.{claimed, Status, material_status}
use helpmate_tablebase.Overview.Explained.{Explains, material_status-Explains}
use helpmate_tablebase.Verify.{pass, fail, Check, check_of, passed}
use helpmate_tablebase.Verify.Table.{TableChecks, verify_table}
use helpmate_tablebase.Verify.Table.Gate.{Behind, verify_table-passed}
use helpmate_tablebase.Verify.Hygiene.{check_pr_hygiene}
use helpmate_tablebase.Verify.Hygiene.Sound.{Welcome, check_pr_hygiene_sound}
use helpmate_tablebase.Verify.Labels.{label_of}
use helpmate_tablebase.Verify.Labels.Forecast.{Forecast, Named, label_of-Forecast}
use helpmate_tablebase.Verify.Reuse.{
  PriorEntry, PriorReport, reuse_settings, starts_with, reusable, IsFirstDeepest, reusable_sound,
}
use helpmate_tablebase.Tests.{both_claims, plain_links, pull_of_bob, unsorted_men, run_inputs}
use helpmate_tablebase.Verify.Hashes.{
  PublishedHashes, get_hash, IsCurrent, MatchesManifest, Gets, get_hash-Gets,
}
use helpmate_tablebase.Materials.Measures.{pieces, pawns, ram_tier_gib, measures-canonical}

abbrev passing : String → Check
passing id = check_of id "a check" pass ""

abbrev good_table : TableChecks
good_table = record {
  exists = true;
  header = passing "V2";
  block_integrity = passing "V3";
  sidecar = (passing "V4", some "5f");
  deepest = passing "V5";
  marker = false;
  extra = inr ("start" ∷ []);
  consistency = λ fens. (passing "V6", fens);
  oracle = λ fens. passing "V7";
}

good_table_passes : passed (verify_table "KQvk" good_table none "the published table" false) ≡ true
unfolding passed verify_table
good_table_passes = refl

verify_table-passed_example :
    (true ≡ true) × (true ≡ true) × (true ≡ true) × (true ≡ true) × Behind good_table none false
verify_table-passed_example =
    verify_table-passed "KQvk" good_table none "the published table" false good_table_passes

bob_is_clean : (check_pr_hygiene plain_links pull_of_bob []).status ≢ fail
unfolding check_pr_hygiene
bob_is_clean = λ e. cc

check_pr_hygiene_sound_example :
    ((f : String) → In f pull_of_bob.files → Welcome pull_of_bob f)
    × (is_empty (to_set (stems ".hm" pull_of_bob.files)) ≡ false)
    × (pull_of_bob.deleted ≡ [])
check_pr_hygiene_sound_example = check_pr_hygiene_sound plain_links pull_of_bob [] bob_is_clean

ann_is_Named : Named (claim_of run_inputs "KQvkr")
unfolding claim_of claim_for index_of
ann_is_Named = refl

label_of-Forecast_example :
    Forecast 5
      (label_of run_inputs.published run_inputs.index [] none "KQvkr")
      (decide_one run_inputs "KQvkr" (5 ∷ []))
label_of-Forecast_example = label_of-Forecast run_inputs "KQvkr" 5 [] refl ann_is_Named refl

abbrev prior_entry : PriorEntry
prior_entry = record {
  passed_before = true;
  hm_sha256 = some "0a";
  stats_sha256 = some "0b";
  source_payload = none;
  checks_before = passing "V5" ∷ [];
  payload_before = some "5f";
}

abbrev prior_settings : Dict String ℕ
prior_settings = ("samples", 2000) ∷ ("oracle_samples", 20) ∷ ("oracle_plies", 3) ∷ []

abbrev prior_report : PriorReport
prior_report = record {
  tool = some "1.0";
  settings = prior_settings;
  tables = ("KQvk", prior_entry) ∷ [];
}

prior_entry_serves :
    reusable (some prior_report) "KQvk" (some "0a") (some "0b") "1.0" prior_settings none true
    ≡ some prior_entry
unfolding reusable
prior_entry_serves = refl

reusable_sound_example :
    (prior_report.tool ≡ some "1.0")
    × ((k : String) → In k reuse_settings → lookup k prior_settings ≡ lookup k prior_settings)
    × (lookup "KQvk" prior_report.tables ≡ some prior_entry)
    × (true ≡ true)
    × ((h : String) × (s : String) × (prior_entry.hm_sha256 ≡ some h)
        × (prior_entry.stats_sha256 ≡ some s)
        × (prior_entry.hm_sha256 ≡ some h)
        × (prior_entry.stats_sha256 ≡ some s))
    × (prior_entry.source_payload ≡ none)
    × (true ≡ true
        → (c : Check) × IsFirstDeepest c prior_entry.checks_before
          × (starts_with "independent reproduction" c.detail ≡ false))
reusable_sound_example =
    reusable_sound prior_report "KQvk" (some "0a") (some "0b") "1.0" prior_settings none true
      prior_entry prior_entry_serves

abbrev producer_bob : Producer
producer_bob = record {
  contributor = some "bob";
  hf_pr = some 3;
  date = none;
  generator_version = none;
}

abbrev recorded_table : TableRecord
recorded_table = record {
  by = some "bob";
  from_pr = some 3;
  claim = some 9;
  merged = none;
  version = none;
  verification = none;
  producers = none;
  published_from = none;
}

abbrev small_registry : Registry
small_registry = record { contributors = []; tables = ("KRvkq", recorded_table) ∷ [] }

small_registry-WellFormed : WellFormed small_registry
small_registry-WellFormed m t e = elim (Bool-cases (m == "KRvkq")) [
  | inl s ↦
      let found : some recorded_table ≡ some t = rw s at e in
      let same : recorded_table ≡ t = cc in
      subst (λ x. Kept (get_or_else x.producers [])) same (tt, (λ q. omega arith))
  | inr s ↦ absurd (cc (rw s at e))
]

record_table-WellFormed_example :
    (after : Registry) × (record_table "KQvkr" "ann" 4
        (some 7)
        "2026-02-01"
        "1.0"
        none
        small_registry
      ≡ some after)
    × WellFormed after
    × Credits "KQvkr"
        (record {
          contributor = some "ann";
          hf_pr = some 4;
          date = some "2026-02-01";
          generator_version = some "1.0";
        })
        small_registry
        after
record_table-WellFormed_example =
    record_table-WellFormed "KQvkr" "ann" 4 (some 7) "2026-02-01" "1.0" none small_registry
      small_registry-WellFormed

abbrev claimed_status : Status
claimed_status = record { state = claimed; hf_pr = none; claim = some 7; contributor = some "Ann" }

pieces_are_claimed :
    lookup "KQvkr" (material_status ("KQvk" ∷ []) [] (index_of both_claims) small_registry)
    ≡ some claimed_status
unfolding material_status claim_for index_of universe
pieces_are_claimed = refl

material_status-Explains_example :
    (canonical "KQvkr" ≡ some "KQvkr")
    × Explains both_claims ("KQvk" ∷ []) [] small_registry "KQvkr" claimed claimed_status
material_status-Explains_example =
    material_status-Explains both_claims ("KQvk" ∷ []) [] small_registry "KQvkr" claimed_status
      pieces_are_claimed

measures-canonical_example :
    (3 ≤ pieces "KRBvkqr")
    × (pieces "KRBvkqr" ≤ 6)
    × (pawns "KRBvkqr" + 2 ≤ pieces "KRBvkqr")
    × ((t : ℕ) × (ram_tier_gib "KRBvkqr" ≡ some t))
measures-canonical_example = measures-canonical "KBRvkrq" "KRBvkqr" unsorted_men

abbrev payload_by_sha : Option String → String → String
payload_by_sha sha m = "5f"

abbrev local_hashes : PublishedHashes
local_hashes = record {
  cache = [];
  manifest_sha = λ m. some "0a";
  read_payload = λ m. if m == "KQvk" then some (some "5f") else none;
  persist = true;
  saves = λ cache. true;
}

cached-IsCurrent : IsCurrent payload_by_sha local_hashes
cached-IsCurrent m c e = cc

files_match : MatchesManifest payload_by_sha local_hashes
files_match m payload e = elim (Bool-cases (m == "KQvk")) [
  | inl s ↦ let found : some (some "5f") ≡ some (some payload) = rw s at e in cc
  | inr s ↦ absurd (cc (rw s at e))
]

get_hash-Gets_example : Gets payload_by_sha "KQvk" local_hashes (get_hash "KQvk" local_hashes)
get_hash-Gets_example =
    get_hash-Gets payload_by_sha "KQvk" local_hashes (cached-IsCurrent, files_match)
