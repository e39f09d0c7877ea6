-- ===== src/Tests/Landing.antt =====
-- A merge step of two pull requests, and instances of the theorems on it.
use helpmate_tablebase.Base.{
  ℕ, String, ◌<>◌, ◌≡◌, refl, ap, ◌⊎◌, inl, inr, true, false, none, some, [], ◌∷◌, string_eq,
  pair_eq, nat_eq, option_eq, list_eq, bool_eq,
}
use helpmate_tablebase.Claims.{PullRequest, pr_materials}
use helpmate_tablebase.Accept.{Decision, new, held, earliest_delivery, held_for_claim}
use helpmate_tablebase.Accept.Hub.{
  Hub, RunState, Stop, listed, asked_head, tried_merge, asked_conflicts, asked_main, tried_commit,
  read_tree, closed, commented,
}
use helpmate_tablebase.Accept.Landing.{Job, merge_step}
use helpmate_tablebase.Accept.Landing.Checked.{IsRight, guarded}
use helpmate_tablebase.Accept.Landing.Safe.{merge_step-IsRight, merge_step-again}
use helpmate_tablebase.Accept.Landing.Acts.{IsDone}
use helpmate_tablebase.Accept.Landing.Order.{merge_step-IsDone}

abbrev table_pull : ℕ → String → PullRequest
table_pull n m = record {
  num = n;
  title = "";
  author = "bob";
  status = "open";
  description = "";
  files = (m <> ".hm") ∷ (m <> ".stats.json") ∷ [];
  head = some "verified";
  url = "";
  deleted = [];
}

abbrev new_table : Decision
new_table = record {
  kind = new;
  publish_from = some 5;
  producers = 5 ∷ [];
  held_for = none;
  reason = earliest_delivery 5;
}

abbrev held_table : Decision
held_table = record {
  kind = held;
  publish_from = none;
  producers = [];
  held_for = some 9;
  reason = held_for_claim 9 "ann";
}

abbrev job : Job
job = record {
  prs = 4 ∷ 5 ∷ [];
  pulls = (4, table_pull 4 "KRvk") ∷ (5, table_pull 5 "KQvk") ∷ [];
  decided = ("KRvk", held_table) ∷ ("KQvk", new_table) ∷ [];
  own = [];
  hand_merged = [];
}

-- All goes well, but the Hub refuses the merge because of `.gitattributes`.
abbrev hub : Hub
hub = record {
  pr_head = λ log n. some (some "verified");
  merge_pull_request = λ log n. some "Conflict";
  conflicting_files = λ log n. some (listed (".gitattributes" ∷ []));
  main_sha = λ log. some "before";
  create_commit = λ log files head. some (record { oid = "after"; commit_url = "url" });
  tree = λ log revision. some (("KQvk.hm", "a") ∷ ("KQvk.stats.json", "b") ∷ []);
  status = λ log n. some "open";
  close = λ log n text. true;
  comment = λ log n text. true;
}

abbrev start : RunState
start = record { merged = []; copied = []; log = [] }

abbrev final : RunState
final = record {
  merged = 5 ∷ 4 ∷ [];
  copied = (5, record { ref = "url"; already = false; is_partial = false; closes = true }) ∷ [];
  log =
      commented 4
      ∷ asked_head 4 (some (some "verified"))
      ∷ closed 5
      ∷ read_tree (some "verified")
      ∷ read_tree (some "after")
      ∷ tried_commit 5 ("KQvk.hm" ∷ "KQvk.stats.json" ∷ [])
      ∷ asked_main
      ∷ asked_conflicts 5
      ∷ tried_merge 5
      ∷ asked_head 5 (some (some "verified"))
      ∷ [];
}

start-IsRight : IsRight job [] start
unfolding guarded
start-IsRight = record { calls = refl; copies = λ n c e h. absurd (cc); kept = λ n i. absurd i }

merge_step_run : merge_step hub job start ≡ (inr tt, final)
unfolding merge_step pr_materials
merge_step_run = refl

merge_step-IsRight_example : IsRight job [] (merge_step hub job start).1
merge_step-IsRight_example = merge_step-IsRight hub job [] start start-IsRight

-- PR 5 is copied from its verified head and closed.
merge_step-IsDone_example : IsDone hub job 5 (merge_step hub job start).1
merge_step-IsDone_example =
    merge_step-IsDone hub job start 5 (inr (inl refl)) refl (refl, refl)
      (ap (λ (x : (Stop ⊎ Unit {0}) × RunState). x.0) merge_step_run)

merge_step-again_example :
    merge_step hub job (merge_step hub job start).1 ≡ (inr tt, (merge_step hub job start).1)
merge_step-again_example =
    merge_step-again hub hub job start start-IsRight
      (ap (λ (x : (Stop ⊎ Unit {0}) × RunState). x.0) merge_step_run)
