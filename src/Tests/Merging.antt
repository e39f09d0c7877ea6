-- ===== src/Tests/Merging.antt =====
-- A merge of a documentation pull request, and an instance of the theorem on it.
use helpmate_tablebase.Base.{
  any, String, ◌≡◌, refl, ◌⊎◌, inl, inr, true, some, List, [], ◌∷◌, string_eq, pair_eq, nat_eq,
  option_eq, list_eq, bool_eq,
}
use helpmate_tablebase.Accept.Merging.{
  Command, pr_view, pr_checks, pr_watch, pr_merge, push_delete, delete_local, Process, Event,
  called, slept, Outside, Raised, merge_conflict, wait_and_merge,
}
use helpmate_tablebase.Accept.Merging.Keeps.{tells_merged, guarded}
use helpmate_tablebase.Accept.Merging.Ordered.{wait_and_merge-guarded}

abbrev printed : String → Process
printed s = record { returncode = 0; stdout = s; stderr = "" }

-- The first report has no checks; all else succeeds.
abbrev answers : List Event → Command → Process
answers (called pr_view p ∷ []) pr_checks = printed "No checks reported on the branch"
answers log c = printed "ok"

abbrev github : Outside
github = record {
  run = answers;
  loads = λ s. some (record { state = some "OPEN"; mergeable = some "MERGEABLE" });
}

abbrev conflicting_github : Outside
conflicting_github = record {
  run = answers;
  loads = λ s. some (record { state = some "OPEN"; mergeable = some "CONFLICTING" });
}

abbrev events : List Event
events =
    called delete_local (printed "ok")
    ∷ called push_delete (printed "ok")
    ∷ called pr_merge (printed "ok")
    ∷ called pr_watch (printed "ok")
    ∷ called pr_checks (printed "ok")
    ∷ slept 10
    ∷ called pr_checks (printed "No checks reported on the branch")
    ∷ called pr_view (printed "ok")
    ∷ []

merge_run : wait_and_merge github [] ≡ (inr tt, events)
unfolding wait_and_merge
merge_run = refl

conflict_run : (wait_and_merge conflicting_github []).0 ≡ inl merge_conflict
unfolding wait_and_merge
conflict_run = refl

wait_and_merge-guarded_example :
    (guarded github (wait_and_merge github []).1 ≡ true)
    × (((e : Raised) × ((wait_and_merge github []).0 ≡ inl e))
        ⊎ (any (tells_merged github) (wait_and_merge github []).1 ≡ true))
wait_and_merge-guarded_example = wait_and_merge-guarded github
