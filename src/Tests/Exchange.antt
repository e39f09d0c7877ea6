-- ===== src/Tests/Exchange.antt =====
-- A push and a pull, and instances of the theorems on them.
use mathlib.Core.Option
use helpmate_tablebase.Base.{
  ◌==◌, get_or_else, if◌then◌else◌, sorted_by, Dict, lookup, String, ◌≡◌, refl, inl, inr, true,
  false, none, some, [], ◌∷◌, arith, string_eq, pair_eq, nat_eq, option_eq, list_eq, bool_eq,
}
use helpmate_tablebase.Push.{made, Remote, PushState, entry_of, names_to_push, push}
use helpmate_tablebase.Pull.{Fetched, saved, nothing, PullState, pull}
use helpmate_tablebase.CorpusDiff.{LocalFile, ManifestEntry}
use helpmate_tablebase.Push.Complete.{is_pushed, push-dataset}
use helpmate_tablebase.Push.Advertised.{AllListed, push-AllListed}
use helpmate_tablebase.Pull.Verified.{IsVerified, pull-IsVerified}
use helpmate_tablebase.Pull.Stopped.{pull-removes}

abbrev file : String → LocalFile
file sha = record { size = 10; mtime_ns = 7; sha256 = sha }

abbrev tables : Dict String LocalFile
tables = ("KQvk.hm", file "new") ∷ ("KQvk.stats.json", file "stats") ∷ []

abbrev old_entries : Dict String ManifestEntry
old_entries = ("KRvk.hm", record { wanted_size = some 10; wanted_sha256 = some "rook" }) ∷ []

abbrev remote : Remote
remote = record { fetch_manifest = some (some old_entries); commit_files = λ commits files. made }

abbrev before : PushState
before = record {
  dataset = record { files = ("KRvk.hm", "rook") ∷ []; listed = old_entries };
  written = none;
  commits = [];
}

push_run : (push remote (λ f. some "1.0") tables [] before).0 ≡ inr tt
unfolding push sorted_by names_to_push
push_run = refl

push-dataset_example :
    (lookup "KQvk.hm" (push remote (λ f. some "1.0") tables [] before).1.dataset.files ≡ (
      if is_pushed tables [] "KQvk.hm"
      then Option.map (λ f. f.sha256) (lookup "KQvk.hm" tables)
      else lookup "KQvk.hm" before.dataset.files))
    × (lookup "KQvk.hm" (push remote (λ f. some "1.0") tables [] before).1.dataset.listed ≡ (
        if is_pushed tables [] "KQvk.hm"
        then Option.map entry_of (lookup "KQvk.hm" tables)
        else lookup "KQvk.hm" (get_or_else (get_or_else remote.fetch_manifest none) [])))
push-dataset_example = push-dataset remote (λ f. some "1.0") tables [] before "KQvk.hm" push_run

-- The rook's table is a file.
listed_rook : AllListed old_entries before.dataset.files
listed_rook name h = ground arith

push-AllListed_example :
    AllListed
      (push remote (λ f. some "1.0") tables [] before).1.dataset.listed
      (push remote (λ f. some "1.0") tables [] before).1.dataset.files
push-AllListed_example =
    push-AllListed remote (λ f. some "1.0") tables [] before listed_rook listed_rook

abbrev served : Dict String LocalFile → String → Fetched
served dir name = if name == "KRvk.hm" then saved (file "rook") else nothing

abbrev wrong : Dict String LocalFile → String → Fetched
wrong dir name = saved (file "other")

abbrev here : PullState
here = record { dir = tables; cache = record { entries = []; dirty = false } }

pull_run : (pull served (some (some old_entries)) [] true here).0 ≡ inr tt
unfolding pull sorted_by
pull_run = refl

pull-IsVerified_example :
    IsVerified "KRvk.hm"
      (record { wanted_size = some 10; wanted_sha256 = some "rook" })
      (pull served (some (some old_entries)) ("KRvk" ∷ []) false here).1.dir
unfolding pull
pull-IsVerified_example =
    pull-IsVerified served old_entries ("KRvk" ∷ []) false here "KRvk.hm"
      (record { wanted_size = some 10; wanted_sha256 = some "rook" }) refl (inl refl) refl

pull-removes_example :
    lookup "KRvk.hm" (pull wrong (some (some old_entries)) [] false here).1.dir ≡ none
unfolding pull
pull-removes_example = pull-removes wrong (some (some old_entries)) [] false here "KRvk.hm" refl
