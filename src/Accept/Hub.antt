-- ===== src/Accept/Hub.antt =====
-- contrib/hf.py, `merge`, `merge_by_copy`, `comment` and `close_pr`, with what `accept` keeps of a run
-- while it calls them. The Hub's answers, which may depend on the calls made so far, are an argument.
-- `merged` and `copied` of the run's state are on disk whenever the Hub is called: each change is
-- saved at once. Commit messages are left out.
use helpmate_tablebase.Base.{
  is_empty, ◌==◌, if◌then◌else◌, filter, Dict, lookup, codes, lower, ℕ, String, Bool, true, false,
  not, Option, none, some, List, [], ◌∷◌, string_eq, pair_eq, nat_eq, option_eq, list_eq, bool_eq,
}
use helpmate_tablebase.Effects.{Act, pure, raise, ◌>>=◌, ◌>>◌}
use helpmate_tablebase.Accept.{Reason}
use helpmate_tablebase.Accept.Merging.{occurs}

-- One call of the Hub, with its answer where a later step depends on it.
pub data Event : Type 0 where
  asked_head : ℕ → Option (Option String) → Event
  tried_merge asked_conflicts asked_status : ℕ → Event
  asked_main : Event
  tried_commit : ℕ → List String → Event
  read_tree : Option String → Event
  closed commented : ℕ → Event

-- `_notes`
pub data Note : Type 0 where
  already_in identical : List String → Note
  waiting : String → Reason → Note
  stays_open : Note

-- `_copy_comment`, `_partial_comment`, and the thanks for other pull requests
pub data Comment : Type 0 where
  whole_copy : String → Option String → Bool → Comment
  partial_copy : String → Option String → Bool → List String → List Note → Comment
  thanks : List Note → Comment

-- What the Hub lists as conflicting: nothing, files, or `True`.
pub data Conflicting : Type 0 where
  no_list unlisted : Conflicting
  listed : List String → Conflicting

-- `info` of create_commit.
pub record CommitInfo : Type 0 where
  pub oid : String
  pub commit_url : String

-- The Hub; `none`, and `false` for the two calls with no answer, stands for an exception. A refused
-- merge comes with the text of its exception. A tree gives each file its identity.
pub record Hub : Type 0 where
  pub pr_head : List Event → ℕ → Option (Option String)
  pub merge_pull_request : List Event → ℕ → Option String
  pub conflicting_files : List Event → ℕ → Option Conflicting
  pub main_sha : List Event → Option String
  pub create_commit : List Event → List String → Option String → Option CommitInfo
  pub tree : List Event → Option String → Option (Dict String String)
  pub status : List Event → ℕ → Option String
  pub close : List Event → ℕ → Comment → Bool
  pub comment : List Event → ℕ → Comment → Bool

-- An entry of `copied`. A commit's URL alone, as older states have it, is read as the entry with that
-- `ref` and the defaults.
pub record Copied : Type 0 where
  pub ref : String
  pub already : Bool
  pub is_partial : Bool
  pub closes : Bool

pub record RunState : Type 0 where
  pub merged : List ℕ
  pub copied : Dict ℕ Copied
  pub log : List Event

-- The ends of a run that are no success.
pub data Stop : Type 0 where
  hub_failed key_error : Stop
  changed : ℕ → Option String → Stop
  conflicts : ℕ → List String → Stop
  mismatch : ℕ → List String → Stop

abbrev pub Landing : Type 0 → Type 0
Landing A = Act RunState Stop A

abbrev pub answer_or_fail : {A : Type 0} → Option A → Landing A
unfolding pure raise
answer_or_fail none = raise hub_failed
answer_or_fail (some a) = pure a

-- A call of the Hub.
unfoldable pub ask : {A : Type 0} → (Option A → Event) → (List Event → Option A) → Landing A
ask event f s = let r = f s.log in answer_or_fail r (record s { log = event r ∷ s.log })

abbrev pub done_if : Bool → Option (Unit {0})
done_if true = some tt
done_if false = none

unfoldable pub close_pr : Hub → ℕ → Comment → Landing Unit
unfolding ask
close_pr hub n text = ask (λ r. closed n) (λ log. done_if (hub.close log n text))

unfoldable pub comment_on : Hub → ℕ → Comment → Landing Unit
unfolding ask
comment_on hub n text = ask (λ r. commented n) (λ log. done_if (hub.comment log n text))

-- `merge` of hf.py where the Hub refuses: the files of its MergeConflict.
abbrev pub found_files : Conflicting → Landing (List String)
unfolding pure raise
found_files no_list = raise hub_failed
found_files unlisted = pure ("(files not listed by the Hub)" ∷ [])
found_files (listed []) = raise hub_failed
found_files (listed (f ∷ fs)) = pure (f ∷ fs)

unfoldable pub refused_merge : Hub → ℕ → String → Landing (List String)
unfolding ask raise occurs lower ◌>>=◌
refused_merge hub n text =
    if not (occurs (codes "conflict") (lower text)) then raise hub_failed else do
      found ← ask (λ r. asked_conflicts n) (λ log. hub.conflicting_files log n)
      found_files found

-- A file is not on main as the pull request has it.
abbrev pub is_wrong : Dict String String → Dict String String → String → Bool
is_wrong landed wanted f = elim (lookup f wanted) [
  | none ↦ true
  | some ident ↦ not (lookup f landed == some ident)
]

-- `merge_by_copy`
unfoldable pub merge_by_copy :
    Hub
    → ℕ
    → Option String
    → List String
    → (String → Bool → Comment)
    → Bool
    → (String → Bool → Landing Unit)
    → Landing Unit
unfolding ask raise close_pr comment_on ◌>>=◌
merge_by_copy hub n head files text closes on_commit = do
  before ← ask (λ r. asked_main) hub.main_sha
  info ← ask (λ r. tried_commit n files) (λ log. hub.create_commit log files head)
  landed ← ask (λ r. read_tree (some info.oid)) (λ log. hub.tree log (some info.oid))
  wanted ← ask (λ r. read_tree head) (λ log. hub.tree log head)
  let already = info.oid == before
  let ref = if already then info.oid else info.commit_url
  let wrong = filter (is_wrong landed wanted) files
  if not (is_empty wrong) then raise (mismatch n wrong) else do
    on_commit ref already
    if closes then close_pr hub n (text ref already) else comment_on hub n (text ref already)
