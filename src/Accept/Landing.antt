-- ===== src/Accept/Landing.antt =====
-- contrib/accept.py, the merge step of `accept`: how the pull requests of a run land on the dataset.
pub mod Checked
pub mod Items
pub mod Calls
pub mod Order
pub mod Acted
pub mod Acts
pub mod Lasting
pub mod Safe
use mathlib.Core.Option
use helpmate_tablebase.Base.{
  is_empty, ◌==◌, ltb, if◌then◌else◌, filter, all, contains, get_or_else, sorted_by, map, Dict,
  lookup, insert, codes, lower, ℕ, String, ◌<>◌, Bool, true, false, not, ◌&&◌, ◌||◌, Option, none,
  some, List, [], ◌∷◌, ◌++◌, string_eq, pair_eq, nat_eq, option_eq, list_eq, bool_eq,
}
use helpmate_tablebase.Effects.{Act, pure, raise, ◌>>=◌, ◌>>◌}
use helpmate_tablebase.Claims.{PullRequest}
use helpmate_tablebase.Accept.{Reason, Decision}
use helpmate_tablebase.Accept.Merging.{occurs}
use helpmate_tablebase.Accept.Plan.{
  Action, merge, copy_close, copy_open, comment, close, PrPlan, pr_plan,
}
use helpmate_tablebase.Accept.Hub.{
  Event, Note, Comment, Conflicting, CommitInfo, Hub, Copied, RunState, Stop, Landing,
  answer_or_fail, ask, done_if, close_pr, comment_on, found_files, refused_merge, merge_by_copy,
  asked_head, tried_merge, asked_conflicts, asked_status, asked_main, tried_commit, read_tree,
  closed, commented, already_in, identical, waiting, stays_open, whole_copy, partial_copy, thanks,
  no_list, unlisted, listed, hub_failed, key_error, changed, conflicts, mismatch,
}

-- What is fixed in the merge step.
pub record Job : Type 0 where
  pub prs : List ℕ
  pub pulls : Dict ℕ PullRequest
  pub decided : Dict String Decision
  pub own : Dict ℕ (List String)
  pub hand_merged : List ℕ

-- What the loop of the merge step has of a pull request: `plan(n)`.
pub record Item : Type 0 where
  pub pull : PullRequest
  pub plan : PrPlan

unfoldable pub planned : Job → ℕ → Option Item
unfolding pr_plan
planned job n = elim (lookup n job.pulls) [
  | none ↦ none
  | some pr ↦
      let pull = record pr { num = n } in
      Option.map (λ p. record { pull = pull; plan = p })
        (pr_plan pull job.decided (get_or_else (lookup n job.own) []))
]

unfoldable pub plan_for : Job → ℕ → Landing Item
unfolding planned pure raise
plan_for job n = elim (planned job n) [ none ↦ raise key_error | some it ↦ pure it ]

waiting_notes : Dict String Decision → List String → List Note
waiting_notes decided [] = []
waiting_notes decided (m ∷ ms) =
    let rest = waiting_notes decided ms in
    elim (lookup m decided) [ none ↦ rest | some d ↦ waiting m d.reason ∷ rest ]

-- `_notes`, for a material whose decision is known
unfoldable pub notes : Job → ℕ → Item → List Note
unfolding waiting_notes
notes job n it =
    let own = get_or_else (lookup n job.own) [] in
    (if is_empty own then [] else already_in own ∷ [])
    ++ (if is_empty it.plan.credits then [] else identical it.plan.credits ∷ [])
    ++ waiting_notes job.decided it.plan.holds
    ++ (if is_empty it.plan.holds then [] else stays_open ∷ [])

-- `record`
unfoldable pub record_copy : ℕ → Bool → Bool → String → Bool → Landing Unit
unfolding pure
record_copy n is_partial closes ref already s =
    let c : Copied = record {
      ref = ref;
      already = already;
      is_partial = is_partial;
      closes = closes;
    } in
    pure tt (record s { copied = insert n c s.copied })

-- A pull request that an interrupted run copied.
unfoldable pub finish_copied : Hub → ℕ → Item → List Note → Copied → Landing Unit
unfolding ask close_pr comment_on pure ◌>>=◌
finish_copied hub n it ns c =
    let text =
      if c.is_partial
      then partial_copy c.ref it.pull.head c.already it.plan.publishes ns
      else whole_copy c.ref it.pull.head c.already in
    if not c.closes then comment_on hub n text else do
      status ← ask (λ r. asked_status n) (λ log. hub.status log n)
      if status == "open" then close_pr hub n text else pure tt

-- What follows the Hub's answer to a merge: MergeConflict, or nothing.
unfoldable pub copy_whole : Hub → ℕ → Item → List String → Landing Unit
unfolding merge_by_copy record_copy raise
copy_whole hub n it files =
    if is_empty files || not (all (λ f. f == ".gitattributes") files)
    then raise (conflicts n files)
    else merge_by_copy hub n it.pull.head it.pull.files
        (λ ref already. whole_copy ref it.pull.head already) true
        (λ ref already. record_copy n false true ref already)

abbrev pub after_merge : Hub → ℕ → Item → Option String → Landing Unit
unfolding refused_merge copy_whole pure ◌>>=◌
after_merge hub n it none = pure tt
after_merge hub n it (some text) = refused_merge hub n text >>= copy_whole hub n it

unfoldable pub merge_whole : Hub → ℕ → Item → Landing Unit
unfolding ask refused_merge copy_whole pure ◌>>=◌
merge_whole hub n it = do
  refused ← ask (λ r. tried_merge n) (λ log. some (hub.merge_pull_request log n))
  after_merge hub n it refused

unfoldable pub part_files : Item → List String → List String
part_files it [] = []
part_files it (m ∷ ms) =
    filter (contains it.pull.files) ((m <> ".hm") ∷ (m <> ".stats.json") ∷ []) ++ part_files it ms

unfoldable pub copy_part : Hub → ℕ → Item → List Note → Bool → Landing Unit
unfolding merge_by_copy part_files record_copy
copy_part hub n it ns closes =
    merge_by_copy hub n it.pull.head (part_files it it.plan.publishes)
      (λ ref already. partial_copy ref it.pull.head already it.plan.publishes ns) closes
      (λ ref already. record_copy n true (is_empty it.plan.holds) ref already)

abbrev pub act_on : Hub → ℕ → Item → List Note → Action → Landing Unit
unfolding merge_whole copy_part close_pr comment_on
act_on hub n it ns merge = merge_whole hub n it
act_on hub n it ns copy_close = copy_part hub n it ns true
act_on hub n it ns copy_open = copy_part hub n it ns false
act_on hub n it ns comment = comment_on hub n (thanks ns)
act_on hub n it ns close = close_pr hub n (thanks ns)

-- A pull request that no earlier run touched.
unfoldable pub land_fresh : Hub → ℕ → Item → List Note → Landing Unit
unfolding ask merge_whole copy_part close_pr comment_on raise ◌>>=◌
land_fresh hub n it ns = do
  now ← ask (λ r. asked_head n r) (λ log. hub.pr_head log n)
  if not (now == it.pull.head) then raise (changed n now) else act_on hub n it ns it.plan.action

-- The branches of the loop.
unfoldable pub settle_pr : Hub → Job → ℕ → Item → Option Copied → Landing Unit
unfolding finish_copied land_fresh notes pure
settle_pr hub job n it (some c) = finish_copied hub n it (notes job n it) c
settle_pr hub job n it none =
    if contains job.hand_merged n then pure tt else land_fresh hub n it (notes job n it)

unfoldable pub mark_merged : ℕ → Landing Unit
unfolding pure
mark_merged n s = pure tt (record s { merged = s.merged ++ (n ∷ []) })

unfoldable pub land_one : Hub → Job → ℕ → Landing Unit
unfolding plan_for settle_pr mark_merged pure ◌>>=◌
land_one hub job n s =
    if contains s.merged n
    then pure tt s
    else (do it ← plan_for job n; settle_pr hub job n it (lookup n s.copied); mark_merged n) s

unfoldable pub land_all : Hub → Job → List ℕ → Landing Unit
unfolding land_one pure ◌>>=◌
land_all hub job [] = pure tt
land_all hub job (n ∷ ns) = do land_one hub job n; land_all hub job ns

-- The keys of the sort.
unfoldable pub order_keys : Job → List ℕ → Option (List (Bool × ℕ))
order_keys job [] = some []
order_keys job (n ∷ ns) =
    let rest = order_keys job ns in
    elim (planned job n) [
      | none ↦ none
      | some it ↦ Option.map (λ ks. (is_empty it.plan.publishes, n) ∷ ks) rest
    ]

abbrev pub key_less : Bool × ℕ → Bool × ℕ → Bool
key_less (a, m) (b, n) = (not a && b) || (a == b && ltb m n)

-- sorted(prs, key=...)
unfoldable pub merge_order : Job → Option (List ℕ)
unfolding order_keys planned
merge_order job = Option.map (λ ks. map (λ k. k.1) (sorted_by key_less ks)) (order_keys job job.prs)

-- The merge step.
unfoldable pub merge_step : Hub → Job → Landing Unit
unfolding merge_order land_all raise
merge_step hub job = elim (merge_order job) [
  | none ↦ raise key_error
  | some ns ↦ land_all hub job ns
]
