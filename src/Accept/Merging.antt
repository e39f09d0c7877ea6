-- ===== src/Accept/Merging.antt =====
-- contrib/accept.py, `Git.wait_and_merge` and what it calls: the view of a pull request of the
-- documentation, the wait for its checks, the merge, and the deletion of its branch. What gh and git
-- answer is an argument; the calls made so far are the state, the last one first.
pub mod Keeps
pub mod Ordered
use Prim.Native.Char.{code}
use helpmate_tablebase.Base.{
  is_empty, leb, ◌==◌, if◌then◌else◌, all, codes, lower, ℕ, zero, suc, String, inr, Bool, true,
  false, not, ◌&&◌, ◌||◌, Option, none, some, List, [], ◌∷◌, ◌++◌, string_eq, pair_eq, nat_eq,
  option_eq, list_eq, bool_eq,
}
use helpmate_tablebase.Effects.{Act, pure, raise, ◌>>=◌, ◌>>◌}

-- The commands, less the address of the pull request and the name of the branch.
pub data Command : Type 0 where
  pr_view pr_checks pr_watch pr_merge push_delete ls_remote delete_local : Command

-- A finished process; of its return code only whether it is 0 matters.
pub record Process : Type 0 where
  pub returncode : ℕ
  pub stdout : String
  pub stderr : String

pub data Event : Type 0 where
  called : Command → Process → Event
  slept : ℕ → Event

-- What `gh pr view` tells; `none` for a missing key.
pub record View : Type 0 where
  pub state : Option String
  pub mergeable : Option String

-- The runner, which may answer differently each time, and json.loads on a stripped output, `none`
-- for a ValueError.
pub record Outside : Type 0 where
  pub run : List Event → Command → Process
  pub loads : String → Option View

-- The exceptions.
pub data Raised : Type 0 where
  merge_conflict no_checks not_json : Raised
  process_failed git_failed : Command → Raised

abbrev pub GitAct : Type 0 → Type 0
GitAct A = Act (List Event) Raised A

-- self._sleep
unfoldable pub sleep : ℕ → GitAct Unit
sleep n log = (inr tt, slept n ∷ log)

-- self._run(..., check=False)
unfoldable pub call : Outside → Command → GitAct Process
call w c log = let p = w.run log c in (inr p, called c p ∷ log)

abbrev pub succeeded : Process → Bool
succeeded p = p.returncode == 0

-- self._run with its check
unfoldable pub run_checked : Outside → Command → GitAct Process
unfolding call pure raise ◌>>=◌
run_checked w c = do p ← call w c; if succeeded p then pure p else raise (process_failed c)

abbrev pub parsed : Option View → GitAct View
unfolding pure raise
parsed none = raise not_json
parsed (some v) = pure v

abbrev pub is_merged : View → Bool
is_merged v = v.state == some "MERGED"

abbrev pub is_conflicting : View → Bool
is_conflicting v = v.mergeable == some "CONFLICTING"

-- json.loads(self._out("gh", "pr", "view", ...))
unfoldable pub view_once : Outside → GitAct View
unfolding run_checked ◌>>=◌
view_once w = do p ← run_checked w pr_view; parsed (w.loads p.stdout)

abbrev pub is_settled : View → Bool
is_settled v = is_merged v || not (v.mergeable == some "UNKNOWN")

-- The loop of `_view`, with the rounds that follow this one.
unfoldable pub view_loop : Outside → ℕ → GitAct View
unfolding view_once sleep pure ◌>>=◌
view_loop w zero = do v ← view_once w; if is_settled v then pure v else do sleep 5; pure v
view_loop w (suc n) = do v ← view_once w; if is_settled v then pure v else do sleep 5; view_loop w n

-- `_view`
unfoldable pub view : Outside → GitAct View
unfolding view_loop
view w = view_loop w 5

-- `_conflicting`
unfoldable pub conflicting : Outside → GitAct Bool
unfolding view pure ◌>>=◌
conflicting w = do v ← view w; pure (is_conflicting v)

-- a text is at the front of another, and in it
unfoldable pub is_prefix : List ℕ → List ℕ → Bool
is_prefix [] s = true
is_prefix (c ∷ p) [] = false
is_prefix (c ∷ p) (d ∷ s) = let rest = is_prefix p s in c == d && rest

unfoldable pub occurs : List ℕ → List ℕ → Bool
unfolding is_prefix
occurs p [] = is_empty p
occurs p (c ∷ s) = let rest = occurs p s in is_prefix p (c ∷ s) || rest

-- _NO_CHECKS in (r.stdout + r.stderr).lower()
unfoldable pub reports_none : Process → Bool
unfolding occurs lower
reports_none p = occurs (codes "no checks reported") (lower p.stdout ++ lower p.stderr)

-- The loop of `wait_and_merge`, with the rounds left, and what follows where none broke it off.
unfoldable pub checks_loop : Outside → ℕ → GitAct Unit
unfolding conflicting call sleep reports_none pure raise ◌>>=◌
checks_loop w zero = do c ← conflicting w; raise (if c then merge_conflict else no_checks)
checks_loop w (suc n) = do
  p ← call w pr_checks
  if not (reports_none p) then pure tt else do sleep 10; checks_loop w n

-- The merge, and what its failure raises.
unfoldable pub merge_now : Outside → GitAct Unit
unfolding conflicting call pure raise ◌>>=◌
merge_now w = do
  p ← call w pr_merge
  if succeeded p
      then pure tt
      else do c ← conflicting w; raise (if c then merge_conflict else process_failed pr_merge)

abbrev is_space : ℕ → Bool
is_space c = c == b' ' || (leb 9 c && leb c 13) || (leb 28 c && leb c 31)

-- not s.strip(), on ASCII text
abbrev pub is_blank : String → Bool
is_blank s = all is_space (codes s)

-- `_remote_branch_gone`
unfoldable pub remote_branch_gone : Outside → GitAct Bool
unfolding call pure ◌>>=◌
remote_branch_gone w = do p ← call w ls_remote; pure (succeeded p && is_blank p.stdout)

-- The first half of `_delete_branch`.
unfoldable pub delete_remote : Outside → GitAct Unit
unfolding call pure raise remote_branch_gone occurs ◌>>=◌
delete_remote w = do
  p ← call w push_delete
  if succeeded p || occurs (codes "remote ref does not exist") (codes p.stderr)
      then pure tt
      else do gone ← remote_branch_gone w; if gone then pure tt else raise (git_failed push_delete)

-- `_delete_branch`
unfoldable pub delete_branch : Outside → GitAct Unit
unfolding call pure raise delete_remote occurs ◌>>=◌
delete_branch w = do
  delete_remote w
  p ← call w delete_local
  if succeeded p || occurs (codes "not found") (codes p.stderr)
      then pure tt
      else raise (git_failed delete_local)

-- What `wait_and_merge` does with an open pull request.
unfoldable pub merge_open : Outside → View → GitAct Unit
unfolding checks_loop run_checked merge_now raise ◌>>=◌
merge_open w v =
    if is_conflicting v
    then raise merge_conflict
    else do checks_loop w 12; run_checked w pr_watch; merge_now w

-- `wait_and_merge`
unfoldable pub wait_and_merge : Outside → GitAct Unit
unfolding view merge_open delete_branch pure ◌>>=◌
wait_and_merge w = do v ← view w; if is_merged v then pure tt else merge_open w v; delete_branch w
