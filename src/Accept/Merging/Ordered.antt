-- ===== src/Accept/Merging/Ordered.antt =====
-- The order of the calls of Accept/Merging: what a merge and a deletion follow.
use helpmate_tablebase.Effects.{pure}
use helpmate_tablebase.Effects.Keeps.{Keeps, Keeps-pure, Keeps-raise, Keeps-if, Keeps-bind}
use helpmate_tablebase.Base.{
  if◌then◌else◌, any, codes, ℕ, zero, suc, ◌≡◌, refl, ◌⊎◌, inl, inr, true, not, ◌&&◌, ◌||◌, Option,
  none, some, List, [], ◌∷◌, arith, string_eq, pair_eq, nat_eq, option_eq, list_eq, bool_eq,
}
use helpmate_tablebase.Accept.Merging.{
  Command, pr_view, pr_checks, pr_watch, pr_merge, push_delete, ls_remote, delete_local, Process,
  Event, called, View, Outside, Raised, merge_conflict, no_checks, not_json, process_failed,
  git_failed, sleep, call, succeeded, run_checked, parsed, is_merged, is_conflicting, view_once,
  is_settled, view_loop, view, conflicting, occurs, reports_none, checks_loop, merge_now, is_blank,
  remote_branch_gone, delete_remote, delete_branch, merge_open, wait_and_merge,
}
use helpmate_tablebase.Accept.Merging.Keeps.{
  last_call, tells_merged, guarded, Guarded, Keeps-sleep, Keeps-call, Any, Merged,
  Keeps-run_checked,
}

module _ (w : Outside) where
  -- What a view tells of the merge stands in the log.
  Viewed : View → List Event → Type 0
  Viewed v log = is_merged v ≡ true → Merged w log

  Keeps-view_once : Keeps (Guarded w) Any Viewed (view_once w)
  unfolding view_once Viewed
  Keeps-view_once =
      Keeps-bind {Q = λ p log. (v : View) → w.loads p.stdout ≡ some v → Viewed v log}
        (run_checked w pr_view) _
        (Keeps-run_checked w pr_view (λ log z. refl) (λ p log s z v e m. rw (s, e, m) refl))
        (λ p. parsed_case (w.loads p.stdout))
    where
      parsed_case :
          (o : Option View)
          → Keeps (Guarded w) (λ log. (v : View) → o ≡ some v → Viewed v log) Viewed (parsed o)
      parsed_case none = Keeps-raise not_json
      parsed_case (some v) = Keeps-pure v (λ log h. h v refl)

  Keeps-view_loop : (n : ℕ) → Keeps (Guarded w) Any Viewed (view_loop w n)
  unfolding view_loop Viewed
  Keeps-view_loop zero = Keeps-bind (view_once w) _ Keeps-view_once (λ v.
      Keeps-if (is_settled v) _ _ (λ e. Keeps-pure v (λ log h. h))
        (λ e.
          Keeps-bind {Q = λ z log. Viewed v log} (sleep 5) _ (Keeps-sleep w 5 (λ log h. h))
            (λ z. Keeps-pure v (λ log h. h))))
  Keeps-view_loop (suc n) = Keeps-bind (view_once w) _ Keeps-view_once (λ v.
      Keeps-if (is_settled v) _ _ (λ e. Keeps-pure v (λ log h. h))
        (λ e.
          Keeps-bind {Q = λ z. Any} (sleep 5) _ (Keeps-sleep w 5 (λ log h. tt))
            (λ z. Keeps-view_loop n)))

  Keeps-conflicting : {P : List Event → Type 0} → Keeps (Guarded w) P (λ c. Any) (conflicting w)
  unfolding conflicting view
  Keeps-conflicting =
      Keeps-bind {Q = Viewed} (view w) _
        (record { at = λ log g p. (Keeps-view_loop 5).at log g tt })
        (λ v. Keeps-pure (is_conflicting v) (λ log h. tt))

  -- The pull request has checks, and the required ones have passed.
  HasChecks : List Event → Type 0
  HasChecks log = last_call pr_checks (λ p. not (reports_none p)) log ≡ true

  HasPassed : List Event → Type 0
  HasPassed log = last_call pr_watch succeeded log ≡ true

  Keeps-checks_loop : (n : ℕ) → Keeps (Guarded w) Any (λ z. HasChecks) (checks_loop w n)
  unfolding checks_loop HasChecks last_call
  Keeps-checks_loop zero =
      Keeps-bind (conflicting w) _ Keeps-conflicting
        (λ c. Keeps-raise (if c then merge_conflict else no_checks))
  Keeps-checks_loop (suc n) =
      Keeps-bind {Q = λ p log. not (reports_none p) ≡ true → HasChecks log} (call w pr_checks) _
        (Keeps-call w pr_checks (λ log h. refl) (λ p log h e. rw e refl))
        (λ p.
          Keeps-if (not (reports_none p)) _ _ (λ e. Keeps-pure tt (λ log h. h e))
            (λ e.
              Keeps-bind {Q = λ z. Any} (sleep 10) _ (Keeps-sleep w 10 (λ log h. tt))
                (λ z. Keeps-checks_loop n)))

  Keeps-merge_now : Keeps (Guarded w) HasPassed (λ z. Merged w) (merge_now w)
  unfolding merge_now HasPassed
  Keeps-merge_now =
      Keeps-bind {Q = λ p log. succeeded p ≡ true → Merged w log} (call w pr_merge) _
        (Keeps-call w pr_merge (λ log h. h) (λ p log h e. rw e refl))
        (λ p.
          Keeps-if (succeeded p) _ _ (λ e. Keeps-pure tt (λ log h. h e))
            (λ e.
              Keeps-bind (conflicting w) _ Keeps-conflicting
                (λ c. Keeps-raise (if c then merge_conflict else process_failed pr_merge))))

  Keeps-merge_open : (v : View) → Keeps (Guarded w) Any (λ z. Merged w) (merge_open w v)
  unfolding merge_open HasChecks HasPassed last_call
  Keeps-merge_open v =
      Keeps-if (is_conflicting v) _ _ (λ e. Keeps-raise merge_conflict)
        (λ e. Keeps-bind (checks_loop w 12) _ (Keeps-checks_loop 12) (λ z.
          Keeps-bind {Q = λ p. HasPassed} (run_checked w pr_watch) _
            (Keeps-run_checked w pr_watch (λ log h. h) (λ p log s h. rw s refl))
            (λ p. Keeps-merge_now)))

  -- A later call leaves the log showing it.
  later :
      (c : Command) (p : Process) (log : List Event) → Merged w log → Merged w (called c p ∷ log)
  later c p log h = ground arith

  Keeps-delete_remote : Keeps (Guarded w) (Merged w) (λ z. Merged w) (delete_remote w)
  unfolding delete_remote remote_branch_gone
  Keeps-delete_remote =
      Keeps-bind {Q = λ p. Merged w} (call w push_delete) _
        (Keeps-call w push_delete (λ log h. h) (λ p log h. later push_delete p log h))
        (λ p.
          Keeps-if (succeeded p || occurs (codes "remote ref does not exist") (codes p.stderr)) _ _
            (λ e. Keeps-pure tt (λ log h. h))
            (λ e.
              Keeps-bind {Q = λ gone. Merged w} (remote_branch_gone w) _
                (Keeps-bind {Q = λ q. Merged w} (call w ls_remote) _
                  (Keeps-call w ls_remote (λ log h. refl) (λ q log h. later ls_remote q log h))
                  (λ q. Keeps-pure (succeeded q && is_blank q.stdout) (λ log h. h)))
                (λ gone.
                  Keeps-if gone _ _ (λ f. Keeps-pure tt (λ log h. h))
                    (λ f. Keeps-raise (git_failed push_delete)))))

  Keeps-delete_branch : Keeps (Guarded w) (Merged w) (λ z. Merged w) (delete_branch w)
  unfolding delete_branch
  Keeps-delete_branch = Keeps-bind (delete_remote w) _ Keeps-delete_remote (λ z.
      Keeps-bind {Q = λ p. Merged w} (call w delete_local) _
        (Keeps-call w delete_local (λ log h. h) (λ p log h. later delete_local p log h))
        (λ p.
          Keeps-if (succeeded p || occurs (codes "not found") (codes p.stderr)) _ _
            (λ e. Keeps-pure tt (λ log h. h)) (λ e. Keeps-raise (git_failed delete_local))))

  Keeps-wait_and_merge : Keeps (Guarded w) Any (λ z. Merged w) (wait_and_merge w)
  unfolding wait_and_merge view Viewed
  Keeps-wait_and_merge = Keeps-bind (view w) _ (Keeps-view_loop 5) (λ v.
      Keeps-bind {Q = λ z. Merged w} (if is_merged v then pure tt else merge_open w v) _
        (Keeps-if (is_merged v) _ _ (λ e. Keeps-pure tt (λ log h. h e))
          (λ e. record { at = λ log g p. (Keeps-merge_open v).at log g tt }))
        (λ z. Keeps-delete_branch))

raises_or_returns : (r : Raised ⊎ Unit {0}) → ((e : Raised) × (r ≡ inl e)) ⊎ (r ≡ inr tt)
raises_or_returns (inl e) = inl (e, refl)
raises_or_returns (inr tt) = inr refl

-- Whatever gh and git answer, the required checks are watched only at once after a report that has
-- checks, the merge is called only at once after a watch that succeeded, and the branch is deleted,
-- on origin and here, only where a view or a merge that succeeded has shown the pull request merged;
-- and `wait_and_merge` raises, or the log shows it merged.
pub wait_and_merge-guarded :
    (w : Outside)
    → (guarded w (wait_and_merge w []).1 ≡ true)
      × (((e : Raised) × ((wait_and_merge w []).0 ≡ inl e))
          ⊎ (any (tells_merged w) (wait_and_merge w []).1 ≡ true))
unfolding guarded
wait_and_merge-guarded w =
    let (g, q) = (Keeps-wait_and_merge w).at [] refl tt in
    (g, elim (raises_or_returns (wait_and_merge w []).0) [ inl x ↦ inl x | inr h ↦ inr (q tt h) ])
