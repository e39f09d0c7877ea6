-- ===== src/Accept/Landing/Acts.antt =====
-- One round of the merge step, on a pull request that no earlier run touched.
use helpmate_tablebase.Base.{
  is_empty, ◌==◌, contains, In, In-append_right, all, lookup, ℕ, String, ◌≡◌, refl, inl, inr, Bool,
  true, false, not, ◌||◌, Option, none, some, List, [], ◌∷◌, string_eq, pair_eq, nat_eq, option_eq,
  list_eq, bool_eq,
}
use helpmate_tablebase.Effects.{pure, raise, ◌>>=◌}
use helpmate_tablebase.Effects.Keeps.{
  Keeps, Keeps-pure, Keeps-raise, Keeps-if, Keeps-weaken, Keeps-bind,
}
use helpmate_tablebase.Accept.Hub.{
  asked_head, tried_merge, Note, whole_copy, partial_copy, thanks, Hub, RunState, key_error,
  changed, conflicts, Landing, ask, refused_merge, close_pr, comment_on, Copied,
}
use helpmate_tablebase.Accept.Landing.{
  after_merge, Job, Item, planned, plan_for, notes, record_copy, copy_whole, merge_whole,
  part_files, copy_part, act_on, land_fresh, settle_pr, mark_merged, land_one,
}
use helpmate_tablebase.Accept.Landing.Checked.{Any}
use helpmate_tablebase.Accept.Landing.Acted.{
  Occurs, Merges, Commits, Acted, Ended, close_pr-Closes, comment_on-Comments, record_copy-log,
  merge_by_copy-Commits, asked,
}
use helpmate_tablebase.Accept.Plan.{Action, merge, copy_close, copy_open, comment, close}

-- What is known where code returns may be weakened.
returned :
    {A : Type 0} {P : RunState → Type 0} {Q R : A → RunState → Type 0} (m : Landing A)
    → ((a : A) (s : RunState) → Q a s → R a s)
    → Keeps Any P Q m
    → Keeps Any P R m
returned m f k = record { at = λ s g p. (tt, λ a e. f a (m s).1 ((k.at s g p).1 a e)) }

-- Nothing need be known.
nothing_known : {A : Type 0} {P : RunState → Type 0} (m : Landing A) → Keeps Any P (λ a. Any) m
nothing_known m = record { at = λ s g p. (tt, λ a e. tt) }

module _ (hub : Hub) (n : ℕ) (it : Item) where
  copy_whole-Acted :
      (files : List String)
      → Keeps Any Any (λ z s. Acted hub n it merge s.log) (copy_whole hub n it files)
  unfolding copy_whole
  copy_whole-Acted files =
      Keeps-if (is_empty files || not (all (λ f. f == ".gitattributes") files)) _ _
        (λ e. Keeps-raise (conflicts n files))
        (λ e.
          returned _ (λ a s q. inr q)
            (merge_by_copy-Commits hub n it.pull.head it.pull.files
              (λ ref already. whole_copy ref it.pull.head already) true
              (λ ref already. record_copy n false true ref already)
              (λ ref already.
                record_copy-log hub n (Occurs (Commits hub n it.pull.head it.pull.files)) false true
                  ref already)))

  after_merge-Acted :
      (refused : Option String)
      → Keeps Any
          (λ s. refused ≡ none → Occurs (Merges hub n) s.log)
          (λ z s. Acted hub n it merge s.log)
          (after_merge hub n it refused)
  unfolding pure ◌>>=◌ refused_merge copy_whole
  after_merge-Acted none = Keeps-pure tt (λ s p. inl (p refl))
  after_merge-Acted (some text) =
      Keeps-bind {Q = λ z. Any} (refused_merge hub n text) (copy_whole hub n it)
        (nothing_known (refused_merge hub n text)) copy_whole-Acted

  copy_part-Acted :
      (ns : List Note) (closes : Bool)
      → Keeps Any Any
          (λ z s.
            Occurs (Commits hub n it.pull.head (part_files it it.plan.publishes)) s.log
            × Ended hub n closes s.log)
          (copy_part hub n it ns closes)
  unfolding copy_part
  copy_part-Acted ns closes =
      merge_by_copy-Commits hub n it.pull.head (part_files it it.plan.publishes)
        (λ ref already. partial_copy ref it.pull.head already it.plan.publishes ns) closes
        (λ ref already. record_copy n true (is_empty it.plan.holds) ref already)
        (λ ref already.
          record_copy-log hub n
            (Occurs (Commits hub n it.pull.head (part_files it it.plan.publishes))) true
            (is_empty it.plan.holds) ref already)

  act_on-Acted :
      (ns : List Note) (a : Action)
      → Keeps Any Any (λ z s. Acted hub n it a s.log) (act_on hub n it ns a)
  unfolding merge_whole copy_part close_pr comment_on
  act_on-Acted ns merge =
      Keeps-bind {Q = λ r s. r ≡ none → Occurs (Merges hub n) s.log}
        (ask (λ r. tried_merge n) (λ log. some (hub.merge_pull_request log n))) _
        (asked hub n (λ r. tried_merge n) (λ log. some (hub.merge_pull_request log n))
          (λ s a e p h. inl (refl, cc)))
        after_merge-Acted
  act_on-Acted ns copy_close = copy_part-Acted ns true
  act_on-Acted ns copy_open = copy_part-Acted ns false
  act_on-Acted ns comment =
      returned _ (λ a s q. q.1)
        (Keeps-weaken _ (λ s p. tt)
          (comment_on-Comments hub n (λ log. Unit) (thanks ns) (λ e log p. tt)))
  act_on-Acted ns close =
      returned _ (λ a s q. q.1)
        (Keeps-weaken _ (λ s p. tt)
          (close_pr-Closes hub n (λ log. Unit) (thanks ns) (λ e log p. tt)))

  land_fresh-Acted :
      (ns : List Note)
      → Keeps Any Any (λ z s. Acted hub n it it.plan.action s.log) (land_fresh hub n it ns)
  unfolding land_fresh
  land_fresh-Acted ns =
      Keeps-bind {Q = λ a. Any} (ask (λ r. asked_head n r) (λ log. hub.pr_head log n)) _
        (nothing_known (ask (λ r. asked_head n r) (λ log. hub.pr_head log n)))
        (λ now.
          Keeps-if (not (now == it.pull.head)) _ _ (λ e. Keeps-raise (changed n now))
            (λ e. act_on-Acted ns it.plan.action))

-- No earlier run touched the pull request.
abbrev pub IsFresh : ℕ → RunState → Type 0
IsFresh n s = (contains s.merged n ≡ false) × (lookup n s.copied ≡ none)

-- The pull request is done with as its plan says, and merged in the run's state.
abbrev pub IsDone : Hub → Job → ℕ → RunState → Type 0
IsDone hub job n s =
    ((it : Item) × (planned job n ≡ some it) × Acted hub n it it.plan.action s.log) × In n s.merged

module _ (hub : Hub) (job : Job) (n : ℕ) (untouched : contains job.hand_merged n ≡ false) where
  settle_pr-Acted :
      (it : Item) (o : Option Copied)
      → o ≡ none
      → Keeps Any Any (λ z s. Acted hub n it it.plan.action s.log) (settle_pr hub job n it o)
  unfolding settle_pr
  settle_pr-Acted it (some c) e = absurd (cc)
  settle_pr-Acted it none e = rw untouched (land_fresh-Acted hub n it (notes job n it))

  plan_for-planned :
      {P : RunState → Type 0}
      → Keeps Any P (λ it s. (planned job n ≡ some it) × P s) (plan_for job n)
  unfolding plan_for
  plan_for-planned {P = P} = of_planned (planned job n) refl
    where
      of_planned :
          (o : Option Item)
          → planned job n ≡ o
          → Keeps Any P
              (λ it s. (planned job n ≡ some it) × P s)
              (elim o [ none ↦ raise key_error | some it ↦ pure it ])
      of_planned none e = Keeps-raise key_error
      of_planned (some it) e = Keeps-pure it (λ s p. (e, p))

  mark_merged-IsDone :
      (it : Item)
      → planned job n ≡ some it
      → Keeps Any (λ s. Acted hub n it it.plan.action s.log) (λ z. IsDone hub job n) (mark_merged n)
  unfolding mark_merged pure
  mark_merged-IsDone it e = record {
    at = λ s g p. (tt, λ a q. ((it, e, p), In-append_right n s.merged (n ∷ []) (inl refl)));
  }

  pub land_one-IsDone : Keeps Any (IsFresh n) (λ z. IsDone hub job n) (land_one hub job n)
  unfolding land_one
  land_one-IsDone = record {
    at = λ s g (fresh, no_copy). rw fresh (
        (Keeps-bind {Q = λ it x. (planned job n ≡ some it) × Unit} {P = Any} (plan_for job n) _
            (plan_for-planned {P = Any})
            (λ it. known (planned job n ≡ some it) _ (λ e.
              Keeps-bind {Q = λ z x. Acted hub n it it.plan.action x.log}
                (settle_pr hub job n it (lookup n s.copied)) _
                (settle_pr-Acted it (lookup n s.copied) no_copy)
                (λ z. mark_merged-IsDone it e)))).at
          s g tt);
  }
    where
      known :
          {A : Type 0} (X : Type 0) {Q : A → RunState → Type 0} (m : Landing A)
          → (X → Keeps Any Any Q m)
          → Keeps Any (λ s. X × Unit) Q m
      known X m k = record { at = λ s g x. (k x.0).at s g tt }
