-- ===== src/Accept/Landing/Lasting.antt =====
-- What no round of the merge step undoes.
use helpmate_tablebase.Base.{
  is_empty, ◌==◌, contains, if◌then◌else◌, all, codes, lower, lookup, filter, insert, ℕ, String,
  ◌≡◌, refl, inr, Bool, true, false, not, ◌||◌, Option, none, some, List, [], ◌∷◌, ◌++◌, string_eq,
  pair_eq, nat_eq, option_eq, list_eq, bool_eq,
}
use helpmate_tablebase.Effects.{pure, raise, ◌>>=◌}
use helpmate_tablebase.Effects.Keeps.{Keeps, Keeps-pure, Keeps-raise, Keeps-if, Keeps-bind}
use helpmate_tablebase.Accept.Hub.{
  asked_head, tried_merge, asked_conflicts, asked_main, asked_status, tried_commit, read_tree,
  closed, commented, Note, Event, Comment, Conflicting, no_list, unlisted, listed, whole_copy,
  partial_copy, thanks, Hub, RunState, hub_failed, key_error, changed, conflicts, mismatch, Landing,
  answer_or_fail, ask, done_if, found_files, refused_merge, is_wrong, merge_by_copy, close_pr,
  comment_on, Copied,
}
use helpmate_tablebase.Accept.Landing.{
  after_merge, Job, Item, planned, plan_for, notes, record_copy, finish_copied, copy_whole,
  merge_whole, part_files, copy_part, act_on, land_fresh, settle_pr, mark_merged, land_one,
}
use helpmate_tablebase.Accept.Landing.Checked.{Any}
use helpmate_tablebase.Accept.Plan.{Action, merge, copy_close, copy_open, comment, close}
use helpmate_tablebase.Accept.Merging.{occurs}

-- A condition on the run's state that outlasts a call of the Hub, and a copy or a merge of `n`.
pub record Lasts (n : ℕ) (I : RunState → Type 0) : Type 0 where
  pub calls : (s : RunState) (e : Event) → I s → I (record s { log = e ∷ s.log })
  pub copies : (s : RunState) (c : Copied) → I s → I (record s { copied = insert n c s.copied })
  pub marks : (s : RunState) → I s → I (record s { merged = s.merged ++ (n ∷ []) })

module _ (hub : Hub) (n : ℕ) {I : RunState → Type 0} (l : Lasts n I) where
  abbrev Kept : {A : Type 0} → Landing A → Type 0
  Kept m = Keeps I Any (λ a. Any) m

  answered-Kept : {A : Type 0} (r : Option A) (s : RunState) → I s → I (answer_or_fail r s).1
  unfolding pure raise
  answered-Kept none s g = g
  answered-Kept (some a) s g = g

  ask-Kept :
      {A : Type 0} (event : Option A → Event) (f : List Event → Option A) → Kept (ask event f)
  unfolding ask
  ask-Kept event f = record {
    at = λ s g p. (
      answered-Kept (f s.log) (record s { log = event (f s.log) ∷ s.log })
          (l.calls s (event (f s.log)) g),
      λ a e. tt,
    );
  }

  then-Kept :
      {A B : Type 0} (m : Landing A) (f : A → Landing B)
      → Kept m
      → ((a : A) → Kept (f a))
      → Kept (m >>= f)
  then-Kept m f km kf = Keeps-bind {Q = λ a. Any} m f km kf

  close_pr-Kept : (text : Comment) → Kept (close_pr hub n text)
  unfolding close_pr
  close_pr-Kept text = ask-Kept (λ r. closed n) (λ log. done_if (hub.close log n text))

  comment_on-Kept : (text : Comment) → Kept (comment_on hub n text)
  unfolding comment_on
  comment_on-Kept text = ask-Kept (λ r. commented n) (λ log. done_if (hub.comment log n text))

  record_copy-Kept :
      (is_partial closes : Bool) (ref : String) (already : Bool)
      → Kept (record_copy n is_partial closes ref already)
  unfolding record_copy pure
  record_copy-Kept is_partial closes ref already = record {
    at = λ s g p. (l.copies s _ g, λ a e. tt);
  }

  merge_by_copy-Kept :
      (head : Option String) (files : List String) (text : String → Bool → Comment) (closes : Bool)
      (on_commit : String → Bool → Landing Unit)
      → ((ref : String) (already : Bool) → Kept (on_commit ref already))
      → Kept (merge_by_copy hub n head files text closes on_commit)
  unfolding merge_by_copy
  merge_by_copy-Kept head files text closes on_commit k =
      then-Kept (ask (λ r. asked_main) hub.main_sha) _ (ask-Kept (λ r. asked_main) hub.main_sha)
        (λ before.
          then-Kept (ask (λ r. tried_commit n files) (λ log. hub.create_commit log files head)) _
            (ask-Kept (λ r. tried_commit n files) (λ log. hub.create_commit log files head))
            (λ info.
              then-Kept (ask (λ r. read_tree (some info.oid)) (λ log. hub.tree log (some info.oid)))
                _ (ask-Kept (λ r. read_tree (some info.oid)) (λ log. hub.tree log (some info.oid)))
                (λ landed.
                  then-Kept (ask (λ r. read_tree head) (λ log. hub.tree log head)) _
                    (ask-Kept (λ r. read_tree head) (λ log. hub.tree log head))
                    (λ wanted.
                      let already = info.oid == before in
                      let ref = if already then info.oid else info.commit_url in
                      let wrong = filter (is_wrong landed wanted) files in
                      Keeps-if (not (is_empty wrong)) _ _ (λ e. Keeps-raise (mismatch n wrong))
                        (λ e. then-Kept (on_commit ref already) _ (k ref already) (λ z.
                          Keeps-if closes _ _ (λ c. close_pr-Kept (text ref already))
                            (λ c. comment_on-Kept (text ref already))))))))

  found_files-Kept : (found : Conflicting) → Kept (found_files found)
  unfolding pure raise
  found_files-Kept no_list = Keeps-raise hub_failed
  found_files-Kept unlisted = Keeps-pure ("(files not listed by the Hub)" ∷ []) (λ s p. tt)
  found_files-Kept (listed []) = Keeps-raise hub_failed
  found_files-Kept (listed (f ∷ fs)) = Keeps-pure (f ∷ fs) (λ s p. tt)

  refused_merge-Kept : (text : String) → Kept (refused_merge hub n text)
  unfolding refused_merge
  refused_merge-Kept text =
      Keeps-if (not (occurs (codes "conflict") (lower text))) _ _ (λ e. Keeps-raise hub_failed)
        (λ e.
          then-Kept (ask (λ r. asked_conflicts n) (λ log. hub.conflicting_files log n)) _
            (ask-Kept (λ r. asked_conflicts n) (λ log. hub.conflicting_files log n))
            found_files-Kept)

  module _ (it : Item) where
    copy_whole-Kept : (files : List String) → Kept (copy_whole hub n it files)
    unfolding copy_whole
    copy_whole-Kept files =
        Keeps-if (is_empty files || not (all (λ f. f == ".gitattributes") files)) _ _
          (λ e. Keeps-raise (conflicts n files))
          (λ e.
            merge_by_copy-Kept it.pull.head it.pull.files
              (λ ref already. whole_copy ref it.pull.head already) true
              (λ ref already. record_copy n false true ref already) (record_copy-Kept false true))

    after_merge-Kept : (refused : Option String) → Kept (after_merge hub n it refused)
    unfolding pure ◌>>=◌ refused_merge copy_whole
    after_merge-Kept none = Keeps-pure tt (λ s p. tt)
    after_merge-Kept (some text) =
        then-Kept (refused_merge hub n text) (copy_whole hub n it) (refused_merge-Kept text)
          copy_whole-Kept

    copy_part-Kept : (ns : List Note) (closes : Bool) → Kept (copy_part hub n it ns closes)
    unfolding copy_part
    copy_part-Kept ns closes =
        merge_by_copy-Kept it.pull.head (part_files it it.plan.publishes)
          (λ ref already. partial_copy ref it.pull.head already it.plan.publishes ns) closes
          (λ ref already. record_copy n true (is_empty it.plan.holds) ref already)
          (record_copy-Kept true (is_empty it.plan.holds))

    act_on-Kept : (ns : List Note) (a : Action) → Kept (act_on hub n it ns a)
    unfolding merge_whole copy_part close_pr comment_on
    act_on-Kept ns merge =
        then-Kept (ask (λ r. tried_merge n) (λ log. some (hub.merge_pull_request log n))) _
          (ask-Kept (λ r. tried_merge n) (λ log. some (hub.merge_pull_request log n)))
          after_merge-Kept
    act_on-Kept ns copy_close = copy_part-Kept ns true
    act_on-Kept ns copy_open = copy_part-Kept ns false
    act_on-Kept ns comment = comment_on-Kept (thanks ns)
    act_on-Kept ns close = close_pr-Kept (thanks ns)

    land_fresh-Kept : (ns : List Note) → Kept (land_fresh hub n it ns)
    unfolding land_fresh
    land_fresh-Kept ns =
        then-Kept (ask (λ r. asked_head n r) (λ log. hub.pr_head log n)) _
          (ask-Kept (λ r. asked_head n r) (λ log. hub.pr_head log n))
          (λ now.
            Keeps-if (not (now == it.pull.head)) _ _ (λ e. Keeps-raise (changed n now))
              (λ e. act_on-Kept ns it.plan.action))

    finish_copied-Kept : (ns : List Note) (c : Copied) → Kept (finish_copied hub n it ns c)
    unfolding finish_copied
    finish_copied-Kept ns c =
        let text =
          if c.is_partial
          then partial_copy c.ref it.pull.head c.already it.plan.publishes ns
          else whole_copy c.ref it.pull.head c.already in
        Keeps-if (not c.closes) _ _ (λ e. comment_on-Kept text)
          (λ e.
            then-Kept (ask (λ r. asked_status n) (λ log. hub.status log n)) _
              (ask-Kept (λ r. asked_status n) (λ log. hub.status log n))
              (λ status.
                Keeps-if (status == "open") _ _ (λ q. close_pr-Kept text)
                  (λ q. Keeps-pure tt (λ s p. tt))))

  module _ (job : Job) where
    settle_pr-Kept : (it : Item) (o : Option Copied) → Kept (settle_pr hub job n it o)
    unfolding settle_pr
    settle_pr-Kept it (some c) = finish_copied-Kept it (notes job n it) c
    settle_pr-Kept it none =
        Keeps-if (contains job.hand_merged n) _ _ (λ e. Keeps-pure tt (λ s p. tt))
          (λ e. land_fresh-Kept it (notes job n it))

    plan_for-Kept : Kept (plan_for job n)
    unfolding plan_for
    plan_for-Kept = of_planned (planned job n)
      where
        of_planned :
            (o : Option Item)
            → Kept {A = Item} (elim o [ none ↦ raise key_error | some it ↦ pure it ])
        of_planned none = Keeps-raise key_error
        of_planned (some it) = Keeps-pure it (λ s p. tt)

    mark_merged-Kept : Kept (mark_merged n)
    unfolding mark_merged pure
    mark_merged-Kept = record { at = λ s g p. (l.marks s g, λ a e. tt) }

    pub land_one-Lasts : Keeps I Any (λ z. Any) (land_one hub job n)
    unfolding land_one pure
    land_one-Lasts = record { at = λ s g p. of_test s g (contains s.merged n) refl }
      where
        of_test :
            (s : RunState)
            → I s
            → (b : Bool) → contains s.merged n ≡ b
            → I (land_one hub job n s).1
              × ((a : Unit) → (land_one hub job n s).0 ≡ inr a → Any (land_one hub job n s).1)
        of_test s g true t = rw t (g, λ a e. tt)
        of_test s g false t = rw t (
            (then-Kept (plan_for job n) _ plan_for-Kept (λ it.
                then-Kept (settle_pr hub job n it (lookup n s.copied)) _
                  (settle_pr-Kept it (lookup n s.copied)) (λ z. mark_merged-Kept))).at
              s g tt)
