-- ===== src/Accept/Landing/Acted.antt =====
-- What the merge step has asked of the Hub, with success, once it is through with a pull request.
use helpmate_tablebase.Base.{
  is_empty, ◌==◌, if◌then◌else◌, filter, Dict, ℕ, String, ◌≡◌, refl, sym, ap, subst, ◌⊎◌, inl, inr,
  Bool, true, false, not, Option, none, some, List, [], ◌∷◌, arith, string_eq, pair_eq, nat_eq,
  option_eq, list_eq, bool_eq,
}
use helpmate_tablebase.Effects.{pure, raise}
use helpmate_tablebase.Effects.Keeps.{Keeps, Keeps-raise, Keeps-if, Keeps-weaken, Keeps-bind}
use helpmate_tablebase.Accept.Hub.{
  Event, tried_merge, asked_main, tried_commit, read_tree, closed, commented, Comment, CommitInfo,
  Hub, RunState, mismatch, Landing, answer_or_fail, ask, done_if, close_pr, comment_on, is_wrong,
  merge_by_copy,
}
use helpmate_tablebase.Accept.Landing.{Item, record_copy, part_files}
use helpmate_tablebase.Accept.Landing.Checked.{Any}
use helpmate_tablebase.Accept.Plan.{Action, merge, copy_close, copy_open, comment, close}

-- A call in the log is as `P` says of it and of the calls before it.
abbrev pub Occurs : (Event → List Event → Type 0) → List Event → Type 0
Occurs P [] = ⊥
Occurs P (e ∷ log) = P e log ⊎ Occurs P log

module _ (hub : Hub) (n : ℕ) where
  -- The Hub merged the pull request.
  abbrev pub Merges : Event → List Event → Type 0
  Merges e log = (e ≡ tried_merge n) × (hub.merge_pull_request log n ≡ none)

  -- The Hub closed it.
  abbrev pub Closes : Event → List Event → Type 0
  Closes e log = (e ≡ closed n) × ((text : Comment) × (hub.close log n text ≡ true))

  -- The Hub took a comment on it.
  abbrev pub Comments : Event → List Event → Type 0
  Comments e log = (e ≡ commented n) × ((text : Comment) × (hub.comment log n text ≡ true))

  -- The Hub committed the files from a head, and main was then found to have each of them as the
  -- head has it.
  abbrev pub Commits : Option String → List String → Event → List Event → Type 0
  Commits head files e log =
      (e ≡ tried_commit n files)
      × ((info : CommitInfo) × (hub.create_commit log files head ≡ some info)
          × ((landed : Dict String String) × (hub.tree (e ∷ log) (some info.oid) ≡ some landed)
              × ((wanted : Dict String String) × (hub.tree (read_tree (some info.oid) ∷ e ∷ log)
                      head
                    ≡ some wanted)
                  × (is_empty (filter (is_wrong landed wanted) files) ≡ true))))

  -- What has been done for a pull request with an item, by its action. A merge that the Hub refused
  -- is a copy.
  abbrev pub Acted : Item → Action → List Event → Type 0
  Acted it merge log =
      Occurs Merges log ⊎ (Occurs (Commits it.pull.head it.pull.files) log × Occurs Closes log)
  Acted it copy_close log =
      Occurs (Commits it.pull.head (part_files it it.plan.publishes)) log × Occurs Closes log
  Acted it copy_open log =
      Occurs (Commits it.pull.head (part_files it it.plan.publishes)) log × Occurs Comments log
  Acted it comment log = Occurs Comments log
  Acted it close log = Occurs Closes log

  -- Where a call returns, the log has it as last.
  answered :
      {A : Type 0} (Q : A → RunState → Type 0) (r : Option A) (s : RunState)
      → ((a : A) → r ≡ some a → Q a s)
      → (a : A) → (answer_or_fail r s).0 ≡ inr a
      → Q a (answer_or_fail r s).1
  unfolding pure raise
  answered Q none s k a e = absurd (cc)
  answered Q (some b) s k a e = let q : b ≡ a = cc in subst (λ x. Q x s) q (k b refl)

  pub asked :
      {A : Type 0} {P : RunState → Type 0} {Q : A → RunState → Type 0} (event : Option A → Event)
      (f : List Event → Option A)
      → ((s : RunState) (a : A)
          → f s.log ≡ some a
          → P s
          → Q a (record s { log = event (f s.log) ∷ s.log }))
      → Keeps Any P Q (ask event f)
  unfolding ask
  asked {Q = Q} event f k = record {
    at = λ s g p.
        (tt, answered Q (f s.log) (record s { log = event (f s.log) ∷ s.log }) (λ a e. k s a e p));
  }

  done_inv : (b : Bool) (a : Unit {0}) → done_if b ≡ some a → b ≡ true
  done_inv true a e = refl
  done_inv false a e = absurd (cc)

  pub close_pr-Closes :
      (P : List Event → Type 0) (text : Comment)
      → ((e : Event) (log : List Event) → P log → P (e ∷ log))
      → Keeps Any (λ s. P s.log) (λ z s. P s.log × Occurs Closes s.log) (close_pr hub n text)
  unfolding close_pr
  close_pr-Closes P text grow =
      asked (λ r. closed n) (λ log. done_if (hub.close log n text))
        (λ s a e p. (grow (closed n) s.log p, inl (refl, (text, done_inv _ a e))))

  pub comment_on-Comments :
      (P : List Event → Type 0) (text : Comment)
      → ((e : Event) (log : List Event) → P log → P (e ∷ log))
      → Keeps Any (λ s. P s.log) (λ z s. P s.log × Occurs Comments s.log) (comment_on hub n text)
  unfolding comment_on
  comment_on-Comments P text grow =
      asked (λ r. commented n) (λ log. done_if (hub.comment log n text))
        (λ s a e p. (grow (commented n) s.log p, inl (refl, (text, done_inv _ a e))))

  pub record_copy-log :
      (P : List Event → Type 0) (is_partial closes : Bool) (ref : String) (already : Bool)
      → Keeps Any (λ s. P s.log) (λ z s. P s.log) (record_copy n is_partial closes ref already)
  unfolding record_copy pure
  record_copy-log P is_partial closes ref already = record { at = λ s g p. (tt, λ a e. p) }

  -- The end of a copy: it is closed, or commented on.
  abbrev pub Ended : Bool → List Event → Type 0
  Ended true log = Occurs Closes log
  Ended false log = Occurs Comments log

  copy_end :
      (text : Comment) (closes : Bool) (P : List Event → Type 0)
      → ((e : Event) (log : List Event) → P log → P (e ∷ log))
      → Keeps Any
          (λ s. P s.log)
          (λ z s. P s.log × Ended closes s.log)
          (if closes then close_pr hub n text else comment_on hub n text)
  copy_end text true P grow = close_pr-Closes P text grow
  copy_end text false P grow = comment_on-Comments P text grow

  -- The commit of a copy, as the log has it after its calls.
  Committed : Option String → List String → CommitInfo → RunState → Type 0
  Committed head files info s =
      (log : List Event) × (s.log ≡ tried_commit n files ∷ log)
      × (hub.create_commit log files head ≡ some info)

  Landed : Option String → List String → CommitInfo → Dict String String → RunState → Type 0
  Landed head files info landed s =
      (log : List Event) × (s.log ≡ read_tree (some info.oid) ∷ tried_commit n files ∷ log)
      × (hub.create_commit log files head ≡ some info)
      × (hub.tree (tried_commit n files ∷ log) (some info.oid) ≡ some landed)

  Compared :
      Option String
      → List String
      → CommitInfo
      → Dict String String
      → Dict String String
      → RunState
      → Type 0
  Compared head files info landed wanted s =
      (log : List Event) × (s.log
        ≡ read_tree head ∷ read_tree (some info.oid) ∷ tried_commit n files ∷ log)
      × (hub.create_commit log files head ≡ some info)
      × (hub.tree (tried_commit n files ∷ log) (some info.oid) ≡ some landed)
      × (hub.tree (read_tree (some info.oid) ∷ tried_commit n files ∷ log) head ≡ some wanted)

  Compared-Commits :
      (head : Option String) (files : List String) (info : CommitInfo)
      (landed wanted : Dict String String) (s : RunState)
      → is_empty (filter (is_wrong landed wanted) files) ≡ true
      → Compared head files info landed wanted s
      → Occurs (Commits head files) s.log
  unfolding Compared
  Compared-Commits head files info landed wanted s ok (log, e, c, l, w) =
      subst (λ x. Occurs (Commits head files) x) (sym e)
        (inr (inr (inl (refl, (info, c, (landed, l, (wanted, w, ok)))))))

  pub merge_by_copy-Commits :
      (head : Option String) (files : List String) (text : String → Bool → Comment) (closes : Bool)
      (on_commit : String → Bool → Landing Unit)
      → ((ref : String) (already : Bool)
          → Keeps Any
              (λ s. Occurs (Commits head files) s.log)
              (λ z s. Occurs (Commits head files) s.log)
              (on_commit ref already))
      → Keeps Any Any
          (λ z s. Occurs (Commits head files) s.log × Ended closes s.log)
          (merge_by_copy hub n head files text closes on_commit)
  unfolding merge_by_copy Committed Landed Compared
  merge_by_copy-Commits head files text closes on_commit k =
      Keeps-bind {Q = λ a. Any} (ask (λ r. asked_main) hub.main_sha) _
        (asked (λ r. asked_main) hub.main_sha (λ s a e p. tt))
        (λ before.
          Keeps-bind {Q = Committed head files}
            (ask (λ r. tried_commit n files) (λ log. hub.create_commit log files head)) _
            (asked (λ r. tried_commit n files) (λ log. hub.create_commit log files head)
              (λ s a e p. (s.log, refl, e)))
            (λ info.
              Keeps-bind {Q = Landed head files info}
                (ask (λ r. read_tree (some info.oid)) (λ log. hub.tree log (some info.oid))) _
                (asked (λ r. read_tree (some info.oid)) (λ log. hub.tree log (some info.oid))
                  (λ s a e (log, q, c).
                    (log, ap (λ x. read_tree (some info.oid) ∷ x) q, c, rw q at e)))
                (λ landed.
                  Keeps-bind {Q = Compared head files info landed}
                    (ask (λ r. read_tree head) (λ log. hub.tree log head)) _
                    (asked (λ r. read_tree head) (λ log. hub.tree log head)
                      (λ s a e (log, q, c, l).
                        (log, ap (λ x. read_tree head ∷ x) q, c, l, rw q at e)))
                    (λ wanted.
                      let already = info.oid == before in
                      let ref = if already then info.oid else info.commit_url in
                      let wrong = filter (is_wrong landed wanted) files in
                      Keeps-if (not (is_empty wrong)) _ _ (λ e. Keeps-raise (mismatch n wrong))
                        (λ e.
                          Keeps-bind {Q = λ z s. Occurs (Commits head files) s.log}
                            (on_commit ref already) _
                            (Keeps-weaken (on_commit ref already)
                              (λ s p.
                                Compared-Commits head files info landed wanted s (ground (arith, e))
                                  p)
                              (k ref already))
                            (λ z.
                              copy_end (text ref already) closes (Occurs (Commits head files))
                                (λ x log i. inr i)))))))
