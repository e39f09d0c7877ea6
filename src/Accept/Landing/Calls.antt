-- ===== src/Accept/Landing/Calls.antt =====
-- Each call of Accept/Hub, and what the merge step does with one pull request, makes allowed calls
-- only.
use helpmate_tablebase.Base.{
  is_empty, ◌==◌, eq_of_beq, Bool-cases, if◌then◌else◌, In, filter, all, contains, In→contains,
  lookup, lookup-insert, codes, lower, ℕ, String, ◌<>◌, ◌≡◌, refl, sym, ◌∙◌, subst, inl, inr, Bool,
  true, false, not, ◌||◌, Option, none, some, List, [], ◌∷◌, ◌++◌, arith, string_eq, pair_eq,
  nat_eq, option_eq, list_eq, bool_eq,
}
use helpmate_tablebase.Effects.{pure, raise, ◌>>=◌}
use helpmate_tablebase.Effects.Keeps.{Keeps, Keeps-pure, Keeps-raise, Keeps-if, Keeps-bind}
use helpmate_tablebase.Accept.Hub.{
  tried_merge, asked_conflicts, asked_main, tried_commit, read_tree, closed, commented, Note,
  Comment, whole_copy, partial_copy, Conflicting, no_list, unlisted, listed, Hub, Copied, RunState,
  hub_failed, conflicts, mismatch, Landing, ask, done_if, close_pr, comment_on, found_files,
  refused_merge, is_wrong, merge_by_copy,
}
use helpmate_tablebase.Accept.Landing.{
  after_merge, Job, Item, record_copy, copy_whole, merge_whole, part_files, copy_part,
}
use helpmate_tablebase.Accept.Landing.Checked.{
  head_checked, held_of, files_in, IsRight, Any, Keeps-ask,
}
use helpmate_tablebase.Accept.Landing.Items.{IsItem, files_in-IsItem}
use helpmate_tablebase.Accept.Plan.Safety.{is_closing}
use helpmate_tablebase.Accept.Merging.{occurs}

all_of :
    (p : String → Bool) (xs : List String) → ((x : String) → In x xs → p x ≡ true) → all p xs ≡ true
all_of p [] h = refl
all_of p (x ∷ xs) h = rw (h x (inl refl), all_of p xs (λ y i. h y (inr i))) refl

all-filter-append :
    (p : String → Bool) (xs ys : List String) → all p ys ≡ true → all p (filter p xs ++ ys) ≡ true
all-filter-append p [] ys h = h
all-filter-append p (x ∷ xs) ys h = ground (arith, all-filter-append p xs ys h)

part_files-all :
    (it : Item) (ms : List String) → all (contains it.pull.files) (part_files it ms) ≡ true
unfolding part_files
part_files-all it [] = refl
part_files-all it (m ∷ ms) =
    all-filter-append (contains it.pull.files) ((m <> ".hm") ∷ (m <> ".stats.json") ∷ [])
      (part_files it ms) (part_files-all it ms)

module _ (hub : Hub) (job : Job) (done : List ℕ) where
  -- The head of `n` was asked for last, and is the verified one.
  unfoldable pub HeadChecked : ℕ → RunState → Type 0
  HeadChecked n s = head_checked job n s.log ≡ true

  unfoldable pub NothingHeld : ℕ → Type 0
  NothingHeld n = is_empty (held_of job n) ≡ true

  pub Keeps-close_pr :
      {P : RunState → Type 0} (n : ℕ) (text : Comment)
      → NothingHeld n
      → Keeps (IsRight job done) P (λ z. Any) (close_pr hub n text)
  unfolding close_pr NothingHeld
  Keeps-close_pr n text h =
      Keeps-ask job done (λ r. closed n) (λ log. done_if (hub.close log n text)) (λ s p. h)
        (λ s a e p. tt)

  pub Keeps-comment_on :
      {P : RunState → Type 0} (n : ℕ) (text : Comment)
      → Keeps (IsRight job done) P (λ z. Any) (comment_on hub n text)
  unfolding comment_on
  Keeps-comment_on n text =
      Keeps-ask job done (λ r. commented n) (λ log. done_if (hub.comment log n text)) (λ s p. refl)
        (λ s a e p. tt)

  copies_match :
      (n k : ℕ) (c new : Copied) (o : Option Copied)
      → (new.closes ≡ true → NothingHeld n)
      → (o ≡ some c → c.closes ≡ true → NothingHeld k)
      → (if k == n then some new else o) ≡ some c
      → c.closes ≡ true
      → NothingHeld k
  copies_match n k c new o own old e h = elim (Bool-cases (k == n)) [
    | inl t ↦
        let f : some new ≡ some c = rw t at e in
        let g : new ≡ c = cc in
        subst NothingHeld (sym (eq_of_beq k n t))
          (own (subst (λ (x : Copied). x.closes ≡ true) (sym g) h))
    | inr t ↦ old (rw t at e) h
  ]

  Keeps-record_copy :
      {P : RunState → Type 0} (n : ℕ) (is_partial closes : Bool) (ref : String) (already : Bool)
      → (closes ≡ true → NothingHeld n)
      → Keeps (IsRight job done) P (λ z. Any) (record_copy n is_partial closes ref already)
  unfolding record_copy pure NothingHeld
  Keeps-record_copy n is_partial closes ref already h = record {
    at = λ s g p. (
      record {
        calls = g.calls;
        copies = λ k c e cl.
            let new : Copied = record {
              ref = ref;
              already = already;
              is_partial = is_partial;
              closes = closes;
            } in
            copies_match n k c new (lookup k s.copied) h (g.copies k c)
              (sym (lookup-insert k n new s.copied) ∙ e) cl;
        kept = g.kept;
      },
      λ a e. tt,
    );
  }

  Keeps-merge_by_copy :
      (n : ℕ) (head : Option String) (files : List String) (text : String → Bool → Comment)
      (closes : Bool) (on_commit : String → Bool → Landing Unit)
      → all (contains (files_in job n)) files ≡ true
      → (closes ≡ true → NothingHeld n)
      → ((ref : String) (already : Bool)
          → Keeps (IsRight job done) Any (λ z. Any) (on_commit ref already))
      → Keeps
          (IsRight job done)
          (HeadChecked n)
          (λ z. Any)
          (merge_by_copy hub n head files text closes on_commit)
  unfolding merge_by_copy HeadChecked head_checked
  Keeps-merge_by_copy n head files text closes on_commit fs h k =
      Keeps-bind {Q = λ a. HeadChecked n} (ask (λ r. asked_main) hub.main_sha) _
        (Keeps-ask job done (λ r. asked_main) hub.main_sha (λ s p. refl) (λ s a e p. p))
        (λ before.
          Keeps-bind {Q = λ a. Any}
            (ask (λ r. tried_commit n files) (λ log. hub.create_commit log files head)) _
            (Keeps-ask job done (λ r. tried_commit n files)
              (λ log. hub.create_commit log files head)
              (λ s p. let q : head_checked job n s.log ≡ true = p in rw (q, fs) refl)
              (λ s a e p. tt))
            (λ info.
              Keeps-bind {Q = λ a. Any}
                (ask (λ r. read_tree (some info.oid)) (λ log. hub.tree log (some info.oid))) _
                (Keeps-ask job done (λ r. read_tree (some info.oid))
                  (λ log. hub.tree log (some info.oid)) (λ s p. refl) (λ s a e p. tt))
                (λ landed.
                  Keeps-bind {Q = λ a. Any} (ask (λ r. read_tree head) (λ log. hub.tree log head)) _
                    (Keeps-ask job done (λ r. read_tree head) (λ log. hub.tree log head)
                      (λ s p. refl) (λ s a e p. tt))
                    (λ wanted.
                      let already = info.oid == before in
                      let ref = if already then info.oid else info.commit_url in
                      Keeps-if (not (is_empty (filter (is_wrong landed wanted) files))) _ _
                        (λ e. Keeps-raise (mismatch n (filter (is_wrong landed wanted) files)))
                        (λ e.
                          Keeps-bind {Q = λ z. Any} (on_commit ref already) _ (k ref already) (λ z.
                            Keeps-if closes _ _ (λ c. Keeps-close_pr n (text ref already) (h c))
                              (λ c. Keeps-comment_on n (text ref already))))))))

  Keeps-found_files :
      (n : ℕ) (found : Conflicting)
      → Keeps (IsRight job done) (HeadChecked n) (λ z. HeadChecked n) (found_files found)
  unfolding HeadChecked pure raise
  Keeps-found_files n no_list = Keeps-raise hub_failed
  Keeps-found_files n unlisted = Keeps-pure ("(files not listed by the Hub)" ∷ []) (λ s p. p)
  Keeps-found_files n (listed []) = Keeps-raise hub_failed
  Keeps-found_files n (listed (f ∷ fs)) = Keeps-pure (f ∷ fs) (λ s p. p)

  Keeps-refused_merge :
      (n : ℕ) (text : String)
      → Keeps (IsRight job done) (HeadChecked n) (λ z. HeadChecked n) (refused_merge hub n text)
  unfolding refused_merge HeadChecked head_checked
  Keeps-refused_merge n text =
      Keeps-if (not (occurs (codes "conflict") (lower text))) _ _ (λ e. Keeps-raise hub_failed)
        (λ e.
          Keeps-bind {Q = λ a. HeadChecked n}
            (ask (λ r. asked_conflicts n) (λ log. hub.conflicting_files log n)) _
            (Keeps-ask job done (λ r. asked_conflicts n) (λ log. hub.conflicting_files log n)
              (λ s p. refl) (λ s a e p. p))
            (λ found. Keeps-found_files n found))

  module _ (n : ℕ) (it : Item) (i : IsItem job n it) where
    Keeps-copy_whole :
        is_closing it.plan.action ≡ true
        → (files : List String)
        → Keeps (IsRight job done) (HeadChecked n) (λ z. Any) (copy_whole hub n it files)
    unfolding copy_whole NothingHeld
    Keeps-copy_whole c files =
        Keeps-if (is_empty files || not (all (λ f. f == ".gitattributes") files)) _ _
          (λ e. Keeps-raise (conflicts n files))
          (λ e.
            Keeps-merge_by_copy n it.pull.head it.pull.files
              (λ ref already. whole_copy ref it.pull.head already) true
              (λ ref already. record_copy n false true ref already)
              (all_of (contains (files_in job n)) it.pull.files (λ x h.
                subst (λ l. contains l x ≡ true) (sym (files_in-IsItem i))
                  (In→contains it.pull.files x h)))
              (λ t. i.closes c)
              (λ ref already. Keeps-record_copy n false true ref already (λ t. i.closes c)))

    Keeps-after_merge :
        is_closing it.plan.action ≡ true
        → (refused : Option String)
        → Keeps (IsRight job done) (HeadChecked n) (λ z. Any) (after_merge hub n it refused)
    unfolding pure ◌>>=◌ refused_merge copy_whole
    Keeps-after_merge c none = Keeps-pure tt (λ s p. tt)
    Keeps-after_merge c (some text) =
        Keeps-bind {Q = λ z. HeadChecked n} (refused_merge hub n text) (copy_whole hub n it)
          (Keeps-refused_merge n text) (λ files. Keeps-copy_whole c files)

    pub Keeps-merge_whole :
        is_closing it.plan.action ≡ true
        → Keeps (IsRight job done) (HeadChecked n) (λ z. Any) (merge_whole hub n it)
    unfolding merge_whole HeadChecked head_checked
    Keeps-merge_whole c =
        Keeps-bind {Q = λ r. HeadChecked n}
          (ask (λ r. tried_merge n) (λ log. some (hub.merge_pull_request log n))) _
          (Keeps-ask job done (λ r. tried_merge n) (λ log. some (hub.merge_pull_request log n))
            (λ s p.
              let q : head_checked job n s.log ≡ true = p in
              let h : is_empty (held_of job n) ≡ true = i.closes c in rw (q, h) refl)
            (λ s a e p. p))
          (λ refused. Keeps-after_merge c refused)

    pub Keeps-copy_part :
        (ns : List Note) (closes : Bool)
        → (closes ≡ true → NothingHeld n)
        → Keeps (IsRight job done) (HeadChecked n) (λ z. Any) (copy_part hub n it ns closes)
    unfolding copy_part NothingHeld
    Keeps-copy_part ns closes h =
        Keeps-merge_by_copy n it.pull.head (part_files it it.plan.publishes)
          (λ ref already. partial_copy ref it.pull.head already it.plan.publishes ns) closes
          (λ ref already. record_copy n true (is_empty it.plan.holds) ref already)
          (subst (λ l. all (contains l) (part_files it it.plan.publishes) ≡ true)
            (sym (files_in-IsItem i)) (part_files-all it it.plan.publishes))
          h
          (λ ref already.
            Keeps-record_copy n true (is_empty it.plan.holds) ref already
              (λ t. subst (λ l. is_empty l ≡ true) (sym i.holds) t))
