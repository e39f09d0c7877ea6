-- ===== src/Accept/Landing/Safe.antt =====
-- The merge step as a whole: what it asks of the Hub, what a finished one has done, and that another
-- run of a finished one does nothing.
use helpmate_tablebase.Base.{
  ◌==◌, eq_of_beq, if◌then◌else◌, In, In-append_left, In-append_right, contains, contains→In,
  In→contains, lookup, ℕ, ◌≡◌, refl, sym, ap, ◌∙◌, subst, ◌⊎◌, inl, inr, Bool, true, false, not,
  Option, none, some, List, [], ◌∷◌, arith, string_eq, pair_eq, nat_eq, option_eq, list_eq, bool_eq,
}
use helpmate_tablebase.Effects.{pure, raise, ◌>>=◌}
use helpmate_tablebase.Effects.Keeps.{
  Keeps, Keeps-pure, Keeps-raise, Keeps-if, Keeps-weaken, Keeps-bind,
}
use helpmate_tablebase.Accept.Hub.{
  asked_head, asked_status, Note, whole_copy, partial_copy, thanks, Hub, Copied, RunState,
  key_error, changed, Landing, ask, close_pr, comment_on,
}
use helpmate_tablebase.Accept.Landing.{
  Job, Item, planned, plan_for, notes, finish_copied, merge_whole, copy_part, act_on, land_fresh,
  settle_pr, mark_merged, land_one, land_all, merge_order, merge_step,
}
use helpmate_tablebase.Accept.Landing.Checked.{head_checked, IsRight, Any, Keeps-ask}
use helpmate_tablebase.Accept.Landing.Items.{IsItem, planned-IsItem, head_checked-IsItem}
use helpmate_tablebase.Accept.Landing.Calls.{
  HeadChecked, NothingHeld, Keeps-close_pr, Keeps-comment_on, Keeps-merge_whole, Keeps-copy_part,
}
use helpmate_tablebase.Accept.Plan.{Action, merge, copy_close, copy_open, comment, close}

module _ (hub : Hub) (job : Job) (done : List ℕ) where
  Keeps-finish_copied :
      {P : RunState → Type 0} (n : ℕ) (it : Item) (ns : List Note) (c : Copied)
      → (c.closes ≡ true → NothingHeld hub job done n)
      → Keeps (IsRight job done) P (λ z. Any) (finish_copied hub n it ns c)
  unfolding finish_copied NothingHeld
  Keeps-finish_copied n it ns c h =
      let text =
        if c.is_partial
        then partial_copy c.ref it.pull.head c.already it.plan.publishes ns
        else whole_copy c.ref it.pull.head c.already in
      Keeps-if (not c.closes) _ _ (λ e. Keeps-comment_on hub job done n text)
        (λ e.
          Keeps-bind {Q = λ a. Any} (ask (λ r. asked_status n) (λ log. hub.status log n)) _
            (Keeps-ask job done (λ r. asked_status n) (λ log. hub.status log n) (λ s p. refl)
              (λ s a q p. tt))
            (λ status.
              Keeps-if (status == "open") _ _
                (λ q. Keeps-close_pr hub job done n text (h (ground (arith, e))))
                (λ q. Keeps-pure tt (λ s p. tt))))

  Keeps-act_on :
      (n : ℕ) (it : Item) (ns : List Note) (a : Action)
      → IsItem job n it
      → it.plan.action ≡ a
      → Keeps (IsRight job done) (HeadChecked hub job done n) (λ z. Any) (act_on hub n it ns a)
  unfolding merge_whole copy_part close_pr comment_on NothingHeld
  Keeps-act_on n it ns merge i e = Keeps-merge_whole hub job done n it i (rw e refl)
  Keeps-act_on n it ns copy_close i e =
      Keeps-copy_part hub job done n it i ns true (λ t. i.closes (rw e refl))
  Keeps-act_on n it ns copy_open i e =
      Keeps-copy_part hub job done n it i ns false (λ t. absurd (cc))
  Keeps-act_on n it ns comment i e = Keeps-comment_on hub job done n (thanks ns)
  Keeps-act_on n it ns close i e = Keeps-close_pr hub job done n (thanks ns) (i.closes (rw e refl))

  Keeps-land_fresh :
      {P : RunState → Type 0} (n : ℕ) (it : Item) (ns : List Note)
      → IsItem job n it
      → Keeps (IsRight job done) P (λ z. Any) (land_fresh hub n it ns)
  unfolding land_fresh HeadChecked
  Keeps-land_fresh n it ns i =
      Keeps-bind {Q = λ now s. now ≡ it.pull.head → head_checked job n s.log ≡ true}
        (ask (λ r. asked_head n r) (λ log. hub.pr_head log n)) _
        (Keeps-ask job done (λ r. asked_head n r) (λ log. hub.pr_head log n) (λ s p. refl)
          (λ s a e p h. head_checked-IsItem i (hub.pr_head s.log n) s.log (e ∙ ap (λ x. some x) h)))
        (λ now.
          Keeps-if (not (now == it.pull.head)) _ _ (λ e. Keeps-raise (changed n now))
            (λ e.
              Keeps-weaken (act_on hub n it ns it.plan.action)
                (λ s p. p (eq_of_beq now it.pull.head (ground (arith, e))))
                (Keeps-act_on n it ns it.plan.action i refl)))

  Keeps-settle_pr :
      {P : RunState → Type 0} (n : ℕ) (it : Item) (o : Option Copied)
      → IsItem job n it
      → ((c : Copied) → o ≡ some c → c.closes ≡ true → NothingHeld hub job done n)
      → Keeps (IsRight job done) P (λ z. Any) (settle_pr hub job n it o)
  unfolding settle_pr
  Keeps-settle_pr n it (some c) i h = Keeps-finish_copied n it (notes job n it) c (h c refl)
  Keeps-settle_pr n it none i h =
      Keeps-if (contains job.hand_merged n) _ _ (λ e. Keeps-pure tt (λ s p. tt))
        (λ e. Keeps-land_fresh n it (notes job n it) i)

  Keeps-mark_merged :
      {P : RunState → Type 0} (n : ℕ)
      → Keeps (IsRight job done) P (λ z s. In n s.merged) (mark_merged n)
  unfolding mark_merged pure
  Keeps-mark_merged n = record {
    at = λ s g p. (
      record {
        calls = g.calls;
        copies = g.copies;
        kept = λ k i. In-append_left k s.merged (n ∷ []) (g.kept k i);
      },
      λ a e. In-append_right n s.merged (n ∷ []) (inl refl),
    );
  }

  Keeps-plan_for :
      {P : RunState → Type 0} (n : ℕ)
      → Keeps (IsRight job done) P (λ it s. IsItem job n it) (plan_for job n)
  unfolding plan_for
  Keeps-plan_for {P = P} n = of_planned (planned job n) refl
    where
      of_planned :
          (o : Option Item)
          → planned job n ≡ o
          → Keeps
              (IsRight job done)
              P
              (λ it s. IsItem job n it)
              (elim o [ none ↦ raise key_error | some it ↦ pure it ])
      of_planned none e = Keeps-raise key_error
      of_planned (some it) e = Keeps-pure it (λ s p. planned-IsItem job n it e)

  -- A condition on the value alone may be used.
  Keeps-known :
      {A : Type 0} (X : Type 0) {Q : A → RunState → Type 0} (m : Landing A)
      → (X → Keeps (IsRight job done) Any Q m)
      → Keeps (IsRight job done) (λ s. X) Q m
  Keeps-known X m k = record { at = λ s g x. (k x).at s g tt }

  Keeps-land_one :
      (n : ℕ) → Keeps (IsRight job done) Any (λ z s. In n s.merged) (land_one hub job n)
  unfolding land_one NothingHeld pure
  Keeps-land_one n = record { at = λ s g p. of_test s g (contains s.merged n) refl }
    where
      of_test :
          (s : RunState)
          → IsRight job done s
          → (b : Bool) → contains s.merged n ≡ b
          → IsRight job done (land_one hub job n s).1
            × ((a : Unit) → (land_one hub job n s).0 ≡ inr a → In n (land_one hub job n s).1.merged)
      of_test s g true t = rw t (g, λ a e. contains→In s.merged n t)
      of_test s g false t = rw t (
          (Keeps-bind {Q = λ it x. IsItem job n it} {P = Any} (plan_for job n) _ (Keeps-plan_for n)
              (λ it. Keeps-known (IsItem job n it) _ (λ i.
                Keeps-bind {Q = λ z. Any} (settle_pr hub job n it (lookup n s.copied)) _
                  (Keeps-settle_pr n it (lookup n s.copied) i (λ c e h. g.copies n c e h))
                  (λ z. Keeps-mark_merged n)))).at
            s g tt)

-- The merged pull requests include one more.
with_merged :
    (job : Job) (done : List ℕ) (n : ℕ) {A : Type 0} {Q : A → RunState → Type 0} (m : Landing A)
    → Keeps (IsRight job (n ∷ done)) Any Q m
    → Keeps (IsRight job done) (λ s. In n s.merged) Q m
with_merged job done n m k = record {
  at = λ s g p.
      let more : IsRight job (n ∷ done) s = record {
        calls = g.calls;
        copies = g.copies;
        kept = λ j i. elim i [ inl e ↦ subst (λ x. In x s.merged) (sym e) p | inr i ↦ g.kept j i ];
      } in
      let (h, q) = k.at s more tt in
      (record { calls = h.calls; copies = h.copies; kept = λ j i. h.kept j (inr i) }, q);
}

regrouped : (n k : ℕ) (ns done : List ℕ) → In n (k ∷ ns) ⊎ In n done → In n ns ⊎ In n (k ∷ done)
regrouped n k ns done (inl (inl e)) = inr (inl e)
regrouped n k ns done (inl (inr h)) = inl h
regrouped n k ns done (inr h) = inr (inr h)

-- Each of `ns`, and of `done`, is merged.
unfoldable pub AllMerged : List ℕ → List ℕ → RunState → Type 0
AllMerged ns done s = (n : ℕ) → In n ns ⊎ In n done → In n s.merged

pub Keeps-land_all :
    (hub : Hub) (job : Job) (done ns : List ℕ)
    → Keeps (IsRight job done) Any (λ z. AllMerged ns done) (land_all hub job ns)
unfolding land_all AllMerged pure
Keeps-land_all hub job done [] = record {
  at = λ s g p. (g, λ a e n i. elim i [ inl h ↦ absurd h | inr h ↦ g.kept n h ]);
}
Keeps-land_all hub job done (k ∷ ns) =
    Keeps-bind (land_one hub job k) _ (Keeps-land_one hub job done k) (λ z.
      with_merged job done k (land_all hub job ns) (record {
        at = λ s g p.
            let (h, q) = (Keeps-land_all hub job (k ∷ done) ns).at s g p in
            (h, λ a e n i. q a e n (regrouped n k ns done i));
      }))

unfoldable pub run_order : Hub → Job → Option (List ℕ) → Landing Unit
unfolding raise
run_order h job o = elim o [ none ↦ raise key_error | some ns ↦ land_all h job ns ]

run_order-IsRight :
    (hub : Hub) (job : Job) (done : List ℕ) (s : RunState) (o : Option (List ℕ))
    → IsRight job done s
    → IsRight job done (run_order hub job o s).1
unfolding run_order raise
run_order-IsRight hub job done s none g = g
run_order-IsRight hub job done s (some ns) g = ((Keeps-land_all hub job done ns).at s g tt).0

-- Started where each call in the log was allowed and each recorded copy that closes its pull request
-- is of one with nothing held, the merge step ends so too, whatever the Hub answers and whether it
-- returns or stops: it merges a pull request, or copies its files, only when the last head it asked
-- for was that of this pull request and the verified one; it copies only files of the pull request;
-- it merges whole or closes only where nothing is held. What was merged stays merged.
pub merge_step-IsRight :
    (hub : Hub) (job : Job) (done : List ℕ) (s : RunState)
    → IsRight job done s
    → IsRight job done (merge_step hub job s).1
unfolding merge_step run_order
merge_step-IsRight hub job done s g = run_order-IsRight hub job done s (merge_order job) g

land_all_merged :
    (hub : Hub) (job : Job) (ns : List ℕ) (s : RunState)
    → ((n : ℕ) → In n ns → In n s.merged)
    → land_all hub job ns s ≡ (inr tt, s)
unfolding land_all land_one pure ◌>>=◌
land_all_merged hub job [] s h = refl
land_all_merged hub job (n ∷ ns) s h =
    rw (In→contains s.merged n (h n (inl refl))) (land_all_merged hub job ns s (λ k i. h k (inr i)))

again_of_order :
    (hub later : Hub) (job : Job) (s : RunState) (o : Option (List ℕ))
    → IsRight job [] s
    → (run_order hub job o s).0 ≡ inr tt
    → run_order later job o (run_order hub job o s).1 ≡ (inr tt, (run_order hub job o s).1)
unfolding run_order raise AllMerged
again_of_order hub later job s none g q = absurd (cc)
again_of_order hub later job s (some ns) g q =
    land_all_merged later job ns (land_all hub job ns s).1
      (λ n i. ((Keeps-land_all hub job [] ns).at s g tt).1 tt q n (inl i))

-- A merge step that returned, started where each call was allowed and the copies agree with what is
-- held, makes no call and changes nothing when it is run again, whatever the Hub would answer then.
pub merge_step-again :
    (hub later : Hub) (job : Job) (s : RunState)
    → IsRight job [] s
    → (merge_step hub job s).0 ≡ inr tt
    → merge_step later job (merge_step hub job s).1 ≡ (inr tt, (merge_step hub job s).1)
unfolding merge_step run_order
merge_step-again hub later job s g e = again_of_order hub later job s (merge_order job) g e
