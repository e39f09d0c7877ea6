-- ===== src/Accept/Landing/Order.antt =====
-- The order of the merge step has each pull request of the run, and what a finished step has done.
use mathlib.Core.Option
use native.Mathlib.Decide.{ℕ_discrete}
use helpmate_tablebase.Base.{
  is_empty, ◌==◌, eq_of_beq, Bool-cases, contains, In, In-map, In-append_left, sorted_by,
  In-sorted_by, lookup-insert, ℕ, ◌≡◌, ◌≢◌, refl, sym, ◌∙◌, subst, inl, inr, Bool, false, Option,
  none, some, List, [], ◌∷◌, ◌++◌, map, arith, string_eq, pair_eq, nat_eq, option_eq, list_eq,
  bool_eq,
}
use helpmate_tablebase.Effects.{raise}
use helpmate_tablebase.Effects.Keeps.{Keeps, Keeps-bind, Keeps-pure}
use helpmate_tablebase.Accept.Plan.{Action, merge, copy_close, copy_open, comment, close}
use helpmate_tablebase.Accept.Landing.{
  Job, Item, planned, order_keys, key_less, merge_order, merge_step, land_all, land_one,
}
use helpmate_tablebase.Accept.Hub.{Hub, RunState, Event, Landing}
use helpmate_tablebase.Accept.Landing.Checked.{Any}
use helpmate_tablebase.Accept.Landing.Safe.{run_order}
use helpmate_tablebase.Accept.Landing.Acted.{Acted}
use helpmate_tablebase.Accept.Landing.Acts.{IsFresh, IsDone, land_one-IsDone}
use helpmate_tablebase.Accept.Landing.Lasting.{Lasts, land_one-Lasts}

keys_inv :
    (n : ℕ) (o : Option Item) (r : Option (List (Bool × ℕ))) (ks : List (Bool × ℕ))
    → elim o [ none ↦ none | some it ↦ Option.map (λ l. (is_empty it.plan.publishes, n) ∷ l) r ]
      ≡ some ks
    → (b : Bool) × (l : List (Bool × ℕ)) × (r ≡ some l) × (ks ≡ (b, n) ∷ l)
keys_inv n none r ks e = absurd (cc)
keys_inv n (some it) none ks e = absurd (cc)
keys_inv n (some it) (some l) ks e = (is_empty it.plan.publishes, l, refl, cc)

order_keys-In :
    (job : Job) (ns : List ℕ) (ks : List (Bool × ℕ)) (n : ℕ)
    → order_keys job ns ≡ some ks
    → In n ns
    → (b : Bool) × In (b, n) ks
unfolding order_keys
order_keys-In job [] ks n e h = absurd h
order_keys-In job (m ∷ ns) ks n e (inl z) =
    let (b, l, r, q) = keys_inv m (planned job m) (order_keys job ns) ks e in
    (b, rw (q, z) (inl refl))
order_keys-In job (m ∷ ns) ks n e (inr h) =
    let (b, l, r, q) = keys_inv m (planned job m) (order_keys job ns) ks e in
    let (c, i) = order_keys-In job ns l n r h in (c, rw q (inr i))

In_of_keys :
    (prs : List ℕ) (r : Option (List (Bool × ℕ))) (ns : List ℕ) (n : ℕ)
    → ((ks : List (Bool × ℕ)) → r ≡ some ks → (b : Bool) × In (b, n) ks)
    → Option.map (λ ks. map (λ (k : Bool × ℕ). k.1) (sorted_by key_less ks)) r ≡ some ns
    → In n ns
In_of_keys prs none ns n k e = absurd (cc)
In_of_keys prs (some ks) ns n k e =
    let (b, i) = k ks refl in
    let q : map (λ (x : Bool × ℕ). x.1) (sorted_by key_less ks) ≡ ns = cc in
    subst (λ l. In n l) q
      (In-map (λ (x : Bool × ℕ). x.1) (b, n) (sorted_by key_less ks)
        ((In-sorted_by key_less (b, n) ks).1 i))

merge_order-In :
    (job : Job) (ns : List ℕ) (n : ℕ) → merge_order job ≡ some ns → In n job.prs → In n ns
unfolding merge_order
merge_order-In job ns n e h =
    In_of_keys job.prs (order_keys job job.prs) ns n (λ ks q. order_keys-In job job.prs ks n q h) e

other : (n k : ℕ) → k ≢ n → (n == k) ≡ false
other n k ne = elim (Bool-cases (n == k)) [
  | inl e ↦ absurd (ne (sym (eq_of_beq n k e)))
  | inr e ↦ e
]

contains-append :
    (n k : ℕ) (ms : List ℕ) → k ≢ n → contains ms n ≡ false → contains (ms ++ (k ∷ [])) n ≡ false
contains-append n k [] ne h = ground (arith, other n k ne)
contains-append n k (m ∷ ms) ne h = ground (arith, contains-append n k ms ne, h)

Acted-more :
    (hub : Hub) (n : ℕ) (it : Item) (a : Action) (e : Event) (log : List Event)
    → Acted hub n it a log
    → Acted hub n it a (e ∷ log)
Acted-more hub n it merge e log (inl p) = inl (inr p)
Acted-more hub n it merge e log (inr (p, q)) = inr (inr p, inr q)
Acted-more hub n it copy_close e log (p, q) = (inr p, inr q)
Acted-more hub n it copy_open e log (p, q) = (inr p, inr q)
Acted-more hub n it comment e log p = inr p
Acted-more hub n it close e log p = inr p

-- A round for another pull request leaves a pull request untouched.
IsFresh-Lasts : (n k : ℕ) → k ≢ n → Lasts k (IsFresh n)
IsFresh-Lasts n k ne = record {
  calls = λ s e g. g;
  copies = λ s c (fresh, gone). (fresh, lookup-insert n k c s.copied ∙ (rw (other n k ne) gone));
  marks = λ s (fresh, gone). (contains-append n k s.merged ne fresh, gone);
}

-- What has been done for a pull request stays done in any round.
IsDone-Lasts : (hub : Hub) (job : Job) (n k : ℕ) → Lasts k (IsDone hub job n)
IsDone-Lasts hub job n k = record {
  calls = λ s e ((it, p, done), i). ((it, p, Acted-more hub n it it.plan.action e s.log done), i);
  copies = λ s c g. g;
  marks = λ s (done, i). (done, In-append_left n s.merged (k ∷ []) i);
}

land_all-Lasts :
    (hub : Hub) (job : Job) {I : RunState → Type 0} (ns : List ℕ)
    → ((k : ℕ) → Lasts k I)
    → Keeps I Any (λ z. Any) (land_all hub job ns)
unfolding land_all
land_all-Lasts hub job [] l = Keeps-pure tt (λ s p. tt)
land_all-Lasts hub job (k ∷ ns) l =
    Keeps-bind {Q = λ z. Any} (land_one hub job k) _ (land_one-Lasts hub k (l k) job)
      (λ z. land_all-Lasts hub job ns l)

-- A condition that lasts holds where code returns.
outlasting :
    {A : Type 0} (I : RunState → Type 0) (m : Landing A)
    → Keeps I Any (λ a. Any) m
    → Keeps Any I (λ a. I) m
outlasting I m k = record { at = λ s g p. (tt, λ a e. (k.at s p tt).0) }

land_all-IsDone :
    (hub : Hub) (job : Job) (n : ℕ) (ns : List ℕ)
    → contains job.hand_merged n ≡ false
    → In n ns
    → Keeps Any (IsFresh n) (λ z. IsDone hub job n) (land_all hub job ns)
unfolding land_all
land_all-IsDone hub job n [] h i = absurd i
land_all-IsDone hub job n (k ∷ ns) h i = elim (ℕ_discrete n k) [
  | yes same ↦
      Keeps-bind {Q = λ z. IsDone hub job n} (land_one hub job k) _
        (subst (λ j. Keeps Any (IsFresh n) (λ z. IsDone hub job n) (land_one hub job j)) same
          (land_one-IsDone hub job n h))
        (λ z.
          outlasting (IsDone hub job n) (land_all hub job ns)
            (land_all-Lasts hub job ns (IsDone-Lasts hub job n)))
  | no ne ↦
      Keeps-bind {Q = λ z. IsFresh n} (land_one hub job k) _
        (outlasting (IsFresh n) (land_one hub job k)
          (land_one-Lasts hub k (IsFresh-Lasts n k (λ e. ne (sym e))) job))
        (λ z. land_all-IsDone hub job n ns h (elim i [ inl e ↦ absurd (ne e) | inr j ↦ j ]))
]

run_order-IsDone :
    (hub : Hub) (job : Job) (s : RunState) (n : ℕ) (o : Option (List ℕ))
    → IsFresh n s
    → contains job.hand_merged n ≡ false
    → ((ns : List ℕ) → o ≡ some ns → In n ns)
    → (run_order hub job o s).0 ≡ inr tt
    → IsDone hub job n (run_order hub job o s).1
unfolding run_order raise
run_order-IsDone hub job s n none g h k e = absurd (cc)
run_order-IsDone hub job s n (some ns) g h k e =
    ((land_all-IsDone hub job n ns h (k ns refl)).at s tt g).1 tt e

-- When the merge step returns, a pull request of the run that was not merged by hand, nor merged or
-- copied before the step, is recorded as merged, and the Hub has done what its plan says: it merged
-- the pull request, or else committed all its files from the verified head and closed it; or it
-- committed the files of what is published from it from the verified head, and closed it or, where
-- it stays open, took a comment on it; or it only took a comment, or only closed it. After each
-- such commit main was found to have each of the files as the verified head has it.
pub merge_step-IsDone :
    (hub : Hub) (job : Job) (s : RunState) (n : ℕ)
    → In n job.prs
    → contains job.hand_merged n ≡ false
    → IsFresh n s
    → (merge_step hub job s).0 ≡ inr tt
    → IsDone hub job n (merge_step hub job s).1
unfolding merge_step run_order
merge_step-IsDone hub job s n i h g e =
    run_order-IsDone hub job s n (merge_order job) g h (λ ns q. merge_order-In job ns n q i) e
