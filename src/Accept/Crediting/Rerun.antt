-- ===== src/Accept/Crediting/Rerun.antt =====
-- `_own_deliveries` and `_outcome` in a run that reads what an earlier run credited.
use helpmate_tablebase.Registry.Credit.{WellFormed}
use helpmate_tablebase.Accept.Plan.{
  decided_for, names_where, is_recorded, outcome, decided_for-In_inv, names_where-In,
}
use helpmate_tablebase.Accept.Crediting.{Submitter, Run, credit_run, is_own, owns, own_deliveries}
use helpmate_tablebase.Accept.Crediting.Credited.{Readable, credit_run-Credited}
use helpmate_tablebase.Accept.{Decision}
use helpmate_tablebase.Base.{
  ◌==◌, Option-cases, get_or_else, In, filter, In-filter, In-filter_of, any_of_In, any-In, contains,
  In→contains, Dict, lookup, ℕ, String, ◌≡◌, refl, sym, ap, subst, inl, inr, Bool, true, false, not,
  Option, some, List, [], arith, string_eq, pair_eq, nat_eq, option_eq, list_eq, bool_eq,
}
use helpmate_tablebase.Claims.{PullRequest, pr_materials}
use helpmate_tablebase.Registry.{Registry}
use helpmate_tablebase.Accept.Crediting.Growing.{Lists}

is_own-Lists : (m key : String) (n : ℕ) (reg : Registry) → Lists m key n reg → owns n m reg ≡ true
unfolding is_own
is_own-Lists m key n reg h = elim (Option-cases (lookup m reg.tables)) [
  | inl e ↦ absurd (cc (rw e at h))
  | inr (t, e) ↦
      let ps = get_or_else t.producers [] in
      let (q, i, c) = any-In _ ps (rw e at h) in
      let here = any_of_In (λ p. p.hf_pr == some n) ps q i (ground (arith, c)) in
      let goal : is_own n t ≡ true = ground (arith, here) in rw (owns, e) goal
]

own_deliveries-Lists :
    (regs : List Registry) (reg : Registry) (pr : PullRequest) (m key : String)
    → In reg regs
    → In m (pr_materials pr)
    → Lists m key pr.num reg
    → In m (own_deliveries regs pr)
unfolding own_deliveries
own_deliveries-Lists regs reg pr m key i j h =
    In-filter_of _ m (pr_materials pr) j (any_of_In _ regs reg i (is_own-Lists m key pr.num reg h))

of_not : (b : Bool) → not b ≡ true → b ≡ false
of_not true h = absurd (cc)
of_not false h = refl

recorded-new :
    (pr : PullRequest) (decided : Dict String Decision) (own pubs names : List String) (m : String)
    → outcome pr decided own ≡ some (pubs, names)
    → In m names
    → In m (pr_materials pr) × (contains own m ≡ false)
unfolding outcome
recorded-new pr decided own pubs names m e i =
    elim (Option-cases (decided_for decided (pr_materials pr))) [
      | inl z ↦ absurd (cc (rw z at e))
      | inr (ds, z) ↦
          let same : some (_, filter (λ k. not (contains own k)) (names_where is_recorded ds))
              ≡ some (pubs, names) =
            rw z at e in
          let kept =
            ap (λ (o : Option (List String × List String)). (get_or_else o ([], [])).1) same in
          let (j, c) =
            In-filter (λ k. not (contains own k)) m (names_where is_recorded ds)
              (subst (λ l. In m l) (sym kept) i) in
          let (d, k, t) = names_where-In is_recorded ds m j in
          ((decided_for-In_inv decided (pr_materials pr) ds m d z k).0, of_not (contains own m) c)
    ]

-- When the files that the run reads can be read, crediting a pull request of the run in a
-- well-formed registry returns a registry such that a later run that reads it, whatever else it
-- reads and whatever it decides, records none of the materials again that this run recorded for
-- the pull request.
pub credit_run-again :
    (run : Run) (pulls prs : List ℕ) (reg : Registry) (pr : PullRequest) (p : Submitter)
    (recorded_before : List String)
    → WellFormed reg
    → ((n : ℕ) → In n pulls → Readable run n)
    → ((n : ℕ) → In n prs → In n pulls)
    → In pr.num prs
    → lookup pr.num run.people ≡ some p
    → lookup pr.num run.recorded ≡ some recorded_before
    → (after : Registry) × (credit_run run pulls prs reg ≡ some after)
      × ((regs : List Registry) (decided : Dict String Decision) (pubs names : List String)
          → In after regs
          → outcome pr decided (own_deliveries regs pr) ≡ some (pubs, names)
          → (m : String) → In m names
          → ¬ In m recorded_before)
credit_run-again run pulls prs reg pr p before w h sub i d e =
    let (after, f, w2, g, listed) = credit_run-Credited run pulls prs reg w h sub in
    (
      after,
      f,
      (λ regs decided pubs names j o m k l.
          let (inside, absent) =
            recorded-new pr decided (own_deliveries regs pr) pubs names m o k in
          let own =
            own_deliveries-Lists regs after pr m p.key j inside
              (listed pr.num p before i d e m l) in
          let present = In→contains (own_deliveries regs pr) m own in cc),
    )
