-- ===== src/Accept/Landing/Items.antt =====
-- What an item of the merge step says of its pull request.
use helpmate_tablebase.Base.{
  is_empty, ◌==◌, beq_refl, get_or_else, lookup, ℕ, String, ◌≡◌, refl, sym, ap, ◌∙◌, subst, true,
  false, Option, none, some, List, [], ◌∷◌, string_eq, pair_eq, nat_eq, option_eq, list_eq, bool_eq,
}
use mathlib.Core.Option
use helpmate_tablebase.Claims.{PullRequest}
use helpmate_tablebase.Accept.Plan.{PrPlan, pr_plan}
use helpmate_tablebase.Accept.Plan.Safety.{is_closing, pr_plan-closes}
use helpmate_tablebase.Accept.Hub.{Event, asked_head}
use helpmate_tablebase.Accept.Landing.{Job, Item, planned}
use helpmate_tablebase.Accept.Landing.Checked.{head_checked, held_of, files_in}

-- `it` is the item of `n`.
pub record IsItem (job : Job) (n : ℕ) (it : Item) : Type 0 where
  pub pr : PullRequest
  pub stored : lookup n job.pulls ≡ some pr
  pub same_head : it.pull.head ≡ pr.head
  pub same_files : it.pull.files ≡ pr.files
  pub holds : held_of job n ≡ it.plan.holds
  pub closes : is_closing it.plan.action ≡ true → is_empty (held_of job n) ≡ true

built_inv :
    (pull : PullRequest) (r : Option PrPlan) (it : Item)
    → Option.map (λ (p : PrPlan). let i : Item = record { pull = pull; plan = p } in i) r ≡ some it
    → (p : PrPlan) × (r ≡ some p) × (it ≡ record { pull = pull; plan = p })
built_inv pull none it e = absurd (cc)
built_inv pull (some p) it e = (p, refl, cc)

pub planned-IsItem : (job : Job) (n : ℕ) (it : Item) → planned job n ≡ some it → IsItem job n it
unfolding planned held_of head_checked
planned-IsItem job n it e = of_pull (lookup n job.pulls) refl
  where
    of_pull : (o : Option PullRequest) → lookup n job.pulls ≡ o → IsItem job n it
    of_pull none q = absurd (let f = rw (q, planned) at e in cc f)
    of_pull (some pr) q =
        let pull = record pr { num = n } in
        let own = get_or_else (lookup n job.own) [] in
        let (p, a, b) = built_inv pull (pr_plan pull job.decided own) it (rw (q, planned) at e) in
        let closes = pr_plan-closes pull job.decided own p a in
        let h : held_of job n ≡ it.plan.holds = rw (e, held_of) refl in
        record {
          pr = pr;
          stored = q;
          same_head = ap (λ x. x.pull.head) b;
          same_files = ap (λ x. x.pull.files) b;
          holds = h;
          closes = λ c. rw h (
              subst (λ x. is_empty x.plan.holds ≡ true) (sym b)
                (closes (subst (λ x. is_closing x.plan.action ≡ true) b c)));
        }

module _ {job : Job} {n : ℕ} {it : Item} (i : IsItem job n it) where
  files_of_item :
      (o : Option PullRequest)
      → o ≡ some i.pr
      → elim o [ none ↦ [] | some pr ↦ pr.files ] ≡ it.pull.files
  files_of_item none e = absurd (cc)
  files_of_item (some pr) e =
      let q : pr ≡ i.pr = cc in ap (λ (x : PullRequest). x.files) q ∙ sym i.same_files

  pub files_in-IsItem : files_in job n ≡ it.pull.files
  files_in-IsItem = files_of_item (lookup n job.pulls) i.stored

  verified_head :
      (r : Option (Option String)) (o : Option PullRequest)
      → r ≡ some it.pull.head
      → o ≡ some i.pr
      → elim o [ none ↦ false | some pr ↦ r == some pr.head ] ≡ true
  verified_head r none u e = absurd (cc)
  verified_head r (some pr) u e =
      let q : pr ≡ i.pr = cc in rw (u, i.same_head, q) (beq_refl (some i.pr.head))

  -- The verified head, found last, makes the calls allowed.
  pub head_checked-IsItem :
      (r : Option (Option String)) (log : List Event)
      → r ≡ some it.pull.head
      → head_checked job n (asked_head n r ∷ log) ≡ true
  unfolding head_checked
  head_checked-IsItem r log u = rw (beq_refl n) (verified_head r (lookup n job.pulls) u i.stored)
