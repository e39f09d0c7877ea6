-- ===== src/Accept/Plan/Safety.antt =====
-- What `_pr_plan` may do: a whole merge, and which pull requests stay open.
use mathlib.Core.Option
use mathlib.Core.List.{append-nil}
use helpmate_tablebase.Base.{
  is_empty, ◌==◌, option_eq, if◌then◌else◌, In, filter, contains, contains→In, Dict, lookup, has, ℕ,
  String, ◌<>◌, ◌≡◌, refl, sym, ap, ◌∙◌, subst, ◌≢◌, ◌⊎◌, Bool, true, false, not, ◌&&◌, Option,
  none, some, List, [], ◌∷◌, ◌++◌, arith, string_eq, pair_eq, nat_eq, list_eq, bool_eq,
}
use helpmate_tablebase.Claims.{PullRequest, pr_materials}
use helpmate_tablebase.Accept.{
  Kind, new, reproduction, held, conflict, Decision, Inputs, ok, claim_of, decide,
}
use helpmate_tablebase.Accept.Plan.{
  Action, merge, copy_close, copy_open, comment, close, PrPlan, decided_for, names_where, is_held,
  action_of, plan_of, pr_plan, decided_for-In, decided_for-In_inv, names_where-In_of,
  names_where-In,
}
use helpmate_tablebase.Accept.Sound.{MayPublish, Guarantees}
use helpmate_tablebase.Accept.Deliveries.{deliverers, Decided, Hashed, decide_sound}

pr_plan_cases :
    (pr : PullRequest) (own : List String) (o : Option (List (String × Decision))) (p : PrPlan)
    → Option.map (plan_of pr own) o ≡ some p
    → (ds : List (String × Decision)) × (o ≡ some ds) × (plan_of pr own ds ≡ p)
pr_plan_cases pr own none p e = absurd (cc)
pr_plan_cases pr own (some ds) p e = (ds, refl, cc)

empty_is_nil : (xs : List String) → is_empty xs ≡ true → xs ≡ []
empty_is_nil [] h = refl
empty_is_nil (x ∷ xs) h = absurd (cc)

empty_of_nil : (xs : List String) → xs ≢ [] → is_empty xs ≡ false
empty_of_nil [] h = absurd (h refl)
empty_of_nil (x ∷ xs) h = refl

merge_tests :
    (a b c o : Bool)
    → (if a && b && c && o
        then merge
        else if a && not b
        then copy_open
        else if a
        then copy_close
        else if not b
        then comment
        else close)
      ≡ merge
    → (b ≡ true) × (c ≡ true) × (o ≡ true)
merge_tests a b c o e = ground (arith, e)

merge_cases : (a b c o : List String) → action_of a b c o ≡ merge → (b ≡ []) × (c ≡ []) × (o ≡ [])
unfolding action_of
merge_cases a b c o e =
    let (x, y, z) = merge_tests (not (is_empty a)) (is_empty b) (is_empty c) (is_empty o) e in
    (empty_is_nil b x, empty_is_nil c y, empty_is_nil o z)

stays_open :
    (a b c o : List String)
    → b ≢ []
    → (action_of a b c o ≡ copy_open) ⊎ (action_of a b c o ≡ comment)
unfolding action_of
stays_open a b c o e = ground (arith, empty_of_nil b e)

all_of_none_left :
    (l ms : List String) (m : String)
    → filter (λ x. not (contains l x)) ms ≡ []
    → In m ms
    → contains l m ≡ true
all_of_none_left l [] m e h = elim h [ ]
all_of_none_left l (x ∷ ms) m e h = ground (arith, h, all_of_none_left l ms m)

-- A plan that merges the PR whole publishes each of its materials from it.
pub pr_plan-merge :
    (pr : PullRequest) (decided : Dict String Decision) (own : List String) (p : PrPlan)
    (m : String)
    → pr_plan pr decided own ≡ some p
    → p.action ≡ merge
    → In m (pr_materials pr)
    → (d : Decision) × (lookup m decided ≡ some d) × (d.publish_from ≡ some pr.num)
unfolding pr_plan plan_of
pr_plan-merge pr decided own p m e a h =
    let (ds, f, q) = pr_plan_cases pr own _ p e in
    let test : Decision → Bool = (λ d. d.publish_from == some pr.num) in
    let (no_held, no_credit, no_own) =
      merge_cases (names_where test ds) (names_where is_held ds) _ own (ap (λ r. r.action) q ∙ a) in
    let l = names_where test ds in
    let inside = all_of_none_left _ (pr_materials pr) m no_credit h in
    let inside2 =
      subst (λ x. contains (l ++ x ++ []) m ≡ true) no_held
        (subst (λ x. contains (l ++ names_where is_held ds ++ x) m ≡ true) no_own inside) in
    let inside3 = subst (λ x. contains x m ≡ true) (append-nil (l ++ []) ∙ append-nil l) inside2 in
    let (d, i, t) = names_where-In test ds m (contains→In l m inside3) in
    let (_, known) = decided_for-In_inv decided (pr_materials pr) ds m d f i in
    (d, known, (option_eq.equal_iff d.publish_from (some pr.num)).0 t)

-- If a PR has a material whose decision is `held` then its plan lists the material as held and
-- the PR stays open: the action is a comment, or a copy that does not close it.
pr_plan-open :
    (pr : PullRequest) (decided : Dict String Decision) (own : List String) (p : PrPlan)
    (m : String) (d : Decision)
    → pr_plan pr decided own ≡ some p
    → In m (pr_materials pr)
    → lookup m decided ≡ some d
    → d.kind ≡ held
    → In m p.holds × ((p.action ≡ copy_open) ⊎ (p.action ≡ comment))
unfolding pr_plan plan_of
pr_plan-open pr decided own p m d e h l k =
    let (ds, f, q) = pr_plan_cases pr own _ p e in
    let (d2, l2, i) = decided_for-In decided (pr_materials pr) ds m f h in
    let same : d2 ≡ d = cc in
    let back = names_where-In_of is_held ds m d2 i (rw (same, k) refl) in
    let held_here : names_where is_held ds ≢ [] = (λ z. absurd (subst (λ xs. In m xs) z back)) in
    (
      subst (λ r. In m r.holds) q back,
      subst (λ r. (r.action ≡ copy_open) ⊎ (r.action ≡ comment)) q
          (stays_open _ (names_where is_held ds) _ own held_here),
    )

publish_from_kind :
    (inputs : Inputs) (m : String) (ns : List ℕ) (kind : Kind) (d : Decision) (n : ℕ)
    → Guarantees inputs m ns kind d
    → d.publish_from ≡ some n
    → (has (m <> ".hm") inputs.published ≡ false)
      × MayPublish inputs m (claim_of inputs m) n
      × In n ns
publish_from_kind inputs m ns new d n (h, (k, e, i, may), _, _, _) f =
    let same : k ≡ n = cc in
    (
      h,
      subst (λ x. MayPublish inputs m (claim_of inputs m) x) same may,
      subst (λ x. In x ns) same i,
    )
publish_from_kind inputs m ns reproduction d n g f = absurd (cc)
publish_from_kind inputs m ns held d n g f = absurd (cc)
publish_from_kind inputs m ns conflict d n g f = absurd (cc)

publish_from-Decided :
    (inputs : Inputs) (m : String) (ns : List ℕ) (o : Option Decision) (d : Decision) (n : ℕ)
    → Decided inputs m ns o
    → o ≡ some d
    → d.publish_from ≡ some n
    → (has (m <> ".hm") inputs.published ≡ false)
      × MayPublish inputs m (claim_of inputs m) n
      × In n ns
publish_from-Decided inputs m [] o d n g e f = absurd (cc)
publish_from-Decided inputs m (k ∷ ns) o d n (d2, e2, g) e f =
    let same : d2 ≡ d = cc in
    publish_from_kind inputs m (k ∷ ns) d.kind d n
      (subst (λ x. Guarantees inputs m (k ∷ ns) x.kind x) same g) f

-- If the plan of a PR, after a run whose published tables have payload hashes, merges the PR
-- whole, then each of its materials was not published before, is delivered by a PR of this number
-- in the run, and, where someone has claimed it, was released by the maintainer or is delivered
-- under the claim holder's login.
pub merge-safe :
    (prs : List PullRequest) (inputs : Inputs) (out : Dict String Decision) (pr : PullRequest)
    (own : List String) (p : PrPlan) (m : String)
    → Hashed inputs
    → decide prs inputs ≡ ok out
    → pr_plan pr out own ≡ some p
    → p.action ≡ merge
    → In m (pr_materials pr)
    → (has (m <> ".hm") inputs.published ≡ false)
      × MayPublish inputs m (claim_of inputs m) pr.num
      × In pr.num (deliverers prs m)
merge-safe prs inputs out pr own p m hashed run e a h =
    let (d, l, from) = pr_plan-merge pr out own p m e a h in
    let (out2, run2, all_of) = decide_sound prs inputs hashed in
    let same : out2 ≡ out = cc in
    publish_from-Decided inputs m (deliverers prs m) (lookup m out2) d pr.num (all_of m)
      (ap (λ x. lookup m x) same ∙ l) from

-- The actions that merge a pull request whole or close it.
abbrev pub is_closing : Action → Bool
is_closing merge = true
is_closing copy_close = true
is_closing close = true
is_closing copy_open = false
is_closing comment = false

closing_tests :
    (a b c o : Bool)
    → is_closing (
        if a && b && c && o
        then merge
        else if a && not b
        then copy_open
        else if a
        then copy_close
        else if not b
        then comment
        else close)
      ≡ true
    → b ≡ true
closing_tests a true c o e = refl
closing_tests true false c o e = cc
closing_tests false false c o e = cc

map_inv :
    (f : List (String × Decision) → PrPlan) (r : Option (List (String × Decision))) (p : PrPlan)
    → Option.map f r ≡ some p
    → (ds : List (String × Decision)) × (f ds ≡ p)
map_inv f none p e = absurd (cc)
map_inv f (some ds) p e = (ds, cc)

-- A plan that merges or closes the PR holds nothing of it.
pub pr_plan-closes :
    (pr : PullRequest) (decided : Dict String Decision) (own : List String) (p : PrPlan)
    → pr_plan pr decided own ≡ some p
    → is_closing p.action ≡ true
    → is_empty p.holds ≡ true
unfolding pr_plan plan_of action_of
pr_plan-closes pr decided own p e c =
    let (ds, q) = map_inv (plan_of pr own) (decided_for decided (pr_materials pr)) p e in
    let pub_here = names_where (λ d. d.publish_from == some pr.num) ds in
    let held_back = names_where is_held ds in
    let credited =
      filter (λ m. not (contains (pub_here ++ held_back ++ own) m)) (pr_materials pr) in
    subst (λ x. is_empty x.holds ≡ true) q
      (closing_tests (not (is_empty pub_here)) (is_empty held_back) (is_empty credited)
        (is_empty own) (subst (λ x. is_closing x.action ≡ true) (sym q) c))
