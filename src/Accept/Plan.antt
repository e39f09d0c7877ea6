-- ===== src/Accept/Plan.antt =====
-- contrib/accept.py, `_pr_plan` and `_outcome`: what happens to a pull request after the
-- decisions on its materials.
pub mod Safety
use mathlib.Core.Option
use helpmate_tablebase.Base.{
  is_empty, ◌==◌, if◌then◌else◌, In, filter, contains, Dict, lookup, String, ◌≡◌, refl, sym, ap,
  ◌∙◌, subst, ◌⊎◌, inl, inr, Bool, true, false, not, ◌&&◌, Option, none, some, List, [], ◌∷◌, ◌++◌,
  map, arith, string_eq, pair_eq, nat_eq, option_eq, list_eq, bool_eq,
}
use helpmate_tablebase.Claims.{PullRequest, pr_materials}
use helpmate_tablebase.Accept.{new, reproduction, held, Decision}

-- `Action`
pub data Action : Type 0 where
  merge copy_close copy_open comment close : Action

-- The result of `_pr_plan`.
pub record PrPlan : Type 0 where
  pub publishes : List String
  pub holds : List String
  pub credits : List String
  pub action : Action

-- decided[m] for the materials, `none` for a KeyError
unfoldable pub decided_for : Dict String Decision → List String → Option (List (String × Decision))
decided_for decided [] = some []
decided_for decided (m ∷ ms) =
    let rest = decided_for decided ms in
    elim (lookup m decided) [ none ↦ none | some d ↦ Option.map (λ ds. (m, d) ∷ ds) rest ]

-- [m for m in pr.materials if test(decided[m])]
abbrev pub names_where : (Decision → Bool) → List (String × Decision) → List String
names_where test [] = []
names_where test ((m, d) ∷ ds) = let rest = names_where test ds in if test d then m ∷ rest else rest

abbrev is_held : Decision → Bool
is_held d = elim d.kind [ held ↦ true | _ ↦ false ]

-- The nested conditional for the action.
action_of : List String → List String → List String → List String → Action
action_of pub_here held_back credited own =
    if not (is_empty pub_here) && is_empty held_back && is_empty credited && is_empty own
    then merge
    else if not (is_empty pub_here) && not (is_empty held_back)
    then copy_open
    else if not (is_empty pub_here)
    then copy_close
    else if not (is_empty held_back)
    then comment
    else close

plan_of : PullRequest → List String → List (String × Decision) → PrPlan
plan_of pr own ds =
    let pub_here = names_where (λ d. d.publish_from == some pr.num) ds in
    let held_back = names_where is_held ds in
    let credited =
      filter (λ m. not (contains (pub_here ++ held_back ++ own) m)) (pr_materials pr) in
    record {
      publishes = pub_here;
      holds = held_back;
      credits = credited;
      action = action_of pub_here held_back credited own;
    }

-- `_pr_plan`
unfoldable pub pr_plan : PullRequest → Dict String Decision → List String → Option PrPlan
unfolding decided_for plan_of action_of
pr_plan pr decided own = Option.map (plan_of pr own) (decided_for decided (pr_materials pr))

abbrev pub is_recorded : Decision → Bool
is_recorded d = elim d.kind [ new ↦ true | reproduction ↦ true | _ ↦ false ]

-- `_outcome`, for one PR: the materials published from it and those recorded for it.
unfoldable pub outcome :
    PullRequest → Dict String Decision → List String → Option (List String × List String)
unfolding decided_for
outcome pr decided own =
    Option.map
      (λ ds. (
        names_where (λ d. d.publish_from == some pr.num) ds,
        filter (λ m. not (contains own m)) (names_where is_recorded ds),
      ))
      (decided_for decided (pr_materials pr))

decided_for_cases :
    (x : String) (o : Option Decision) (r : Option (List (String × Decision)))
    (ds : List (String × Decision))
    → elim o [ none ↦ none | some d ↦ Option.map (λ rest. (x, d) ∷ rest) r ] ≡ some ds
    → (d : Decision) × (rest : List (String × Decision)) × (o ≡ some d)
      × (r ≡ some rest)
      × (ds ≡ (x, d) ∷ rest)
decided_for_cases x none r ds e = absurd (cc)
decided_for_cases x (some d) none ds e = absurd (cc)
decided_for_cases x (some d) (some rest) ds e = (d, rest, refl, refl, cc)

decided_for-In :
    (decided : Dict String Decision) (ms : List String) (ds : List (String × Decision)) (m : String)
    → decided_for decided ms ≡ some ds
    → In m ms
    → (d : Decision) × (lookup m decided ≡ some d) × In (m, d) ds
unfolding decided_for
decided_for-In decided [] ds m e h = elim h [ ]
decided_for-In decided (x ∷ ms) ds m e (inl h) =
    let (d, rest, a, b, c) = decided_for_cases x _ _ ds e in
    (d, ap (λ y. lookup y decided) h ∙ a, rw (c, h) (inl refl))
decided_for-In decided (x ∷ ms) ds m e (inr h) =
    let (d, rest, a, b, c) = decided_for_cases x _ _ ds e in
    let (f, q, i) = decided_for-In decided ms rest m b h in (f, q, rw c (inr i))

empty_of : (ds : List (String × Decision)) → some [] ≡ some ds → ds ≡ []
empty_of ds e = cc

pub decided_for-In_inv :
    (decided : Dict String Decision) (ms : List String) (ds : List (String × Decision)) (m : String)
    (f : Decision)
    → decided_for decided ms ≡ some ds
    → In (m, f) ds
    → In m ms × (lookup m decided ≡ some f)
unfolding decided_for
decided_for-In_inv decided [] ds m f e h = elim (subst (λ l. In (m, f) l) (empty_of ds e) h) [ ]
decided_for-In_inv decided (x ∷ ms) ds m f e h =
    let (d, rest, a, b, c) = decided_for_cases x _ _ ds e in
    elim (subst (λ l. In (m, f) l) c h) [
      | inl q ↦ (
        inl (ap (λ p. p.0) q),
        ap (λ y. lookup y decided) (ap (λ p. p.0) q) ∙ a ∙ sym (ap (λ p. some p.1) q),
      )
      | inr i ↦ let (j, q) = decided_for-In_inv decided ms rest m f b i in (inr j, q)
    ]

names_where_cases :
    (test : Decision → Bool) (x : String) (d : Decision) (ds : List (String × Decision))
    (m : String)
    → In m (names_where test ((x, d) ∷ ds))
    → ((m ≡ x) × (test d ≡ true)) ⊎ In m (names_where test ds)
names_where_cases test x d ds m h = ground (arith, h)

names_where-In_of :
    (test : Decision → Bool) (ds : List (String × Decision)) (m : String) (d : Decision)
    → In (m, d) ds
    → test d ≡ true
    → In m (names_where test ds)
names_where-In_of test [] m d h t = elim h [ ]
names_where-In_of test ((x, f) ∷ ds) m d (inl e) t =
    let here : test f ≡ true = ap test (sym (ap (λ p. p.1) e)) ∙ t in
    rw here (inl (ap (λ p. p.0) e))
names_where-In_of test ((x, f) ∷ ds) m d (inr h) t =
    let rest = names_where-In_of test ds m d h t in ground (arith, rest)

pub names_where-In :
    (test : Decision → Bool) (ds : List (String × Decision)) (m : String)
    → In m (names_where test ds)
    → (d : Decision) × In (m, d) ds × (test d ≡ true)
names_where-In test [] m h = elim h [ ]
names_where-In test ((x, d) ∷ ds) m h = elim (names_where_cases test x d ds m h) [
  | inl (e, t) ↦ (d, inl (ap (λ y. (y, d)) e), t)
  | inr i ↦ let (f, j, t) = names_where-In test ds m i in (f, inr j, t)
]
