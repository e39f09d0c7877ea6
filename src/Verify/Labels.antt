-- ===== src/Verify/Labels.antt =====
-- contrib/verify.py, `pr_login` and `classify`: the label that verification gives each material of
-- a pull request.
pub mod Forecast
use mathlib.Core.Option
use helpmate_tablebase.Base.{
  if◌then◌else◌, Dict, lookup, has, same_login, ℕ, String, ◌<>◌, Bool, true, false, not, Option,
  none, some, List, map, string_eq, pair_eq, nat_eq, option_eq, list_eq, bool_eq,
}
use helpmate_tablebase.Claims.{
  Claim, ClaimIndex, claim_for, PullRequest, pr_materials, Contributor, by_hf, Links,
  identity_claim,
}
use helpmate_tablebase.Accept.{truthy}

pub data Label : Type 0 where
  duplicate_of_published fresh : Label
  duplicate_of_pr held_for_issue : ℕ → Label

-- `pr_login`; the registry may be unavailable, and so may the claims.
unfoldable pub pr_login :
    Links → PullRequest → Option ClaimIndex → Option (List Contributor) → Option String
pr_login parse_links pr index registry =
    let login = (parse_links pr.description).1 in
    let speaks : List Contributor → Option String = (λ cs. elim index [
      | none ↦ none
      | some i ↦ Option.map (λ c. c.author) (identity_claim parse_links pr i cs)
    ]) in
    if truthy login then login else elim registry [
      | none ↦ login
      | some cs ↦ elim (by_hf cs pr.author) [
        | none ↦ speaks cs
        | some known ↦ if truthy known.github then known.github else speaks cs
      ]
    ]

-- claim is not None and (login is None or claim.author.lower() != login.lower())
abbrev pub is_others : Option Claim → Option String → Bool
is_others none login = false
is_others (some c) none = true
is_others (some c) (some l) = not (same_login c.author l)

abbrev issue_of : Option Claim → ℕ
issue_of none = 0
issue_of (some c) = c.issue

-- The label of one material.
unfoldable pub label_of :
    Dict String String → Option ClaimIndex → Dict String ℕ → Option String → String → Label
label_of manifest index earlier login m =
    let claim : Option Claim = elim index [ none ↦ none | some i ↦ claim_for i m ] in
    if has (m <> ".hm") manifest then duplicate_of_published else elim (lookup m earlier) [
      | some n ↦ duplicate_of_pr n
      | none ↦ if is_others claim login then held_for_issue (issue_of claim) else fresh
    ]

-- `classify`
unfoldable pub classify :
    PullRequest
    → Dict String String
    → Option ClaimIndex
    → Dict String ℕ
    → Option String
    → Dict String Label
unfolding label_of pr_materials
classify pr manifest index earlier login =
    map (λ m. (m, label_of manifest index earlier login m)) (pr_materials pr)
