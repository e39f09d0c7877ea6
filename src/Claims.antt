-- ===== src/Claims.antt =====
-- contrib/claims.py: the open claims, and whose claim speaks for a pull request.
-- contrib/hf.py, `PullRequest`, and contrib/registry.py's `Contributor` as far as claims read them.
pub mod Index
pub mod Identity
use Prim.Native.Char.{code}
use mathlib.Core.Option
use helpmate_tablebase.Base.{
  ltb, ◌==◌, if◌then◌else◌, find, any, contains, sorted_by, Dict, lookup, setdefault, lower,
  same_login, ℕ, String, Bool, false, not, ◌&&◌, ◌||◌, Option, none, some, List, [], ◌∷◌, map,
  string_eq, pair_eq, nat_eq, option_eq, list_eq, bool_eq,
}
use helpmate_tablebase.Consistency.{sorted_text}

-- A claim issue.
pub record Claim : Type 0 where
  pub issue : ℕ
  pub author : String
  pub created_at : String
  pub materials : List String
  pub released : List String
  pub body : String
  pub hf : Option String
  pub credit : Option String
  pub anonymous : Bool
  pub explicit : List String
  pub confirm : Bool

-- `ClaimIndex`
pub record ClaimIndex : Type 0 where
  pub claims : List Claim
  pub first : Dict String Claim

-- `for m in c.materials: if m not in c.released: self._first.setdefault(m, c)`
hold_all : Claim → List String → Dict String Claim → Dict String Claim
hold_all c [] d = d
hold_all c (m ∷ ms) d = hold_all c ms (if contains c.released m then d else setdefault m c d)

-- The loop over the claims, in issue order.
hold_claims : List Claim → Dict String Claim → Dict String Claim
hold_claims [] d = d
hold_claims (c ∷ cs) d = hold_claims cs (if c.confirm then d else hold_all c c.materials d)

-- sorted(claims, key=lambda c: c.issue)
abbrev pub by_issue : Claim → Claim → Bool
by_issue c d = ltb c.issue d.issue

-- `ClaimIndex.__init__`
unfoldable pub index_of : List Claim → ClaimIndex
unfolding hold_claims hold_all sorted_by
index_of claims =
    let cs = sorted_by by_issue claims in record { claims = cs; first = hold_claims cs [] }

-- `ClaimIndex.claim_for`
unfoldable pub claim_for : ClaimIndex → String → Option Claim
claim_for index material = lookup material index.first

-- `PullRequest`
pub record PullRequest : Type 0 where
  pub num : ℕ
  pub title : String
  pub author : String
  pub status : String
  pub description : String
  pub files : List String
  pub head : Option String
  pub url : String
  pub deleted : List String

-- f[: -len(suffix)] if f.endswith(suffix)
unfoldable pub strip_suffix : String → String → Option String
strip_suffix suffix String.[] = if suffix == "" then some "" else none
strip_suffix suffix (String.◌∷◌ c s) =
    let rest = Option.map (String.◌∷◌ c) (strip_suffix suffix s) in
    if suffix == String.◌∷◌ c s then some "" else rest

-- The stems of the files with a suffix.
unfoldable pub stems : String → List String → List String
unfolding strip_suffix
stems suffix [] = []
stems suffix (f ∷ fs) = elim (strip_suffix suffix f) [
  | some m ↦ m ∷ stems suffix fs
  | none ↦ stems suffix fs
]

-- A set, as the list of its elements without repetition.
unfoldable pub to_set : List String → List String
to_set [] = []
to_set (x ∷ xs) = let rest = to_set xs in if contains rest x then rest else x ∷ rest

-- `PullRequest.materials`
unfoldable pub pr_materials : PullRequest → List String
unfolding stems to_set sorted_by
pr_materials pr = sorted_text (to_set (stems ".hm" pr.files))

-- `Contributor`
pub record Contributor : Type 0 where
  pub key : String
  pub github : Option String
  pub hf : Option String
  pub display : String
  pub anonymous : Bool
  pub note : String

-- `o and o.lower() == login.lower()`, for the falsy None and ""
abbrev pub login_matches : Option String → String → Bool
login_matches none login = false
login_matches (some known) login = not (known == "") && same_login known login

-- `Registry.by_github`
unfoldable pub by_github : List Contributor → String → Option Contributor
by_github cs login = find (λ c. login_matches c.github login) cs

-- `Registry.by_hf`
unfoldable pub by_hf : List Contributor → String → Option Contributor
by_hf cs user = find (λ c. login_matches c.hf user) cs

-- What `parse_links` (contrib/links.py) reads in a description: the claim and the GitHub login.
abbrev pub Links : Type 0
Links = String → Option ℕ × Option String

-- The message of `ownership_conflict`, by the clue that points elsewhere.
pub data Clash : Type 0 where
  other_claim : ℕ → ℕ → Clash
  other_login : String → ℕ → String → Clash
  other_account : String → String → ℕ → String → Clash

module _ (parse_links : Links) where
  -- The claim of `login` that covers one of the materials.
  claim_of_login : List Claim → String → List String → Option Claim
  claim_of_login cs login mats =
      find (λ c. same_login c.author login && any (λ m. contains mats m) c.materials) cs

  -- The first claim on the first material, unless its form names another HF user.
  claim_of_material : PullRequest → ClaimIndex → List String → Option Claim
  claim_of_material pr index [] = none
  claim_of_material pr index (m ∷ ms) = elim (claim_for index m) [
    | none ↦ none
    | some c ↦ elim c.hf [
      | none ↦ some c
      | some user ↦ if same_login user pr.author then some c else none
    ]
  ]

  -- The PR's login: the description's, or that of the registry entry of its HF user.
  pub login_of : PullRequest → List Contributor → Option String → Option String
  login_of pr cs (some login) = some login
  login_of pr cs none = elim (by_hf cs pr.author) [ none ↦ none | some known ↦ known.github ]

  -- `identity_claim`, behind the claim number that the description names
  identity_by_login : PullRequest → ClaimIndex → Option String → Option Claim
  identity_by_login pr index (some login) = claim_of_login index.claims login (pr_materials pr)
  identity_by_login pr index none = claim_of_material pr index (pr_materials pr)

  -- `identity_claim`
  unfoldable pub identity_claim : PullRequest → ClaimIndex → List Contributor → Option Claim
  unfolding claim_of_login claim_of_material login_of identity_by_login claim_for by_hf lower
  identity_claim pr index cs =
      let (num, login) = parse_links pr.description in
      elim num [
        | some k ↦ find (λ c. c.issue == k) index.claims
        | none ↦ identity_by_login pr index (login_of pr cs login)
      ]

  -- The registry's clue.
  account_clash : PullRequest → Claim → Option Contributor → Option Clash
  account_clash pr claim none = none
  account_clash pr claim (some known) = elim known.github [
    | none ↦ none
    | some g ↦
        if g == "" || same_login g claim.author
        then none
        else some (other_account pr.author g claim.issue claim.author)
  ]

  -- The login's clue, then the registry's.
  login_clash : PullRequest → Claim → List Contributor → Option String → Option Clash
  login_clash pr claim cs none = account_clash pr claim (by_hf cs pr.author)
  login_clash pr claim cs (some login) =
      if same_login login claim.author
      then account_clash pr claim (by_hf cs pr.author)
      else some (other_login login claim.issue claim.author)

  -- `ownership_conflict`
  unfoldable pub ownership_conflict : PullRequest → Claim → List Contributor → Option Clash
  unfolding account_clash login_clash by_hf lower
  ownership_conflict pr claim cs =
      let (num, login) = parse_links pr.description in
      elim num [
        | none ↦ login_clash pr claim cs login
        | some k ↦
            if k == claim.issue
            then login_clash pr claim cs login
            else some (other_claim k claim.issue)
      ]
