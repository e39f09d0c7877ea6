-- ===== src/Accept.antt =====
-- contrib/accept.py: the decision on each material of a run, what happens to each pull request,
-- and what is published and credited.
pub mod Sound
pub mod Plan
pub mod Crediting
pub mod Deliveries
pub mod Merging
pub mod Hub
pub mod Landing
use helpmate_tablebase.Base.{
  is_empty, ltb, ◌==◌, is_some, get_or_else, if◌then◌else◌, length, filter, all, contains,
  sorted_by, Dict, lookup, has, insert, same_login, ℕ, String, ◌<>◌, Bool, true, false, not, ◌&&◌,
  ◌||◌, Option, none, some, List, [], ◌∷◌, ◌++◌, string_eq, pair_eq, nat_eq, option_eq, list_eq,
  bool_eq,
}
use helpmate_tablebase.Claims.{Claim, ClaimIndex, claim_for, PullRequest, pr_materials}

pub data Kind : Type 0 where
  new reproduction held conflict : Kind

-- The texts that `decide` gives as reasons, with what they name.
pub data Reason : Type 0 where
  no_payload : List ℕ → Reason
  differs_from_published : List ℕ → Reason
  identical_to_published : Reason
  differs_between : List ℕ → Reason
  held_for_claim : ℕ → String → Reason
  holder_delivery : ℕ → Reason
  released_by_maintainer : ℕ → Reason
  earliest_delivery : ℕ → Reason

-- `Decision`
pub record Decision : Type 0 where
  pub kind : Kind
  pub publish_from : Option ℕ
  pub producers : List ℕ
  pub held_for : Option ℕ
  pub reason : Reason

-- A table's entry in a verification report, as far as accept reads it.
pub record TableEntry : Type 0 where
  pub payload_sha256 : Option String

-- A verification report, by its `tables`.
abbrev pub Report : Type 0
Report = Dict String TableEntry

-- `_payload`
unfoldable pub payload : Dict ℕ Report → ℕ → String → Option String
payload reports k m = elim (lookup k reports) [
  | none ↦ none
  | some report ↦ elim (lookup m report) [ none ↦ none | some entry ↦ entry.payload_sha256 ]
]

-- Python's truth of a text or None.
abbrev pub truthy : Option String → Bool
truthy none = false
truthy (some s) = not (s == "")

-- What `decide` reads besides the deliveries. `hashes m` is the payload hash of the published
-- table, `none` where it raises `MissingPublished`.
pub record Inputs : Type 0 where
  pub reports : Dict ℕ Report
  pub published : Dict String String
  pub hashes : String → Option String
  pub index : Option ClaimIndex
  pub logins : ℕ → Option String
  pub release : List String

-- A result, or the `MissingPublished` that was raised.
pub data Outcome (A : Type 0) : Type 0 where
  ok : A → Outcome A
  missing_published : String → Outcome A

infixl 5 ◌>>=◌
abbrev ◌>>=◌ : {A B : Type 0} → Outcome A → (A → Outcome B) → Outcome B
ok a >>= f = f a
missing_published m >>= f = missing_published m

module _ (inputs : Inputs) (m : String) where
  open inputs use {reports, published, hashes, index, logins, release}

  -- The deliveries by the holder of the claim.
  unfoldable pub by_holder : Option Claim → List ℕ → List ℕ
  by_holder none ns = []
  by_holder (some c) ns =
      filter (λ k. not (c.author == "") && same_login (get_or_else (logins k) "") c.author) ns

  -- index.claim_for(m) if index is not None else None
  unfoldable pub claim_of : Option Claim
  claim_of = elim index [ none ↦ none | some i ↦ claim_for i m ]

  -- The publication of an unclaimed or released material, from the first of `ns`.
  publish : Option Claim → List ℕ → List ℕ → Decision
  publish claim holders [] = record {
    kind = new;
    publish_from = none;
    producers = [];
    held_for = none;
    reason = no_payload [];
  }
  publish claim (h ∷ hs) (k ∷ ns) = record {
    kind = new;
    publish_from = some h;
    producers = k ∷ ns;
    held_for = none;
    reason = holder_delivery h;
  }
  publish claim [] (k ∷ ns) = record {
    kind = new;
    publish_from = some k;
    producers = k ∷ ns;
    held_for = none;
    reason = if is_some claim then released_by_maintainer k else earliest_delivery k;
  }

  -- An unpublished material whose deliveries agree.
  decide_new : Option Claim → List ℕ → Decision
  decide_new none ns = publish none [] ns
  decide_new (some c) ns =
      let holders = by_holder (some c) ns in
      if not (is_empty holders) || contains release m then publish (some c) holders ns else record {
        kind = held;
        publish_from = none;
        producers = [];
        held_for = some c.issue;
        reason = held_for_claim c.issue c.author;
      }

  -- A published material whose deliveries have payload hashes.
  decide_published : List ℕ → String → Decision
  decide_published ns ref =
      let differ = filter (λ k. not (payload reports k m == some ref)) ns in
      if is_empty differ
      then record {
        kind = reproduction;
        publish_from = none;
        producers = ns;
        held_for = none;
        reason = identical_to_published;
      }
      else record {
        kind = conflict;
        publish_from = none;
        producers = [];
        held_for = none;
        reason = differs_from_published differ;
      }

  -- len(set(pays.values())) <= 1
  unfoldable pub agree : List ℕ → Bool
  agree [] = true
  agree (k ∷ ns) = all (λ j. payload reports j m == payload reports k m) ns

  -- The body of the second loop of `decide`, for one material with its deliveries.
  unfoldable pub decide_one : List ℕ → Outcome Decision
  unfolding publish decide_new decide_published agree by_holder claim_of payload
  decide_one ns =
      let is_published = has (m <> ".hm") published in
      let missing = filter (λ k. not (truthy (payload reports k m))) ns in
      if (is_published || ltb 1 (length ns)) && not (is_empty missing)
      then ok (record {
        kind = conflict;
        publish_from = none;
        producers = [];
        held_for = none;
        reason = no_payload missing;
      })
      else if is_published
      then (do
        ref ← elim (hashes m) [ none ↦ missing_published m | some h ↦ ok h ]
        ok (decide_published ns ref))
      else if not (agree ns)
      then ok (record {
        kind = conflict;
        publish_from = none;
        producers = [];
        held_for = none;
        reason = differs_between ns;
      })
      else ok (decide_new claim_of ns)

-- deliveries.setdefault(m, []).append(num)
unfoldable pub deliver : String → ℕ → Dict String (List ℕ) → Dict String (List ℕ)
deliver m num d = insert m (get_or_else (lookup m d) [] ++ (num ∷ [])) d

deliver_all : ℕ → List String → Dict String (List ℕ) → Dict String (List ℕ)
deliver_all num [] d = d
deliver_all num (m ∷ ms) d = deliver_all num ms (deliver m num d)

-- The first loop of `decide`, over the PRs in ascending order.
deliver_prs : List PullRequest → Dict String (List ℕ) → Dict String (List ℕ)
deliver_prs [] d = d
deliver_prs (pr ∷ prs) d = deliver_prs prs (deliver_all pr.num (pr_materials pr) d)

unfoldable pub deliveries : List PullRequest → Dict String (List ℕ)
unfolding deliver_prs deliver_all deliver pr_materials sorted_by
deliveries prs = deliver_prs (sorted_by (λ p q. ltb p.num q.num) prs) []

-- The second loop.
decide_all : Inputs → Dict String (List ℕ) → Outcome (Dict String Decision)
decide_all inputs [] = ok []
decide_all inputs ((m, ns) ∷ rest) = do
  d ← decide_one inputs m ns
  ds ← decide_all inputs rest
  ok ((m, d) ∷ ds)

-- `decide`
unfoldable pub decide : List PullRequest → Inputs → Outcome (Dict String Decision)
unfolding decide_all decide_one deliveries
decide prs inputs = decide_all inputs (deliveries prs)
