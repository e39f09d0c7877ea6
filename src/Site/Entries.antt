-- ===== src/Site/Entries.antt =====
-- contrib/site_status.py, "materials" and "counts".
use helpmate_tablebase.Base.{
  ◌==◌, eq_of_beq, Bool-cases, if◌then◌else◌, length, Dict, lookup, ℕ, suc, ◌+◌, ◌≤◌, String, ◌≡◌,
  refl, ap, ◌≢◌, ◌⊎◌, inl, inr, true, Option, none, some, List, [], ◌∷◌, map, arith, string_eq,
  pair_eq, nat_eq, option_eq, list_eq, bool_eq,
}
use helpmate_tablebase.Claims.{
  Claim, ClaimIndex, claim_for, PullRequest, stems, to_set, Contributor, login_matches, by_github,
  by_hf,
}
use helpmate_tablebase.Registry.{Registry, producers_of}
use helpmate_tablebase.Overview.{
  State, done, in_review, not_needed, claimed, free, Status, material_status,
}
use helpmate_tablebase.Site.{
  values, claim_who, hidden_by_claim, registered, producer_name, producer_names, Shown,
  reviewed_who, done_entry, review_entry, shown_entry, in_review_of, bump, count_states,
  build_status,
}
use helpmate_tablebase.Materials.{universe}
use helpmate_tablebase.Materials.Measures.{pieces}

-- The claim asks for anonymity, or the registry says it of its author.
abbrev pub IsClaimHidden : Registry → Option Claim → Type 0
IsClaimHidden reg none = ⊥
IsClaimHidden reg (some c) =
    (c.anonymous ≡ true)
    ⊎ ((p : Contributor) × (by_github (values reg) c.author ≡ some p) × (p.anonymous ≡ true))

-- The registered author of a pull request asks not to be named: by the registry, or by a claim of
-- theirs.
abbrev pub IsAuthorHidden : Contributor → Option Claim → Type 0
IsAuthorHidden p claim =
    (p.anonymous ≡ true)
    ⊎ ((c : Claim) × (claim ≡ some c)
        × (c.anonymous ≡ true)
        × (login_matches p.github c.author ≡ true))

-- Who stands behind a material in a state asks not to be named: the first producer of a done table,
-- the author of the pull request in review, by the registry or by a claim of theirs, or where the
-- registry does not know the author, the claim's author; and the claim's author of a claimed one.
abbrev pub IsBehindHidden :
    Dict String PullRequest → ClaimIndex → Registry → String → State → Type 0
IsBehindHidden review index reg name done =
    (key : String) × (rest : List (Option String)) × (c : Contributor) × (producers_of name reg
      ≡ some key ∷ rest)
    × (key ≢ "")
    × (lookup key reg.contributors ≡ some c)
    × (c.anonymous ≡ true)
IsBehindHidden review index reg name in_review =
    (pr : PullRequest) × (lookup name review ≡ some pr)
    × (((p : Contributor) × (by_hf (values reg) pr.author ≡ some p)
          × IsAuthorHidden p (claim_for index name))
        ⊎ ((by_hf (values reg) pr.author ≡ none) × IsClaimHidden reg (claim_for index name)))
IsBehindHidden review index reg name claimed = IsClaimHidden reg (claim_for index name)
IsBehindHidden review index reg name not_needed = ⊥
IsBehindHidden review index reg name free = ⊥

claim_who_hidden :
    (reg : Registry) (c : Option Claim) → IsClaimHidden reg c → claim_who c reg ≡ some "anonymous"
unfolding claim_who
claim_who_hidden reg none h = absurd h
claim_who_hidden reg (some c) (inl a) = rw a refl
claim_who_hidden reg (some c) (inr (p, found, a)) = rw found (rw a (ground arith))

registered_hidden :
    (reg : Registry) (key : String) (c : Contributor)
    → key ≢ ""
    → lookup key reg.contributors ≡ some c
    → c.anonymous ≡ true
    → registered reg (some key) ≡ some "anonymous"
unfolding registered
registered_hidden reg key c ne found a = elim (Bool-cases (key == "")) [
  | inl t ↦ absurd (ne (eq_of_beq key "" t))
  | inr t ↦ rw t (rw found (rw a refl))
]

producer_name_hidden :
    (reg : Registry) (key : String) (c : Contributor)
    → key ≢ ""
    → lookup key reg.contributors ≡ some c
    → c.anonymous ≡ true
    → producer_name reg (some key) ≡ "anonymous"
unfolding producer_name
producer_name_hidden reg key c ne found a =
    rw (registered_hidden reg key c ne found a, producer_name) refl

reviewed_who_hidden :
    (reg : Registry) (pr : PullRequest) (claim : Option Claim)
    → ((p : Contributor) × (by_hf (values reg) pr.author ≡ some p) × IsAuthorHidden p claim)
      ⊎ ((by_hf (values reg) pr.author ≡ none) × IsClaimHidden reg claim)
    → reviewed_who reg pr claim ≡ some "anonymous"
unfolding reviewed_who hidden_by_claim
reviewed_who_hidden reg pr claim (inl (p, found, inl a)) = rw (found, reviewed_who) (rw a refl)
reviewed_who_hidden reg pr claim (inl (p, found, inr (c, e, a, theirs))) =
    let hidden : hidden_by_claim (some p) (some c) ≡ true = rw (hidden_by_claim, a, theirs) refl in
    rw (found, e, reviewed_who) (rw hidden (ground arith))
reviewed_who_hidden reg pr claim (inr (unknown, h)) =
    rw (unknown, reviewed_who) (rw (claim_who_hidden reg claim h) refl)

-- The site's entry of a material says "anonymous" where the registry says it of the first producer
-- of the done table; where a pull request has it in review, if the registry says it of the author,
-- or the claim does and is the author's, or if the registry does not know the author and the claim
-- asks for it or the registry says it of the claim's author; and where it is claimed, if the claim
-- asks for it or the registry says it of the claim's author.
pub shown_entry_anonymous :
    (review : Dict String PullRequest) (index : ClaimIndex) (reg : Registry) (name : String)
    → (s : State) → IsBehindHidden review index reg name s
    → (e : Shown) × (shown_entry review index reg name s ≡ some e)
      × (e.contributor ≡ some "anonymous")
unfolding shown_entry done_entry review_entry producer_names
shown_entry_anonymous review index reg name done (key, rest, c, made, ne, found, a) =
    (done_entry reg name, refl, rw made (ap some (producer_name_hidden reg key c ne found a)))
shown_entry_anonymous review index reg name in_review (pr, listed, h) = (
  review_entry index reg name pr,
  rw (listed, shown_entry) refl,
  reviewed_who_hidden reg pr (claim_for index name) h,
)
shown_entry_anonymous review index reg name claimed h =
    (_, refl, claim_who_hidden reg (claim_for index name) h)
shown_entry_anonymous review index reg name not_needed h = absurd h
shown_entry_anonymous review index reg name free h = absurd h

-- The sum of the counts of all states.
abbrev pub all_states : (State → ℕ) → ℕ
all_states counts =
    counts done + counts in_review + counts not_needed + counts claimed + counts free

all_states-bump :
    (s : State) (counts : State → ℕ) → all_states (bump s counts) ≡ all_states counts + 1
all_states-bump done counts = omega arith
all_states-bump in_review counts = omega arith
all_states-bump not_needed counts = omega arith
all_states-bump claimed counts = omega arith
all_states-bump free counts = omega arith

count_states_total :
    (statuses : Dict String Status) (every six : State → ℕ)
    → all_states (count_states statuses (every, six)).0 ≡ all_states every + length statuses
unfolding count_states
count_states_total [] every six = omega arith
count_states_total ((name, s) ∷ statuses) every six = omega (
  arith,
  count_states_total statuses (bump s.state every)
      (if pieces name == 6 then bump s.state six else six),
  all_states-bump s.state every,
)

count_states_six :
    (statuses : Dict String Status) (every six : State → ℕ)
    → ((t : State) → six t ≤ every t)
    → (t : State)
    → (count_states statuses (every, six)).1 t ≤ (count_states statuses (every, six)).0 t
unfolding count_states
count_states_six [] every six h t = h t
count_states_six ((name, s) ∷ statuses) every six h t =
    count_states_six statuses (bump s.state every)
      (if pieces name == 6 then bump s.state six else six) (λ u. ground (arith, h u)) t

length-paired :
    (f : String → String × Status) (names : List String) → length (map f names) ≡ length names
length-paired f [] = refl
length-paired f (n ∷ names) = ap (λ k. suc k) (length-paired f names)

length-material_status :
    (finished : List String) (review : Dict String PullRequest) (index : ClaimIndex)
    (reg : Registry)
    → length (material_status finished review index reg) ≡ length universe
unfolding material_status
length-material_status finished review index reg = length-paired _ universe

-- The counts of the site's states add up to the number of materials, and no state is counted for
-- more materials with six men than for all.
build_status_counts :
    (files : List String) (prs : List PullRequest) (index : ClaimIndex) (reg : Registry) (s : State)
    → (all_states (build_status files prs index reg).counts_all ≡ length universe)
      × ((build_status files prs index reg).counts_six s
          ≤ (build_status files prs index reg).counts_all s)
unfolding build_status
build_status_counts files prs index reg s =
    let review = in_review_of prs [] in
    let finished = to_set (stems ".hm" files) in
    let statuses = material_status finished review index reg in
    (
      omega (
        arith,
        count_states_total statuses (λ t. 0) (λ t. 0),
        length-material_status finished review index reg,
      ),
      count_states_six statuses (λ t. 0) (λ t. 0) (λ t. omega arith) s,
    )
