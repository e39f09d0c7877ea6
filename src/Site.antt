-- ===== src/Site.antt =====
-- contrib/site_status.py: the site's status.json, with the state of every material and the people who
-- computed the tables. The manifest's file names, the open pull requests and the claims are arguments.
pub mod People
pub mod Entries
use helpmate_tablebase.Base.{
  is_empty, ltb, ◌==◌, get_or_else, if◌then◌else◌, length, filter, contains, sorted_by, Dict,
  lookup, insert, lower, ℕ, ◌+◌, String, Bool, true, false, ◌&&◌, ◌||◌, Option, none, some, List,
  [], ◌∷◌, ◌++◌, map, lex_less, string_eq, pair_eq, nat_eq, option_eq, list_eq, bool_eq,
}
use helpmate_tablebase.Claims.{
  Claim, ClaimIndex, claim_for, PullRequest, stems, to_set, pr_materials, Contributor,
  login_matches, by_github, by_hf,
}
use helpmate_tablebase.Accept.{truthy}
use helpmate_tablebase.Registry.{Registry, credit, producers_of}
use helpmate_tablebase.Overview.{
  State, done, in_review, not_needed, claimed, free, Status, material_status,
}
use helpmate_tablebase.Materials.{universe}
use helpmate_tablebase.Materials.Measures.{pieces}

-- `_claimant`, of a claim
unfoldable pub claimant : Claim → String
claimant c =
    if c.anonymous
    then "anonymous"
    else if truthy c.credit
    then get_or_else c.credit c.author
    else c.author

-- person and person.anonymous
abbrev pub is_anonymous : Option Contributor → Bool
is_anonymous none = false
is_anonymous (some p) = p.anonymous

abbrev pub values : Registry → List Contributor
values reg = map (λ e. e.1) reg.contributors

-- `_claim_who`
unfoldable pub claim_who : Option Claim → Registry → Option String
unfolding claimant by_github
claim_who none reg = none
claim_who (some c) reg = some (
    if c.anonymous || is_anonymous (by_github (values reg) c.author)
    then "anonymous"
    else claimant c)

-- `_hidden_by_claim`
unfoldable pub hidden_by_claim : Option Contributor → Option Claim → Bool
hidden_by_claim person none = false
hidden_by_claim none (some c) = c.anonymous
hidden_by_claim (some p) (some c) = c.anonymous && login_matches p.github c.author

-- `_registered`
unfoldable pub registered : Registry → Option String → Option String
registered reg none = none
registered reg (some key) = if key == "" then none else elim (lookup key reg.contributors) [
  | none ↦ none
  | some c ↦ some (if c.anonymous then "anonymous" else c.display)
]

-- str(k), of a key or None
abbrev pub text_of : Option String → String
text_of none = "None"
text_of (some key) = key

-- _registered(registry, k) or str(k)
unfoldable pub producer_name : Registry → Option String → String
unfolding registered
producer_name reg key =
    if truthy (registered reg key) then get_or_else (registered reg key) "" else text_of key

-- `_producers`
unfoldable pub producer_names : Registry → String → List String
unfolding producer_name
producer_names reg material = map (producer_name reg) (producers_of material reg)

-- One value of "materials".
pub record Shown : Type 0 where
  pub state : State
  pub contributor : Option String
  pub producers : List String
  pub hf_pr : Option ℕ
  pub claim : Option ℕ

-- The contributor shown of a pull request in review.
unfoldable pub reviewed_who : Registry → PullRequest → Option Claim → Option String
unfolding hidden_by_claim claim_who by_hf
reviewed_who reg pr claim = elim (by_hf (values reg) pr.author) [
  | some known ↦
      some (
        if known.anonymous || hidden_by_claim (some known) claim
        then "anonymous"
        else known.display)
  | none ↦ if truthy (claim_who claim reg) then claim_who claim reg else some pr.author
]

abbrev claim_number : Option Claim → Option ℕ
claim_number none = none
claim_number (some c) = some c.issue

-- names[0] if names else fallback
abbrev pub first_named : List String → Option String → Option String
first_named [] fallback = fallback
first_named (n ∷ ns) fallback = some n

-- The entry of a done table.
unfoldable pub done_entry : Registry → String → Shown
unfolding producer_names registered
done_entry reg name =
    let table = lookup name reg.tables in
    let names = producer_names reg name in
    record {
      state = done;
      contributor = first_named names (registered reg (elim table [ none ↦ none | some t ↦ t.by ]));
      producers = names;
      hf_pr = elim table [ none ↦ none | some t ↦ t.from_pr ];
      claim = none;
    }

-- The entry of a material in review.
unfoldable pub review_entry : ClaimIndex → Registry → String → PullRequest → Shown
unfolding reviewed_who claim_for
review_entry index reg name pr = record {
  state = in_review;
  contributor = reviewed_who reg pr (claim_for index name);
  producers = [];
  hf_pr = some pr.num;
  claim = claim_number (claim_for index name);
}

-- The entry of a material, if it has one; `none` for an open material. A material in review has a
-- pull request.
unfoldable pub shown_entry :
    Dict String PullRequest → ClaimIndex → Registry → String → State → Option Shown
unfolding done_entry review_entry claim_who claim_for
shown_entry review index reg name free = none
shown_entry review index reg name done = some (done_entry reg name)
shown_entry review index reg name in_review = elim (lookup name review) [
  | none ↦ none
  | some pr ↦ some (review_entry index reg name pr)
]
shown_entry review index reg name claimed = some (record {
  state = claimed;
  contributor = claim_who (claim_for index name) reg;
  producers = [];
  hf_pr = none;
  claim = claim_number (claim_for index name);
})
shown_entry review index reg name not_needed =
    some (record {
      state = not_needed;
      contributor = none;
      producers = [];
      hf_pr = none;
      claim = none;
    })

-- {m: pr for pr in prs for m in pr.materials}
reviewed_materials : PullRequest → List String → Dict String PullRequest → Dict String PullRequest
reviewed_materials pr [] d = d
reviewed_materials pr (m ∷ ms) d = reviewed_materials pr ms (insert m pr d)

unfoldable pub in_review_of : List PullRequest → Dict String PullRequest → Dict String PullRequest
unfolding reviewed_materials pr_materials
in_review_of [] d = d
in_review_of (pr ∷ prs) d = in_review_of prs (reviewed_materials pr (pr_materials pr) d)

abbrev pub same_state : State → State → Bool
same_state done done = true
same_state in_review in_review = true
same_state not_needed not_needed = true
same_state claimed claimed = true
same_state free free = true
same_state a b = false

-- counts[s] += 1
abbrev pub bump : State → (State → ℕ) → State → ℕ
bump s counts t = if same_state s t then counts t + 1 else counts t

-- The counts of all materials and of those with six men.
unfoldable pub count_states :
    Dict String Status → (State → ℕ) × (State → ℕ) → (State → ℕ) × (State → ℕ)
unfolding pieces
count_states [] counts = counts
count_states ((name, s) ∷ statuses) (every, six) =
    count_states statuses (bump s.state every, (if pieces name == 6 then bump s.state six else six))

-- The entries of all materials, in the order of the universe.
unfoldable pub shown_materials :
    Dict String PullRequest → ClaimIndex → Registry → Dict String Status → Dict String Shown
unfolding shown_entry
shown_materials review index reg [] = []
shown_materials review index reg ((name, s) ∷ statuses) =
    elim (shown_entry review index reg name s.state) [
      | none ↦ shown_materials review index reg statuses
      | some e ↦ (name, e) ∷ shown_materials review index reg statuses
    ]

-- One value of "contributors".
pub record Person : Type 0 where
  pub display : String
  pub hf_user : Option String
  pub github_user : Option String
  pub is_hidden : Bool
  pub tables_made : ℕ
  pub reproduced : ℕ
  pub six : ℕ
  pub made : List String

-- The materials of the universe that are done, and that the contributor made.
unfoldable pub made_by : List String → Registry → String → List String
unfolding producers_of
made_by finished reg key =
    filter (λ m. contains finished m && contains (producers_of m reg) (some key)) universe

abbrev pub nobody : Person
nobody = record {
  display = "anonymous";
  hf_user = none;
  github_user = none;
  is_hidden = true;
  tables_made = 0;
  reproduced = 0;
  six = 0;
  made = [];
}

-- len([m for m in mats if len(registry.producers_of(m)) > 1])
reproductions : Registry → List String → ℕ
unfolding producers_of
reproductions reg mats = length (filter (λ m. ltb 1 (length (producers_of m reg))) mats)

six_men : List String → ℕ
unfolding pieces
six_men mats = length (filter (λ m. pieces m == 6) mats)

-- The body of the loop over the contributors.
unfoldable pub add_person :
    Registry → List String → Contributor → List Person × Person → List Person × Person
unfolding reproductions six_men
add_person reg mats c (people, hidden) =
    if is_empty mats
    then (people, hidden)
    else if c.anonymous
    then (
      people,
      record hidden {
        tables_made = hidden.tables_made + length mats;
        reproduced = hidden.reproduced + reproductions reg mats;
        six = hidden.six + six_men mats;
      },
    )
    else (
      people
          ++ (record {
            display = c.display;
            hf_user = c.hf;
            github_user = c.github;
            is_hidden = false;
            tables_made = length mats;
            reproduced = reproductions reg mats;
            six = six_men mats;
            made = mats;
          }
              ∷ []),
      hidden,
    )

unfoldable pub gather :
    List String → Registry → Dict String Contributor → List Person × Person → List Person × Person
unfolding add_person made_by
gather finished reg [] acc = acc
gather finished reg ((key, c) ∷ cs) acc =
    gather finished reg cs (add_person reg (made_by finished reg key) c acc)

-- The order of the key (-tables, display.lower()).
unfoldable pub before_person : Person → Person → Bool
unfolding lex_less lower
before_person p q =
    ltb q.tables_made p.tables_made
    || (p.tables_made == q.tables_made && lex_less (lower p.display) (lower q.display))

-- The sorted rows, with the nameless one last.
unfoldable pub arrange : List Person × Person → List Person
unfolding before_person sorted_by
arrange (people, hidden) =
    sorted_by before_person people ++ (if hidden.tables_made == 0 then [] else hidden ∷ [])

-- "contributors" of status.json
unfoldable pub people_of : List String → Registry → List Person
unfolding gather arrange
people_of finished reg = arrange (gather finished reg reg.contributors ([], nobody))

-- status.json, without its date
pub record SiteStatus : Type 0 where
  pub materials : Dict String Shown
  pub contributors : List Person
  pub counts_all : State → ℕ
  pub counts_six : State → ℕ

-- `build_status`
unfoldable pub build_status : List String → List PullRequest → ClaimIndex → Registry → SiteStatus
build_status files prs index reg =
    let finished = to_set (stems ".hm" files) in
    let review = in_review_of prs [] in
    let statuses = material_status finished review index reg in
    let counts = count_states statuses ((λ s. 0), (λ s. 0)) in
    record {
      materials = shown_materials review index reg statuses;
      contributors = people_of finished reg;
      counts_all = counts.0;
      counts_six = counts.1;
    }
