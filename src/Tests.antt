-- ===== src/Tests.antt =====
-- Concrete inputs on which the theorems apply: a board with two mating moves, a table of it,
-- claims, pull requests and a run.
mod Exchange
mod Landing
mod Merging
mod Crediting
mod Caching
mod Website
mod Files
mod Probing
mod Picking
mod Verification
mod Corpus
use helpmate_tablebase.Base.{
  ◌==◌, if◌then◌else◌, In, Dict, lookup, has, lower, ℕ, ◌≤◌, min, String, ◌≡◌, refl, ap, subst, ◌↔◌,
  ◌⊎◌, inl, inr, Bool, true, false, not, none, some, List, [], ◌∷◌, string_eq, pair_eq, nat_eq,
  option_eq, list_eq, bool_eq,
}
use helpmate_tablebase.Game.{Chess, Alternates, count_lines}
use helpmate_tablebase.Consistency.{Entry, solved, Reader, consistent, check_position}
use helpmate_tablebase.Consistency.Recurrence.{Reports}
use helpmate_tablebase.Consistency.Successors.{IsReader, IsExact}
use helpmate_tablebase.Consistency.Exact.{probe-IsExact}
use helpmate_tablebase.Consistency.Agreement.{value_of, disagreements-eq-nil}
use helpmate_tablebase.Oracle.{lines, solve, disagreements}
use helpmate_tablebase.Oracle.Exact.{lines-eq-min, Answers, solve_lem}
use helpmate_tablebase.Claims.{
  Claim, index_of, claim_for, PullRequest, pr_materials, Links, identity_claim, ownership_conflict,
}
use helpmate_tablebase.Claims.Index.{holds, claim_for-earliest}
use helpmate_tablebase.Materials.{canonical, universe}
use helpmate_tablebase.Materials.Names.{canonical_idem}
use helpmate_tablebase.Materials.Universe.{In-universe_iff}
use helpmate_tablebase.Accept.{
  new, held, held_for_claim, holder_delivery, Decision, Inputs, ok, claim_of, decide,
}
use helpmate_tablebase.Accept.Sound.{MayPublish}
use helpmate_tablebase.Accept.Deliveries.{deliverers, Decided, Hashed, decide_sound}
use helpmate_tablebase.Accept.Plan.{merge, comment, PrPlan, pr_plan}
use helpmate_tablebase.Accept.Plan.Safety.{merge-safe}

-- A board is whether Black is mated on it; before, White has two mating moves.
abbrev game : Chess
game = record {
  Board = Bool;
  from_fen = λ fen. fen == "mate";
  black_to_move = λ b. b;
  is_check = λ b. b;
  legal_moves = λ b. if b then [] else "f6g7" ∷ "b6b7" ∷ [];
  push = λ b m. not b;
}

game-Alternates : Alternates game
game-Alternates b m = refl

abbrev mating : String → Entry
mating uci = record { uci = uci; fen = "mate"; solvable = true; dtm = 0; count = 1 }

abbrev start_moves : List Entry
start_moves = mating "b6b7" ∷ mating "f6g7" ∷ []

abbrev table : Reader
table = record {
  moves = λ fen. if fen == "mate" then [] else start_moves;
  probe = λ fen. if fen == "mate" then solved 0 1 false else solved 1 2 false;
}

abbrev Covered : String → Type 0
Covered fen = (fen ≡ "mate") ⊎ (fen ≡ "start")

mate-consistent : check_position game table "mate" ≡ consistent
unfolding check_position
mate-consistent = refl

start-consistent : check_position game table "start" ≡ consistent
unfolding check_position
start-consistent = refl

table_passes : (fen : String) → Covered fen → check_position game table fen ≡ consistent
table_passes fen (inl e) = rw e mate-consistent
table_passes fen (inr e) = rw e start-consistent

In-start_moves : (e : Entry) → In e start_moves → e.fen ≡ "mate"
In-start_moves e (inl h) = ap (λ x. x.fen) h
In-start_moves e (inr (inl h)) = ap (λ x. x.fen) h
In-start_moves e (inr (inr h)) = elim h [ ]

table_closed : (fen : String) (e : Entry) → Covered fen → In e (table.moves fen) → Covered e.fen
table_closed fen e (inl h) i = absurd (subst (λ f. In e (table.moves f)) h i)
table_closed fen e (inr h) i = inl (In-start_moves e (subst (λ f. In e (table.moves f)) h i))

start_lands : (e : Entry) → In e start_moves → game.from_fen e.fen ≡ true
start_lands e i = rw (In-start_moves e i) refl

start-Reports : (e : Entry) → In e start_moves → Reports table e
start-Reports e (inl h) = λ s. (false, rw h refl)
start-Reports e (inr (inl h)) = λ s. (false, rw h refl)
start-Reports e (inr (inr h)) = elim h [ ]

mate-IsReader : IsReader game table "mate"
mate-IsReader = record { lands = λ e i. elim i [ ]; reports = λ e i. elim i [ ] }

start-IsReader : IsReader game table "start"
start-IsReader = record { lands = start_lands; reports = start-Reports }

table-IsReader : (fen : String) → Covered fen → IsReader game table fen
table-IsReader fen (inl e) = rw e mate-IsReader
table-IsReader fen (inr e) = rw e start-IsReader

probe-IsExact_example : IsExact game 3 false (solved 1 2 false)
probe-IsExact_example =
    probe-IsExact game table Covered table_passes table_closed table-IsReader 3 "start" (inr refl)

chosen_Covered : (fen : String) → In fen ("start" ∷ "mate" ∷ []) → Covered fen
chosen_Covered fen (inl e) = inr e
chosen_Covered fen (inr (inl e)) = inl e
chosen_Covered fen (inr (inr e)) = elim e [ ]

disagreements-eq-nil_example :
    disagreements game (λ fen. value_of (table.probe fen)) 4 ("start" ∷ "mate" ∷ []) ≡ []
disagreements-eq-nil_example =
    disagreements-eq-nil game table Covered table_passes table_closed table-IsReader game-Alternates
      4 ("start" ∷ "mate" ∷ []) chosen_Covered

solve_lem_example : Answers game false 4 (solve game "start" 3)
solve_lem_example = solve_lem game game-Alternates "start" 3

solve_start : solve game "start" 3 ≡ some (1, 2)
unfolding solve
solve_start = refl

lines-eq-min_example : lines game false 1 ≡ min 255 (count_lines game false 1)
lines-eq-min_example = lines-eq-min game false 1

-- Two claims, the later of them without the form.
abbrev claim_of_ann : Claim
claim_of_ann = record {
  issue = 7;
  author = "Ann";
  created_at = "2026-01-01";
  materials = "KQvkr" ∷ "KRvkq" ∷ [];
  released = "KRvkq" ∷ [];
  body = "";
  hf = none;
  credit = none;
  anonymous = false;
  explicit = [];
  confirm = false;
}

abbrev claim_of_bob : Claim
claim_of_bob = record {
  issue = 9;
  author = "bob";
  created_at = "2026-01-02";
  materials = "KQvkr" ∷ "KRvkq" ∷ [];
  released = [];
  body = "";
  hf = none;
  credit = none;
  anonymous = false;
  explicit = [];
  confirm = false;
}

abbrev both_claims : List Claim
both_claims = claim_of_bob ∷ claim_of_ann ∷ []

ann_holds_KQvkr : claim_for (index_of both_claims) "KQvkr" ≡ some claim_of_ann
unfolding claim_for index_of
ann_holds_KQvkr = refl

nobody_holds_KBvkr : claim_for (index_of both_claims) "KBvkr" ≡ none
unfolding claim_for index_of
nobody_holds_KBvkr = refl

claim_for-earliest_example :
    In claim_of_ann both_claims
    × (holds "KQvkr" claim_of_ann ≡ true)
    × ((d : Claim) → In d both_claims → holds "KQvkr" d ≡ true → 7 ≤ d.issue)
claim_for-earliest_example = claim_for-earliest both_claims "KQvkr" claim_of_ann ann_holds_KQvkr

-- A description with no claim number; the login, where it is not empty, is the whole text.
abbrev plain_links : Links
plain_links text = (none, if text == "" then none else some text)

abbrev pull : ℕ → String → String → List String → PullRequest
pull num author description files = record {
  num = num;
  title = "";
  author = author;
  status = "open";
  description = description;
  files = files;
  head = some "0a";
  url = "";
  deleted = [];
}

abbrev pull_of_bob : PullRequest
pull_of_bob = pull 3 "bob-hf" "BOB" ("KRvkq.hm" ∷ "KRvkq.stats.json" ∷ [])

identity_of_bob :
    identity_claim plain_links pull_of_bob (index_of both_claims) [] ≡ some claim_of_bob
unfolding identity_claim index_of pr_materials
identity_of_bob = refl

abbrev pull_of_ann : PullRequest
pull_of_ann = pull 4 "ann-hf" "" ("KQvkr.hm" ∷ [])

identity_of_ann :
    identity_claim plain_links pull_of_ann (index_of both_claims) [] ≡ some claim_of_ann
unfolding identity_claim index_of pr_materials
identity_of_ann = refl

-- Names.
unsorted_men : canonical "KBRvkrq" ≡ some "KRBvkqr"
unfolding canonical
unsorted_men = refl

canonical_idem_example : canonical "KRBvkqr" ≡ some "KRBvkqr"
canonical_idem_example = canonical_idem "KBRvkrq" "KRBvkqr" unsorted_men

In-universe_iff_example : In "KQvkr" universe ↔ (canonical "KQvkr" ≡ some "KQvkr")
In-universe_iff_example = In-universe_iff "KQvkr"

-- A run of two pull requests: Bob's delivery of an unpublished material that Ann released, and
-- one of a material that Ann holds by someone else.
abbrev run_inputs : Inputs
run_inputs = record {
  reports = [];
  published = ("KQvk.hm", "5f") ∷ [];
  hashes = λ m. some "5f";
  index = some (index_of both_claims);
  logins = λ k. if k == 3 then some "Bob" else none;
  release = [];
}

run_inputs-Hashed : Hashed run_inputs
run_inputs-Hashed m h = λ e. cc

abbrev pulls : List PullRequest
pulls = pull 5 "eve" "" ("KQvkr.hm" ∷ []) ∷ pull_of_bob ∷ []

decide_sound_example :
    (out : Dict String Decision) × (decide pulls run_inputs ≡ ok out)
    × ((m : String) → Decided run_inputs m (deliverers pulls m) (lookup m out))
decide_sound_example = decide_sound pulls run_inputs run_inputs-Hashed

abbrev decision_for_bob : Decision
decision_for_bob = record {
  kind = new;
  publish_from = some 3;
  producers = 3 ∷ [];
  held_for = none;
  reason = holder_delivery 3;
}

abbrev decision_for_eve : Decision
decision_for_eve = record {
  kind = held;
  publish_from = none;
  producers = [];
  held_for = some 7;
  reason = held_for_claim 7 "Ann";
}

abbrev decisions : Dict String Decision
decisions = ("KRvkq", decision_for_bob) ∷ ("KQvkr", decision_for_eve) ∷ []

run_of_pulls : decide pulls run_inputs ≡ ok decisions
unfolding decide pr_materials index_of claim_for lower
run_of_pulls = refl

abbrev plan_for_bob : PrPlan
plan_for_bob = record { publishes = "KRvkq" ∷ []; holds = []; credits = []; action = merge }

bob_is_merged : pr_plan pull_of_bob decisions [] ≡ some plan_for_bob
unfolding pr_plan pr_materials
bob_is_merged = refl

bob_delivers : In "KRvkq" (pr_materials pull_of_bob)
unfolding pr_materials
bob_delivers = inl refl

merge-safe_example :
    (has "KRvkq.hm" run_inputs.published ≡ false)
    × MayPublish run_inputs "KRvkq" (claim_of run_inputs "KRvkq") 3
    × In 3 (deliverers pulls "KRvkq")
merge-safe_example =
    merge-safe pulls run_inputs decisions pull_of_bob [] plan_for_bob "KRvkq" run_inputs-Hashed
      run_of_pulls bob_is_merged refl bob_delivers

abbrev plan_for_eve : PrPlan
plan_for_eve = record { publishes = []; holds = "KQvkr" ∷ []; credits = []; action = comment }

eve_is_held : pr_plan (pull 5 "eve" "" ("KQvkr.hm" ∷ [])) decisions [] ≡ some plan_for_eve
unfolding pr_plan pr_materials
eve_is_held = refl

eve_delivers : In "KQvkr" (pr_materials (pull 5 "eve" "" ("KQvkr.hm" ∷ [])))
unfolding pr_materials
eve_delivers = inl refl
