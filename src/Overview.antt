-- ===== src/Overview.antt =====
-- contrib/claims.py, `material_status`: the state of every material of the universe.
pub mod Explained
use helpmate_tablebase.Base.{
  if◌then◌else◌, contains, Dict, lookup, ℕ, String, Option, none, some, List, map, string_eq,
  pair_eq, nat_eq, option_eq, list_eq, bool_eq,
}
use helpmate_tablebase.Claims.{Claim, ClaimIndex, claim_for, PullRequest}
use helpmate_tablebase.Materials.{universe}
use helpmate_tablebase.Registry.{Registry}
use helpmate_tablebase.Materials.Measures.{bare_king}

-- `Status.state`
pub data State : Type 0 where
  done in_review not_needed claimed free : State

-- `Status`
pub record Status : Type 0 where
  pub state : State
  pub hf_pr : Option ℕ
  pub claim : Option ℕ
  pub contributor : Option String

-- The last three cases.
unreviewed_status : String → Option Claim → Status
unreviewed_status name c =
    if bare_king name
    then record { state = not_needed; hf_pr = none; claim = none; contributor = none }
    else elim c [
      | some k ↦ record {
        state = claimed;
        hf_pr = none;
        claim = some k.issue;
        contributor = some k.author;
      }
      | none ↦ record { state = free; hf_pr = none; claim = none; contributor = none }
    ]

-- The status of one material. A missing entry of the registry has no contributor and no PR.
status_of : List String → Dict String PullRequest → ClaimIndex → Registry → String → Status
status_of finished review index reg name =
    let entry = lookup name reg.tables in
    let c = claim_for index name in
    if contains finished name
    then record {
      state = done;
      hf_pr = elim entry [ none ↦ none | some t ↦ t.from_pr ];
      claim = none;
      contributor = elim entry [ none ↦ none | some t ↦ t.by ];
    }
    else elim (lookup name review) [
      | some pr ↦ record {
        state = in_review;
        hf_pr = some pr.num;
        claim = elim c [ none ↦ none | some k ↦ some k.issue ];
        contributor = some pr.author;
      }
      | none ↦ unreviewed_status name c
    ]

-- `material_status`
unfoldable pub material_status :
    List String → Dict String PullRequest → ClaimIndex → Registry → Dict String Status
unfolding status_of unreviewed_status bare_king
material_status finished review index reg =
    map (λ name. (name, status_of finished review index reg name)) universe
