-- ===== src/Verify.antt =====
-- contrib/verify.py and contrib/checks.py: the checks on a table and on a pull request before
-- a merge.
pub mod Table
pub mod Header
pub mod Deepest
pub mod Hygiene
pub mod Labels
pub mod Reuse
pub mod Hashes
use helpmate_tablebase.Base.{
  all, String, Bool, true, false, Option, none, List, string_eq, pair_eq, nat_eq, option_eq,
  list_eq, bool_eq,
}

-- the values of `Check.status`
pub data CheckStatus : Type 0 where
  pass fail warn skip : CheckStatus

-- `Check`
pub record Check : Type 0 where
  pub id : String
  pub title : String
  pub status : CheckStatus
  pub detail : String
  pub reused_from : Option String

-- Check(id, title, status, detail)
abbrev pub check_of : String → String → CheckStatus → String → Check
check_of id title status detail = record {
  id = id;
  title = title;
  status = status;
  detail = detail;
  reused_from = none;
}

-- c.status != "fail"
abbrev pub not_failed : Check → Bool
not_failed c = elim c.status [ fail ↦ false | _ ↦ true ]

-- `TableReport`
pub record TableReport : Type 0 where
  pub material : String
  pub checks : List Check
  pub payload_sha256 : Option String

-- `TableReport.passed`
unfoldable pub passed : TableReport → Bool
passed rep = all not_failed rep.checks
