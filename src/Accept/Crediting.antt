-- ===== src/Accept/Crediting.antt =====
-- contrib/accept.py, `_credit` and `_own_deliveries`: the registry after a run, without the lines
-- for the changelog. The JSON files that it reads are arguments.
pub mod Growing
pub mod Credited
pub mod Rerun
use mathlib.Core.Option
use helpmate_tablebase.Base.{
  ◌>>=◌, ◌==◌, get_or_else, if◌then◌else◌, filter, any, contains, Dict, lookup, has, insert, ℕ,
  String, Bool, true, false, ◌||◌, Option, none, some, List, [], ◌∷◌, string_eq, pair_eq, nat_eq,
  option_eq, list_eq, bool_eq,
}
use helpmate_tablebase.Claims.{PullRequest, pr_materials}
use helpmate_tablebase.Registry.{TableRecord, Registry, add_contributor, add_producer, record_table}

-- What a run keeps of the contributor of a pull request.
pub record Submitter : Type 0 where
  pub key : String
  pub github : Option String
  pub hf : Option String
  pub display : String
  pub anonymous : Bool
  pub claim : Option ℕ

-- The arguments of `_credit`. A file that cannot be read is `none`; of a sidecar the text of its
-- generator_version is kept, and of a report the JSON text of what the registry keeps of it, which
-- is `none` where the report has no result.
pub record Run : Type 0 where
  pub people : Dict ℕ Submitter
  pub published : Dict ℕ (List String)
  pub recorded : Dict ℕ (List String)
  pub report : ℕ → Option (Option String)
  pub sidecar : ℕ → String → Option (Option String)
  pub own_sidecar : String → Option (Option String)
  pub staged_sidecar : ℕ → String → Option (Option String)
  pub today : String

abbrev pub maintainer : String
maintainer = "maintainer"

-- The contributor of a credited delivery is in the registry, and anonymous once asked for.
unfoldable pub enlist : Submitter → Registry → Registry
unfolding add_contributor
enlist p reg = elim (lookup p.key reg.contributors) [
  | none ↦
      add_contributor
        (record {
          key = p.key;
          github = p.github;
          hf = p.hf;
          display = p.display;
          anonymous = p.anonymous;
          note = "";
        })
        reg
  | some c ↦
      if p.anonymous
      then record reg {
        contributors = insert p.key (record c { anonymous = true }) reg.contributors;
      }
      else reg
]

-- json.loads(...).get("generator_version", ""), where the file raises nothing
abbrev version_or_empty : Option (Option String) → String
version_or_empty none = ""
version_or_empty (some v) = get_or_else v ""

-- The loop over `published[n]`; `none` stands for an exception.
unfoldable pub record_published :
    Run → ℕ → Submitter → Option String → List String → Registry → Option Registry
unfolding record_table
record_published run n p result [] reg = some reg
record_published run n p result (m ∷ ms) reg = do
  version ← run.sidecar n m
  verification ← result
  next ← record_table m p.key n p.claim run.today (get_or_else version "") (some verification) reg
  record_published run n p result ms next

-- The first loop of `_credit` for one PR, whose recorded materials are given.
unfoldable pub publish_pr : Run → ℕ → Submitter → List String → Registry → Option Registry
unfolding record_published enlist
publish_pr run n p [] reg = some reg
publish_pr run n p (m ∷ ms) reg = do
  result ← run.report n
  names ← lookup n run.published
  record_published run n p result names (enlist p reg)

unfoldable pub publish_all : Run → List ℕ → Registry → Option Registry
unfolding publish_pr
publish_all run [] reg = some reg
publish_all run (n ∷ ns) reg = do
  p ← lookup n run.people
  names ← lookup n run.recorded
  next ← publish_pr run n p names reg
  publish_all run ns next

-- The entry of one of the maintainer's own tables.
abbrev pub maintainer_entry : String → TableRecord
maintainer_entry version = record {
  by = some maintainer;
  from_pr = none;
  claim = none;
  merged = none;
  version = some version;
  verification = none;
  producers = some (
      record {
        contributor = some maintainer;
        hf_pr = none;
        date = none;
        generator_version = some version;
      }
      ∷ []);
  published_from = some none;
}

-- A published table that has no entry is one of the maintainer's own.
unfoldable pub own_table : String → String → Registry → Registry
own_table m version reg =
    if has m reg.tables
    then reg
    else record reg { tables = insert m (maintainer_entry version) reg.tables }

-- The second loop of `_credit` for one material of a PR.
unfoldable pub credit_material : Run → ℕ → String → Registry → Option Registry
unfolding own_table add_producer
credit_material run n m reg = do
  names ← lookup n run.published
  if contains names m then some reg else (do
    p ← lookup n run.people
    add_producer m
        (record {
          contributor = some p.key;
          hf_pr = some n;
          date = some run.today;
          generator_version = some (version_or_empty (run.staged_sidecar n m));
        })
        (own_table m (version_or_empty (run.own_sidecar m)) reg))

unfoldable pub credit_materials : Run → ℕ → List String → Registry → Option Registry
unfolding credit_material
credit_materials run n [] reg = some reg
credit_materials run n (m ∷ ms) reg = do
  next ← credit_material run n m reg
  credit_materials run n ms next

unfoldable pub credit_others : Run → List ℕ → Registry → Option Registry
unfolding credit_materials
credit_others run [] reg = some reg
credit_others run (n ∷ ns) reg = do
  names ← lookup n run.recorded
  next ← credit_materials run n names reg
  credit_others run ns next

-- `_credit`
unfoldable pub credit_run : Run → List ℕ → List ℕ → Registry → Option Registry
unfolding publish_all credit_others
credit_run run pulls prs reg = do next ← publish_all run pulls reg; credit_others run prs next

-- entry.get("published_from") == n or any(p.get("hf_pr") == n for p in ...)
unfoldable pub is_own : ℕ → TableRecord → Bool
is_own n t =
    get_or_else t.published_from none == some n
    || any (λ p. p.hf_pr == some n) (get_or_else t.producers [])

-- The test of `_own_deliveries` on one registry.
abbrev pub owns : ℕ → String → Registry → Bool
owns n m reg = elim (lookup m reg.tables) [ none ↦ false | some t ↦ is_own n t ]

-- `_own_deliveries`, for one PR
unfoldable pub own_deliveries : List Registry → PullRequest → List String
own_deliveries regs pr = filter (λ m. any (owns pr.num m) regs) (pr_materials pr)
