-- ===== src/Tests/Crediting.antt =====
-- The deliveries of two pull requests, and instances of the theorems on crediting them.
use mathlib.Core.Option
use helpmate_tablebase.Registry.{Registry, producers_of}
use helpmate_tablebase.Base.{
  In, Dict, lookup, ℕ, String, ◌≡◌, refl, sym, subst, inl, inr, false, none, some, List, [], ◌∷◌,
  string_eq, pair_eq, nat_eq, option_eq, list_eq, bool_eq,
}
use helpmate_tablebase.Claims.{PullRequest}
use helpmate_tablebase.Registry.{Registry, producers_of}
use helpmate_tablebase.Registry.Credit.{WellFormed}
use helpmate_tablebase.Accept.{Decision}
use helpmate_tablebase.Accept.Plan.{outcome}
use helpmate_tablebase.Accept.Crediting.{Submitter, Run, credit_run, own_deliveries}
use helpmate_tablebase.Accept.Crediting.Growing.{Lists, Grows}
use helpmate_tablebase.Accept.Crediting.Credited.{Readable, credit_run-Credited}
use helpmate_tablebase.Accept.Crediting.Rerun.{credit_run-again}

abbrev ann : Submitter
ann = record {
  key = "ann";
  github = some "ann";
  hf = some "ann";
  display = "Ann";
  anonymous = false;
  claim = some 9;
}

abbrev bob : Submitter
bob = record ann { key = "bob"; github = some "bob"; hf = none; display = "Bob"; claim = none }

-- PR 5 delivers a new table. PR 6 delivers it again, and a table of the maintainer's.
abbrev two_prs : Run
two_prs = record {
  people = (5, ann) ∷ (6, bob) ∷ [];
  published = (5, "KQvk" ∷ []) ∷ (6, []) ∷ [];
  recorded = (5, "KQvk" ∷ []) ∷ (6, "KQvk" ∷ "KRvk" ∷ []) ∷ [];
  report = λ n. some (some "pass");
  sidecar = λ n m. some (some "1.2");
  own_sidecar = λ m. none;
  staged_sidecar = λ n m. some none;
  today = "2026-05-01";
}

abbrev numbers : List ℕ
numbers = 5 ∷ 6 ∷ []

abbrev no_tables : Registry
no_tables = record { contributors = []; tables = [] }

no_tables-WellFormed : WellFormed no_tables
no_tables-WellFormed m t e = absurd (cc)

keys_run :
    (Option.map (producers_of "KQvk") (credit_run two_prs numbers numbers no_tables)
      ≡ some (some "ann" ∷ some "bob" ∷ []))
    × (Option.map (producers_of "KRvk") (credit_run two_prs numbers numbers no_tables)
        ≡ some (some "maintainer" ∷ some "bob" ∷ []))
unfolding credit_run producers_of
keys_run = (refl, refl)

-- Without the sidecar of a published table there is no registry.
no_sidecar_run :
    credit_run (record two_prs { sidecar = λ n m. none }) numbers numbers no_tables ≡ none
unfolding credit_run
no_sidecar_run = refl

two_prs-Readable : (n : ℕ) → In n numbers → Readable two_prs n
two_prs-Readable n i = elim i [
  | inl e ↦
      subst (λ k. Readable two_prs k) (sym e)
        (ann, refl, "KQvk" ∷ [], refl, "KQvk" ∷ [], refl, "pass", refl, (λ m j e. absurd (cc)))
  | inr j ↦ elim j [
    | inl e ↦
        subst (λ k. Readable two_prs k) (sym e)
          (bob, refl, "KQvk" ∷ "KRvk" ∷ [], refl, [], refl, "pass", refl, (λ m j e. absurd (cc)))
    | inr k ↦ absurd k
  ]
]

credit_run-Credited_example :
    (after : Registry) × (credit_run two_prs numbers numbers no_tables ≡ some after)
    × WellFormed after
    × Grows no_tables after
    × ((n : ℕ) (p : Submitter) (names : List String)
        → In n numbers
        → lookup n two_prs.people ≡ some p
        → lookup n two_prs.recorded ≡ some names
        → (m : String) → In m names
        → Lists m p.key n after)
credit_run-Credited_example =
    credit_run-Credited two_prs numbers numbers no_tables no_tables-WellFormed two_prs-Readable
      (λ n i. i)

abbrev pull_six : PullRequest
pull_six = record {
  num = 6;
  title = "";
  author = "bob";
  status = "open";
  description = "";
  files = "KQvk.hm" ∷ "KQvk.stats.json" ∷ "KRvk.hm" ∷ "KRvk.stats.json" ∷ [];
  head = none;
  url = "";
  deleted = [];
}

credit_run-again_example :
    (after : Registry) × (credit_run two_prs numbers numbers no_tables ≡ some after)
    × ((regs : List Registry) (decided : Dict String Decision) (pubs names : List String)
        → In after regs
        → outcome pull_six decided (own_deliveries regs pull_six) ≡ some (pubs, names)
        → (m : String) → In m names
        → ¬ In m ("KQvk" ∷ "KRvk" ∷ []))
credit_run-again_example =
    credit_run-again two_prs numbers numbers no_tables pull_six bob ("KQvk" ∷ "KRvk" ∷ [])
      no_tables-WellFormed two_prs-Readable (λ n i. i) (inr (inl refl)) refl refl
