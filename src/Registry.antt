-- ===== src/Registry.antt =====
-- contrib/registry.py: who contributed which table.
pub mod Credit
use mathlib.Core.Option
use helpmate_tablebase.Base.{
  ltb, leb, ◌==◌, get_or_else, if◌then◌else◌, length, filter, any, contains, sorted_by, Dict,
  lookup, insert, same_login, ℕ, String, Bool, true, false, ◌&&◌, Option, none, some, List, [], ◌∷◌,
  ◌++◌, map, string_eq, pair_eq, nat_eq, option_eq, list_eq, bool_eq,
}
use helpmate_tablebase.Claims.{Claim, PullRequest, Contributor, by_github, by_hf, Links}
use helpmate_tablebase.Consistency.{sorted_text}
use helpmate_tablebase.Accept.{truthy}

-- One entry of a table's `producers`.
pub record Producer : Type 0 where
  pub contributor : Option String
  pub hf_pr : Option ℕ
  pub date : Option String
  pub generator_version : Option String

-- The entry of a table; `producers` and `published_from` may be missing in an old one. The
-- verification is its JSON text.
pub record TableRecord : Type 0 where
  pub by : Option String
  pub from_pr : Option ℕ
  pub claim : Option ℕ
  pub merged : Option String
  pub version : Option String
  pub verification : Option String
  pub producers : Option (List Producer)
  pub published_from : Option (Option ℕ)

-- `Registry`
pub record Registry : Type 0 where
  pub contributors : Dict String Contributor
  pub tables : Dict String TableRecord

-- `_migrated`
unfoldable pub migrated : TableRecord → TableRecord
migrated t = elim t.producers [
  | some ps ↦ t
  | none ↦ record t {
    producers = some (
        record {
          contributor = t.by;
          hf_pr = t.from_pr;
          date = t.merged;
          generator_version = t.version;
        }
        ∷ []);
    published_from = some (get_or_else t.published_from t.from_pr);
  }
]

-- `Registry.add_contributor`
unfoldable pub add_contributor : Contributor → Registry → Registry
add_contributor c reg = record reg { contributors = insert c.key c reg.contributors }

-- p["contributor"] == contributor and p["hf_pr"] == hf_pr
abbrev pub same_producer : Producer → Producer → Bool
same_producer p q = q.contributor == p.contributor && q.hf_pr == p.hf_pr

-- The order of the key (hf_pr is not None, hf_pr or 0).
abbrev pub pr_less : Option ℕ → Option ℕ → Bool
pr_less none none = false
pr_less none (some b) = true
pr_less (some a) none = false
pr_less (some a) (some b) = ltb a b

abbrev pub earlier : Producer → Producer → Bool
earlier p q = pr_less p.hf_pr q.hf_pr

-- The list of producers with one more delivery credited.
unfoldable pub credit : Producer → List Producer → List Producer
unfolding sorted_by
credit p ps = if any (same_producer p) ps then ps else sorted_by earlier (ps ++ (p ∷ []))

-- `Registry.add_producer`; `none` stands for a KeyError.
unfoldable pub add_producer : String → Producer → Registry → Option Registry
unfolding credit
add_producer m p reg = elim (lookup m reg.tables) [
  | none ↦ none
  | some t ↦ some (record reg {
    tables =
        insert m (record t { producers = some (credit p (get_or_else t.producers [])) }) reg.tables;
  })
]

-- self.tables.get(material, {}).get("producers", [])
abbrev pub known_producers : Option TableRecord → List Producer
known_producers none = []
known_producers (some t) = get_or_else t.producers []

-- `Registry.record_table`
unfoldable pub record_table :
    String → String → ℕ → Option ℕ → String → String → Option String → Registry → Option Registry
unfolding add_producer
record_table m by num claim merged version verification reg =
    add_producer m
      (record {
        contributor = some by;
        hf_pr = some num;
        date = some merged;
        generator_version = some version;
      })
      (record reg {
        tables =
            insert m
              (record {
                by = some by;
                from_pr = some num;
                claim = claim;
                merged = some merged;
                version = some version;
                verification = verification;
                producers = some (known_producers (lookup m reg.tables));
                published_from = some (some num);
              })
              reg.tables;
      })

-- `Registry.producers_of`
unfoldable pub producers_of : String → Registry → List (Option String)
unfolding migrated
producers_of m reg = elim (lookup m reg.tables) [
  | none ↦ []
  | some t ↦ map (λ p. p.contributor) (get_or_else (migrated t).producers [])
]

-- `Registry.tables_of`
unfoldable pub tables_of : String → Registry → List String
unfolding producers_of
tables_of key reg =
    sorted_text (filter (λ m. contains (producers_of m reg) (some key)) (map (λ e. e.0) reg.tables))

-- `Registry.reproduced_of`
unfoldable pub reproduced_of : String → Registry → List String
unfolding tables_of producers_of
reproduced_of key reg = filter (λ m. leb 2 (length (producers_of m reg))) (tables_of key reg)

-- claim if claim and claim.author.lower() == login.lower() else None
form_of : String → Option Claim → Option Claim
form_of login none = none
form_of login (some c) = if same_login c.author login then some c else none

-- `o or default` on texts
abbrev or_text : Option String → String → String
or_text o default = if truthy o then get_or_else o "" else default

-- The contributor made of a login, with the claim form's fields.
new_contributor : String → PullRequest → Option Claim → Contributor
new_contributor login pr form = record {
  key = login;
  github = some login;
  hf = some (elim form [ none ↦ pr.author | some c ↦ or_text c.hf pr.author ]);
  display = elim form [ none ↦ login | some c ↦ or_text c.credit login ];
  anonymous = elim form [ none ↦ false | some c ↦ c.anonymous ];
  note = "";
}

-- `resolve_contributor`
unfoldable pub resolve_contributor :
    Links → Registry → PullRequest → Option Claim → Option String → Option Contributor
unfolding by_github by_hf new_contributor form_of
resolve_contributor parse_links reg pr claim override =
    let values = map (λ e. e.1) reg.contributors in
    let stated = (parse_links pr.description).1 in
    let login =
      if truthy override
      then override
      else if truthy stated
      then stated
      else Option.map (λ c. c.author) claim in
    elim login [
      | none ↦ by_hf values pr.author
      | some l ↦ if l == "" then by_hf values pr.author else elim (by_github values l) [
        | some known ↦ some known
        | none ↦ some (new_contributor l pr (form_of l claim))
      ]
    ]
