-- ===== src/Accept/Crediting/Growing.antt =====
-- The steps of `_credit` and what each leaves of the registry.
use helpmate_tablebase.Registry.{Producer, TableRecord, Registry, add_contributor, known_producers}
use helpmate_tablebase.Registry.Credit.{
  Kept, WellFormed, Credits, replaced-WellFormed, lookup-replaced, lookup-replaced_other,
}
use helpmate_tablebase.Accept.Crediting.{Submitter, enlist, maintainer_entry, own_table}
use helpmate_tablebase.Base.{
  ◌>>=◌, ◌==◌, string_eq, Bool-cases, Option-cases, get_or_else, In, any, any_of_In, any-In, lookup,
  ℕ, String, ◌≡◌, refl, sym, subst, inl, inr, true, ◌&&◌, Option, none, some, [], arith, pair_eq,
  nat_eq, option_eq, list_eq, bool_eq,
}

-- The table lists the contributor as a producer by the PR.
abbrev pub Lists : String → String → ℕ → Registry → Type 0
Lists m key n reg =
    any (λ q. q.contributor == some key && q.hf_pr == some n)
      (known_producers (lookup m reg.tables))
    ≡ true

-- No table loses a producer.
abbrev pub Grows : Registry → Registry → Type 0
Grows before after =
    (m : String) (q : Producer)
    → In q (known_producers (lookup m before.tables))
    → In q (known_producers (lookup m after.tables))

-- The step returns a well-formed registry that has lost nothing and of which `Q` holds.
abbrev pub Extends : Registry → Option Registry → (Registry → Type 0) → Type 0
Extends reg o Q =
    (after : Registry) × (o ≡ some after) × WellFormed after × Grows reg after × Q after

pub Lists-Grows :
    (m key : String) (n : ℕ) (before after : Registry)
    → Grows before after
    → Lists m key n before
    → Lists m key n after
Lists-Grows m key n before after g h =
    let (q, i, e) = any-In _ (known_producers (lookup m before.tables)) h in
    any_of_In _ (known_producers (lookup m after.tables)) q (g m q i) e

Grows-Credits :
    (m : String) (p : Producer) (before after : Registry)
    → Credits m p before after
    → Grows before after
Grows-Credits m p before after (here, keeps, others) j q i = elim (Bool-cases (j == m)) [
  | inl e ↦
      let same = (string_eq.equal_iff j m).0 e in
      subst (λ x. In q (known_producers (lookup x after.tables))) (sym same)
        (keeps q (subst (λ x. In q (known_producers (lookup x before.tables))) same i))
  | inr e ↦ rw (others j e) i
]

pub same_tables :
    (before after : Registry)
    → after.tables ≡ before.tables
    → WellFormed before
    → WellFormed after × Grows before after
same_tables before after e w = ((λ m t h. w m t (rw e at h)), (λ m q i. rw e i))

pub enlist-tables : (p : Submitter) (reg : Registry) → (enlist p reg).tables ≡ reg.tables
unfolding enlist add_contributor
enlist-tables p reg = elim (Option-cases (lookup p.key reg.contributors)) [
  | inl e ↦ rw (enlist, e) refl
  | inr (c, e) ↦ elim (Bool-cases p.anonymous) [
    | inl a ↦ rw (enlist, e, a) refl
    | inr a ↦ rw (enlist, e, a) refl
  ]
]

maintainer-Kept : (version : String) → Kept (get_or_else (maintainer_entry version).producers [])
maintainer-Kept version = (tt, (λ q. ground arith))

in_absent :
    (j m : String) (q : Producer) (reg : Registry)
    → (j == m) ≡ true
    → lookup m reg.tables ≡ none
    → ¬ In q (known_producers (lookup j reg.tables))
in_absent j m q reg s e i =
    let same = (string_eq.equal_iff j m).0 s in
    let gone : lookup j reg.tables ≡ none = subst (λ x. lookup x reg.tables ≡ none) (sym same) e in
    rw gone at i

pub own_table-found :
    (m version : String) (reg : Registry)
    → WellFormed reg
    → (t : TableRecord) × (lookup m (own_table m version reg).tables ≡ some t)
      × WellFormed (own_table m version reg)
      × Grows reg (own_table m version reg)
unfolding own_table
own_table-found m version reg w = elim (Option-cases (lookup m reg.tables)) [
  | inl e ↦
      rw (own_table, e)
        (
          maintainer_entry version,
          lookup-replaced m (maintainer_entry version) reg,
          replaced-WellFormed m (maintainer_entry version) reg w (maintainer-Kept version),
          (λ j q i. elim (Bool-cases (j == m)) [
            | inl s ↦ absurd (in_absent j m q reg s e i)
            | inr s ↦ rw (lookup-replaced_other j m (maintainer_entry version) reg s) i
          ]),
        )
  | inr (t, e) ↦ rw (own_table, e) (t, e, w, (λ j q i. i))
]

-- Two steps in a row.
pub Extends-bind :
    (reg : Registry) (o : Option Registry) (f : Registry → Option Registry)
    (Q R : Registry → Type 0)
    → ((a b : Registry) → Grows a b → Q a → Q b)
    → Extends reg o Q
    → ((r : Registry) → WellFormed r → Extends r (f r) R)
    → Extends reg (o >>= f) (λ r. Q r × R r)
Extends-bind reg o f Q R mono (r, e, w, g, q) next =
    let (after, e2, w2, g2, h) = next r w in
    (after, rw e e2, w2, (λ m p i. g2 m p (g m p i)), (mono r after g2 q, h))

pub Extends-weaken :
    (reg : Registry) (o : Option Registry) (Q R : Registry → Type 0)
    → ((a : Registry) → Q a → R a)
    → Extends reg o Q
    → Extends reg o R
Extends-weaken reg o Q R f (r, e, w, g, q) = (r, e, w, g, f r q)

-- What the two ways to credit a delivery promise.
pub Extends-Credits :
    (m key : String) (n : ℕ) (date version : Option String) (reg : Registry) (o : Option Registry)
    → ((after : Registry) × (o ≡ some after)
        × WellFormed after
        × Credits m
            (record {
              contributor = some key;
              hf_pr = some n;
              date = date;
              generator_version = version;
            })
            reg
            after)
    → Extends reg o (Lists m key n)
Extends-Credits m key n date version reg o (r, e, w, c) =
    let p : Producer = record {
      contributor = some key;
      hf_pr = some n;
      date = date;
      generator_version = version;
    } in
    (r, e, w, Grows-Credits m p reg r c, c.0)

pub Extends-same :
    (reg now : Registry) (o : Option Registry) (Q : Registry → Type 0)
    → Grows reg now
    → Extends now o Q
    → Extends reg o Q
Extends-same reg now o Q g (r, e, w, h, q) = (r, e, w, (λ m p i. h m p (g m p i)), q)
