-- ===== src/Registry/Credit.antt =====
-- The producers of a table behind a credited delivery.
use helpmate_tablebase.Base.{
  ◌==◌, option_eq, beq_refl, Bool-cases, Option-cases, get_or_else, if◌then◌else◌, In, any,
  In-append_left, In-append_right, any_of_In, sorted_by, IsSorted, In-sorted_by, sorted_by-IsSorted,
  sum_of, sum_of-sorted_by, lookup, insert, lookup-insert, ℕ, ◌+◌, ◌≤◌, String, ◌≡◌, refl, sym, ◌∙◌,
  subst, inl, inr, true, false, Option, some, List, [], ◌∷◌, ◌++◌, arith, string_eq, pair_eq,
  nat_eq, list_eq, bool_eq,
}
use helpmate_tablebase.Registry.{
  Producer, TableRecord, Registry, same_producer, earlier, credit, add_producer, known_producers,
  record_table,
}

-- The number of entries of the same contributor and PR.
abbrev copies : Producer → List Producer → ℕ
copies q ps = sum_of (λ p. if same_producer q p then 1 else 0) ps

-- Producers in the order of their PRs, each contributor and PR at most once.
abbrev pub Kept : List Producer → Type 0
Kept ps = IsSorted earlier ps × ((q : Producer) → copies q ps ≤ 1)

earlier_asymm : (p q : Producer) → earlier p q ≡ true → earlier q p ≡ false
earlier_asymm p q h = ground (arith, h)

same_fields :
    (p q : Producer)
    → same_producer p q ≡ true
    → (q.contributor ≡ p.contributor) × (q.hf_pr ≡ p.hf_pr)
same_fields p q h = (
  (option_eq.equal_iff q.contributor p.contributor).0 (ground (arith, h)),
  (option_eq.equal_iff q.hf_pr p.hf_pr).0 (ground (arith, h)),
)

same_trans :
    (q p r : Producer)
    → same_producer q p ≡ true
    → same_producer q r ≡ true
    → same_producer p r ≡ true
same_trans q p r h k =
    let (a, b) = same_fields q p h in
    let (c, d) = same_fields q r k in
    let x = (option_eq.equal_iff r.contributor p.contributor).1 (c ∙ sym a) in
    let y = (option_eq.equal_iff r.hf_pr p.hf_pr).1 (d ∙ sym b) in rw (x, y) refl

same_self : (p : Producer) → same_producer p p ≡ true
same_self p = let x = beq_refl p.contributor in let y = beq_refl p.hf_pr in rw (x, y) refl

copies-absent :
    (p q : Producer) (ps : List Producer)
    → any (same_producer p) ps ≡ false
    → same_producer q p ≡ true
    → copies q ps ≡ 0
copies-absent p q [] h s = refl
copies-absent p q (r ∷ ps) h s = ground (arith, h, same_trans q p r s, copies-absent p q ps)

copies-append :
    (q p : Producer) (ps : List Producer)
    → copies q (ps ++ (p ∷ [])) ≡ copies q ps + (if same_producer q p then 1 else 0)
copies-append q p [] = omega arith
copies-append q p (r ∷ ps) = omega (arith, copies-append q p ps)

credit-Kept : (p : Producer) (ps : List Producer) → Kept ps → Kept (credit p ps)
unfolding credit
credit-Kept p ps (sorted, once) = elim (Bool-cases (any (same_producer p) ps)) [
  | inl e ↦ rw e (sorted, once)
  | inr e ↦ rw e (
    sorted_by-IsSorted earlier earlier_asymm (ps ++ (p ∷ [])),
    (λ q.
        let same =
          sum_of-sorted_by (λ r. if same_producer q r then 1 else 0) earlier (ps ++ (p ∷ [])) in
        let more = copies-append q p ps in
        let old = once q in ground (arith, same, more, old, copies-absent p q ps e)),
  )
]

credit-any : (p : Producer) (ps : List Producer) → any (same_producer p) (credit p ps) ≡ true
unfolding credit
credit-any p ps = elim (Bool-cases (any (same_producer p) ps)) [
  | inl e ↦ rw (e, e) refl
  | inr e ↦
      let here =
        (In-sorted_by earlier p (ps ++ (p ∷ []))).1 (In-append_right p ps (p ∷ []) (inl refl)) in
      rw e (any_of_In (same_producer p) (sorted_by earlier (ps ++ (p ∷ []))) p here (same_self p))
]

credit-keeps : (p q : Producer) (ps : List Producer) → In q ps → In q (credit p ps)
unfolding credit
credit-keeps p q ps i = elim (Bool-cases (any (same_producer p) ps)) [
  | inl e ↦ rw e i
  | inr e ↦ rw e ((In-sorted_by earlier q (ps ++ (p ∷ []))).1 (In-append_left q ps (p ∷ []) i))
]

-- Every table of the registry keeps its producers in order, each once.
abbrev pub WellFormed : Registry → Type 0
WellFormed reg =
    (m : String) (t : TableRecord)
    → lookup m reg.tables ≡ some t
    → Kept (get_or_else t.producers [])

-- `after` credits `p` for `m`, loses no producer of `m` and changes no other table.
abbrev pub Credits : String → Producer → Registry → Registry → Type 0
Credits m p before after =
    (any (same_producer p) (known_producers (lookup m after.tables)) ≡ true)
    × ((q : Producer)
        → In q (known_producers (lookup m before.tables))
        → In q (known_producers (lookup m after.tables)))
    × ((j : String) → (j == m) ≡ false → lookup j after.tables ≡ lookup j before.tables)

-- A registry with one table's entry replaced.
abbrev pub replaced : String → TableRecord → Registry → Registry
replaced m t reg = record reg { tables = insert m t reg.tables }

pub replaced-WellFormed :
    (m : String) (t : TableRecord) (reg : Registry)
    → WellFormed reg
    → Kept (get_or_else t.producers [])
    → WellFormed (replaced m t reg)
replaced-WellFormed m t reg w k j u e =
    let law = lookup-insert j m t reg.tables in
    elim (Bool-cases (j == m)) [
      | inl s ↦
          let found : some t ≡ some u = sym (rw s at law) ∙ e in
          let same : t ≡ u = cc in subst (λ x. Kept (get_or_else x.producers [])) same k
      | inr s ↦ w j u (sym (rw s at law) ∙ e)
    ]

pub lookup-replaced :
    (m : String) (t : TableRecord) (reg : Registry) → lookup m (replaced m t reg).tables ≡ some t
lookup-replaced m t reg =
    let law = lookup-insert m m t reg.tables in let s = beq_refl m in law ∙ (rw s refl)

pub lookup-replaced_other :
    (j m : String) (t : TableRecord) (reg : Registry)
    → (j == m) ≡ false
    → lookup j (replaced m t reg).tables ≡ lookup j reg.tables
lookup-replaced_other j m t reg s = lookup-insert j m t reg.tables ∙ (rw s refl)

-- One more delivery credited to a table that has an entry.
abbrev credited : Producer → TableRecord → TableRecord
credited p t = record t { producers = some (credit p (get_or_else t.producers [])) }

add_producer_found :
    (m : String) (p : Producer) (reg : Registry) (t : TableRecord)
    → lookup m reg.tables ≡ some t
    → add_producer m p reg ≡ some (replaced m (credited p t) reg)
unfolding add_producer
add_producer_found m p reg t e = rw (add_producer, e) refl

credited-Credits :
    (m : String) (p : Producer) (reg : Registry) (t : TableRecord)
    → lookup m reg.tables ≡ some t
    → Credits m p reg (replaced m (credited p t) reg)
credited-Credits m p reg t e =
    let at_m = lookup-replaced m (credited p t) reg in
    (
      rw at_m (credit-any p (get_or_else t.producers [])),
      (λ q i. rw at_m (credit-keeps p q (get_or_else t.producers []) (rw e at i))),
      (λ j s. lookup-replaced_other j m (credited p t) reg s),
    )

-- In a well-formed registry, `add_producer` on a table that has an entry returns a well-formed
-- registry in which the contributor is credited for the PR, each contributor and PR once and in
-- the order of the PRs, no producer of the table is lost, and no other table is changed.
pub add_producer-WellFormed :
    (m : String) (p : Producer) (reg : Registry) (t : TableRecord)
    → WellFormed reg
    → lookup m reg.tables ≡ some t
    → (after : Registry) × (add_producer m p reg ≡ some after)
      × WellFormed after
      × Credits m p reg after
add_producer-WellFormed m p reg t w e = (
  replaced m (credited p t) reg,
  add_producer_found m p reg t e,
  replaced-WellFormed m (credited p t) reg w (credit-Kept p _ (w m t e)),
  credited-Credits m p reg t e,
)

known_producers-Kept :
    (m : String) (reg : Registry) → WellFormed reg → Kept (known_producers (lookup m reg.tables))
known_producers-Kept m reg w = elim (Option-cases (lookup m reg.tables)) [
  | inl e ↦ rw e (tt, (λ q. omega arith))
  | inr (t, e) ↦ rw e (w m t e)
]

-- In a well-formed registry, `record_table` always returns a well-formed registry in which the
-- contributor is credited for the PR that the published file comes from, no earlier producer of
-- the table is lost, and no other table is changed.
pub record_table-WellFormed :
    (m by : String) (num : ℕ) (claim : Option ℕ) (merged version : String)
    (verification : Option String) (reg : Registry)
    → WellFormed reg
    → (after : Registry) × (record_table m by num claim merged version verification reg
        ≡ some after)
      × WellFormed after
      × Credits m
          (record {
            contributor = some by;
            hf_pr = some num;
            date = some merged;
            generator_version = some version;
          })
          reg
          after
unfolding record_table
record_table-WellFormed m by num claim merged version verification reg w =
    let before = known_producers (lookup m reg.tables) in
    let t : TableRecord = record {
      by = some by;
      from_pr = some num;
      claim = claim;
      merged = some merged;
      version = some version;
      verification = verification;
      producers = some before;
      published_from = some (some num);
    } in
    let found = lookup-replaced m t reg in
    let fresh = replaced-WellFormed m t reg w (known_producers-Kept m reg w) in
    let (after, run, well, (here, keeps, others)) =
      add_producer-WellFormed m _ (replaced m t reg) t fresh found in
    (
      after,
      run,
      well,
      (
        here,
        (λ q i. keeps q (rw found i)),
        (λ j s. others j s ∙ lookup-replaced_other j m t reg s),
      ),
    )
