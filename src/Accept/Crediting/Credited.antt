-- ===== src/Accept/Crediting/Credited.antt =====
-- `_credit`: which contributors a run credits for which deliveries.
use helpmate_tablebase.Registry.{Registry}
use helpmate_tablebase.Registry.Credit.{
  WellFormed, add_producer-WellFormed, record_table-WellFormed,
}
use helpmate_tablebase.Accept.Crediting.{
  Submitter, Run, enlist, version_or_empty, record_published, publish_pr, publish_all, own_table,
  credit_material, credit_materials, credit_others, credit_run,
}
use helpmate_tablebase.Base.{
  Bool-cases, Option-cases, get_or_else, In, contains, contains→In, lookup, ℕ, String, ◌≡◌, refl,
  sym, subst, ◌≢◌, inl, inr, Bool, true, false, none, some, List, [], ◌∷◌, string_eq, pair_eq,
  nat_eq, option_eq, list_eq, bool_eq,
}
use helpmate_tablebase.Accept.Crediting.Growing.{
  Lists, Grows, Extends, Lists-Grows, same_tables, enlist-tables, own_table-found, Extends-bind,
  Extends-weaken, Extends-Credits, Extends-same,
}

-- The files that a run reads for a PR can be read.
abbrev pub Readable : Run → ℕ → Type 0
Readable run n =
    (p : Submitter) × (lookup n run.people ≡ some p)
    × (names : List String) × (lookup n run.recorded ≡ some names)
    × (pubs : List String) × (lookup n run.published ≡ some pubs)
    × (result : String) × (run.report n ≡ some (some result))
    × ((m : String) → In m pubs → run.sidecar n m ≢ none)

record_published-Extends :
    (run : Run) (n : ℕ) (p : Submitter) (result : String) (pubs : List String) (reg : Registry)
    → WellFormed reg
    → ((m : String) → In m pubs → run.sidecar n m ≢ none)
    → Extends reg
        (record_published run n p (some result) pubs reg)
        (λ r. (m : String) → In m pubs → Lists m p.key n r)
unfolding record_published
record_published-Extends run n p result [] reg w h = (reg, refl, w, (λ m q i. i), (λ m i. absurd i))
record_published-Extends run n p result (m ∷ ms) reg w h = elim (Option-cases (run.sidecar n m)) [
  | inl e ↦ absurd (h m (inl refl) e)
  | inr (version, e) ↦
      let version_text = get_or_else version "" in
      let here =
        record_table-WellFormed m p.key n p.claim run.today version_text (some result) reg w in
      rw e (
        Extends-weaken reg _ _ _
          (λ a (x, y) j i. elim i [
            | inl s ↦ subst (λ k. Lists k p.key n a) (sym s) x
            | inr t ↦ y j t
          ])
          (Extends-bind reg _ (record_published run n p (some result) ms) (Lists m p.key n)
            (λ r. (j : String) → In j ms → Lists j p.key n r) (λ a b g. Lists-Grows m p.key n a b g)
            (Extends-Credits m p.key n (some run.today) (some version_text) reg _ here)
            (λ r v. record_published-Extends run n p result ms r v (λ j i. h j (inr i)))))
]

publish_pr-Extends :
    (run : Run) (n : ℕ) (p : Submitter) (names pubs : List String) (result : String)
    (reg : Registry)
    → WellFormed reg
    → lookup n run.published ≡ some pubs
    → run.report n ≡ some (some result)
    → ((m : String) → In m pubs → run.sidecar n m ≢ none)
    → Extends reg
        (publish_pr run n p names reg)
        (λ r. (m : String) → In m names → In m pubs → Lists m p.key n r)
unfolding publish_pr
publish_pr-Extends run n p [] pubs result reg w e f h =
    (reg, refl, w, (λ m q i. i), (λ m i. absurd i))
publish_pr-Extends run n p (k ∷ names) pubs result reg w e f h =
    let (w2, g) = same_tables reg (enlist p reg) (enlist-tables p reg) w in
    rw (f, e)
      (Extends-weaken reg _ _ _ (λ a x m i j. x m j)
        (Extends-same reg (enlist p reg) _ _ g
          (record_published-Extends run n p result pubs (enlist p reg) w2 h)))

credit_material-Extends :
    (run : Run) (n : ℕ) (p : Submitter) (pubs : List String) (m : String) (reg : Registry)
    → WellFormed reg
    → lookup n run.people ≡ some p
    → lookup n run.published ≡ some pubs
    → Extends reg (credit_material run n m reg) (λ r. contains pubs m ≡ false → Lists m p.key n r)
unfolding credit_material
credit_material-Extends run n p pubs m reg w d e = elim (Bool-cases (contains pubs m)) [
  | inl c ↦ rw (credit_material, e, c) (reg, refl, w, (λ j q i. i), (λ f. absurd (cc)))
  | inr c ↦
      let own_version = version_or_empty (run.own_sidecar m) in
      let version = version_or_empty (run.staged_sidecar n m) in
      let (t, found, w2, g) = own_table-found m own_version reg w in
      let here = add_producer-WellFormed m _ (own_table m own_version reg) t w2 found in
      rw (credit_material, e, c, d)
        (Extends-weaken reg _ _ _ (λ a x f. x)
          (Extends-same reg (own_table m own_version reg) _ _ g (
            Extends-Credits m p.key n (some run.today) (some version) (own_table m own_version reg)
              _ here)))
]

credit_materials-Extends :
    (run : Run) (n : ℕ) (p : Submitter) (pubs names : List String) (reg : Registry)
    → WellFormed reg
    → lookup n run.people ≡ some p
    → lookup n run.published ≡ some pubs
    → Extends reg
        (credit_materials run n names reg)
        (λ r. (m : String) → In m names → contains pubs m ≡ false → Lists m p.key n r)
unfolding credit_materials
credit_materials-Extends run n p pubs [] reg w d e = (reg, refl, w, (λ m q i. i), (λ m i. absurd i))
credit_materials-Extends run n p pubs (m ∷ ms) reg w d e =
    Extends-weaken reg _ _ _
      (λ a (x, y) j i. elim i [
        | inl s ↦ subst (λ k. contains pubs k ≡ false → Lists k p.key n a) (sym s) x
        | inr t ↦ y j t
      ])
      (Extends-bind reg _ (credit_materials run n ms)
        (λ r. contains pubs m ≡ false → Lists m p.key n r)
        (λ r. (j : String) → In j ms → contains pubs j ≡ false → Lists j p.key n r)
        (λ a b g q f. Lists-Grows m p.key n a b g (q f))
        (credit_material-Extends run n p pubs m reg w d e)
        (λ r v. credit_materials-Extends run n p pubs ms r v d e))

-- The recorded materials of a PR are credited, those that are published from it (`test` is true)
-- or those that are not.
abbrev CreditedWhere : Run → Bool → ℕ → Registry → Type 0
CreditedWhere run test n r =
    (p : Submitter) (names pubs : List String)
    → lookup n run.people ≡ some p
    → lookup n run.recorded ≡ some names
    → lookup n run.published ≡ some pubs
    → (m : String) → In m names
    → contains pubs m ≡ test
    → Lists m p.key n r

CreditedWhere-Grows :
    (run : Run) (test : Bool) (n : ℕ) (a b : Registry)
    → Grows a b
    → CreditedWhere run test n a
    → CreditedWhere run test n b
CreditedWhere-Grows run test n a b g h p names pubs d e f m i c =
    Lists-Grows m p.key n a b g (h p names pubs d e f m i c)

-- What is shown of the values found holds of those that the lookups name.
CreditedWhere-found :
    (run : Run) (test : Bool) (n : ℕ) (p : Submitter) (names pubs : List String) (r : Registry)
    → lookup n run.people ≡ some p
    → lookup n run.recorded ≡ some names
    → lookup n run.published ≡ some pubs
    → ((m : String) → In m names → contains pubs m ≡ test → Lists m p.key n r)
    → CreditedWhere run test n r
CreditedWhere-found run test n p names pubs r d e f h p2 names2 pubs2 d2 e2 f2 m i c =
    let same_p : p ≡ p2 = cc in
    let same_names : names2 ≡ names = cc in
    let same_pubs : pubs2 ≡ pubs = cc in
    subst (λ x. Lists m x.key n r) same_p
      (h m (subst (λ x. In m x) same_names i) (subst (λ x. contains x m ≡ test) same_pubs c))

publish_all-Extends :
    (run : Run) (ns : List ℕ) (reg : Registry)
    → WellFormed reg
    → ((n : ℕ) → In n ns → Readable run n)
    → Extends reg (publish_all run ns reg) (λ r. (n : ℕ) → In n ns → CreditedWhere run true n r)
unfolding publish_all
publish_all-Extends run [] reg w h = (reg, refl, w, (λ m q i. i), (λ n i. absurd i))
publish_all-Extends run (n ∷ ns) reg w h =
    let (p, d, names, e, pubs, f, result, g, sidecars) = h n (inl refl) in
    rw (d, e)
      (Extends-weaken reg _ _ _
        (λ a (x, y) j i. elim i [
          | inl s ↦
              subst (λ k. CreditedWhere run true k a) (sym s)
                (CreditedWhere-found run true n p names pubs a d e f
                  (λ m k c. x m k (contains→In pubs m c)))
          | inr t ↦ y j t
        ])
        (Extends-bind reg _ (publish_all run ns)
          (λ r. (m : String) → In m names → In m pubs → Lists m p.key n r)
          (λ r. (j : ℕ) → In j ns → CreditedWhere run true j r)
          (λ a b k q m i j. Lists-Grows m p.key n a b k (q m i j))
          (publish_pr-Extends run n p names pubs result reg w f g sidecars)
          (λ r v. publish_all-Extends run ns r v (λ j i. h j (inr i)))))

credit_others-Extends :
    (run : Run) (ns : List ℕ) (reg : Registry)
    → WellFormed reg
    → ((n : ℕ) → In n ns → Readable run n)
    → Extends reg (credit_others run ns reg) (λ r. (n : ℕ) → In n ns → CreditedWhere run false n r)
unfolding credit_others
credit_others-Extends run [] reg w h = (reg, refl, w, (λ m q i. i), (λ n i. absurd i))
credit_others-Extends run (n ∷ ns) reg w h =
    let (p, d, names, e, pubs, f, result, g, sidecars) = h n (inl refl) in
    rw e (
      Extends-weaken reg _ _ _
        (λ a (x, y) j i. elim i [
          | inl s ↦
              subst (λ k. CreditedWhere run false k a) (sym s)
                (CreditedWhere-found run false n p names pubs a d e f x)
          | inr t ↦ y j t
        ])
        (Extends-bind reg _ (credit_others run ns)
          (λ r. (m : String) → In m names → contains pubs m ≡ false → Lists m p.key n r)
          (λ r. (j : ℕ) → In j ns → CreditedWhere run false j r)
          (λ a b k q m i j. Lists-Grows m p.key n a b k (q m i j))
          (credit_materials-Extends run n p pubs names reg w d f)
          (λ r v. credit_others-Extends run ns r v (λ j i. h j (inr i)))))

-- When the files that the run reads can be read, crediting the deliveries in a well-formed registry
-- returns a well-formed registry in which no table loses a producer, and in which each material
-- recorded for a pull request of the run lists the contributor of that pull request as a producer
-- by it.
pub credit_run-Credited :
    (run : Run) (pulls prs : List ℕ) (reg : Registry)
    → WellFormed reg
    → ((n : ℕ) → In n pulls → Readable run n)
    → ((n : ℕ) → In n prs → In n pulls)
    → (after : Registry) × (credit_run run pulls prs reg ≡ some after)
      × WellFormed after
      × Grows reg after
      × ((n : ℕ) (p : Submitter) (names : List String)
          → In n prs
          → lookup n run.people ≡ some p
          → lookup n run.recorded ≡ some names
          → (m : String) → In m names
          → Lists m p.key n after)
unfolding credit_run
credit_run-Credited run pulls prs reg w h sub =
    Extends-weaken reg _ _ _
      (λ a (x, y) n p names i d e m k.
        let (_, _, _, _, pubs, f, _, _, _) = h n (sub n i) in
        elim (Bool-cases (contains pubs m)) [
          | inl c ↦ x n (sub n i) p names pubs d e f m k c
          | inr c ↦ y n i p names pubs d e f m k c
        ])
      (Extends-bind reg _ (credit_others run prs)
        (λ r. (n : ℕ) → In n pulls → CreditedWhere run true n r)
        (λ r. (n : ℕ) → In n prs → CreditedWhere run false n r)
        (λ a b g q n i. CreditedWhere-Grows run true n a b g (q n i))
        (publish_all-Extends run pulls reg w h)
        (λ r v. credit_others-Extends run prs r v (λ n i. h n (sub n i))))
