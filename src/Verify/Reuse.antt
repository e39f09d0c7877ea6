-- ===== src/Verify/Reuse.antt =====
-- contrib/verify.py, `reusable`: when the result of an earlier verification is taken over.
use Prim.Native.Char.{code}
use helpmate_tablebase.Base.{
  ◌==◌, string_eq, option_eq, Bool-cases, Option-cases, is_some, if◌then◌else◌, In, find, any,
  find-In, any_of_In, Dict, lookup, ℕ, String, ◌≡◌, refl, sym, ap, ◌∙◌, subst, ◌≢◌, inl, inr, Bool,
  true, false, not, ◌&&◌, ◌||◌, Option, none, some, List, [], ◌∷◌, ◌++◌, map, arith, pair_eq,
  nat_eq, list_eq, bool_eq,
}
use helpmate_tablebase.Verify.{Check, TableReport}

-- A table's entry in an earlier report.
pub record PriorEntry : Type 0 where
  pub passed_before : Bool
  pub hm_sha256 : Option String
  pub stats_sha256 : Option String
  pub source_payload : Option String
  pub checks_before : List Check
  pub payload_before : Option String

-- An earlier report, with its sampling settings by their names.
pub record PriorReport : Type 0 where
  pub tool : Option String
  pub settings : Dict String ℕ
  pub tables : Dict String PriorEntry

-- `REUSE_SETTINGS`
abbrev pub reuse_settings : List String
reuse_settings = "samples" ∷ "oracle_samples" ∷ "oracle_plies" ∷ []

-- s.startswith(prefix)
unfoldable pub starts_with : String → String → Bool
starts_with String.[] s = true
starts_with (String.◌∷◌ c p) String.[] = false
starts_with (String.◌∷◌ c p) (String.◌∷◌ d s) = code c == code d && starts_with p s

-- The last test: V5 has run, and not been skipped for a reproduction.
ran_deepest : PriorEntry → Bool
ran_deepest entry = elim (find (λ c. c.id == "V5") entry.checks_before) [
  | none ↦ false
  | some v5 ↦ not (starts_with "independent reproduction" v5.detail)
]

-- The tests on the table's entry.
entry_serves : PriorEntry → Option String → Option String → Option String → Bool → Bool
entry_serves entry hm stats source_payload needs_deepest =
    entry.passed_before
    && (is_some hm && is_some stats)
    && (entry.hm_sha256 == hm && entry.stats_sha256 == stats)
    && entry.source_payload == source_payload
    && (not needs_deepest || ran_deepest entry)

-- `reusable`
unfoldable pub reusable :
    Option PriorReport
    → String
    → Option String
    → Option String
    → String
    → Dict String ℕ
    → Option String
    → Bool
    → Option PriorEntry
unfolding entry_serves ran_deepest starts_with
reusable none material hm stats tool settings source_payload needs_deepest = none
reusable (some prev) material hm stats tool settings source_payload needs_deepest =
    if not (prev.tool == some tool)
    then none
    else if any (λ k. not (lookup k prev.settings == lookup k settings)) reuse_settings
    then none
    else elim (lookup material prev.tables) [
      | none ↦ none
      | some entry ↦
          if entry_serves entry hm stats source_payload needs_deepest then some entry else none
    ]

-- `TableReport.from_json`
unfoldable pub from_json : String → PriorEntry → String → TableReport
from_json material entry head = record {
  material = material;
  checks = map (λ (c : Check). record c { reused_from = some head }) entry.checks_before;
  payload_sha256 = entry.payload_before;
}

some_inj : {a b : PriorEntry} → some a ≡ some b → a ≡ b
some_inj h = cc

serves_cases :
    (o : Option PriorEntry) (test : PriorEntry → Bool) (e : PriorEntry)
    → elim o [ none ↦ none | some entry ↦ if test entry then some entry else none ] ≡ some e
    → (o ≡ some e) × (test e ≡ true)
serves_cases none test e h = absurd (cc)
serves_cases (some entry) test e h = elim (Bool-cases (test entry)) [
  | inl t ↦
      let same : entry ≡ e = some_inj (rw t at h) in
      (ap some same, subst (λ x. test x ≡ true) same t)
  | inr t ↦ absurd (cc (rw t at h))
]

entry_tests :
    (e : PriorEntry) (hm stats source_payload : Option String) (needs_deepest : Bool)
    → entry_serves e hm stats source_payload needs_deepest ≡ true
    → (e.passed_before ≡ true)
      × (is_some hm ≡ true)
      × (is_some stats ≡ true)
      × (e.hm_sha256 == hm ≡ true)
      × (e.stats_sha256 == stats ≡ true)
      × (e.source_payload == source_payload ≡ true)
      × (needs_deepest ≡ true → ran_deepest e ≡ true)
unfolding entry_serves
entry_tests e hm stats source_payload needs_deepest h = ground (arith, h)

some_of_is_some : (o : Option String) → is_some o ≡ true → (s : String) × (o ≡ some s)
some_of_is_some none h = absurd (cc)
some_of_is_some (some s) h = (s, refl)

-- What stands before the first element that passes a test fails it.
find_split :
    {A : Type 0} (test : A → Bool) (xs : List A) (x : A)
    → find test xs ≡ some x
    → (before : List A) × (after : List A) × (xs ≡ before ++ (x ∷ after))
      × ((y : A) → In y before → test y ≡ false)
find_split test [] x e = absurd (cc)
find_split test (y ∷ xs) x e = elim (Bool-cases (test y)) [
  | inl t ↦ let same : y ≡ x = cc (rw t at e) in ([], xs, ap (λ z. z ∷ xs) same, (λ z i. absurd i))
  | inr t ↦
      let (before, after, q, h) = find_split test xs x (rw t at e) in
      (
        y ∷ before,
        after,
        ap (λ l. y ∷ l) q,
        (λ z i. elim i [ inl s ↦ subst (λ w. test w ≡ false) (sym s) t | inr j ↦ h z j ]),
      )
]

-- `c` is the first V5 among the checks.
abbrev pub IsFirstDeepest : Check → List Check → Type 0
IsFirstDeepest c checks =
    (c.id ≡ "V5")
    × ((before : List Check) × (after : List Check) × (checks ≡ before ++ (c ∷ after))
        × ((d : Check) → In d before → d.id ≢ "V5"))

ran_deepest_lem :
    (e : PriorEntry)
    → ran_deepest e ≡ true
    → (c : Check) × IsFirstDeepest c e.checks_before
      × (starts_with "independent reproduction" c.detail ≡ false)
unfolding ran_deepest
ran_deepest_lem e h = elim (Option-cases (find (λ c. c.id == "V5") e.checks_before)) [
  | inl z ↦ absurd (cc (rw (z, ran_deepest) at h))
  | inr (c, z) ↦
      let (i, t) = find-In (λ c. c.id == "V5") e.checks_before c z in
      let kept : not (starts_with "independent reproduction" c.detail) ≡ true =
        rw (z, ran_deepest) at h in
      let (before, after, q, others) = find_split (λ x. x.id == "V5") e.checks_before c z in
      (
        c,
        (
          (string_eq.equal_iff c.id "V5").0 t,
          (
            before,
            after,
            q,
            (λ d j f. absurd (ground (arith, others d j, string_eq.equal_iff d.id "V5", f))),
          ),
        ),
        ground (arith, kept),
      )
]

same_setting :
    (prev : PriorReport) (settings : Dict String ℕ)
    → any (λ k. not (lookup k prev.settings == lookup k settings)) reuse_settings ≡ false
    → (k : String) → In k reuse_settings
    → lookup k prev.settings ≡ lookup k settings
same_setting prev settings d k i = elim (Bool-cases (lookup k prev.settings == lookup k settings)) [
  | inl e ↦ (option_eq.equal_iff (lookup k prev.settings) (lookup k settings)).0 e
  | inr e ↦
      let some_one =
        any_of_In (λ k. not (lookup k prev.settings == lookup k settings)) reuse_settings k i
          (rw e refl) in
      absurd (cc)
]

-- If `reusable` takes over an entry then the earlier report is of the same tool and has the same
-- sampling settings, the entry is its entry of the material and passed, both files have hashes and
-- the entry's are theirs, it was compared with the same source, and where V5 is needed, the first
-- V5 of the entry was not skipped for an independent reproduction.
pub reusable_sound :
    (prev : PriorReport) (material : String) (hm stats : Option String) (tool : String)
    (settings : Dict String ℕ) (source_payload : Option String) (needs_deepest : Bool)
    (e : PriorEntry)
    → reusable (some prev) material hm stats tool settings source_payload needs_deepest ≡ some e
    → (prev.tool ≡ some tool)
      × ((k : String) → In k reuse_settings → lookup k prev.settings ≡ lookup k settings)
      × (lookup material prev.tables ≡ some e)
      × (e.passed_before ≡ true)
      × ((h : String) × (s : String) × (hm ≡ some h)
          × (stats ≡ some s)
          × (e.hm_sha256 ≡ some h)
          × (e.stats_sha256 ≡ some s))
      × (e.source_payload ≡ source_payload)
      × (needs_deepest ≡ true
          → (c : Check) × IsFirstDeepest c e.checks_before
            × (starts_with "independent reproduction" c.detail ≡ false))
unfolding reusable
reusable_sound prev material hm stats tool settings source_payload needs_deepest e h =
    let differs : String → Bool = (λ k. not (lookup k prev.settings == lookup k settings)) in
    elim (Bool-cases (prev.tool == some tool)) [
      | inl t ↦ elim (Bool-cases (any differs reuse_settings)) [
        | inl d ↦ absurd (cc (rw (t, d, reusable) at h))
        | inr d ↦
            let (known, serves) =
              serves_cases _ (λ x. entry_serves x hm stats source_payload needs_deepest) e
                (rw (t, d, reusable) at h) in
            let (p, a, b, x, y, src, deep) =
              entry_tests e hm stats source_payload needs_deepest serves in
            let (hs, ha) = some_of_is_some hm a in
            let (ss, sa) = some_of_is_some stats b in
            (
              (option_eq.equal_iff prev.tool (some tool)).0 t,
              (λ k i. same_setting prev settings d k i),
              known,
              p,
              (
                hs,
                ss,
                ha,
                sa,
                (option_eq.equal_iff e.hm_sha256 hm).0 x ∙ ha,
                (option_eq.equal_iff e.stats_sha256 stats).0 y ∙ sa,
              ),
              (option_eq.equal_iff e.source_payload source_payload).0 src,
              (λ n. ran_deepest_lem e (deep n)),
            )
      ]
      | inr t ↦ absurd (cc (rw (t, reusable) at h))
    ]
