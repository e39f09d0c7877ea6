-- ===== src/Accept/Sound.antt =====
-- What each kind of decision guarantees about the material's deliveries.
use helpmate_tablebase.Base.{
  is_empty, ltb, ◌==◌, Bool-cases, Option-cases, get_or_else, length, In, filter, all, head?,
  In-filter, contains, has, same_login, ℕ, String, ◌<>◌, ◌≡◌, refl, sym, subst, ◌⊎◌, inl, inr, Bool,
  true, false, not, ◌&&◌, Option, none, some, List, [], ◌∷◌, ◌++◌, arith, string_eq, pair_eq,
  nat_eq, option_eq, list_eq, bool_eq,
}
use helpmate_tablebase.Claims.{Claim}
use helpmate_tablebase.Accept.{
  Kind, new, reproduction, held, conflict, Decision, payload, truthy, Inputs, Outcome, ok,
  missing_published, by_holder, claim_of, publish, decide_new, decide_published, agree, decide_one,
}

module _ (inputs : Inputs) (m : String) where
  open inputs use {reports, published, hashes, logins, release}

  -- The delivery of a claimed material is the holder's, or the maintainer released it.
  abbrev pub MayPublish : Option Claim → ℕ → Type 0
  MayPublish none k = Unit
  MayPublish (some c) k =
      (contains release m ≡ true) ⊎ (same_login (get_or_else (logins k) "") c.author ≡ true)

  -- Where some report has no payload hash.
  abbrev no_payloads : List ℕ → Bool
  no_payloads ns = not (is_empty (filter (λ j. not (truthy (payload reports j m))) ns))

  -- What a conflict is: no hash to compare with, or two hashes that differ.
  abbrev pub Disagree : List ℕ → Bool → Type 0
  Disagree ns true =
      (no_payloads ns ≡ true)
      ⊎ ((ref : String) × (hashes m ≡ some ref)
          × (all (λ k. payload reports k m == some ref) ns ≡ false))
  Disagree ns false =
      ((ltb 1 (length ns) ≡ true) × (no_payloads ns ≡ true)) ⊎ (agree inputs m ns ≡ false)

  -- The guarantees by kind.
  abbrev pub Guarantees : List ℕ → Kind → Decision → Type 0
  Guarantees ns new d =
      (has (m <> ".hm") published ≡ false)
      × ((k : ℕ) × (d.publish_from ≡ some k) × In k ns × MayPublish (claim_of inputs m) k)
      × (d.publish_from ≡ head? (by_holder inputs m (claim_of inputs m) ns ++ ns))
      × (d.producers ≡ ns)
      × (agree inputs m ns ≡ true)
  Guarantees ns reproduction d =
      (has (m <> ".hm") published ≡ true)
      × (d.publish_from ≡ none)
      × (d.producers ≡ ns)
      × ((ref : String) × (hashes m ≡ some ref)
          × (all (λ k. payload reports k m == some ref) ns ≡ true))
  Guarantees ns held d =
      (has (m <> ".hm") published ≡ false)
      × (d.publish_from ≡ none)
      × (d.producers ≡ [])
      × (contains release m ≡ false)
      × ((c : Claim) × (claim_of inputs m ≡ some c)
          × (d.held_for ≡ some c.issue)
          × (by_holder inputs m (some c) ns ≡ []))
  Guarantees ns conflict d =
      (d.publish_from ≡ none) × (d.producers ≡ []) × Disagree ns (has (m <> ".hm") published)

  not-all_of_filter-not :
      (f : ℕ → Bool) (xs : List ℕ)
      → is_empty (filter (λ k. not (f k)) xs) ≡ false
      → all f xs ≡ false
  not-all_of_filter-not f [] h = absurd (cc)
  not-all_of_filter-not f (x ∷ xs) h = ground (arith, not-all_of_filter-not f xs)

  nil_of_empty : (xs : List ℕ) → is_empty xs ≡ true → xs ≡ []
  nil_of_empty [] h = refl
  nil_of_empty (x ∷ xs) h = absurd (cc)

  all_of_filter-not :
      (f : ℕ → Bool) (xs : List ℕ) → filter (λ k. not (f k)) xs ≡ [] → all f xs ≡ true
  all_of_filter-not f [] h = refl
  all_of_filter-not f (x ∷ xs) h = ground (arith, all_of_filter-not f xs)

  decide_published_sound :
      (ns : List ℕ) (ref : String)
      → has (m <> ".hm") published ≡ true
      → hashes m ≡ some ref
      → Guarantees ns (decide_published inputs m ns ref).kind (decide_published inputs m ns ref)
  unfolding decide_published
  decide_published_sound ns ref h e =
      elim (Bool-cases (is_empty (filter (λ k. not (payload reports k m == some ref)) ns))) [
        | inl z ↦ rw z (
          h,
          refl,
          refl,
          (ref, e, all_of_filter-not (λ k. payload reports k m == some ref) ns (nil_of_empty _ z)),
        )
        | inr z ↦ rw (z, h) (refl, refl, inr (ref, e, not-all_of_filter-not _ ns z))
      ]

  holder_sound :
      (c : Claim) (ns : List ℕ) (h : ℕ) (hs : List ℕ)
      → by_holder inputs m (some c) ns ≡ h ∷ hs
      → In h ns × (same_login (get_or_else (logins h) "") c.author ≡ true)
  unfolding by_holder
  holder_sound c ns h hs e =
      let p : ℕ → Bool =
        (λ k. not (c.author == "") && same_login (get_or_else (logins k) "") c.author) in
      let (i, q) = In-filter p h ns (subst (λ xs. In h xs) (sym e) (inl refl)) in
      (i, ground (arith, q))

  -- An unpublished material with a claim, by the deliveries of its holder.
  claimed_sound :
      (c : Claim) (k : ℕ) (ns holders : List ℕ)
      → claim_of inputs m ≡ some c
      → has (m <> ".hm") published ≡ false
      → agree inputs m (k ∷ ns) ≡ true
      → by_holder inputs m (some c) (k ∷ ns) ≡ holders
      → Guarantees
          (k ∷ ns)
          (decide_new inputs m (some c) (k ∷ ns)).kind
          (decide_new inputs m (some c) (k ∷ ns))
  unfolding decide_new publish
  claimed_sound c k ns [] e h a b = elim (Bool-cases (contains release m)) [
    | inl r ↦ rw (b, r) (h, (k, refl, inl refl, rw e (inl r)), rw (e, b) refl, refl, a)
    | inr r ↦ rw (b, r) (h, refl, refl, r, (c, e, refl, b))
  ]
  claimed_sound c k ns (j ∷ js) e h a b =
      let (i, q) = holder_sound c (k ∷ ns) j js b in
      rw b (h, (j, refl, i, rw e (inr q)), rw (e, b) refl, refl, a)

  decide_new_sound :
      (claim : Option Claim) (k : ℕ) (ns : List ℕ)
      → claim_of inputs m ≡ claim
      → has (m <> ".hm") published ≡ false
      → agree inputs m (k ∷ ns) ≡ true
      → Guarantees
          (k ∷ ns)
          (decide_new inputs m claim (k ∷ ns)).kind
          (decide_new inputs m claim (k ∷ ns))
  unfolding decide_new publish by_holder
  decide_new_sound none k ns e h a = (h, (k, refl, inl refl, rw e tt), rw e refl, refl, a)
  decide_new_sound (some c) k ns e h a = claimed_sound c k ns _ e h a refl

  -- The guarantees of a result, and what is known where the published table has no hash.
  abbrev pub Promise : List ℕ → Outcome Decision → Type 0
  Promise ns (ok d) = Guarantees ns d.kind d
  Promise ns (missing_published name) =
      (name ≡ m) × (has (m <> ".hm") published ≡ true) × (hashes m ≡ none)

  published_sound :
      (ns : List ℕ) → has (m <> ".hm") published ≡ true → Promise ns (decide_one inputs m ns)
  unfolding decide_one
  published_sound ns h = elim (Bool-cases (no_payloads ns)) [
    | inl e ↦ rw (h, e, h) (refl, refl, inl e)
    | inr e ↦ elim (Option-cases (hashes m)) [
      | inl r ↦ rw (h, e, r) (refl, h, r)
      | inr (ref, r) ↦ rw (h, e, r) (decide_published_sound ns ref h r)
    ]
  ]

  unpublished_sound :
      (k : ℕ) (ns : List ℕ)
      → has (m <> ".hm") published ≡ false
      → Promise (k ∷ ns) (decide_one inputs m (k ∷ ns))
  unfolding decide_one
  unpublished_sound k ns h = elim (Bool-cases (ltb 1 (length (k ∷ ns)) && no_payloads (k ∷ ns))) [
    | inl e ↦ rw (h, e, h) (refl, refl, inl (ground (arith, e)))
    | inr e ↦ elim (Bool-cases (agree inputs m (k ∷ ns))) [
      | inl a ↦ rw (h, e, a) (decide_new_sound (claim_of inputs m) k ns refl h a)
      | inr a ↦ rw (h, e, a, h) (refl, refl, inr a)
    ]
  ]

  -- A material with deliveries, whatever its kind.
  pub decide_one_sound : (k : ℕ) (ns : List ℕ) → Promise (k ∷ ns) (decide_one inputs m (k ∷ ns))
  decide_one_sound k ns = elim (Bool-cases (has (m <> ".hm") published)) [
    | inl h ↦ published_sound (k ∷ ns) h
    | inr h ↦ unpublished_sound k ns h
  ]
