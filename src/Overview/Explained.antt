-- ===== src/Overview/Explained.antt =====
-- Why a material has the state that `material_status` gives it.
use helpmate_tablebase.Base.{
  ◌==◌, string_eq, Bool-cases, Option-cases, In, contains, Dict, lookup, ◌≤◌, String, ◌≡◌, refl,
  sym, subst, inl, inr, true, false, Option, none, some, List, [], ◌∷◌, map, pair_eq, nat_eq,
  option_eq, list_eq, bool_eq,
}
use helpmate_tablebase.Claims.{Claim, index_of, claim_for, PullRequest}
use helpmate_tablebase.Claims.Index.{holds, claim_for-earliest, claim_for-none}
use helpmate_tablebase.Registry.{Registry}
use helpmate_tablebase.Overview.{
  State, done, in_review, not_needed, claimed, free, Status, unreviewed_status, status_of,
  material_status,
}
use helpmate_tablebase.Materials.Universe.{In-universe_iff}
use helpmate_tablebase.Materials.{canonical, universe}
use helpmate_tablebase.Materials.Measures.{bare_king}

module _ (claims : List Claim) (finished : List String) (review : Dict String PullRequest)
    (reg : Registry) where
  -- The reason for a state.
  abbrev pub Explains : String → State → Status → Type 0
  Explains m done st = contains finished m ≡ true
  Explains m in_review st =
      (contains finished m ≡ false)
      × ((pr : PullRequest) × (lookup m review ≡ some pr) × (st.hf_pr ≡ some pr.num))
  Explains m not_needed st = bare_king m ≡ true
  Explains m claimed st =
      (c : Claim) × In c claims
      × (holds m c ≡ true)
      × (st.claim ≡ some c.issue)
      × (st.contributor ≡ some c.author)
      × ((d : Claim) → In d claims → holds m d ≡ true → c.issue ≤ d.issue)
  Explains m free st = (d : Claim) → In d claims → holds m d ≡ false

  earliest_explained :
      (m : String) (c : Claim)
      → In c claims
        × (holds m c ≡ true)
        × ((d : Claim) → In d claims → holds m d ≡ true → c.issue ≤ d.issue)
      → Explains m claimed (record {
        state = claimed;
        hf_pr = none;
        claim = some c.issue;
        contributor = some c.author;
      })
  earliest_explained m c (i, h, least) = (c, i, h, refl, refl, least)

  unreviewed_explained :
      (m : String) (c : Option Claim)
      → claim_for (index_of claims) m ≡ c
      → Explains m (unreviewed_status m c).state (unreviewed_status m c)
  unfolding unreviewed_status
  unreviewed_explained m none e = elim (Bool-cases (bare_king m)) [
    | inl b ↦ rw b b
    | inr b ↦ rw b (λ d i. claim_for-none claims m d e i)
  ]
  unreviewed_explained m (some c) e = elim (Bool-cases (bare_king m)) [
    | inl b ↦ rw b b
    | inr b ↦ rw b (earliest_explained m c (claim_for-earliest claims m c e))
  ]

  status_explained :
      (m : String)
      → Explains m
          (status_of finished review (index_of claims) reg m).state
          (status_of finished review (index_of claims) reg m)
  unfolding status_of
  status_explained m = elim (Bool-cases (contains finished m)) [
    | inl f ↦ rw f f
    | inr f ↦ elim (Option-cases (lookup m review)) [
      | inl r ↦ rw (f, r) (unreviewed_explained m _ refl)
      | inr (pr, r) ↦ rw (f, r) (f, (pr, r, refl))
    ]
  ]

  lookup_mapped :
      (f : String → Status) (names : List String) (m : String) (st : Status)
      → lookup m (map (λ name. (name, f name)) names) ≡ some st
      → In m names × (st ≡ f m)
  lookup_mapped f [] m st e = absurd (cc)
  lookup_mapped f (x ∷ names) m st e = elim (Bool-cases (m == x)) [
    | inl s ↦
        let same = (string_eq.equal_iff m x).0 s in
        let found : some (f x) ≡ some st = rw s at e in
        (inl same, rw same (let back : st ≡ f x = cc in back))
    | inr s ↦ let (i, g) = lookup_mapped f names m st (rw s at e) in (inr i, g)
  ]

  -- A material that `material_status` gives a status is its own canonical name, and the state is
  -- for its reason: done materials are in the dataset, materials in review are not and their PR is
  -- the one shown, a material that needs no table has a bare white king, a claimed one shows the
  -- issue and author of the claim that holds it with the lowest issue number of all that do, and
  -- no claim holds an open one.
  pub material_status-Explains :
      (m : String) (st : Status)
      → lookup m (material_status finished review (index_of claims) reg) ≡ some st
      → (canonical m ≡ some m) × Explains m st.state st
  unfolding material_status
  material_status-Explains m st e =
      let (i, g) =
        lookup_mapped (status_of finished review (index_of claims) reg) universe m st e in
      ((In-universe_iff m).0 i, subst (λ x. Explains m x.state x) (sym g) (status_explained m))
