-- ===== src/Claims/Index.antt =====
-- The index beside the search for the first claim that holds a material.
use helpmate_tablebase.Base.{
  head_least, tail-IsSorted, string_eq, Bool-cases, if◌then◌else◌, In, find, find-In, find-none,
  contains, sorted_by, IsSorted, In-sorted_by, sorted_by-IsSorted, Dict, lookup, has, setdefault,
  lookup-setdefault, ◌≤◌, String, ◌≡◌, sym, ◌∙◌, subst, inl, inr, Bool, true, false, not, ◌&&◌,
  none, some, List, [], ◌∷◌, arith, pair_eq, nat_eq, option_eq, list_eq, bool_eq,
}
use helpmate_tablebase.Claims.{Claim, hold_all, hold_claims, by_issue, index_of, claim_for}

-- A claim holds a material that it lists and has not released; a confirmation holds nothing.
abbrev pub holds : String → Claim → Bool
holds m c = not c.confirm && contains c.materials m && not (contains c.released m)

lookup-hold_all :
    (m : String) (c : Claim) (ms : List String) (d : Dict String Claim)
    → lookup m (hold_all c ms d) ≡ (
        if has m d
        then lookup m d
        else if contains ms m && not (contains c.released m)
        then some c
        else none)
unfolding hold_all
lookup-hold_all m c [] d = ground arith
lookup-hold_all m c (x ∷ ms) d = ground (
  arith,
  lookup-hold_all m c ms d,
  lookup-hold_all m c ms (setdefault x c d),
  lookup-setdefault m x c d,
  string_eq.equal_iff m x,
)

lookup-hold_claims :
    (m : String) (cs : List Claim) (d : Dict String Claim)
    → lookup m (hold_claims cs d) ≡ (if has m d then lookup m d else find (holds m) cs)
unfolding hold_claims
lookup-hold_claims m [] d = ground arith
lookup-hold_claims m (c ∷ cs) d = ground (
  arith,
  lookup-hold_claims m cs d,
  lookup-hold_claims m cs (hold_all c c.materials d),
  lookup-hold_all m c c.materials d,
)

-- The index answers with the first claim in issue order that holds the material.
claim_for-eq-find :
    (claims : List Claim) (m : String)
    → claim_for (index_of claims) m ≡ find (holds m) (index_of claims).claims
unfolding claim_for index_of
claim_for-eq-find claims m = lookup-hold_claims m (sorted_by by_issue claims) []

find-least :
    (m : String) (cs : List Claim) (c d : Claim)
    → IsSorted by_issue cs
    → find (holds m) cs ≡ some c
    → In d cs
    → holds m d ≡ true
    → c.issue ≤ d.issue
find-least m [] c d s h i k = elim i [ ]
find-least m (x ∷ cs) c d s h i k = elim (Bool-cases (holds m x)) [
  | inl e ↦
      let same : x ≡ c = ground arith in
      subst (λ y. y.issue ≤ d.issue) same
        (elim i [
          | inl f ↦ rw f (omega arith)
          | inr j ↦ let l = head_least by_issue trans x cs s d j in ground arith
        ])
  | inr e ↦
      find-least m cs c d (tail-IsSorted by_issue trans x cs s) (rw e at h)
        (elim i [ inl f ↦ absurd (cc) | inr j ↦ j ]) k
]
  where
    trans : (x y z : Claim) → by_issue y x ≡ false → by_issue z y ≡ false → by_issue z x ≡ false
    trans x y z e f = ground arith

-- If the index has a claim for a material then it is one of the claims given, it lists the
-- material, has not released it and is no confirmation, and no other such claim has a lower issue
-- number.
pub claim_for-earliest :
    (claims : List Claim) (m : String) (c : Claim)
    → claim_for (index_of claims) m ≡ some c
    → In c claims
      × (holds m c ≡ true)
      × ((d : Claim) → In d claims → holds m d ≡ true → c.issue ≤ d.issue)
unfolding index_of
claim_for-earliest claims m c h =
    let cs = sorted_by by_issue claims in
    let found : find (holds m) cs ≡ some c = sym (claim_for-eq-find claims m) ∙ h in
    let (j, e) = find-In (holds m) cs c found in
    let sorted = sorted_by-IsSorted by_issue (λ x y l. ground arith) claims in
    (
      (In-sorted_by by_issue c claims).0 j,
      e,
      (λ d i k. find-least m cs c d sorted found ((In-sorted_by by_issue d claims).1 i) k),
    )

-- If the index has no claim for a material then none of the claims given holds it.
pub claim_for-none :
    (claims : List Claim) (m : String) (d : Claim)
    → claim_for (index_of claims) m ≡ none
    → In d claims
    → holds m d ≡ false
unfolding index_of
claim_for-none claims m d h i =
    find-none (holds m) (sorted_by by_issue claims) d (sym (claim_for-eq-find claims m) ∙ h)
      ((In-sorted_by by_issue d claims).1 i)
