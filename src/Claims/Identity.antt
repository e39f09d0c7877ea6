-- ===== src/Claims/Identity.antt =====
-- `identity_claim` and `ownership_conflict` together.
use helpmate_tablebase.Base.{
  same_login_comm, Option-cases, In, any, find-In, contains, same_login, String, ◌≡◌, refl, inl,
  inr, true, ◌&&◌, Option, none, some, List, arith, string_eq, pair_eq, nat_eq, option_eq, list_eq,
  bool_eq,
}
use helpmate_tablebase.Claims.{
  Claim, ClaimIndex, PullRequest, pr_materials, Contributor, by_hf, Links, claim_of_login, login_of,
  identity_by_login, identity_claim, account_clash, ownership_conflict,
}

module _ (parse_links : Links) where
  -- If a PR's description names no claim, and the description or the registry gives its login,
  -- then a claim that `identity_claim` finds is one of the index, its author is that login up to
  -- letter case, and it lists one of the PR's materials.
  identity_claim-login :
      (pr : PullRequest) (index : ClaimIndex) (cs : List Contributor) (login : String) (c : Claim)
      → (parse_links pr.description).0 ≡ none
      → login_of parse_links pr cs (parse_links pr.description).1 ≡ some login
      → identity_claim parse_links pr index cs ≡ some c
      → In c index.claims
        × (same_login c.author login ≡ true)
        × (any (λ m. contains (pr_materials pr) m) c.materials ≡ true)
  unfolding identity_claim
  identity_claim-login pr index cs login c e f h =
      let found : claim_of_login parse_links index.claims login (pr_materials pr) ≡ some c =
        rw (e, f, identity_claim) at h in
      let (i, k) =
        find-In
          (λ d. same_login d.author login && any (λ m. contains (pr_materials pr) m) d.materials)
          index.claims c found in
      (i, ground arith, ground arith)

  -- The claim by the login of a registry entry has that login's author.
  clash_of_login :
      (pr : PullRequest) (index : ClaimIndex) (c : Claim) (known : Contributor)
      → identity_by_login parse_links pr index known.github ≡ some c
      → account_clash parse_links pr c (some known) ≡ none
  unfolding identity_claim account_clash
  clash_of_login pr index c known h = elim (Option-cases known.github) [
    | inl e ↦ rw (e, account_clash)
    | inr (g, e) ↦
        let found : claim_of_login parse_links index.claims g (pr_materials pr) ≡ some c =
          rw e at h in
        let (i, k) =
          find-In
            (λ d. same_login d.author g && any (λ m. contains (pr_materials pr) m) d.materials)
            index.claims c found in
        ground (arith, same_login_comm c.author g)
  ]

  -- Where the description names neither a claim nor a login, the claim that speaks for the PR is
  -- never one that `ownership_conflict` objects to.
  ownership_conflict-identity_claim :
      (pr : PullRequest) (index : ClaimIndex) (cs : List Contributor) (c : Claim)
      → (parse_links pr.description).0 ≡ none
      → (parse_links pr.description).1 ≡ none
      → identity_claim parse_links pr index cs ≡ some c
      → ownership_conflict parse_links pr c cs ≡ none
  unfolding identity_claim ownership_conflict
  ownership_conflict-identity_claim pr index cs c e l h =
      rw (e, ownership_conflict, l)
        (by_account (by_hf cs pr.author) (rw (e, identity_claim, l) at h))
    where
      by_account :
          (o : Option Contributor)
          → identity_by_login parse_links pr index
              (elim o [ none ↦ none | some known ↦ known.github ])
            ≡ some c
          → account_clash parse_links pr c o ≡ none
      by_account none h' = refl
      by_account (some known) h' = clash_of_login pr index c known h'
