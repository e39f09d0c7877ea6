-- ===== src/Accept/Deliveries.antt =====
-- Which pull requests deliver a material, in which order, and the decisions of a whole run.
use mathlib.Core.List.{append-nil, append_assoc}
use helpmate_tablebase.Base.{
  ltb, ◌==◌, string_eq, Bool-cases, get_or_else, if◌then◌else◌, filter, contains, sorted_by, sum_of,
  sum_of-sorted_by, Dict, lookup, has, insert, lookup-insert, ℕ, ◌≤◌, String, ◌<>◌, ◌≡◌, refl, sym,
  ap, ◌∙◌, subst, ◌≢◌, inl, inr, true, false, Option, none, some, List, [], ◌∷◌, ◌++◌, map, arith,
  pair_eq, nat_eq, option_eq, list_eq, bool_eq,
}
use helpmate_tablebase.Claims.{PullRequest, stems, to_set, pr_materials}
use helpmate_tablebase.Consistency.{text_less, sorted_text}
use helpmate_tablebase.Accept.{
  Decision, Inputs, Outcome, ok, missing_published, deliver, deliver_all, deliver_prs, deliveries,
  decide_all, decide,
}
use helpmate_tablebase.Accept.Sound.{Guarantees, Promise, decide_one_sound}

-- The number of times that a text stands in a list.
abbrev occurrences : String → List String → ℕ
occurrences m ms = sum_of (λ x. if m == x then 1 else 0) ms

occurrences-absent : (m : String) (ms : List String) → contains ms m ≡ false → occurrences m ms ≡ 0
occurrences-absent m [] h = refl
occurrences-absent m (x ∷ ms) h = ground (arith, occurrences-absent m ms)

contains-absent : (m : String) (ms : List String) → occurrences m ms ≡ 0 → contains ms m ≡ false
contains-absent m [] h = refl
contains-absent m (x ∷ ms) h = ground (arith, contains-absent m ms)

occurrences-to_set : (m : String) (ms : List String) → occurrences m (to_set ms) ≤ 1
unfolding to_set
occurrences-to_set m [] = omega arith
occurrences-to_set m (x ∷ ms) =
    ground
      (arith, string_eq.equal_iff m x, occurrences-to_set m ms, occurrences-absent m (to_set ms))

occurrences-pr_materials : (m : String) (pr : PullRequest) → occurrences m (pr_materials pr) ≤ 1
unfolding pr_materials sorted_text
occurrences-pr_materials m pr =
    let files = to_set (stems ".hm" pr.files) in
    let same = sum_of-sorted_by (λ x. if m == x then 1 else 0) text_less files in
    omega (arith, same, occurrences-to_set m (stems ".hm" pr.files))

-- A delivery of several materials adds the PR once to those that it has.
lookup-deliver_all :
    (m : String) (num : ℕ) (ms : List String) (d : Dict String (List ℕ))
    → occurrences m ms ≤ 1
    → lookup m (deliver_all num ms d)
      ≡ (if contains ms m then some (get_or_else (lookup m d) [] ++ (num ∷ [])) else lookup m d)
unfolding deliver_all deliver
lookup-deliver_all m num [] d h = refl
lookup-deliver_all m num (x ∷ ms) d h = elim (Bool-cases (m == x)) [
  | inl e ↦
      let same = (string_eq.equal_iff m x).0 e in
      let absent = contains-absent m ms (ground (arith, h)) in
      let here = lookup-insert m x (get_or_else (lookup x d) [] ++ (num ∷ [])) d in
      let rest = lookup-deliver_all m num ms (deliver x num d) (ground (arith, h)) in
      ground (arith, rest, absent, here, same)
  | inr e ↦
      let here = lookup-insert m x (get_or_else (lookup x d) [] ++ (num ∷ [])) d in
      let rest = lookup-deliver_all m num ms (deliver x num d) (ground (arith, h)) in
      ground (arith, rest, here)
]

-- The PRs of a run that deliver a material, in ascending order of their numbers.
unfoldable pub deliverers : List PullRequest → String → List ℕ
deliverers prs m =
    map (λ p. p.num)
      (filter (λ p. contains (pr_materials p) m) (sorted_by (λ p q. ltb p.num q.num) prs))

-- None for no deliveries.
abbrev pub some_if_any : List ℕ → Option (List ℕ)
some_if_any [] = none
some_if_any (k ∷ ns) = some (k ∷ ns)

lookup_grown :
    (ns : List ℕ) (num : ℕ) (o : Option (List ℕ))
    → o ≡ some_if_any ns
    → some (get_or_else o [] ++ (num ∷ [])) ≡ some_if_any (ns ++ (num ∷ []))
lookup_grown [] num o h = rw h refl
lookup_grown (k ∷ ns) num o h = rw h refl

lookup-deliver_prs :
    (m : String) (prs : List PullRequest) (d : Dict String (List ℕ)) (ns : List ℕ)
    → lookup m d ≡ some_if_any ns
    → lookup m (deliver_prs prs d)
      ≡ some_if_any (ns ++ map (λ p. p.num) (filter (λ p. contains (pr_materials p) m) prs))
unfolding deliver_prs
lookup-deliver_prs m [] d ns h = h ∙ ap some_if_any (sym (append-nil ns))
lookup-deliver_prs m (pr ∷ prs) d ns h =
    let step = lookup-deliver_all m pr.num (pr_materials pr) d (occurrences-pr_materials m pr) in
    let nums = map (λ p. p.num) (filter (λ p. contains (pr_materials p) m) prs) in
    elim (Bool-cases (contains (pr_materials pr) m)) [
      | inl e ↦
          let grown = lookup_grown ns pr.num (lookup m d) h in
          let here = step ∙ (rw e grown) in
          let rest =
            lookup-deliver_prs m prs (deliver_all pr.num (pr_materials pr) d) (ns ++ (pr.num ∷ []))
              here in
          rw e (rest ∙ ap some_if_any (append_assoc ns (pr.num ∷ []) nums))
      | inr e ↦
          rw e
            (lookup-deliver_prs m prs (deliver_all pr.num (pr_materials pr) d) ns (step ∙ (rw e h)))
    ]

-- The delivery list of a material holds exactly the PRs with it, once each, ascending.
pub lookup-deliveries :
    (m : String) (prs : List PullRequest)
    → lookup m (deliveries prs) ≡ some_if_any (deliverers prs m)
unfolding deliveries deliverers
lookup-deliveries m prs = lookup-deliver_prs m (sorted_by (λ p q. ltb p.num q.num) prs) [] [] refl

-- What the run holds for a material: no decision without a delivery, and with deliveries the
-- one that its kind describes.
abbrev pub Decided : Inputs → String → List ℕ → Option Decision → Type 0
Decided inputs m [] o = o ≡ none
Decided inputs m (k ∷ ns) o = (d : Decision) × (o ≡ some d) × Guarantees inputs m (k ∷ ns) d.kind d

-- The published tables of the run have payload hashes.
abbrev pub Hashed : Inputs → Type 0
Hashed inputs = (m : String) → has (m <> ".hm") inputs.published ≡ true → inputs.hashes m ≢ none

ok_of_Promise :
    (inputs : Inputs) (m : String) (ns : List ℕ) (o : Outcome Decision)
    → Hashed inputs
    → Promise inputs m ns o
    → (d : Decision) × (o ≡ ok d) × Guarantees inputs m ns d.kind d
ok_of_Promise inputs m ns (ok d) hashed p = (d, refl, p)
ok_of_Promise inputs m ns (missing_published name) hashed (_, h, e) = absurd (hashed m h e)

-- Each list of deliveries has a delivery.
abbrev NonEmpties : Dict String (List ℕ) → Type 0
NonEmpties [] = Unit
NonEmpties ((m, ns) ∷ ds) = (ns ≢ []) × NonEmpties ds

decide_all_sound :
    (inputs : Inputs) (ds : Dict String (List ℕ))
    → Hashed inputs
    → NonEmpties ds
    → (out : Dict String Decision) × (decide_all inputs ds ≡ ok out)
      × ((m : String) → Decided inputs m (get_or_else (lookup m ds) []) (lookup m out))
unfolding decide_all
decide_all_sound inputs [] hashed h = ([], refl, (λ m. refl))
decide_all_sound inputs ((m, []) ∷ ds) hashed h = absurd (h.0 refl)
decide_all_sound inputs ((m, k ∷ ns) ∷ ds) hashed h =
    let (d, e, g) = ok_of_Promise inputs m (k ∷ ns) _ hashed (decide_one_sound inputs m k ns) in
    let (out, f, rest) = decide_all_sound inputs ds hashed h.1 in
    (
      (m, d) ∷ out,
      rw (e, f) refl,
      (λ j. elim (Bool-cases (j == m)) [
        | inl q ↦
            let same = (string_eq.equal_iff j m).0 q in
            rw q (subst (λ x. Decided inputs x (k ∷ ns) (some d)) (sym same) (d, refl, g))
        | inr q ↦ rw q (rest j)
      ]),
    )

NonEmpties-insert :
    (m : String) (ns : List ℕ) (ds : Dict String (List ℕ))
    → ns ≢ []
    → NonEmpties ds
    → NonEmpties (insert m ns ds)
NonEmpties-insert m ns [] h g = (h, tt)
NonEmpties-insert m ns ((j, js) ∷ ds) h g = elim (Bool-cases (m == j)) [
  | inl e ↦ rw e (h, g.1)
  | inr e ↦ rw e (g.0, NonEmpties-insert m ns ds h g.1)
]

snoc-ne : (ns : List ℕ) (k : ℕ) → ns ++ (k ∷ []) ≢ []
snoc-ne [] k e = cc
snoc-ne (n ∷ ns) k e = cc

NonEmpties-deliver_all :
    (num : ℕ) (ms : List String) (ds : Dict String (List ℕ))
    → NonEmpties ds
    → NonEmpties (deliver_all num ms ds)
unfolding deliver_all deliver
NonEmpties-deliver_all num [] ds h = h
NonEmpties-deliver_all num (m ∷ ms) ds h =
    NonEmpties-deliver_all num ms (deliver m num ds)
      (NonEmpties-insert m _ ds (snoc-ne (get_or_else (lookup m ds) []) num) h)

NonEmpties-deliver_prs :
    (prs : List PullRequest) (ds : Dict String (List ℕ))
    → NonEmpties ds
    → NonEmpties (deliver_prs prs ds)
unfolding deliver_prs
NonEmpties-deliver_prs [] ds h = h
NonEmpties-deliver_prs (pr ∷ prs) ds h =
    NonEmpties-deliver_prs prs _ (NonEmpties-deliver_all pr.num (pr_materials pr) ds h)

get_or_else-some_if_any : (ns : List ℕ) → get_or_else (some_if_any ns) [] ≡ ns
get_or_else-some_if_any [] = refl
get_or_else-some_if_any (k ∷ ns) = refl

-- A run whose published tables have payload hashes returns decisions on exactly the materials that
-- some pull request delivers. With the pull requests that deliver the material, in ascending
-- order: `new` is an unpublished material whose deliveries agree, is published from the claim
-- holder's first delivery, or where there is none from the first delivery, and then it is
-- unclaimed or released, and it credits all its deliveries. `reproduction` is a published one
-- whose deliveries all have the published hash, publishes nothing and credits all. `held` is an
-- unpublished one that is claimed, not released, and not delivered by the holder; it publishes
-- and credits nothing. `conflict` publishes and credits nothing, and a hash is missing where one
-- is needed, or two hashes differ.
pub decide_sound :
    (prs : List PullRequest) (inputs : Inputs)
    → Hashed inputs
    → (out : Dict String Decision) × (decide prs inputs ≡ ok out)
      × ((m : String) → Decided inputs m (deliverers prs m) (lookup m out))
unfolding decide deliveries
decide_sound prs inputs hashed =
    let sorted = sorted_by (λ p q. ltb p.num q.num) prs in
    let (out, e, all_of) =
      decide_all_sound inputs (deliveries prs) hashed (NonEmpties-deliver_prs sorted [] tt) in
    (
      out,
      e,
      (λ m.
          subst (λ ns. Decided inputs m ns (lookup m out))
            (ap (λ o. get_or_else o []) (lookup-deliveries m prs) ∙ get_or_else-some_if_any _)
            (all_of m)),
    )
