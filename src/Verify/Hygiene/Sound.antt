-- ===== src/Verify/Hygiene/Sound.antt =====
-- What a pull request that does not fail V1 holds.
use helpmate_tablebase.Base.{
  is_empty, flat_map, ◌==◌, option_eq, Bool-cases, is_some, if◌then◌else◌, In, filter,
  In-append_left, contains, contains→In, In-sorted_by, Dict, String, ◌<>◌, ◌≡◌, refl, ap, subst,
  ◌≢◌, ◌⊎◌, inl, inr, Bool, true, false, not, ◌||◌, Option, none, some, List, [], ◌∷◌, ◌++◌, map,
  arith, string_eq, pair_eq, nat_eq, list_eq, bool_eq,
}
use helpmate_tablebase.Claims.{PullRequest, strip_suffix, stems, to_set, Links}
use helpmate_tablebase.Consistency.{text_less, sorted_text}
use helpmate_tablebase.Materials.{canonical, universe}
use helpmate_tablebase.Verify.Hygiene.{
  is_unsafe, ends_with, Problem, not_canonical, unpaired, deletes, no_tables, file_problem,
  only_in_one, problems_of, check_pr_hygiene,
}
use helpmate_tablebase.Verify.{pass, fail, warn}
use helpmate_tablebase.Materials.Universe.{In-universe_iff}
use helpmate_tablebase.Verify.Hygiene.Stems.{
  strip_suffix_lem, nil_of_append, none_of_nil, nil_of_flat_map, nil_of_map, In-stems, In-stems_of,
  In-to_set,
}

-- What V1 asks of the stems, beside their names.
record Paired (pr : PullRequest) (m : String) : Type 0 where
  name : canonical m ≡ some m
  table : In (m <> ".hm") pr.files
  sidecar : In (m <> ".stats.json") pr.files

nil_of_sorted : (xs : List String) → sorted_text xs ≡ [] → xs ≡ []
nil_of_sorted [] e = refl
nil_of_sorted (x ∷ xs) e =
    absurd (subst (In x) e ((In-sorted_by text_less x (x ∷ xs)).1 (inl refl)))

only_in_one-left :
    (hms sidecars : List String) (m : String)
    → sorted_text (only_in_one hms sidecars) ≡ []
    → In m hms
    → In m sidecars
unfolding only_in_one
only_in_one-left hms sidecars m h i =
    let both = nil_of_append (filter (λ x. not (contains sidecars x)) hms) _ (nil_of_sorted _ h) in
    let absent =
      none_of_nil (λ x. x) (λ x. not (contains sidecars x)) hms m (ap (map (λ x. x)) both.0) i in
    contains→In sidecars m (ground (arith, absent))

only_in_one-right :
    (hms sidecars : List String) (m : String)
    → sorted_text (only_in_one hms sidecars) ≡ []
    → In m sidecars
    → In m hms
unfolding only_in_one
only_in_one-right hms sidecars m h i =
    let both = nil_of_append (filter (λ x. not (contains sidecars x)) hms) _ (nil_of_sorted _ h) in
    let absent =
      none_of_nil (λ x. x) (λ x. not (contains hms x)) sidecars m (ap (map (λ x. x)) both.1) i in
    contains→In hms m (ground (arith, absent))

no_file_problem :
    (f : String)
    → file_problem f ≡ []
    → (is_unsafe f ≡ false) × ((ends_with ".hm" f || ends_with ".stats.json" f) ≡ true)
unfolding file_problem
no_file_problem f h = ground (arith, h)

is_some_cases : (o : Option String) → is_some o ≡ true → (m : String) × (o ≡ some m)
is_some_cases none h = absurd (cc)
is_some_cases (some m) h = (m, refl)

both_of :
    (pr : PullRequest) (m : String)
    → sorted_text
        (only_in_one (to_set (stems ".hm" pr.files)) (to_set (stems ".stats.json" pr.files)))
      ≡ []
    → In m (stems ".hm" pr.files) ⊎ In m (stems ".stats.json" pr.files)
    → In m (to_set (stems ".hm" pr.files)) × In m (to_set (stems ".stats.json" pr.files))
both_of pr m c (inl i) =
    let here = (In-to_set (stems ".hm" pr.files) m).1 i in
    (here, only_in_one-left _ (to_set (stems ".stats.json" pr.files)) m c here)
both_of pr m c (inr i) =
    let here = (In-to_set (stems ".stats.json" pr.files) m).1 i in
    (only_in_one-right (to_set (stems ".hm" pr.files)) _ m c here, here)

Paired-of :
    (pr : PullRequest) (m : String)
    → map not_canonical (
        filter
          (λ s. not (canonical s == some s))
          (sorted_text
            (to_set (to_set (stems ".hm" pr.files) ++ to_set (stems ".stats.json" pr.files)))))
      ≡ []
    → sorted_text
        (only_in_one (to_set (stems ".hm" pr.files)) (to_set (stems ".stats.json" pr.files)))
      ≡ []
    → In m (stems ".hm" pr.files) ⊎ In m (stems ".stats.json" pr.files)
    → Paired pr m
Paired-of pr m b c i =
    let hms = to_set (stems ".hm" pr.files) in
    let sidecars = to_set (stems ".stats.json" pr.files) in
    let (in_hms, in_sidecars) = both_of pr m c i in
    let here = (In-to_set (hms ++ sidecars) m).1 (In-append_left m hms sidecars in_hms) in
    let test =
      none_of_nil not_canonical (λ s. not (canonical s == some s)) _ m b
        ((In-sorted_by text_less m (to_set (hms ++ sidecars))).1 here) in
    record {
      name = (option_eq.equal_iff (canonical m) (some m)).0 (ground (arith, test));
      table = In-stems ".hm" pr.files m ((In-to_set (stems ".hm" pr.files) m).0 in_hms);
      sidecar =
          In-stems ".stats.json" pr.files m
            ((In-to_set (stems ".stats.json" pr.files) m).0 in_sidecars);
    }

-- A PR with no problems: its files by their stems, and what it deletes.
no_problems :
    (pr : PullRequest) (manifest : Dict String String)
    → problems_of pr manifest ≡ []
    → ((f : String) → In f pr.files → file_problem f ≡ [])
      × ((m : String)
          → In m (stems ".hm" pr.files) ⊎ In m (stems ".stats.json" pr.files)
          → Paired pr m)
      × (is_empty (to_set (stems ".hm" pr.files)) ≡ false)
      × (pr.deleted ≡ [])
unfolding problems_of
no_problems pr manifest h =
    let hms = to_set (stems ".hm" pr.files) in
    let sidecars = to_set (stems ".stats.json" pr.files) in
    let (a, h1) = nil_of_append (flat_map file_problem pr.files) _ h in
    let (b, h2) =
      nil_of_append
        (map not_canonical
          (filter (λ s. not (canonical s == some s)) (sorted_text (to_set (hms ++ sidecars)))))
        _ h1 in
    let (c, h3) = nil_of_append (map unpaired (sorted_text (only_in_one hms sidecars))) _ h2 in
    let (d, h4) = nil_of_append (if is_empty hms then no_tables ∷ [] else []) _ h3 in
    let (e, _) = nil_of_append (map deletes pr.deleted) _ h4 in
    (
      (λ f i. nil_of_flat_map file_problem pr.files f a i),
      (λ m i. Paired-of pr m b (nil_of_map unpaired _ c) i),
      ground (arith, d),
      nil_of_map deletes pr.deleted e,
    )

nil_of_status :
    (problems : List Problem) (linked : Bool)
    → (if not (is_empty problems) then fail else if linked then pass else warn) ≢ fail
    → problems ≡ []
nil_of_status [] linked h = refl
nil_of_status (x ∷ xs) linked h = absurd (h refl)

-- A file that V1 lets pass: it is safe, and it is the table or the sidecar of a class of the
-- universe whose table and sidecar are both in the PR.
abbrev pub Welcome : PullRequest → String → Type 0
Welcome pr f =
    (is_unsafe f ≡ false)
    × ((m : String) × In m universe
        × ((f ≡ m <> ".hm") ⊎ (f ≡ m <> ".stats.json"))
        × In (m <> ".hm") pr.files
        × In (m <> ".stats.json") pr.files)

welcome :
    (pr : PullRequest) (f : String)
    → In f pr.files
    → file_problem f ≡ []
    → ((m : String)
        → In m (stems ".hm" pr.files) ⊎ In m (stems ".stats.json" pr.files)
        → Paired pr m)
    → Welcome pr f
welcome pr f i fine paired =
    let (safe, ends) = no_file_problem f fine in
    (
      safe,
      elim (Bool-cases (ends_with ".hm" f)) [
        | inl t ↦
            let (m, e) = is_some_cases (strip_suffix ".hm" f) t in
            let p = paired m (inl (In-stems_of ".hm" pr.files f m i e)) in
            (
              m,
              (In-universe_iff m).1 p.name,
              inl (strip_suffix_lem ".hm" f m e),
              p.table,
              p.sidecar,
            )
        | inr t ↦
            let (m, e) = is_some_cases (strip_suffix ".stats.json" f) (ground (arith, ends)) in
            let p = paired m (inr (In-stems_of ".stats.json" pr.files f m i e)) in
            (
              m,
              (In-universe_iff m).1 p.name,
              inr (strip_suffix_lem ".stats.json" f m e),
              p.table,
              p.sidecar,
            )
      ],
    )

-- If V1 does not fail on a PR then every file of the PR has a safe name and is the table or the
-- sidecar of a material class of the universe, whose table and sidecar are both in the PR, the PR
-- has a table, and it deletes nothing.
pub check_pr_hygiene_sound :
    (parse_links : Links) (pr : PullRequest) (manifest : Dict String String)
    → (check_pr_hygiene parse_links pr manifest).status ≢ fail
    → ((f : String) → In f pr.files → Welcome pr f)
      × (is_empty (to_set (stems ".hm" pr.files)) ≡ false)
      × (pr.deleted ≡ [])
unfolding check_pr_hygiene
check_pr_hygiene_sound parse_links pr manifest h =
    let (fine, paired, some_table, keeps) =
      no_problems pr manifest
        (nil_of_status (problems_of pr manifest) (is_some (parse_links pr.description).0) h) in
    ((λ f i. welcome pr f i (fine f i) paired), some_table, keeps)
