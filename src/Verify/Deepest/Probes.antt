-- ===== src/Verify/Deepest/Probes.antt =====
-- contrib/checks.py, V5: what the probes of a table that passes it are.
use helpmate_tablebase.Base.{
  ltb, ◌==◌, Bool-cases, Option-cases, In, contains, Dict, ℕ, ◌≤◌, String, ◌≡◌, refl, sym, ap, ◌∙◌,
  subst, ◌⊎◌, inl, inr, true, Option, none, some, List, [], ◌∷◌, ◌++◌, arith, string_eq, pair_eq,
  nat_eq, option_eq, list_eq, bool_eq,
}
use helpmate_tablebase.Verify.Deepest.{
  Probed, reader_error, no_value, value, DepthCounts, DeepestSidecar, DeepestProblem,
  dtm_unsolvable, both, deepest_found, deepest_problems, unique_found, unique_problems, side_found,
  side_problems, count_problems, deeper_problems, unique_part, all_problems, deepest_verdict,
  check_deepest,
}
use helpmate_tablebase.Verify.Hygiene.Stems.{nil_of_append}
use helpmate_tablebase.Verify.{pass}

both-nil : (a b : Option (List DeepestProblem)) → both a b ≡ some [] → (a ≡ some []) × (b ≡ some [])
unfolding both
both-nil none b e = absurd (cc)
both-nil (some ps) none e = absurd (cc)
both-nil (some ps) (some qs) e = let (p, q) = nil_of_append ps qs (cc e) in (ap some p, ap some q)

deepest_found-nil :
    (fen : String) (m : ℕ) (p : Probed)
    → deepest_found fen m p ≡ some []
    → (n : ℕ) × (p ≡ value m n)
unfolding deepest_found
deepest_found-nil fen m reader_error e = absurd (cc)
deepest_found-nil fen m no_value e = absurd (cc)
deepest_found-nil fen m (value d n) e = (n, ground (arith, e))

deepest_problems-nil :
    (probe : String → Probed) (recorded : Option ℕ) (fens : List String) (fen : String)
    → deepest_problems probe recorded fens ≡ some []
    → In fen fens
    → (m : ℕ) × (n : ℕ) × (recorded ≡ some m) × (probe fen ≡ value m n)
unfolding deepest_problems
deepest_problems-nil probe recorded [] fen e i = absurd i
deepest_problems-nil probe none (f ∷ fens) fen e i = absurd (cc)
deepest_problems-nil probe (some m) (f ∷ fens) fen e (inl same) =
    let (n, p) =
      deepest_found-nil f m (probe f)
        (both-nil (deepest_found f m (probe f)) (deepest_problems probe (some m) fens) e).0 in
    (m, n, refl, ap probe same ∙ p)
deepest_problems-nil probe (some m) (f ∷ fens) fen e (inr i) =
    deepest_problems-nil probe (some m) fens fen
      (both-nil (deepest_found f m (probe f)) (deepest_problems probe (some m) fens) e).1 i

-- A round without a problem has one solution, at the depth of the rounds before it.
unique_found-nil :
    (fen : String) (depth depth' : Option ℕ) (p : Probed)
    → unique_found fen depth p ≡ some ([], depth')
    → (d : ℕ) × (p ≡ value d 1) × (depth' ≡ some d) × ((depth ≡ none) ⊎ (depth ≡ some d))
unfolding unique_found
unique_found-nil fen depth depth' reader_error e = absurd (cc)
unique_found-nil fen depth depth' no_value e = absurd (cc)
unique_found-nil fen none depth' (value d n) e = (d, ground (arith, e), ground (arith, e), inl refl)
unique_found-nil fen (some k) depth' (value d n) e =
    (d, ground (arith, e), ground (arith, e), inr (ground (arith, e)))

unique_problems-split :
    (probe : String → Probed) (depth : Option ℕ) (f : String) (fens : List String) (end : Option ℕ)
    → unique_problems probe depth (f ∷ fens) ≡ some ([], end)
    → (depth' : Option ℕ) × (unique_found f depth (probe f) ≡ some ([], depth'))
      × (unique_problems probe depth' fens ≡ some ([], end))
unfolding unique_problems
unique_problems-split probe depth f fens end e =
    elim (Option-cases (unique_found f depth (probe f))) [
      | inl z ↦ absurd (cc (rw (z, unique_problems) at e))
      | inr ((ps, depth'), z) ↦ elim (Option-cases (unique_problems probe depth' fens)) [
        | inl y ↦ absurd (cc (rw y at (rw (z, unique_problems) at e)))
        | inr ((qs, last), y) ↦
            let joined : some (ps ++ qs, last) ≡ some ([], end) =
              rw y at (rw (z, unique_problems) at e) in
            let (p, q) = nil_of_append ps qs (cc joined) in
            (depth', z ∙ ap (λ l. some (l, depth')) p, y ∙ cc (q, joined))
      ]
    ]

unique_problems-depth :
    (probe : String → Probed) (d : ℕ) (fens : List String) (end : Option ℕ)
    → unique_problems probe (some d) fens ≡ some ([], end)
    → end ≡ some d
unfolding unique_problems
unique_problems-depth probe d [] end e = cc
unique_problems-depth probe d (f ∷ fens) end e =
    let (depth', found, rest) = unique_problems-split probe (some d) f fens end e in
    let (k, _, at, before) = unique_found-nil f (some d) depth' (probe f) found in
    unique_problems-depth probe d fens end
      (subst (λ o. unique_problems probe o fens ≡ some ([], end)) (kept d k before at) rest)
  where
    kept :
        {o : Option ℕ} (d k : ℕ)
        → (◌≡◌ {A = Option ℕ} (some d) none) ⊎ (◌≡◌ {A = Option ℕ} (some d) (some k))
        → o ≡ some k
        → o ≡ some d
    kept d k (inl h) at = absurd (cc)
    kept d k (inr h) at = at ∙ sym h

unique_problems-nil :
    (probe : String → Probed) (depth : Option ℕ) (fens : List String) (end : Option ℕ)
    (fen : String)
    → unique_problems probe depth fens ≡ some ([], end)
    → In fen fens
    → (d : ℕ) × (end ≡ some d) × (probe fen ≡ value d 1)
unique_problems-nil probe depth [] end fen e i = absurd i
unique_problems-nil probe depth (f ∷ fens) end fen e (inl same) =
    let (depth', found, rest) = unique_problems-split probe depth f fens end e in
    let (d, p, at, _) = unique_found-nil f depth depth' (probe f) found in
    (
      d,
      unique_problems-depth probe d fens end
          (subst (λ o. unique_problems probe o fens ≡ some ([], end)) at rest),
      ap probe same ∙ p,
    )
unique_problems-nil probe depth (f ∷ fens) end fen e (inr i) =
    let (depth', found, rest) = unique_problems-split probe depth f fens end e in
    unique_problems-nil probe depth' fens end fen rest i

side_found-nil :
    (depth : ℕ) (stm : String) (d : ℕ) (counts : List String)
    → side_found depth stm d counts ≡ []
    → contains counts "1" ≡ true
    → d ≤ depth
unfolding side_found
side_found-nil depth stm d counts e c = elim (Bool-cases (ltb depth d)) [
  | inl t ↦ absurd (cc (rw c at (rw t at e)))
  | inr t ↦ ground (arith, t)
]

side_problems-nil :
    (depth : ℕ) (stm : String) (by_depth : List DepthCounts) (d : ℕ) (counts : List String)
    → side_problems depth stm by_depth ≡ some []
    → In (some d, counts) by_depth
    → contains counts "1" ≡ true
    → d ≤ depth
unfolding side_problems
side_problems-nil depth stm [] d counts e i c = absurd i
side_problems-nil depth stm ((none, cs) ∷ rest) d counts e i c = absurd (cc)
side_problems-nil depth stm ((some k, cs) ∷ rest) d counts e (inl same) c =
    let (here, _) = both-nil (some (side_found depth stm k cs)) (side_problems depth stm rest) e in
    let key : k ≡ d = cc in
    let names : cs ≡ counts = cc in
    side_found-nil depth stm d counts
      (subst (λ q. side_found depth stm q counts ≡ []) key
        (subst (λ q. side_found depth stm k q ≡ []) names (cc here)))
      c
side_problems-nil depth stm ((some k, cs) ∷ rest) d counts e (inr i) c =
    side_problems-nil depth stm rest d counts
      (both-nil (some (side_found depth stm k cs)) (side_problems depth stm rest) e).1 i c

count_problems-nil :
    (depth : ℕ) (sides : Dict String (List DepthCounts)) (stm : String)
    → (by_depth : List DepthCounts) (d : ℕ) (counts : List String)
    → count_problems depth sides ≡ some []
    → In (stm, by_depth) sides
    → In (some d, counts) by_depth
    → contains counts "1" ≡ true
    → d ≤ depth
unfolding count_problems
count_problems-nil depth [] stm by_depth d counts e i j c = absurd i
count_problems-nil depth ((s, l) ∷ sides) stm by_depth d counts e (inl same) j c =
    side_problems-nil depth s l d counts
      (both-nil (side_problems depth s l) (count_problems depth sides) e).0
      (subst (λ (q : String × List DepthCounts). In (some d, counts) q.1) same j) c
count_problems-nil depth ((s, l) ∷ sides) stm by_depth d counts e (inr i) j c =
    count_problems-nil depth sides stm by_depth d counts
      (both-nil (side_problems depth s l) (count_problems depth sides) e).1 i j c

check_deepest-inv :
    (probe : String → Probed) (sc : DeepestSidecar)
    → check_deepest probe (some sc) ≡ pass
    → all_problems probe sc ≡ some []
unfolding check_deepest
check_deepest-inv probe sc p = elim (Bool-cases (sc.recorded == some dtm_unsolvable)) [
  | inl t ↦ absurd (cc (rw t at p))
  | inr t ↦ no_problem (all_problems probe sc) (rw t at p)
]
  where
    no_problem : (o : Option (List DeepestProblem)) → deepest_verdict o ≡ pass → o ≡ some []
    no_problem none h = absurd (cc)
    no_problem (some []) h = refl
    no_problem (some (q ∷ qs)) h = absurd (cc)

unique_part-inv :
    (probe : String → Probed) (sc : DeepestSidecar)
    → unique_part probe sc ≡ some []
    → (end : Option ℕ) × (unique_problems probe none sc.deepest_unique ≡ some ([], end))
      × (deeper_problems end sc.uniqueness ≡ some [])
unfolding unique_part
unique_part-inv probe sc e = elim (Option-cases (unique_problems probe none sc.deepest_unique)) [
  | inl z ↦ absurd (cc (rw (z, unique_part) at e))
  | inr ((qs, end), z) ↦
      let (q, rest) =
        both-nil (some qs) (deeper_problems end sc.uniqueness) (rw (z, unique_part) at e) in
      let empty : qs ≡ [] = cc q in (end, z ∙ ap (λ l. some (l, end)) empty, rest)
]

-- In a table that passes V5, each position that the sidecar calls deepest is stored at the distance
-- that it gives as the greatest.
check_deepest-deepest :
    (probe : String → Probed) (sc : DeepestSidecar) (fen : String)
    → check_deepest probe (some sc) ≡ pass
    → In fen sc.deepest
    → (m : ℕ) × (n : ℕ) × (sc.recorded ≡ some m) × (probe fen ≡ value m n)
unfolding all_problems
check_deepest-deepest probe sc fen p i =
    deepest_problems-nil probe sc.recorded sc.deepest fen
      (both-nil (deepest_problems probe sc.recorded sc.deepest) (unique_part probe sc)
        (check_deepest-inv probe sc p)).0
      i

-- In a table that passes V5, each position that the sidecar calls deepest among those with one
-- solution is stored with one solution, at a distance that is no less than any at which the
-- sidecar counts positions with one solution.
pub check_deepest_unique :
    (probe : String → Probed) (sc : DeepestSidecar) (fen : String)
    → (sides : Dict String (List DepthCounts)) (stm : String)
    → (by_depth : List DepthCounts) (k : ℕ) (counts : List String)
    → check_deepest probe (some sc) ≡ pass
    → In fen sc.deepest_unique
    → sc.uniqueness ≡ some sides
    → In (stm, by_depth) sides
    → In (some k, counts) by_depth
    → contains counts "1" ≡ true
    → (d : ℕ) × (probe fen ≡ value d 1) × (k ≤ d)
unfolding all_problems deeper_problems
check_deepest_unique probe sc fen sides stm by_depth k counts p i u j l c =
    let (end, unique, deeper) =
      unique_part-inv probe sc
        (both-nil (deepest_problems probe sc.recorded sc.deepest) (unique_part probe sc)
          (check_deepest-inv probe sc p)).1 in
    let (d, at, stored) = unique_problems-nil probe none sc.deepest_unique end fen unique i in
    (d, stored, count_problems-nil d sides stm by_depth k counts (rw u at (rw at at deeper)) j l c)
