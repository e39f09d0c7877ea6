-- ===== src/Verify/Deepest.antt =====
-- contrib/checks.py, check_deepest (V5): the sidecar's deepest positions, probed through the C++
-- reader, which is the argument `probe`.
pub mod Probes
use helpmate_tablebase.Base.{
  ltb, ◌==◌, if◌then◌else◌, contains, Dict, ℕ, String, Bool, not, ◌&&◌, ◌||◌, Option, none, some,
  List, [], ◌∷◌, ◌++◌, string_eq, pair_eq, nat_eq, option_eq, list_eq, bool_eq,
}
use helpmate_tablebase.Verify.{CheckStatus, pass, fail, skip}

-- What `tb.probe` does: it raises, returns None, or a distance and a number of solutions.
pub data Probed : Type 0 where
  reader_error no_value : Probed
  value : ℕ → ℕ → Probed

-- The counts of one distance in the sidecar's "uniqueness": the distance, if int() reads the key,
-- and the keys below it.
abbrev pub DepthCounts : Type 0
DepthCounts = Option ℕ × List String

-- What is read of the sidecar; "max_dtm" and "uniqueness" may be missing.
pub record DeepestSidecar : Type 0 where
  pub recorded : Option ℕ
  pub deepest : List String
  pub deepest_unique : List String
  pub uniqueness : Option (Dict String (List DepthCounts))

pub data DeepestProblem : Type 0 where
  bad_deepest bad_unique : String → DeepestProblem
  deeper_unique : String → ℕ → DeepestProblem

-- DTM_UNSOLVABLE
abbrev pub dtm_unsolvable : ℕ
dtm_unsolvable = 255

-- The problems of two parts, with `none` for an exception in either.
unfoldable pub both :
    Option (List DeepestProblem) → Option (List DeepestProblem) → Option (List DeepestProblem)
both none b = none
both (some ps) none = none
both (some ps) (some qs) = some (ps ++ qs)

-- One round of the first loop; `none` stands for an exception.
unfoldable pub deepest_found : String → ℕ → Probed → Option (List DeepestProblem)
deepest_found fen m reader_error = none
deepest_found fen m no_value = some (bad_deepest fen ∷ [])
deepest_found fen m (value d n) = some (if d == m then [] else bad_deepest fen ∷ [])

-- The first loop. A missing "max_dtm" is a KeyError in its first round.
unfoldable pub deepest_problems :
    (String → Probed) → Option ℕ → List String → Option (List DeepestProblem)
unfolding both deepest_found
deepest_problems probe recorded [] = some []
deepest_problems probe none (fen ∷ fens) = none
deepest_problems probe (some m) (fen ∷ fens) =
    both (deepest_found fen m (probe fen)) (deepest_problems probe (some m) fens)

-- p[1] != 1 or (depth is not None and p[0] != depth)
abbrev pub differs : Option ℕ → ℕ → ℕ → Bool
differs none d n = not (n == 1)
differs (some depth) d n = not (n == 1) || not (d == depth)

-- if depth is None: depth = p[0]
abbrev pub first_depth : Option ℕ → ℕ → Option ℕ
first_depth none d = some d
first_depth (some depth) d = some depth

-- One round of the second loop, with the depth found so far.
unfoldable pub unique_found : String → Option ℕ → Probed → Option (List DeepestProblem × Option ℕ)
unique_found fen depth reader_error = none
unique_found fen depth no_value = some (bad_unique fen ∷ [], depth)
unique_found fen depth (value d n) =
    if differs depth d n then some (bad_unique fen ∷ [], depth) else some ([], first_depth depth d)

-- The second loop; its problems, and the depth at its end.
unfoldable pub unique_problems :
    (String → Probed) → Option ℕ → List String → Option (List DeepestProblem × Option ℕ)
unfolding unique_found
unique_problems probe depth [] = some ([], depth)
unique_problems probe depth (fen ∷ fens) = elim (unique_found fen depth (probe fen)) [
  | none ↦ none
  | some (ps, depth') ↦ elim (unique_problems probe depth' fens) [
    | none ↦ none
    | some (qs, end) ↦ some (ps ++ qs, end)
  ]
]

-- One round of the loop over the distances of one side.
unfoldable pub side_found : ℕ → String → ℕ → List String → List DeepestProblem
side_found depth stm d counts =
    if ltb depth d && contains counts "1" then deeper_unique stm d ∷ [] else []

-- The loop over the distances of one side.
unfoldable pub side_problems : ℕ → String → List DepthCounts → Option (List DeepestProblem)
unfolding both side_found
side_problems depth stm [] = some []
side_problems depth stm ((none, counts) ∷ rest) = none
side_problems depth stm ((some d, counts) ∷ rest) =
    both (some (side_found depth stm d counts)) (side_problems depth stm rest)

-- The loop over the sides.
unfoldable pub count_problems : ℕ → Dict String (List DepthCounts) → Option (List DeepestProblem)
unfolding side_problems both
count_problems depth [] = some []
count_problems depth ((stm, by_depth) ∷ sides) =
    both (side_problems depth stm by_depth) (count_problems depth sides)

-- if depth is not None: ... sc["uniqueness"] ...
unfoldable pub deeper_problems :
    Option ℕ → Option (Dict String (List DepthCounts)) → Option (List DeepestProblem)
unfolding count_problems
deeper_problems none uniqueness = some []
deeper_problems (some depth) none = none
deeper_problems (some depth) (some sides) = count_problems depth sides

-- The second loop and what follows from the depth that it found.
unfoldable pub unique_part : (String → Probed) → DeepestSidecar → Option (List DeepestProblem)
unfolding unique_problems deeper_problems both
unique_part probe sc = elim (unique_problems probe none sc.deepest_unique) [
  | none ↦ none
  | some (qs, depth) ↦ both (some qs) (deeper_problems depth sc.uniqueness)
]

-- The problems of all loops.
unfoldable pub all_problems : (String → Probed) → DeepestSidecar → Option (List DeepestProblem)
unfolding deepest_problems unique_part both
all_problems probe sc = both (deepest_problems probe sc.recorded sc.deepest) (unique_part probe sc)

-- fail for an exception or a problem
unfoldable pub deepest_verdict : Option (List DeepestProblem) → CheckStatus
deepest_verdict none = fail
deepest_verdict (some []) = pass
deepest_verdict (some (p ∷ ps)) = fail

-- `check_deepest`, of the sidecar if it can be read
unfoldable pub check_deepest : (String → Probed) → Option DeepestSidecar → CheckStatus
unfolding all_problems deepest_verdict
check_deepest probe none = fail
check_deepest probe (some sc) =
    if sc.recorded == some dtm_unsolvable then skip else deepest_verdict (all_problems probe sc)
