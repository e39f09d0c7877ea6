-- ===== src/Oracle/Exact.antt =====
-- The capped search and `solve` beside the count of mating lines with no cap.
use helpmate_tablebase.Base.{
  ◌==◌, Bool-cases, sum_of, ℕ, zero, suc, ◌+◌, ◌%◌, ◌≤◌, ◌<◌, min, String, ◌≡◌, refl, ◌≢◌, inl, inr,
  false, Option, none, some, List, [], ◌∷◌, arith, sum_of_zero, string_eq, nat_eq, option_eq,
  list_eq, bool_eq,
}
use native.Mathlib.Decide.{ℕ_discrete}
use helpmate_tablebase.Game.{count_below, Chess, count_lines, Alternates}
use helpmate_tablebase.Oracle.{cap, lines_loop, lines, solve_loop, solve}

module _ (C : Chess) where
  open C use {Board, from_fen, black_to_move, legal_moves, push}

  -- A loop whose deeper counts are capped computes the capped sum.
  lines_loop_lem :
      (deeper exact : Board → ℕ) (b : Board) (total : ℕ) (moves : List String)
      → ((b' : Board) → deeper b' ≡ min cap (exact b'))
      → total ≤ cap
      → lines_loop C deeper b total moves ≡ min cap (total + sum_of (λ m. exact (push b m)) moves)
  unfolding lines_loop
  lines_loop_lem deeper exact b total [] h t = omega arith
  lines_loop_lem deeper exact b total (mv ∷ moves) h t =
      ground
        (arith, h (push b mv), lines_loop_lem deeper exact b (total + deeper (push b mv)) moves h)

  -- The search from a board at a depth returns the number of mating lines of that length,
  -- saturated at 255.
  pub lines-eq-min : (b : Board) (d : ℕ) → lines C b d ≡ min cap (count_lines C b d)
  unfolding lines count_lines
  lines-eq-min b zero = ground arith
  lines-eq-min b (suc d) =
      let loop =
        lines_loop_lem (λ b'. lines C b' d) (λ b'. count_lines C b' d) b 0 (legal_moves b)
          (λ b'. lines-eq-min b' d) (omega arith) in
      omega (arith, loop)

  -- The side to move at a mating line's start fixes the parity of its length.
  parity :
      Alternates C
      → (d : ℕ) (b : Board) → (black_to_move b == (d % 2 == 0)) ≡ false
      → count_lines C b d ≡ 0
  unfolding count_lines
  parity alt zero b h = ground arith
  parity alt (suc d) b h =
      sum_of_zero (λ m. count_lines C (push b m) d) (legal_moves b)
        (λ m _. parity alt d (push b m) (ground (arith, alt b m)))

  -- What `solve` returns: the shortest distance within the bound with its saturated number of
  -- lines, or that no depth within the bound has a line.
  abbrev Found : Board → ℕ → ℕ → Option (ℕ × ℕ) → Type 0
  Found b lo hi none = (d : ℕ) → lo ≤ d → d < hi → count_lines C b d ≡ 0
  Found b lo hi (some (d, n)) =
      (d < hi)
      × (n ≡ min cap (count_lines C b d))
      × (n ≢ 0)
      × ((d' : ℕ) → lo ≤ d' → d' < d → count_lines C b d' ≡ 0)

  Found-skip :
      (b : Board) (lo hi : ℕ) (r : Option (ℕ × ℕ))
      → count_lines C b lo ≡ 0
      → Found b (lo + 1) hi r
      → Found b lo hi r
  Found-skip b lo hi none z a =
      λ d l h. elim (ℕ_discrete d lo) [ yes e ↦ rw e z | no n ↦ a d (omega arith) h ]
  Found-skip b lo hi (some (d, n)) z (h, e, p, a) =
      (h, e, p, λ d' l g. elim (ℕ_discrete d' lo) [ yes e ↦ rw e z | no n ↦ a d' (omega arith) g ])

  solve_loop_lem :
      Alternates C → (b : Board) (n d hi : ℕ) → d + n ≡ hi → Found b d hi (solve_loop C b n d)
  unfolding solve_loop
  solve_loop_lem alt b zero d hi e = λ d' l h. absurd (omega arith)
  solve_loop_lem alt b (suc n) d hi e = elim (Bool-cases (black_to_move b == (d % 2 == 0))) [
    | inl even ↦ elim (Bool-cases (lines C b d == 0)) [
      | inl z ↦
          rw (even, z)
            (Found-skip b d hi _ (ground (arith, lines-eq-min b d))
              (solve_loop_lem alt b n (d + 1) hi (omega arith)))
      | inr p ↦
          rw (even, p)
            (
              omega arith,
              ground (arith, lines-eq-min b d),
              ground (arith, lines-eq-min b d),
              λ d' l h. absurd (omega arith),
            )
    ]
    | inr odd ↦
        rw odd (
          Found-skip b d hi _ (parity alt d b odd)
            (solve_loop_lem alt b n (d + 1) hi (omega arith)))
  ]

  count_below_zero :
      (b : Board) (d : ℕ) → ((d' : ℕ) → d' < d → count_lines C b d' ≡ 0) → count_below C b d ≡ 0
  unfolding count_below
  count_below_zero b zero h = refl
  count_below_zero b (suc d) h =
      let rest = count_below_zero b d (λ d' l. h d' (omega arith)) in
      let here = h d (omega arith) in omega (arith, rest, here)

  -- The answer of a search bounded by `hi`: a distance with its saturated number of lines and no
  -- shorter line, or no line below the bound.
  abbrev pub Answers : Board → ℕ → Option (ℕ × ℕ) → Type 0
  Answers b hi none = count_below C b hi ≡ 0
  Answers b hi (some (d, n)) =
      (d < hi) × (n ≡ min cap (count_lines C b d)) × (n ≢ 0) × (count_below C b d ≡ 0)

  Found→Answers : (b : Board) (hi : ℕ) (r : Option (ℕ × ℕ)) → Found b 0 hi r → Answers b hi r
  Found→Answers b hi none f = count_below_zero b hi (λ d l. f d (omega arith) l)
  Found→Answers b hi (some (d, n)) (h, e, p, f) =
      (h, e, p, count_below_zero b d (λ d' l. f d' (omega arith) l))

  -- Where a move passes the turn, `solve` answers for every position and bound: if some mating
  -- line has at most `max_plies` plies it returns the length of the shortest and the number of
  -- lines of that length, saturated at 255, and otherwise it returns `none`.
  pub solve_lem :
      Alternates C
      → (fen : String) (max_plies : ℕ)
      → Answers (from_fen fen) (max_plies + 1) (solve C fen max_plies)
  unfolding solve
  solve_lem alt fen max_plies =
      Found→Answers (from_fen fen) (max_plies + 1) _
        (solve_loop_lem alt (from_fen fen) (max_plies + 1) 0 (max_plies + 1) (omega arith))
