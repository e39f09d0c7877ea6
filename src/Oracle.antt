-- ===== src/Oracle.antt =====
-- contrib/oracle.py: the independent solver, a depth-first count of mating lines with a cap.
pub mod Exact
use helpmate_tablebase.Base.{
  ltb, leb, ◌==◌, if◌then◌else◌, ℕ, zero, suc, ◌+◌, ◌%◌, min, String, not, ◌&&◌, Option, none, some,
  List, [], ◌∷◌, string_eq, pair_eq, nat_eq, option_eq, list_eq, bool_eq,
}
use helpmate_tablebase.Game.{Chess, is_checkmate}

-- `CAP`
abbrev pub cap : ℕ
cap = 255

module _ (C : Chess) where
  open C use {Board, from_fen, black_to_move, legal_moves, push}

  -- The `for` loop of `_lines`, over the moves left; `deeper` is the recursive call. It returns
  -- as soon as the total reaches the cap.
  lines_loop : (Board → ℕ) → Board → ℕ → List String → ℕ
  lines_loop deeper b total [] = total
  lines_loop deeper b total (mv ∷ moves) =
      let total' = total + deeper (push b mv) in
      let rest = lines_loop deeper b total' moves in if leb cap total' then cap else rest

  -- `_lines`
  unfoldable pub lines : Board → ℕ → ℕ
  unfolding lines_loop
  lines b zero = if black_to_move b && is_checkmate C b then 1 else 0
  lines b (suc depth) = lines_loop (λ b'. lines b' depth) b 0 (legal_moves b)

  -- The loop `for d in range(max_plies + 1)` with `n` rounds left. A depth of the wrong parity
  -- is passed over.
  solve_loop : Board → ℕ → ℕ → Option (ℕ × ℕ)
  solve_loop b zero d = none
  solve_loop b (suc n) d =
      let rest = solve_loop b n (d + 1) in
      if not (black_to_move b == (d % 2 == 0))
      then rest
      else let k = lines b d in if k == 0 then rest else some (d, min k cap)

  -- `solve`
  unfoldable pub solve : String → ℕ → Option (ℕ × ℕ)
  unfolding solve_loop lines
  solve fen max_plies = solve_loop (from_fen fen) (max_plies + 1) 0

-- What the reader's `probe` gives the comparison of `check_oracle`; a value deeper than the bound
-- counts as no value there.
unfoldable pub table_value : ℕ → Option (ℕ × ℕ) → Option (ℕ × ℕ)
table_value max_plies none = none
table_value max_plies (some (d, n)) = if ltb max_plies d then none else some (d, n)

-- The `for fen in chosen` loop of `check_oracle`: the positions on which table and solver
-- disagree.
module _ (C : Chess) (probe : String → Option (ℕ × ℕ)) (max_plies : ℕ) where
  unfoldable pub disagreements : List String → List String
  unfolding table_value solve
  disagreements [] = []
  disagreements (fen ∷ chosen) =
      let rest = disagreements chosen in
      if table_value max_plies (probe fen) == solve C fen max_plies then rest else fen ∷ rest
