-- ===== src/Game.antt =====
-- What the verification code takes from python-chess: a board, its legal moves and the turn.
-- A move stands for its UCI text, by which python-chess tells the moves of one board apart.
use helpmate_tablebase.Base.{
  is_empty, if◌then◌else◌, sum_of, ℕ, zero, suc, ◌+◌, String, ◌≡◌, Bool, not, ◌&&◌, List, string_eq,
  pair_eq, nat_eq, option_eq, list_eq, bool_eq,
}

pub record Chess : Type 1 where
  pub Board : Type 0
  pub from_fen : String → Board
  pub black_to_move : Board → Bool
  pub is_check : Board → Bool
  pub legal_moves : Board → List String
  pub push : Board → String → Board

module _ (C : Chess) where
  open C use {Board, black_to_move, is_check, legal_moves, push}

  -- `Board.is_checkmate`: in check with no legal move.
  abbrev pub is_checkmate : Board → Bool
  is_checkmate b = is_check b && is_empty (legal_moves b)

  -- A move passes the turn.
  abbrev pub Alternates : Type 0
  Alternates = (b : Board) (m : String) → black_to_move (push b m) ≡ not (black_to_move b)

  -- The helpmate lines of exactly `d` plies that end with Black checkmated, counted with no cap.
  unfoldable pub count_lines : Board → ℕ → ℕ
  count_lines b zero = if black_to_move b && is_checkmate b then 1 else 0
  count_lines b (suc d) = sum_of (λ m. count_lines (push b m) d) (legal_moves b)

  -- The lines of fewer than `d` plies.
  unfoldable pub count_below : Board → ℕ → ℕ
  count_below b zero = 0
  count_below b (suc d) = count_below b d + count_lines b d
