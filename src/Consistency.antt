-- ===== src/Consistency.antt =====
-- contrib/consistency.py, `check_position`: a stored value is recomputed from its successors'.
pub mod Recurrence
pub mod Best
pub mod Successors
pub mod Exact
pub mod Agreement
use helpmate_tablebase.Base.{
  ◌==◌, if◌then◌else◌, filter, sorted_by, sum_of, ℕ, ◌+◌, min, String, Bool, true, false, not, ◌&&◌,
  Option, none, some, List, [], ◌∷◌, map, string_eq, pair_eq, nat_eq, option_eq, list_eq, bool_eq,
}
use text.Mathlib.Text.{is_lt}
use Prim.Native.String.{compare}
use helpmate_tablebase.Game.{Chess}

-- One entry of `tb.moves(fen)`.
pub record Entry : Type 0 where
  pub uci : String
  pub fen : String
  pub solvable : Bool
  pub dtm : ℕ
  pub count : ℕ

-- What `tb.probe(fen)` does: a triple of distance, count and "colours flipped", `None`, or a
-- `MissingTableError`.
pub data Probe : Type 0 where
  solved : ℕ → ℕ → Bool → Probe
  unsolvable : Probe
  missing_table : Probe

-- The reader of the tables (the C++ extension).
pub record Reader : Type 0 where
  pub moves : String → List Entry
  pub probe : String → Probe

-- The value a table gives a position: (dtm, count), or `None`.
abbrev pub Value : Type 0
Value = Option (ℕ × ℕ)

-- What `check_position` does: return `None` or a message, or raise.
pub data Checked : Type 0 where
  consistent : Checked
  moves_differ : Checked
  listed_unsolvable : String → Checked
  values_differ : Value → Value → Checked
  flipped_only : String → Checked
  no_table : Checked

abbrev pub text_less : String → String → Bool
text_less a b = is_lt (compare a b)

-- `sorted` on texts.
abbrev pub sorted_text : List String → List String
sorted_text = sorted_by text_less

-- The loop that probes every successor. `none` means that it ran to its end.
pub probe_loop : Reader → List Entry → Option Checked
probe_loop tb [] = none
probe_loop tb (m ∷ ms) = elim (tb.probe m.fen) [
  | missing_table ↦ some no_table
  | unsolvable ↦ probe_loop tb ms
  | solved d n true ↦ some (flipped_only m.uci)
  | solved d n false ↦ if m.solvable then probe_loop tb ms else some (listed_unsolvable m.uci)
]

-- min(m["dtm"] for m in solvable), over the entries behind the first
pub min_dtm : ℕ → List Entry → ℕ
min_dtm best [] = best
min_dtm best (m ∷ ms) = min_dtm (min best m.dtm) ms

-- The value that the successors imply, for a position with legal moves.
pub implied : List Entry → Value
implied [] = none
implied (m ∷ ms) =
    let best = min_dtm m.dtm ms in
    some (best + 1, min 255 (sum_of (λ x. x.count) (filter (λ x. x.dtm == best) (m ∷ ms))))

-- The comparison at the end: `probe(fen)` against the wanted value.
pub compare_value : Probe → Value → Checked
compare_value missing_table want = no_table
compare_value unsolvable want = if none == want then consistent else values_differ none want
compare_value (solved d n f) want =
    if some (d, n) == want then consistent else values_differ (some (d, n)) want

-- The rest of `check_position` behind the comparison of the move lists, by the sorted legal moves:
-- `want` is the value of a position that has none.
pub judge : Reader → String → Value → List String → Checked
judge tb fen want [] = compare_value (tb.probe fen) want
judge tb fen want (u ∷ us) = elim (probe_loop tb (tb.moves fen)) [
  | some raised ↦ raised
  | none ↦ compare_value (tb.probe fen) (implied (filter (λ m. m.solvable) (tb.moves fen)))
]

module _ (C : Chess) (tb : Reader) where
  open C use {Board, from_fen, black_to_move, is_check, legal_moves}

  -- The wanted value of a position without legal moves.
  abbrev pub terminal : Board → Value
  terminal b = if black_to_move b && is_check b then some (0, 1) else none

  -- `check_position`
  unfoldable pub check_position : String → Checked
  unfolding judge probe_loop implied compare_value min_dtm sorted_by
  check_position fen =
      let board = from_fen fen in
      let legal = sorted_text (legal_moves board) in
      if not (sorted_text (map (λ m. m.uci) (tb.moves fen)) == legal)
      then moves_differ
      else judge tb fen (terminal board) legal
