-- ===== src/Consistency/Recurrence.antt =====
-- A position that `check_position` passes, by its two cases.
use helpmate_tablebase.Base.{
  option_beq_iff, ◌==◌, eq_of_beq, Bool-cases, Option-cases, In, filter, ℕ, String, ◌≡◌, refl, ap,
  ◌∙◌, ◌≢◌, ◌⊎◌, inl, inr, Bool, true, false, none, some, List, [], ◌∷◌, map, arith, string_eq,
  pair_eq, nat_eq, option_eq, list_eq, bool_eq,
}
use helpmate_tablebase.Game.{Chess}
use helpmate_tablebase.Consistency.{
  Entry, Probe, solved, unsolvable, missing_table, Reader, Value, consistent, sorted_text,
  probe_loop, implied, compare_value, judge, terminal, check_position,
}

-- A probe that stores a value.
abbrev pub Stores : Probe → Value → Type 0
Stores (solved d n f) want = some (d, n) ≡ want
Stores unsolvable want = none ≡ want
Stores missing_table want = ⊥

compare_value-Stores :
    (p : Probe) (want : Value) → compare_value p want ≡ consistent → Stores p want
unfolding compare_value
compare_value-Stores (solved d n f) want h = ground (arith, option_beq_iff (some (d, n)) want)
compare_value-Stores unsolvable want h = ground (arith, option_beq_iff {A = ℕ × ℕ} none want)
compare_value-Stores missing_table want h = cc

-- A successor that is listed as it is stored.
abbrev pub Listed : Reader → Entry → Type 0
Listed tb e =
    ((e.solvable ≡ true) × (tb.probe e.fen ≡ solved e.dtm e.count false))
    ⊎ ((e.solvable ≡ false) × (tb.probe e.fen ≡ unsolvable))

-- The reader lists a solvable successor with the value that it stores for it.
abbrev pub Reports : Reader → Entry → Type 0
Reports tb e = e.solvable ≡ true → (f : Bool) × (tb.probe e.fen ≡ solved e.dtm e.count f)

pub probe_loop-Listed :
    (tb : Reader) (ms : List Entry)
    → ((e : Entry) → In e ms → Reports tb e)
    → probe_loop tb ms ≡ none
    → (e : Entry) → In e ms
    → Listed tb e
unfolding probe_loop
probe_loop-Listed tb [] reports h e m = elim m [ ]
probe_loop-Listed tb (x ∷ ms) reports h e (inr m) =
    probe_loop-Listed tb ms (λ y k. reports y (inr k)) (ground arith) e m
probe_loop-Listed tb (x ∷ ms) reports h e (inl q) = elim (Bool-cases x.solvable) [
  | inl s ↦ let (f, r) = reports x (inl refl) s in ground arith
  | inr s ↦ ground arith
]

-- The two ways in which a position with the legal moves `legal` passes.
abbrev pub Passed : Reader → String → Value → List String → Type 0
Passed tb fen want [] = Stores (tb.probe fen) want
Passed tb fen want (u ∷ us) =
    (probe_loop tb (tb.moves fen) ≡ none)
    × Stores (tb.probe fen) (implied (filter (λ m. m.solvable) (tb.moves fen)))

-- A successor that raises does not pass.
probe_loop-ne-consistent : (tb : Reader) (ms : List Entry) → probe_loop tb ms ≢ some consistent
unfolding probe_loop
probe_loop-ne-consistent tb [] = λ h. cc
probe_loop-ne-consistent tb (m ∷ ms) = λ h. ground (arith, probe_loop-ne-consistent tb ms)

judge-Passed :
    (tb : Reader) (fen : String) (want : Value) (legal : List String)
    → judge tb fen want legal ≡ consistent
    → Passed tb fen want legal
unfolding judge
judge-Passed tb fen want [] h = compare_value-Stores _ _ h
judge-Passed tb fen want (u ∷ us) h = elim (Option-cases (probe_loop tb (tb.moves fen))) [
  | inl e ↦ (e, compare_value-Stores _ _ (rw (e, judge) at h))
  | inr (r, e) ↦
      absurd (probe_loop-ne-consistent tb (tb.moves fen) (e ∙ ap some (rw (e, judge) at h)))
]

module _ (C : Chess) (tb : Reader) where
  open C use {from_fen, legal_moves}

  -- A position that passes lists the legal moves, and its value is the one that they imply.
  pub check_position-Passed :
      (fen : String)
      → check_position C tb fen ≡ consistent
      → (sorted_text (map (λ m. m.uci) (tb.moves fen)) ≡ sorted_text (legal_moves (from_fen fen)))
        × Passed tb fen (terminal C tb (from_fen fen)) (sorted_text (legal_moves (from_fen fen)))
  unfolding check_position
  check_position-Passed fen h =
      elim (Bool-cases (
        sorted_text (map (λ m. m.uci) (tb.moves fen))
        == sorted_text (legal_moves (from_fen fen)))) [
          | inl e ↦ (eq_of_beq _ _ e, judge-Passed tb fen _ _ (rw e at h))
          | inr e ↦ absurd (ground arith)
        ]
