-- ===== src/Consistency/Agreement.antt =====
-- V6 and V7 on one table.
use native.Mathlib.Decide.{ℕ_discrete}
use mathlib.Core.Path.{ap₂}
use helpmate_tablebase.Base.{
  ltb, beq_refl, Bool-cases, In, ℕ, zero, suc, ◌+◌, ◌≤◌, min, String, ◌≡◌, refl, sym, ap, ◌∙◌, ◌≢◌,
  inl, inr, Option, none, some, List, [], ◌∷◌, arith, string_eq, pair_eq, nat_eq, option_eq,
  list_eq, bool_eq,
}
use helpmate_tablebase.Game.{Chess, Alternates, count_lines, count_below}
use helpmate_tablebase.Oracle.{solve, table_value, disagreements}
use helpmate_tablebase.Oracle.Exact.{Answers, solve_lem}
use helpmate_tablebase.Consistency.{
  Entry, Probe, solved, unsolvable, missing_table, Reader, consistent, check_position,
}
use helpmate_tablebase.Consistency.Successors.{IsReader, IsExact}
use helpmate_tablebase.Consistency.Exact.{probe-IsExact}

-- `probe` as `check_oracle` reads it.
abbrev pub value_of : Probe → Option (ℕ × ℕ)
value_of (solved d n f) = some (d, n)
value_of unsolvable = none
value_of missing_table = none

-- No line among fewer than `k` plies, and one of `d` plies: `d` is not below `k`.
count_below-le :
    (C : Chess) (b : C.Board) (k d : ℕ) → count_below C b k ≡ 0 → count_lines C b d ≢ 0 → k ≤ d
unfolding count_below
count_below-le C b zero d h nz = omega arith
count_below-le C b (suc k) d h nz = elim (ℕ_discrete d k) [
  | yes e ↦ absurd (nz (rw e (omega arith)))
  | no n ↦ let le = count_below-le C b k d (omega arith) nz in omega arith
]

count_below_mono :
    (C : Chess) (b : C.Board) (k d : ℕ) → k ≤ d → count_below C b d ≡ 0 → count_below C b k ≡ 0
unfolding count_below
count_below_mono C b k zero l h = let e : k ≡ 0 = omega arith in rw e refl
count_below_mono C b k (suc d) l h = elim (ℕ_discrete k (suc d)) [
  | yes e ↦ rw e h
  | no n ↦ count_below_mono C b k d (omega arith) (omega arith)
]

min-ne-zero :
    (C : Chess) (b : C.Board) (n d : ℕ)
    → n ≡ min 255 (count_lines C b d)
    → n ≢ 0
    → count_lines C b d ≢ 0
min-ne-zero C b n d e nz z = nz (omega arith)

Exact→Answers :
    (C : Chess) (b : C.Board) (max_plies : ℕ) (p : Probe)
    → IsExact C (max_plies + 1) b p
    → Answers C b (max_plies + 1) (table_value max_plies (value_of p))
unfolding table_value
Exact→Answers C b max_plies (solved d n f) (e, nz, z) = elim (Bool-cases (ltb max_plies d)) [
  | inl deep ↦ rw deep (count_below_mono C b (max_plies + 1) d (ground arith) z)
  | inr shallow ↦ rw shallow (ground arith, e, nz, z)
]
Exact→Answers C b max_plies unsolvable h = h
Exact→Answers C b max_plies missing_table h = absurd h

-- There is one answer.
Answers-unique :
    (C : Chess) (b : C.Board) (hi : ℕ) (r s : Option (ℕ × ℕ))
    → Answers C b hi r
    → Answers C b hi s
    → r ≡ s
Answers-unique C b hi none none h k = refl
Answers-unique C b hi none (some (d, n)) h (l, e, nz, z) =
    absurd (omega (arith, count_below-le C b hi d h (min-ne-zero C b n d e nz)))
Answers-unique C b hi (some (d, n)) none (l, e, nz, z) h =
    absurd (omega (arith, count_below-le C b hi d h (min-ne-zero C b n d e nz)))
Answers-unique C b hi (some (d, n)) (some (d', n')) (l, e, nz, z) (l', e', nz', z') =
    let one = count_below-le C b d d' z (min-ne-zero C b n' d' e' nz') in
    let two = count_below-le C b d' d z' (min-ne-zero C b n d e nz) in
    let same : d ≡ d' = omega arith in
    ap some (ap₂ (λ x y. (x, y)) same (e ∙ ap (λ x. min 255 (count_lines C b x)) same ∙ sym e'))

module _ (C : Chess) (tb : Reader) (P : String → Type 0)
    (passes : (fen : String) → P fen → check_position C tb fen ≡ consistent)
    (closed : (fen : String) (e : Entry) → P fen → In e (tb.moves fen) → P e.fen)
    (reader : (fen : String) → P fen → IsReader C tb fen) (alternates : Alternates C) where
  agrees :
      (max_plies : ℕ) (fen : String)
      → P fen
      → table_value max_plies (value_of (tb.probe fen)) ≡ solve C fen max_plies
  agrees max_plies fen p =
      Answers-unique C (C.from_fen fen) (max_plies + 1) _ _
        (Exact→Answers C (C.from_fen fen) max_plies (tb.probe fen)
          (probe-IsExact C tb P passes closed reader (max_plies + 1) fen p))
        (solve_lem C alternates fen max_plies)

  -- If every position of a set closed under the listed moves passes `check_position`, the reader's
  -- entries name the position after their move and show the value it stores there, and a move
  -- passes the turn, then the loop of `check_oracle` finds no disagreement on positions of the
  -- set, whatever its bound.
  pub disagreements-eq-nil :
      (max_plies : ℕ) (chosen : List String)
      → ((fen : String) → In fen chosen → P fen)
      → disagreements C (λ fen. value_of (tb.probe fen)) max_plies chosen ≡ []
  unfolding disagreements
  disagreements-eq-nil max_plies [] h = refl
  disagreements-eq-nil max_plies (fen ∷ chosen) h =
      rw (agrees max_plies fen (h fen (inl refl)), beq_refl (solve C fen max_plies))
        (disagreements-eq-nil max_plies chosen (λ g m. h g (inr m)))
