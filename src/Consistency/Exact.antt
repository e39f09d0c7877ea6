-- ===== src/Consistency/Exact.antt =====
-- The values of a table whose positions `check_position` passes.
use native.Mathlib.Decide.{ℕ_discrete}
use helpmate_tablebase.Game.{Chess, count_lines, count_below}
use helpmate_tablebase.Consistency.{
  Entry, Probe, solved, unsolvable, missing_table, Reader, consistent, sorted_text, probe_loop,
  implied, terminal, check_position,
}
use helpmate_tablebase.Consistency.Recurrence.{
  Stores, Listed, probe_loop-Listed, Passed, check_position-Passed,
}
use helpmate_tablebase.Consistency.Best.{
  Best, counts_at, implied-inv, implied-ne-none, counts_at-saturated,
}
use helpmate_tablebase.Base.{
  ◌==◌, Option-cases, In, filter, In-filter, In-filter_of, sum_of, ℕ, zero, suc, ◌≤◌, ◌<◌, min,
  String, ◌≡◌, refl, sym, ap, ◌∙◌, subst, ◌≢◌, ◌⊎◌, inl, inr, Bool, true, false, none, List, [],
  ◌∷◌, arith, sum_of_pos, sum_of-ge, string_eq, pair_eq, nat_eq, option_eq, list_eq, bool_eq,
}
use helpmate_tablebase.Consistency.Successors.{
  lines_from, count_lines-moves, nil_of_sorted, cons_of_sorted, stored_as, IsReader, IsExact,
}

module _ (C : Chess) (tb : Reader) (P : String → Type 0)
    (passes : (fen : String) → P fen → check_position C tb fen ≡ consistent)
    (closed : (fen : String) (e : Entry) → P fen → In e (tb.moves fen) → P e.fen)
    (reader : (fen : String) → P fen → IsReader C tb fen) where
  open C use {Board, from_fen, legal_moves, push}

  -- The claims of the induction at one distance.
  record At (d : ℕ) : Type 0 where
    stored :
        (fen : String) (n : ℕ) (f : Bool)
        → P fen
        → tb.probe fen ≡ solved d n f
        → (n ≡ min 255 (count_lines C (from_fen fen) d)) × (n ≢ 0)
    found :
        (fen : String)
        → P fen
        → count_lines C (from_fen fen) d ≢ 0
        → (d' n : ℕ) × (f : Bool) × (tb.probe fen ≡ solved d' n f) × (d' ≤ d)

  -- A position that passes, by its two cases.
  Local : String → List String → Type 0
  Local fen legal = Passed tb fen (terminal C tb (from_fen fen)) legal

  lines_of :
      (fen : String)
      → P fen
      → (d : ℕ) → count_lines C (from_fen fen) (suc d) ≡ sum_of (lines_from C tb d) (tb.moves fen)
  lines_of fen p d =
      count_lines-moves C tb fen d (check_position-Passed C tb fen (passes fen p)).0
        (reader fen p).lands

  listed :
      (fen : String)
      → P fen
      → probe_loop tb (tb.moves fen) ≡ none
      → (e : Entry) → In e (tb.moves fen)
      → Listed tb e
  listed fen p h = probe_loop-Listed tb (tb.moves fen) (reader fen p).reports h

  listed_solvable :
      (fen : String)
      → P fen
      → probe_loop tb (tb.moves fen) ≡ none
      → (e : Entry) → In e (tb.moves fen)
      → e.solvable ≡ true
      → tb.probe e.fen ≡ solved e.dtm e.count false
  listed_solvable fen p h e m s = elim (listed fen p h e m) [
    | inl (_, q) ↦ q
    | inr (u, _) ↦ absurd (cc)
  ]

  local : (fen : String) → P fen → Local fen (sorted_text (legal_moves (from_fen fen)))
  unfolding Local
  local fen p = (check_position-Passed C tb fen (passes fen p)).1

  not_missing :
      (fen : String) (legal : List String) → tb.probe fen ≡ missing_table → Local fen legal → ⊥
  unfolding Local
  not_missing fen [] e h = subst (λ v. Stores v (terminal C tb (from_fen fen))) e h
  not_missing fen (u ∷ us) e (loop, h) =
      subst (λ v. Stores v (implied (filter (λ m. m.solvable) (tb.moves fen)))) e h

  -- What an entry adds at the least distance.
  entry-At :
      (k : ℕ)
      → At k
      → (fen : String) → P fen
      → probe_loop tb (tb.moves fen) ≡ none
      → Best (filter (λ m. m.solvable) (tb.moves fen)) k
      → (e : Entry) → In e (tb.moves fen)
      → ((e.solvable ≡ true) × (e.dtm ≡ k) × (e.count ≡ min 255 (lines_from C tb k e)))
        ⊎ (((e.solvable ≡ false) ⊎ (e.dtm ≢ k)) × (lines_from C tb k e ≡ 0))
  entry-At k at fen p loop best e m = elim (listed fen p loop e m) [
    | inl (s, q) ↦ elim (ℕ_discrete e.dtm k) [
      | yes same ↦
          inl (s, same, (at.stored e.fen e.count false (closed fen e p m) (rw (← same) q)).0)
      | no other ↦ inr (
        inr other,
        elim (ℕ_discrete (lines_from C tb k e) 0) [
          | yes z ↦ z
          | no nz ↦
              let (d', n, f, r, l) = at.found e.fen (closed fen e p m) nz in
              let least = best.least e (In-filter_of (λ m. m.solvable) e (tb.moves fen) m s) in
              absurd (ground arith)
        ],
      )
    ]
    | inr (s, q) ↦ inr (
      inl s,
      elim (ℕ_discrete (lines_from C tb k e) 0) [
        | yes z ↦ z
        | no nz ↦ let (d', n, f, r, l) = at.found e.fen (closed fen e p m) nz in absurd (cc)
      ],
    )
  ]

  -- A position with no legal move has lines of length 0 at most.
  no_moves :
      (fen : String)
      → sorted_text (legal_moves (from_fen fen)) ≡ []
      → (legal_moves (from_fen fen) ≡ []) × ((d : ℕ) → count_lines C (from_fen fen) (suc d) ≡ 0)
  unfolding count_lines
  no_moves fen e =
      let none_left = nil_of_sorted (legal_moves (from_fen fen)) e in
      (none_left, λ d. ap (sum_of (λ m. count_lines C (push (from_fen fen) m) d)) none_left)

  stored_zero :
      (fen : String) (n : ℕ) (f : Bool) (legal : List String)
      → P fen
      → tb.probe fen ≡ solved 0 n f
      → sorted_text (legal_moves (from_fen fen)) ≡ legal
      → Local fen legal
      → (n ≡ min 255 (count_lines C (from_fen fen) 0)) × (n ≢ 0)
  unfolding count_lines Local
  stored_zero fen n f [] p e s h =
      let q : Stores (solved 0 n f) (terminal C tb (from_fen fen)) = rw e at h in
      ground (arith, (no_moves fen s).0)
  stored_zero fen n f (u ∷ us) p e s (loop, h) =
      let q : Stores (solved 0 n f) (implied (filter (λ m. m.solvable) (tb.moves fen))) =
        rw e at h in
      let (k, z, c, b) = implied-inv _ q in absurd (omega arith)

  found_zero :
      (fen : String) (legal : List String)
      → P fen
      → count_lines C (from_fen fen) 0 ≢ 0
      → sorted_text (legal_moves (from_fen fen)) ≡ legal
      → Local fen legal
      → (d' n : ℕ) × (f : Bool) × (tb.probe fen ≡ solved d' n f) × (d' ≤ 0)
  unfolding count_lines Local
  found_zero fen [] p nz s h =
      stored_as tb fen 0 1 0 (subst (λ v. Stores (tb.probe fen) v) (ground arith) h) (omega arith)
  found_zero fen (u ∷ us) p nz s h =
      absurd (ground (arith, cons_of_sorted (legal_moves (from_fen fen)) u us))

  stored_suc :
      (d : ℕ)
      → At d
      → (fen : String) (n : ℕ) (f : Bool) (legal : List String) → P fen
      → tb.probe fen ≡ solved (suc d) n f
      → Local fen legal
      → (n ≡ min 255 (count_lines C (from_fen fen) (suc d))) × (n ≢ 0)
  unfolding Local
  stored_suc d at fen n f [] p e h =
      let q : Stores (solved (suc d) n f) (terminal C tb (from_fen fen)) = rw e at h in
      absurd (ground arith)
  stored_suc d at fen n f (u ∷ us) p e (loop, h) =
      let q : Stores (solved (suc d) n f) (implied (filter (λ m. m.solvable) (tb.moves fen))) =
        rw e at h in
      let (k, z, c, best) = implied-inv _ q in
      let same : k ≡ d = omega arith in
      at_best (subst (Best _) same best)
        (subst (λ j. n ≡ min 255 (counts_at j (filter (λ m. m.solvable) (tb.moves fen)))) same c)
    where
      solvable : List Entry
      solvable = filter (λ m. m.solvable) (tb.moves fen)

      at_best :
          Best solvable d
          → n ≡ min 255 (counts_at d solvable)
          → (n ≡ min 255 (count_lines C (from_fen fen) (suc d))) × (n ≢ 0)
      at_best best c =
          let total =
            counts_at-saturated d (lines_from C tb d) (tb.moves fen)
              (entry-At d at fen p loop best) in
          let sum = lines_of fen p d in
          let (m, s) = In-filter (λ m. m.solvable) best.entry (tb.moves fen) best.member in
          let shown = listed_solvable fen p loop best.entry m s in
          let own =
            at.stored best.entry.fen best.entry.count false (closed fen best.entry p m)
              (rw (← best.has) shown) in
          let part =
            sum_of-ge (λ (x : Entry). x.count) (filter (λ x. x.dtm == d) solvable) best.entry
              (In-filter_of (λ x. x.dtm == d) best.entry solvable best.member
                (ground (arith, best.has))) in
          (c ∙ total ∙ ap (λ t. min 255 t) (sym sum), λ z. own.1 (omega (arith, part, c, z)))

  found_suc :
      (d : ℕ)
      → At d
      → (fen : String) (legal : List String) → P fen
      → count_lines C (from_fen fen) (suc d) ≢ 0
      → sorted_text (legal_moves (from_fen fen)) ≡ legal
      → Local fen legal
      → (d' n : ℕ) × (f : Bool) × (tb.probe fen ≡ solved d' n f) × (d' ≤ suc d)
  unfolding Local
  found_suc d at fen [] p nz s h = absurd (nz ((no_moves fen s).1 d))
  found_suc d at fen (u ∷ us) p nz s (loop, h) =
      let (e, m, pos) =
        sum_of_pos (lines_from C tb d) (tb.moves fen) (λ z. nz (lines_of fen p d ∙ z)) in
      let (d', n', f', r, l) = at.found e.fen (closed fen e p m) pos in
      from_entry e m (listed fen p loop e m) d' r l
    where
      solvable : List Entry
      solvable = filter (λ m. m.solvable) (tb.moves fen)

      from_entry :
          (e : Entry)
          → In e (tb.moves fen)
          → Listed tb e
          → (d' : ℕ) {n' : ℕ} {f' : Bool} → tb.probe e.fen ≡ solved d' n' f'
          → d' ≤ d
          → (d₁ n : ℕ) × (f : Bool) × (tb.probe fen ≡ solved d₁ n f) × (d₁ ≤ suc d)
      from_entry e m (inr (s', q)) d' r l = absurd (cc)
      from_entry e m (inl (s', q)) d' r l = elim (Option-cases (implied solvable)) [
        | inl z ↦ absurd (
            implied-ne-none solvable e (In-filter_of (λ m. m.solvable) e (tb.moves fen) m s')
              (sym z))
        | inr (v, z) ↦
            let (k, g, c, best) = implied-inv solvable {d = v.0} {n = v.1} (sym z) in
            let least = best.least e (In-filter_of (λ m. m.solvable) e (tb.moves fen) m s') in
            stored_as tb fen v.0 v.1 (suc d) (subst (λ w. Stores (tb.probe fen) w) z h)
              (ground arith)
      ]

  At-all : (d : ℕ) → At d
  At-all zero = record {
    stored = λ fen n f p e. stored_zero fen n f _ p e refl (local fen p);
    found = λ fen p nz. found_zero fen _ p nz refl (local fen p);
  }
  At-all (suc d) = record {
    stored = λ fen n f p e. stored_suc d (At-all d) fen n f _ p e (local fen p);
    found = λ fen p nz. found_suc d (At-all d) fen _ p nz refl (local fen p);
  }

  below_zero :
      (b : Board) (k : ℕ) → ((d : ℕ) → d < k → count_lines C b d ≡ 0) → count_below C b k ≡ 0
  unfolding count_below
  below_zero b zero h = refl
  below_zero b (suc k) h =
      let rest = below_zero b k (λ d l. h d (omega arith)) in
      let here = h k (omega arith) in omega (arith, rest, here)

  IsExact-of :
      (k : ℕ) (fen : String) (v : Probe) → P fen → tb.probe fen ≡ v → IsExact C k (from_fen fen) v
  IsExact-of k fen (solved d n f) p e =
      let (c, nz) = (At-all d).stored fen n f p e in
      (
        c,
        nz,
        below_zero (from_fen fen) d (λ d' l. elim (ℕ_discrete (count_lines C (from_fen fen) d') 0) [
          | yes z ↦ z
          | no pos ↦ let (d₁, n₁, f₁, r, g) = (At-all d').found fen p pos in absurd (ground arith)
        ]),
      )
  IsExact-of k fen unsolvable p e = below_zero (from_fen fen) k (λ d' l.
      elim (ℕ_discrete (count_lines C (from_fen fen) d') 0) [
        | yes z ↦ z
        | no pos ↦ let (d₁, n₁, f₁, r, g) = (At-all d').found fen p pos in absurd (cc)
      ])
  IsExact-of k fen missing_table p e = not_missing fen _ e (local fen p)

  -- If every position of a set closed under the listed moves passes `check_position`, and the
  -- reader's entries name the position after their move and show the value it stores there, then
  -- the table is right about each position of the set: a stored distance is the length of the
  -- shortest mating line, the stored count is the number of lines of that length saturated at 255
  -- and not 0, a position stored as unsolvable has no mating line of fewer than `k` plies, for any
  -- `k`, and no table is missing.
  pub probe-IsExact : (k : ℕ) (fen : String) → P fen → IsExact C k (from_fen fen) (tb.probe fen)
  probe-IsExact k fen p = IsExact-of k fen (tb.probe fen) p refl
