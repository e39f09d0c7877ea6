-- ===== src/Consistency/Successors.antt =====
-- The lines of a position by its listed successors, and what a table says of a position.
use helpmate_tablebase.Game.{Chess, count_lines, count_below}
use helpmate_tablebase.Consistency.{
  Entry, Probe, solved, unsolvable, missing_table, Reader, text_less, sorted_text,
}
use helpmate_tablebase.Consistency.Recurrence.{Stores, Reports}
use helpmate_tablebase.Base.{
  is_empty, In, sorted_by, In-sorted_by, sum_of, sum_of-sorted_by, ℕ, suc, ◌≤◌, min, String, ◌≡◌,
  refl, sym, ap, ◌∙◌, subst, ◌≢◌, inl, inr, Bool, false, some, List, [], ◌∷◌, map, arith, string_eq,
  pair_eq, nat_eq, option_eq, list_eq, bool_eq,
}

sum_of-map :
    {A B : Type 0} (f : B → ℕ) (g : A → B) (xs : List A)
    → sum_of f (map g xs) ≡ sum_of (λ x. f (g x)) xs
sum_of-map f g [] = refl
sum_of-map f g (x ∷ xs) = omega (arith, sum_of-map f g xs)

sum_of_congr :
    {A : Type 0} (f g : A → ℕ) (xs : List A)
    → ((x : A) → In x xs → f x ≡ g x)
    → sum_of f xs ≡ sum_of g xs
sum_of_congr f g [] h = refl
sum_of_congr f g (x ∷ xs) h =
    let here = h x (inl refl) in
    let rest = sum_of_congr f g xs (λ y m. h y (inr m)) in omega (arith, here, rest)

module _ (C : Chess) (tb : Reader) where
  open C use {Board, from_fen, legal_moves, push}

  -- The number of mating lines from the position of an entry.
  abbrev pub lines_from : ℕ → Entry → ℕ
  lines_from d e = count_lines C (from_fen e.fen) d

  -- The lines of a position are those of its listed successors, if the list is the legal one.
  pub count_lines-moves :
      (fen : String) (d : ℕ)
      → sorted_text (map (λ m. m.uci) (tb.moves fen)) ≡ sorted_text (legal_moves (from_fen fen))
      → ((e : Entry) → In e (tb.moves fen) → from_fen e.fen ≡ push (from_fen fen) e.uci)
      → count_lines C (from_fen fen) (suc d) ≡ sum_of (lines_from d) (tb.moves fen)
  unfolding count_lines
  count_lines-moves fen d same lands =
      let f = λ (m : String). count_lines C (push (from_fen fen) m) d in
      sym (sum_of-sorted_by f _ (legal_moves (from_fen fen)))
      ∙ ap (sum_of f) (sym same)
      ∙ sum_of-sorted_by f _ (map (λ m. m.uci) (tb.moves fen))
      ∙ sum_of-map f (λ (m : Entry). m.uci) (tb.moves fen)
      ∙ sum_of_congr _ _ (tb.moves fen) (λ e m. ap (λ b. count_lines C b d) (sym (lands e m)))

pub nil_of_sorted : (xs : List String) → sorted_text xs ≡ [] → xs ≡ []
nil_of_sorted [] e = refl
nil_of_sorted (x ∷ xs) e =
    absurd (subst (In x) e ((In-sorted_by text_less x (x ∷ xs)).1 (inl refl)))

pub cons_of_sorted :
    (xs : List String) (u : String) (us : List String)
    → sorted_text xs ≡ u ∷ us
    → is_empty xs ≡ false
unfolding sorted_by
cons_of_sorted [] u us e = absurd (cc)
cons_of_sorted (x ∷ xs) u us e = refl

-- A probe that stores a solvable value is that value.
pub stored_as :
    (tb : Reader) (fen : String) (d n k : ℕ)
    → Stores (tb.probe fen) (some (d, n))
    → d ≤ k
    → (d' n' : ℕ) × (f : Bool) × (tb.probe fen ≡ solved d' n' f) × (d' ≤ k)
stored_as tb fen d n k h l = go (tb.probe fen) refl h
  where
    go :
        (p : Probe)
        → tb.probe fen ≡ p
        → Stores p (some (d, n))
        → (d' n' : ℕ) × (f : Bool) × (tb.probe fen ≡ solved d' n' f) × (d' ≤ k)
    go (solved d' n' f) e q = (d', n', f, e, ground arith)
    go unsolvable e q = absurd (cc)
    go missing_table e q = absurd q

-- What is known of the reader: an entry's position is the one after its move, and a solvable
-- entry shows the value that is stored for it.
pub record IsReader (C : Chess) (tb : Reader) (fen : String) : Type 0 where
  pub lands : (e : Entry) → In e (tb.moves fen) → C.from_fen e.fen ≡ C.push (C.from_fen fen) e.uci
  pub reports : (e : Entry) → In e (tb.moves fen) → Reports tb e

-- The stored value is the true one as far as lines of fewer than `k` plies tell: a stored distance
-- is the length of the shortest line, with its saturated number of lines, and an unsolvable
-- position has no line.
abbrev pub IsExact : (C : Chess) → ℕ → C.Board → Probe → Type 0
IsExact C k b (solved d n f) = (n ≡ min 255 (count_lines C b d)) × (n ≢ 0) × (count_below C b d ≡ 0)
IsExact C k b unsolvable = count_below C b k ≡ 0
IsExact C k b missing_table = ⊥
