-- ===== src/Consistency/Best.antt =====
-- The least distance among the successors, and the value that it implies.
use helpmate_tablebase.Base.{
  leb, leb→le, tests, ◌==◌, Bool-cases, In, filter, sum_of, ℕ, suc, ◌≤◌, min, ◌≡◌, refl, sym, ◌≢◌,
  ◌⊎◌, inl, inr, true, false, none, some, List, [], ◌∷◌, arith, string_eq, pair_eq, nat_eq,
  option_eq, list_eq, bool_eq,
}
use helpmate_tablebase.Consistency.{Entry, min_dtm, implied}

-- The least distance among the entries is a lower bound, and one of them has it.
min_dtm-le : (best : ℕ) (ms : List Entry) → min_dtm best ms ≤ best
unfolding min_dtm
min_dtm-le best [] = omega arith
min_dtm-le best (m ∷ ms) = omega (arith, min_dtm-le (min best m.dtm) ms)

min_dtm-le_In : (best : ℕ) (ms : List Entry) (e : Entry) → In e ms → min_dtm best ms ≤ e.dtm
unfolding min_dtm
min_dtm-le_In best [] e m = elim m [ ]
min_dtm-le_In best (x ∷ ms) e (inl q) = rw q (omega (arith, min_dtm-le (min best x.dtm) ms))
min_dtm-le_In best (x ∷ ms) e (inr m) = min_dtm-le_In (min best x.dtm) ms e m

min_dtm-attained :
    (best : ℕ) (ms : List Entry)
    → (min_dtm best ms ≡ best) ⊎ ((e : Entry) × In e ms × (min_dtm best ms ≡ e.dtm))
unfolding min_dtm
min_dtm-attained best [] = inl refl
min_dtm-attained best (x ∷ ms) = elim (min_dtm-attained (min best x.dtm) ms) [
  | inl h ↦ elim (Bool-cases (leb best x.dtm)) [
    | inl l ↦ inl (omega (tests, h, leb→le best x.dtm l))
    | inr g ↦ inr (x, inl refl, ground arith)
  ]
  | inr (e, m, h) ↦ inr (e, inr m, h)
]

-- The least distance of the solvable entries, with an entry that has it.
pub record Best (es : List Entry) (d : ℕ) : Type 0 where
  pub entry : Entry
  pub member : In entry es
  pub has : entry.dtm ≡ d
  pub least : (e : Entry) → In e es → d ≤ e.dtm

abbrev pub counts_at : ℕ → List Entry → ℕ
counts_at d es = sum_of (λ (x : Entry). x.count) (filter (λ x. x.dtm == d) es)

-- What the successors imply, read back.
pub implied-inv :
    (es : List Entry) {d n : ℕ}
    → some (d, n) ≡ implied es
    → (k : ℕ) × (d ≡ suc k) × (n ≡ min 255 (counts_at k es)) × Best es k
unfolding implied
implied-inv [] h = absurd (cc)
implied-inv (m ∷ ms) {d} {n} h = (
  min_dtm m.dtm ms,
  ground arith,
  ground arith,
  elim (min_dtm-attained m.dtm ms) [
    | inl e ↦ record { entry = m; member = inl refl; has = sym e; least = least }
    | inr (x, k, e) ↦ record { entry = x; member = inr k; has = sym e; least = least }
  ],
)
  where
    least : (e : Entry) → In e (m ∷ ms) → min_dtm m.dtm ms ≤ e.dtm
    least e (inl q) = rw q (min_dtm-le m.dtm ms)
    least e (inr k) = min_dtm-le_In m.dtm ms e k

pub implied-ne-none : (es : List Entry) (e : Entry) → In e es → none ≢ implied es
unfolding implied
implied-ne-none [] e m = elim m [ ]
implied-ne-none (x ∷ es) e m = λ h. cc

-- Entries at the least distance hold saturated counts, and the others none: the sum over the
-- former is the saturated sum over all.
pub counts_at-saturated :
    (k : ℕ) (g : Entry → ℕ) (ms : List Entry)
    → ((e : Entry)
        → In e ms
        → ((e.solvable ≡ true) × (e.dtm ≡ k) × (e.count ≡ min 255 (g e)))
          ⊎ (((e.solvable ≡ false) ⊎ (e.dtm ≢ k)) × (g e ≡ 0)))
    → min 255 (counts_at k (filter (λ m. m.solvable) ms)) ≡ min 255 (sum_of g ms)
counts_at-saturated k g [] h = refl
counts_at-saturated k g (m ∷ ms) h =
    ground (arith, h m (inl refl), counts_at-saturated k g ms (λ e i. h e (inr i)))
