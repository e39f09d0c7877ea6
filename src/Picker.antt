-- ===== src/Picker.antt =====
-- src/tools/problem_picker.py (tools/problem_picker.py in the repository): which problems a material
-- shows. Quotients of floats are exact ratios. A FEN has all its fields and eight files to a rank,
-- and a candidate has a solution, as `helpmate mine` emits them: beyond that the source raises an
-- IndexError where `nth` gives its default.
pub mod Choice
use Prim.Native.Char.{code}
use helpmate_tablebase.Base.{
  is_empty, list_beq_iff, ltb, leb, Eq, ◌==◌, string_eq, get_or_else, if◌then◌else◌, length, filter,
  find, any, sum_of, Dict, lookup, insert, codes, ℕ, zero, suc, ◌+◌, ◌-◌, ◌*◌, ◌/◌, min, max,
  String, ◌≡◌, ◌↔◌, Bool, true, false, not, ◌&&◌, Option, some, List, [], ◌∷◌, ◌++◌, arith, remove,
  pair_eq, nat_eq, option_eq, list_eq, bool_eq,
}

-- A candidate; its other fields as one text.
pub record Candidate : Type 0 where
  pub fen : String
  pub solutions : List (List String)
  pub other_fields : String

-- == on candidates
abbrev candidate_beq : Candidate → Candidate → Bool
candidate_beq a b = a.fen == b.fen && a.solutions == b.solutions && a.other_fields == b.other_fields

pub candidate_beq_iff : (a b : Candidate) → (candidate_beq a b ≡ true) ↔ (a ≡ b)
candidate_beq_iff a b = ground (
  arith,
  string_eq.equal_iff a.fen b.fen,
  list_beq_iff a.solutions b.solutions,
  string_eq.equal_iff a.other_fields b.other_fields,
)

instance abbrev pub candidate_eq : Eq Candidate
candidate_eq = record { equal = candidate_beq; equal_iff = candidate_beq_iff }

-- xs[i], or a default
abbrev nth {ℓ} : {A : Type ℓ} → A → List A → ℕ → A
nth d [] i = d
nth d (x ∷ xs) zero = x
nth d (x ∷ xs) (suc i) = nth d xs i

-- xs[0::2] and xs[1::2]
unfoldable pub every_other {ℓ} : {A : Type ℓ} → Bool → List A → List A
every_other keep [] = []
every_other true (x ∷ xs) = x ∷ every_other false xs
every_other false (x ∷ xs) = every_other true xs

-- `white_line`
unfoldable pub white_line : List String → Bool → List String
unfolding every_other
white_line solution white_moves_first = every_other white_moves_first solution

-- The pieces of a text between the codes `at`, with the codes of the current one before it.
unfoldable pub split_at : ℕ → List ℕ → List ℕ → List (List ℕ)
split_at at part [] = part ∷ []
split_at at part (c ∷ cs) = elim (c == at) [
  | true ↦ part ∷ split_at at [] cs
  | false ↦ split_at at (part ++ (c ∷ [])) cs
]

-- fen.split()[i], of a FEN whose fields stand one space apart
unfoldable pub fen_field : ℕ → String → List ℕ
unfolding split_at
fen_field i fen = nth [] (split_at b' ' [] (codes fen)) i

-- A piece letter, its file and its rank from the top; the source writes the square as a text.
abbrev pub Man : Type 0
Man = ℕ × ℕ × ℕ

abbrev man_beq : Man → Man → Bool
man_beq (a, b, c) (x, y, z) = a == x && b == y && c == z

pub man_beq_iff : (m n : Man) → (man_beq m n ≡ true) ↔ (m ≡ n)
man_beq_iff (a, b, c) (x, y, z) = ground arith

instance abbrev pub man_eq : Eq Man
man_eq = record { equal = man_beq; equal_iff = man_beq_iff }

-- The men of one rank, from a file on.
unfoldable pub men_of_rank : ℕ → ℕ → List ℕ → List Man
men_of_rank r f [] = []
men_of_rank r f (c ∷ cs) = elim (leb b'0' c && leb c b'9') [
  | true ↦ men_of_rank r (f + (c - b'0')) cs
  | false ↦ (c, f, r) ∷ men_of_rank r (f + 1) cs
]

unfoldable pub men_of_ranks : ℕ → List (List ℕ) → List Man
unfolding men_of_rank
men_of_ranks r [] = []
men_of_ranks r (rank ∷ ranks) = men_of_rank r 0 rank ++ men_of_ranks (r + 1) ranks

-- `_men`
unfoldable pub men_of : String → List Man
unfolding men_of_ranks fen_field split_at
men_of fen = men_of_ranks 0 (split_at b'/' [] (fen_field 0 fen))

-- A count that may fall below zero; `negsuc n` is -(n + 1).
pub data ℤ : Type 0 where
  pos : ℕ → ℤ
  negsuc : ℕ → ℤ

unfoldable pub add_one : ℤ → ℤ
add_one (pos n) = pos (n + 1)
add_one (negsuc zero) = pos 0
add_one (negsuc (suc n)) = negsuc n

unfoldable pub sub_one : ℤ → ℤ
sub_one (pos zero) = negsuc 0
sub_one (pos (suc n)) = pos n
sub_one (negsuc n) = negsuc (suc n)

unfoldable pub abs : ℤ → ℕ
abs (pos n) = n
abs (negsuc n) = n + 1

-- for m in men: counts[m] = step(counts.get(m, 0))
unfoldable pub tally : (ℤ → ℤ) → List Man → Dict Man ℤ → Dict Man ℤ
tally step [] counts = counts
tally step (m ∷ ms) counts =
    tally step ms (insert m (step (get_or_else (lookup m counts) (pos 0))) counts)

-- `position_distance`; the order in which men are counted does not matter, and they are not sorted.
unfoldable pub position_distance : String → String → ℕ
unfolding tally men_of add_one sub_one abs
position_distance a b =
    sum_of (λ e. abs e.1) (tally sub_one (men_of b) (tally add_one (men_of a) [])) / 2

-- One row of `san_distance`: the cells after `last`, which stands left of the first.
unfoldable pub cells : String → List String → List ℕ → ℕ → List ℕ
cells tok [] above last = []
cells tok (other ∷ bs) [] last = []
cells tok (other ∷ bs) (up_left ∷ []) last = []
cells tok (other ∷ bs) (up_left ∷ up ∷ above) last =
    let cell = min (up + 1) (min (last + 1) (up_left + (if tok == other then 0 else 1))) in
    cell ∷ cells tok bs (up ∷ above) cell

-- list(range(n, n + len(b) + 1))
abbrev first_row : ℕ → List String → List ℕ
first_row n [] = n ∷ []
first_row n (b ∷ bs) = n ∷ first_row (n + 1) bs

-- The loop over the rows, from the i-th token of `a` on.
unfoldable pub rows : ℕ → List String → List String → List ℕ → List ℕ
unfolding cells
rows i [] b prev = prev
rows i (tok ∷ a) b prev = rows (i + 1) a b (i ∷ cells tok b prev i)

-- prev[-1]
abbrev last_cell : List ℕ → ℕ
last_cell [] = 0
last_cell (x ∷ []) = x
last_cell (x ∷ y ∷ xs) = last_cell (y ∷ xs)

-- A quotient.
pub record Ratio : Type 0 where
  pub num : ℕ
  pub den : ℕ

-- `san_distance`
unfoldable pub san_distance : List String → List String → Ratio
unfolding rows
san_distance a b =
    if is_empty a && is_empty b
    then record { num = 0; den = 1 }
    else record { num = last_cell (rows 1 a b (first_row 0 b)); den = max (length a) (length b) }

abbrev pub ratio_less : Ratio → Ratio → Bool
ratio_less x y = ltb (x.num * y.den) (y.num * x.den)

-- `_white_line_of`
unfoldable pub white_line_of : Candidate → List String
unfolding fen_field white_line
white_line_of c = white_line (nth [] c.solutions 0) (fen_field 1 c.fen == b'w' ∷ [])

-- `same_idea`
unfoldable pub same_idea : Candidate → Candidate → Bool
unfolding white_line_of position_distance
same_idea a b = white_line_of a == white_line_of b && leb (position_distance a.fen b.fen) 1

-- `distance`
unfoldable pub distance : Candidate → Candidate → Ratio
unfolding san_distance position_distance white_line_of men_of
distance a b =
    let line = san_distance (white_line_of a) (white_line_of b) in
    let place : Ratio = record {
      num = position_distance a.fen b.fen;
      den = max (length (men_of a.fen)) 1;
    } in
    if ratio_less line place then place else line

-- min(distance(c, k) for k in chosen)
unfoldable pub nearest : Candidate → Ratio → List Candidate → Ratio
unfolding distance
nearest c best [] = best
nearest c best (k ∷ ks) =
    nearest c (if ratio_less (distance c k) best then distance c k else best) ks

abbrev nearness : List Candidate → Candidate → Ratio
nearness [] c = record { num = 0; den = 1 }
nearness (k ∷ ks) c = nearest c (distance c k) ks

-- max(fresh, key=...), with the best so far
unfoldable pub farthest : List Candidate → Candidate → List Candidate → Candidate
unfolding nearest
farthest chosen best [] = best
farthest chosen best (c ∷ cs) =
    farthest chosen (if ratio_less (nearness chosen best) (nearness chosen c) then c else best) cs

-- not any(same_idea(c, k) for k in chosen)
abbrev pub is_fresh : List Candidate → Candidate → Bool
is_fresh chosen c = not (any (same_idea c) chosen)

-- The loop of `pick`; its fuel is the size of the pool, which shrinks in each round.
unfoldable pub pick_loop : ℕ → ℕ → List Candidate → List Candidate → List Candidate
unfolding farthest same_idea
pick_loop zero limit pool chosen = chosen
pick_loop (suc fuel) limit pool chosen = elim (not (is_empty pool) && ltb (length chosen) limit) [
  | false ↦ chosen
  | true ↦ elim (filter (is_fresh chosen) pool) [
    | [] ↦ chosen
    | c ∷ cs ↦
        let best = farthest chosen c cs in
        pick_loop fuel limit (remove best pool) (chosen ++ (best ∷ []))
  ]
]

-- The notes of `pick`.
pub data Note : Type 0 where
  no_position only_one_position : Note
  only_one_idea only_ideas : ℕ → Note

notes_of : ℕ → ℕ → ℕ → List Note
notes_of limit candidates chosen =
    if not (ltb chosen limit)
    then []
    else if not (chosen == 1)
    then only_ideas chosen ∷ []
    else if candidates == 1
    then only_one_position ∷ []
    else only_one_idea candidates ∷ []

-- next((c for c in pool if c["fen"] == seed_fen), pool[0])
unfoldable pub seed_of : Option String → Candidate → List Candidate → Candidate
seed_of seed_fen c cs = get_or_else (find (λ k. some k.fen == seed_fen) (c ∷ cs)) c

-- `pick`
unfoldable pub pick : List Candidate → ℕ → Option String → List Candidate × List Note
unfolding pick_loop seed_of notes_of
pick [] limit seed_fen = ([], no_position ∷ [])
pick (c ∷ cs) limit seed_fen =
    let seed = seed_of seed_fen c cs in
    let chosen =
      pick_loop (length (remove seed (c ∷ cs))) limit (remove seed (c ∷ cs)) (seed ∷ []) in
    (chosen, notes_of limit (length (c ∷ cs)) (length chosen))
