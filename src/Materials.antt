-- ===== src/Materials.antt =====
-- contrib/materials.py: the names of the material classes, their canonical form, and the universe
-- of all classes with three to six men.
pub mod Names
pub mod Universe
pub mod Measures
use Prim.Native.Char.{Char, code}
use mathlib.Core.Option
use helpmate_tablebase.Base.{
  ◌>>=◌, flat_map, ltb, leb, ◌==◌, if◌then◌else◌, length, sorted_by, ℕ, zero, suc, ◌+◌, ◌-◌, String,
  Bool, ◌&&◌, Option, none, some, List, [], ◌∷◌, ◌++◌, map, string_eq, pair_eq, nat_eq, option_eq,
  list_eq, bool_eq,
}

-- `ORDER`, the letters of the men beside the kings
pub data Piece : Type 0 where
  queen rook bishop knight pawn : Piece

abbrev pub order : List Piece
order = queen ∷ rook ∷ bishop ∷ knight ∷ pawn ∷ []

-- `_RANK`
abbrev pub rank : Piece → ℕ
rank queen = 0
rank rook = 1
rank bishop = 2
rank knight = 3
rank pawn = 4

-- One character of a side in `_SHAPE`: a man, or the wildcard `?`.
pub data Symbol : Type 0 where
  man : Piece → Symbol
  wild : Symbol

abbrev white_symbol : ℕ → Option Symbol
white_symbol c =
    if c == b'Q'
    then some (man queen)
    else if c == b'R'
    then some (man rook)
    else if c == b'B'
    then some (man bishop)
    else if c == b'N'
    then some (man knight)
    else if c == b'P'
    then some (man pawn)
    else if c == b'?'
    then some wild
    else none

abbrev black_symbol : ℕ → Option Symbol
black_symbol c = if c == b'?' then some wild else if leb b'a' c then white_symbol (c - 32) else none

-- `[qrbnp?]*$`: the rest of the text, up to one newline at its end, which `$` lets pass.
black_side : String → Option (List Symbol)
black_side String.[] = some []
black_side (String.◌∷◌ c s) = elim (black_symbol (code c)) [
  | some x ↦ Option.map (λ xs. x ∷ xs) (black_side s)
  | none ↦ if code c == 10 && s == "" then some [] else none
]

-- `k[qrbnp?]*$`, behind the `v`
black_king : String → Option (List Symbol)
black_king String.[] = none
black_king (String.◌∷◌ c s) = if code c == b'k' then black_side s else none

-- `[QRBNP?]*vk[qrbnp?]*$`
white_side : String → Option (List Symbol × List Symbol)
white_side String.[] = none
white_side (String.◌∷◌ c s) = elim (white_symbol (code c)) [
  | some x ↦ Option.map (λ (xs, ys). (x ∷ xs, ys)) (white_side s)
  | none ↦ if code c == b'v' then Option.map (λ ys. ([], ys)) (black_king s) else none
]

-- `_SHAPE.match`, with its two groups.
pub shape : String → Option (List Symbol × List Symbol)
shape String.[] = none
shape (String.◌∷◌ c s) = if code c == b'K' then white_side s else none

-- The men of a side without wildcards.
pub men : List Symbol → Option (List Piece)
men [] = some []
men (man x ∷ xs) = Option.map (λ ys. x ∷ ys) (men xs)
men (wild ∷ xs) = none

abbrev pub less : Piece → Piece → Bool
less x y = ltb (rank x) (rank y)

-- `_side`
abbrev pub side : List Piece → List Piece
side = sorted_by less

abbrev pub white_letter : Piece → Char
white_letter queen = "Q"
white_letter rook = "R"
white_letter bishop = "B"
white_letter knight = "N"
white_letter pawn = "P"

abbrev pub black_letter : Piece → Char
black_letter queen = "q"
black_letter rook = "r"
black_letter bishop = "b"
black_letter knight = "n"
black_letter pawn = "p"

-- The letters of a side, in front of a text.
pub letters : (Piece → Char) → List Piece → String → String
letters letter [] rest = rest
letters letter (x ∷ xs) rest = String.◌∷◌ (letter x) (letters letter xs rest)

-- f"K{white}vk{black}"
unfoldable pub name_of : List Piece → List Piece → String
unfolding letters
name_of white black =
    String.◌∷◌ "K"
      (letters white_letter white (String.◌∷◌ "v" (String.◌∷◌ "k" (letters black_letter black ""))))

-- The test on the number of men and the sorting, behind the match.
pub checked_name : List Piece → List Piece → Option String
checked_name white black =
    let count = 2 + length white + length black in
    if leb 3 count && leb count 6 then some (name_of (side white) (side black)) else none

-- `canonical`
unfoldable pub canonical : String → Option String
unfolding shape white_side black_king black_side men checked_name sorted_by name_of
canonical text = do (ws, bs) ← shape text; white ← men ws; black ← men bs; checked_name white black

-- `combinations_with_replacement`, in the order in which it yields.
pub combinations : List Piece → ℕ → List (List Piece)
combinations xs zero = [] ∷ []
combinations [] (suc k) = []
combinations (x ∷ xs) (suc k) =
    map (λ c. x ∷ c) (combinations (x ∷ xs) k) ++ combinations xs (suc k)

-- The two inner loops of `_universe`, for `w` white men of `k`.
pub classes : ℕ → ℕ → List String
classes k w =
    flat_map (λ ws. map (λ bs. name_of ws bs) (combinations order (k - w))) (combinations order w)

-- for w in range(n, -1, -1)
pub by_white : ℕ → ℕ → List String
by_white k zero = classes k 0
by_white k (suc w) = classes k (suc w) ++ by_white k w

-- `_universe`, the names
unfoldable pub universe : List String
unfolding by_white classes combinations name_of
universe = by_white 1 1 ++ (by_white 2 2 ++ (by_white 3 3 ++ by_white 4 4))
