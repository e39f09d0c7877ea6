-- ===== src/Materials/Measures.antt =====
-- contrib/materials.py, the properties of `Material`: its sides, men, pawns, plane size and memory.
use Prim.Native.Char.{code, Char}
use helpmate_tablebase.Base.{
  ◌==◌, if◌then◌else◌, length, sum_of, codes, ℕ, suc, ◌+◌, ◌-◌, ◌*◌, ◌^◌, ◌≤◌, String, ◌≡◌, refl,
  ap, ◌∙◌, ◌≢◌, Bool, ◌||◌, Option, none, some, List, [], ◌∷◌, arith, string_eq, pair_eq, nat_eq,
  option_eq, list_eq, bool_eq,
}
use helpmate_tablebase.Materials.{
  Piece, queen, rook, bishop, knight, pawn, side, white_letter, black_letter, letters, name_of,
  canonical,
}
use helpmate_tablebase.Materials.Names.{canonical-inv, checked_name-inv}

-- name.split("v")[0]
unfoldable pub before_v : String → String
before_v String.[] = ""
before_v (String.◌∷◌ c s) =
    let rest = before_v s in if code c == b'v' then "" else String.◌∷◌ c rest

-- s[1:]
abbrev pub tail_of : String → String
tail_of String.[] = ""
tail_of (String.◌∷◌ c s) = s

-- `Material.white`
unfoldable pub white_of : String → String
unfolding before_v
white_of name = tail_of (before_v name)

-- `Material.bare_king`
unfoldable pub bare_king : String → Bool
unfolding white_of
bare_king name = white_of name == ""

-- name.split("v")[1], for a name with one `v`
unfoldable pub after_v : String → String
after_v String.[] = ""
after_v (String.◌∷◌ c s) = let rest = after_v s in if code c == b'v' then s else rest

-- `Material.black`
unfoldable pub black_of : String → String
unfolding after_v
black_of name = tail_of (after_v name)

-- `Material.pieces`
unfoldable pub pieces : String → ℕ
unfolding white_of black_of
pieces name = 2 + length (codes (white_of name)) + length (codes (black_of name))

-- s.count(letter)
abbrev pub count_code : ℕ → String → ℕ
count_code letter s = sum_of (λ c. if c == letter then 1 else 0) (codes s)

-- `Material.pawns`
unfoldable pub pawns : String → ℕ
unfolding white_of black_of
pawns name = count_code b'P' (white_of name) + count_code b'p' (black_of name)

-- `Material.plane_size`
unfoldable pub plane_size : String → ℕ
unfolding pieces pawns
plane_size name =
    let n = pieces name - 2 in
    if pawns name == 0 then 462 * 64 ^ n else 1806 * 48 ^ pawns name * 64 ^ (n - pawns name)

-- `Material.ram_tier_gib`, with `none` for a KeyError
unfoldable pub ram_tier_gib : String → Option ℕ
unfolding pawns
ram_tier_gib name =
    let n = pawns name in
    if n == 0
    then some 32
    else if n == 1 || n == 2
    then some 96
    else if n == 3 || n == 4
    then some 64
    else none

-- The pawns of a side.
abbrev pawns_in : List Piece → ℕ
pawns_in [] = 0
pawns_in (pawn ∷ xs) = suc (pawns_in xs)
pawns_in (queen ∷ xs) = pawns_in xs
pawns_in (rook ∷ xs) = pawns_in xs
pawns_in (bishop ∷ xs) = pawns_in xs
pawns_in (knight ∷ xs) = pawns_in xs

before_v-letters :
    (ws : List Piece) (rest : String)
    → before_v (letters white_letter ws (String.◌∷◌ "v" rest)) ≡ letters white_letter ws ""
unfolding before_v letters
before_v-letters [] rest = refl
before_v-letters (queen ∷ ws) rest = ap (String.◌∷◌ "Q") (before_v-letters ws rest)
before_v-letters (rook ∷ ws) rest = ap (String.◌∷◌ "R") (before_v-letters ws rest)
before_v-letters (bishop ∷ ws) rest = ap (String.◌∷◌ "B") (before_v-letters ws rest)
before_v-letters (knight ∷ ws) rest = ap (String.◌∷◌ "N") (before_v-letters ws rest)
before_v-letters (pawn ∷ ws) rest = ap (String.◌∷◌ "P") (before_v-letters ws rest)

after_v-letters :
    (ws : List Piece) (rest : String)
    → after_v (letters white_letter ws (String.◌∷◌ "v" rest)) ≡ rest
unfolding after_v letters
after_v-letters [] rest = refl
after_v-letters (queen ∷ ws) rest = after_v-letters ws rest
after_v-letters (rook ∷ ws) rest = after_v-letters ws rest
after_v-letters (bishop ∷ ws) rest = after_v-letters ws rest
after_v-letters (knight ∷ ws) rest = after_v-letters ws rest
after_v-letters (pawn ∷ ws) rest = after_v-letters ws rest

length-letters :
    (letter : Piece → Char) (xs : List Piece) → length (codes (letters letter xs "")) ≡ length xs
unfolding letters
length-letters letter [] = refl
length-letters letter (x ∷ xs) = omega (arith, length-letters letter xs)

white_pawns : (ws : List Piece) → count_code b'P' (letters white_letter ws "") ≡ pawns_in ws
unfolding letters
white_pawns [] = refl
white_pawns (queen ∷ ws) = omega (arith, white_pawns ws)
white_pawns (rook ∷ ws) = omega (arith, white_pawns ws)
white_pawns (bishop ∷ ws) = omega (arith, white_pawns ws)
white_pawns (knight ∷ ws) = omega (arith, white_pawns ws)
white_pawns (pawn ∷ ws) = omega (arith, white_pawns ws)

black_pawns : (bs : List Piece) → count_code b'p' (letters black_letter bs "") ≡ pawns_in bs
unfolding letters
black_pawns [] = refl
black_pawns (queen ∷ bs) = omega (arith, black_pawns bs)
black_pawns (rook ∷ bs) = omega (arith, black_pawns bs)
black_pawns (bishop ∷ bs) = omega (arith, black_pawns bs)
black_pawns (knight ∷ bs) = omega (arith, black_pawns bs)
black_pawns (pawn ∷ bs) = omega (arith, black_pawns bs)

pawns_in-le : (xs : List Piece) → pawns_in xs ≤ length xs
pawns_in-le [] = omega arith
pawns_in-le (queen ∷ xs) = omega (arith, pawns_in-le xs)
pawns_in-le (rook ∷ xs) = omega (arith, pawns_in-le xs)
pawns_in-le (bishop ∷ xs) = omega (arith, pawns_in-le xs)
pawns_in-le (knight ∷ xs) = omega (arith, pawns_in-le xs)
pawns_in-le (pawn ∷ xs) = omega (arith, pawns_in-le xs)

white_of-name_of : (ws bs : List Piece) → white_of (name_of ws bs) ≡ letters white_letter ws ""
unfolding white_of before_v name_of
white_of-name_of ws bs = before_v-letters ws _

black_of-name_of : (ws bs : List Piece) → black_of (name_of ws bs) ≡ letters black_letter bs ""
unfolding black_of after_v name_of
black_of-name_of ws bs = ap tail_of (after_v-letters ws _)

pieces-name_of : (ws bs : List Piece) → pieces (name_of ws bs) ≡ 2 + length ws + length bs
unfolding pieces
pieces-name_of ws bs =
    let w = ap (λ s. length (codes s)) (white_of-name_of ws bs) ∙ length-letters white_letter ws in
    let b = ap (λ s. length (codes s)) (black_of-name_of ws bs) ∙ length-letters black_letter bs in
    omega (arith, w, b)

pawns-name_of : (ws bs : List Piece) → pawns (name_of ws bs) ≡ pawns_in ws + pawns_in bs
unfolding pawns
pawns-name_of ws bs =
    let w = ap (count_code b'P') (white_of-name_of ws bs) ∙ white_pawns ws in
    let b = ap (count_code b'p') (black_of-name_of ws bs) ∙ black_pawns bs in omega (arith, w, b)

ram_tier_gib-some : (name : String) → pawns name ≤ 4 → (t : ℕ) × (ram_tier_gib name ≡ some t)
unfolding ram_tier_gib
ram_tier_gib-some name h = some_tier (ram_tier_gib name) refl (ground (arith, h))
  where
    some_tier :
        (o : Option ℕ) → ram_tier_gib name ≡ o → o ≢ none → (t : ℕ) × (ram_tier_gib name ≡ some t)
    some_tier none e n = absurd (n refl)
    some_tier (some t) e n = (t, e)

-- A canonical name has three to six men, two of them kings, so at most four pawns, and its number
-- of pawns has a RAM tier.
pub measures-canonical :
    (text name : String)
    → canonical text ≡ some name
    → (3 ≤ pieces name)
      × (pieces name ≤ 6)
      × (pawns name + 2 ≤ pieces name)
      × ((t : ℕ) × (ram_tier_gib name ≡ some t))
measures-canonical text name h =
    let (ws, bs, c) = canonical-inv text name h in
    let (e, lo, hi) = checked_name-inv ws bs name c in
    let men_of = ap pieces e ∙ pieces-name_of (side ws) (side bs) in
    let pawns_of = ap pawns e ∙ pawns-name_of (side ws) (side bs) in
    let w = pawns_in-le (side ws) in
    let b = pawns_in-le (side bs) in
    (
      omega (arith, men_of, lo),
      omega (arith, men_of, hi),
      omega (arith, men_of, pawns_of, w, b),
      ram_tier_gib-some name (omega (arith, pawns_of, w, b, hi)),
    )
