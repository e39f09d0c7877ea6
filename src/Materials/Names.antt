-- ===== src/Materials/Names.antt =====
-- Canonical names: parsing what `name_of` prints, and canonical form as a fixed point.
use helpmate_tablebase.Base.{
  length-sorted_by, sorted_by_of-IsSorted, Option-cases, length, IsSorted, sorted_by-IsSorted, ◌+◌,
  ◌≤◌, String, ◌≡◌, refl, sym, ◌∙◌, subst, inl, inr, some, List, [], ◌∷◌, map, arith, string_eq,
  pair_eq, nat_eq, option_eq, list_eq, bool_eq,
}
use helpmate_tablebase.Materials.{
  Piece, queen, rook, bishop, knight, pawn, man, black_side, black_king, white_side, shape, men,
  less, side, white_letter, black_letter, letters, name_of, checked_name, canonical,
}

black_side-letters : (bs : List Piece) → black_side (letters black_letter bs "") ≡ some (map man bs)
unfolding black_side letters
black_side-letters [] = refl
black_side-letters (queen ∷ bs) = rw (black_side-letters bs)
black_side-letters (rook ∷ bs) = rw (black_side-letters bs)
black_side-letters (bishop ∷ bs) = rw (black_side-letters bs)
black_side-letters (knight ∷ bs) = rw (black_side-letters bs)
black_side-letters (pawn ∷ bs) = rw (black_side-letters bs)

white_side-letters :
    (ws bs : List Piece)
    → white_side
        (letters white_letter ws (String.◌∷◌ "v" (String.◌∷◌ "k" (letters black_letter bs ""))))
      ≡ some (map man ws, map man bs)
unfolding white_side letters black_king
white_side-letters [] bs = rw (black_side-letters bs)
white_side-letters (queen ∷ ws) bs = rw (white_side-letters ws bs)
white_side-letters (rook ∷ ws) bs = rw (white_side-letters ws bs)
white_side-letters (bishop ∷ ws) bs = rw (white_side-letters ws bs)
white_side-letters (knight ∷ ws) bs = rw (white_side-letters ws bs)
white_side-letters (pawn ∷ ws) bs = rw (white_side-letters ws bs)

-- Printing and matching.
pub shape-name_of : (ws bs : List Piece) → shape (name_of ws bs) ≡ some (map man ws, map man bs)
unfolding shape name_of
shape-name_of ws bs = white_side-letters ws bs

pub men-map : (xs : List Piece) → men (map man xs) ≡ some xs
unfolding men
men-map [] = refl
men-map (x ∷ xs) = rw (men-map xs)

-- The canonical form of a printed name is the printed name of the sorted sides.
pub canonical-name_of : (ws bs : List Piece) → canonical (name_of ws bs) ≡ checked_name ws bs
unfolding canonical
canonical-name_of ws bs = rw (shape-name_of ws bs, men-map ws, men-map bs)

-- What a canonical name is made of.
pub canonical-inv :
    (text name : String)
    → canonical text ≡ some name
    → (ws bs : List Piece) × (checked_name ws bs ≡ some name)
unfolding canonical
canonical-inv text name h = elim (Option-cases (shape text)) [
  | inl e ↦ absurd (ground arith)
  | inr ((ws, bs), e) ↦ elim (Option-cases (men ws)) [
    | inl f ↦ absurd (ground arith)
    | inr (white, f) ↦ elim (Option-cases (men bs)) [
      | inl g ↦ absurd (ground arith)
      | inr (black, g) ↦ (white, black, rw (e, f, g) at h)
    ]
  ]
]

pub side-IsSorted : (xs : List Piece) → IsSorted less (side xs)
side-IsSorted xs = sorted_by-IsSorted less (λ x y h. ground arith) xs

pub side_of-IsSorted : (xs : List Piece) → IsSorted less xs → side xs ≡ xs
side_of-IsSorted xs s = sorted_by_of-IsSorted less (λ x y z h k. ground arith) xs s

-- A checked name is the printed name of sorted sides with one to four men beside the kings.
pub checked_name-inv :
    (ws bs : List Piece) (name : String)
    → checked_name ws bs ≡ some name
    → (name ≡ name_of (side ws) (side bs))
      × (1 ≤ length (side ws) + length (side bs))
      × (length (side ws) + length (side bs) ≤ 4)
unfolding checked_name
checked_name-inv ws bs name h = ground (arith, length-sorted_by less ws, length-sorted_by less bs)

pub checked_name_of-IsSorted :
    (ws bs : List Piece)
    → IsSorted less ws
    → IsSorted less bs
    → 1 ≤ length ws + length bs
    → length ws + length bs ≤ 4
    → checked_name ws bs ≡ some (name_of ws bs)
unfolding checked_name
checked_name_of-IsSorted ws bs s t lo hi =
    rw (side_of-IsSorted ws s, side_of-IsSorted bs t) (ground arith)

-- The canonical form of any text is canonical: it is its own canonical form.
pub canonical_idem : (text name : String) → canonical text ≡ some name → canonical name ≡ some name
canonical_idem text name h =
    let (ws, bs, c) = canonical-inv text name h in
    let (e, lo, hi) = checked_name-inv ws bs name c in
    subst (λ t. canonical t ≡ some t) (sym e)
      (canonical-name_of (side ws) (side bs)
        ∙ checked_name_of-IsSorted (side ws) (side bs) (side-IsSorted ws) (side-IsSorted bs) lo hi)
