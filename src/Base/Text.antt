-- ===== src/Base/Text.antt =====
-- Texts as code points, and the case folding of logins.
use Prim.Native.Char.{code}
use Prim.Native.Nat.{ℕ, ◌+◌}
use Prim.Native.String.{String}
use mathlib.Core.Path.{◌≡◌, ◌∙◌, sym}
use mathlib.Core.Logic.{inl, inr}
use mathlib.Core.Bool.{Bool, true, false, ◌&&◌, ◌||◌, false≢true}
use mathlib.Core.List.{List, [], ◌∷◌, map}
use helpmate_tablebase.Base.Tests.{
  ltb, leb, if◌then◌else◌, ◌==◌, Bool-cases, eq_of_beq, list_eq, nat_eq,
}

-- The order of Python's tuples and texts, on lists of numbers.
unfoldable pub lex_less : List ℕ → List ℕ → Bool
lex_less [] [] = false
lex_less [] (y ∷ ys) = true
lex_less (x ∷ xs) [] = false
lex_less (x ∷ xs) (y ∷ ys) = let rest = lex_less xs ys in ltb x y || (x == y && rest)

-- The code points of a text.
abbrev pub codes : String → List ℕ
codes String.[] = []
codes (String.◌∷◌ c s) = code c ∷ codes s

-- One letter of `str.lower` on ASCII text, which logins are.
abbrev lower_code : ℕ → ℕ
lower_code c = if leb b'A' c && leb c b'Z' then c + 32 else c

-- s.lower()
unfoldable pub lower : String → List ℕ
lower s = map lower_code (codes s)

-- a.lower() == b.lower()
abbrev pub same_login : String → String → Bool
same_login a b = lower a == lower b

pub same_login_comm : (a b : String) → same_login a b ≡ same_login b a
same_login_comm a b = elim (Bool-cases (same_login a b)) [
  | inl e ↦
      e ∙ sym ((list_eq.equal_iff (lower b) (lower a)).1 (sym (eq_of_beq (lower a) (lower b) e)))
  | inr e ↦ elim (Bool-cases (same_login b a)) [
    | inl f ↦ absurd (
        false≢true (
          sym e
          ∙ (list_eq.equal_iff (lower a) (lower b)).1 (sym (eq_of_beq (lower b) (lower a) f))))
    | inr f ↦ e ∙ sym f
  ]
]
