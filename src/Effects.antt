-- ===== src/Effects.antt =====
-- Python code that changes a state and may raise: what was changed before a raise stays changed, so
-- the state comes back beside the exception too.
pub mod Keeps
pub mod Returns
use helpmate_tablebase.Base.{◌⊎◌, inl, inr, string_eq, pair_eq, nat_eq, option_eq, list_eq, bool_eq}

abbrev pub Act : Type 0 → Type 0 → Type 0 → Type 0
Act S E A = S → (E ⊎ A) × S

module _ {S E A : Type 0} where
  unfoldable pub pure : A → Act S E A
  pure a s = (inr a, s)

  unfoldable pub raise : E → Act S E A
  raise e s = (inl e, s)

module _ {S E A B : Type 0} where
  abbrev pub continue : E ⊎ A → (A → Act S E B) → Act S E B
  continue (inl e) f s = (inl e, s)
  continue (inr a) f s = f a s

  infixl 10 ◌>>=◌ ◌>>◌
  unfoldable pub ◌>>=◌ : Act S E A → (A → Act S E B) → Act S E B
  ◌>>=◌ m f s = let (r, after) = m s in continue r f after

  abbrev pub ◌>>◌ : Act S E A → Act S E B → Act S E B
  m >> n = m >>= λ _. n
