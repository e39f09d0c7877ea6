-- ===== src/Effects/Keeps.antt =====
-- Invariants of code that may raise, with a condition before and one where it returns: a rule for each
-- way to build such code.
use helpmate_tablebase.Base.{
  if◌then◌else◌, ◌≡◌, refl, subst, ◌⊎◌, inl, inr, Bool, true, false, string_eq, pair_eq, nat_eq,
  option_eq, list_eq, bool_eq,
}
use helpmate_tablebase.Effects.{Act, pure, raise, continue, ◌>>=◌}

-- From a state with `I` and `before`, `m` ends in a state with `I`, and where it returns, `after`.
pub record Keeps {S E A : Type 0} (I before : S → Type 0) (after : A → S → Type 0) (m : Act S E A)
    : Type 0 where
  pub at : (s : S) → I s → before s → I (m s).1 × ((a : A) → (m s).0 ≡ inr a → after a (m s).1)

module _ {S E A : Type 0} {I P : S → Type 0} {Q : A → S → Type 0} where
  pub Keeps-pure : (a : A) → ((s : S) → P s → Q a s) → Keeps {E = E} I P Q (pure a)
  unfolding pure
  Keeps-pure a k = record {
    at = λ s g p. (g, λ b e. let q : a ≡ b = cc in subst (λ x. Q x s) q (k s p));
  }

  pub Keeps-raise : (e : E) → Keeps I P Q (raise e)
  unfolding raise
  Keeps-raise e = record { at = λ s g p. (g, λ a h. absurd (cc)) }

  pub Keeps-if :
      (b : Bool) (m n : Act S E A)
      → (b ≡ true → Keeps I P Q m)
      → (b ≡ false → Keeps I P Q n)
      → Keeps I P Q (if b then m else n)
  Keeps-if true m n km kn = km refl
  Keeps-if false m n km kn = kn refl

  pub Keeps-weaken :
      {P' : S → Type 0} (m : Act S E A) → ((s : S) → P s → P' s) → Keeps I P' Q m → Keeps I P Q m
  Keeps-weaken m k km = record { at = λ s g p. km.at s g (k s p) }

module _ {S E A B : Type 0} {I : S → Type 0} {Q : A → S → Type 0} {R : B → S → Type 0} where
  Keeps-continue :
      (r : E ⊎ A) (f : A → Act S E B) (s : S)
      → I s
      → ((a : A) → r ≡ inr a → Q a s)
      → ((a : A) → Keeps I (Q a) R (f a))
      → I (continue r f s).1 × ((b : B) → (continue r f s).0 ≡ inr b → R b (continue r f s).1)
  Keeps-continue (inl e) f s g q k = (g, λ b h. absurd (cc))
  Keeps-continue (inr a) f s g q k = (k a).at s g (q a refl)

  pub Keeps-bind :
      {P : S → Type 0} (m : Act S E A) (f : A → Act S E B)
      → Keeps I P Q m
      → ((a : A) → Keeps I (Q a) R (f a))
      → Keeps I P R (m >>= f)
  unfolding ◌>>=◌
  Keeps-bind m f km kf = record {
    at = λ s g p. let (h, q) = km.at s g p in Keeps-continue (m s).0 f (m s).1 h q kf;
  }
