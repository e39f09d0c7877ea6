-- ===== src/Effects/Returns.antt =====
-- What is known where a sequence of actions returns.
use helpmate_tablebase.Base.{
  ◌≡◌, refl, ap, ◌⊎◌, inl, inr, string_eq, pair_eq, nat_eq, option_eq, list_eq, bool_eq,
}
use helpmate_tablebase.Effects.{Act, continue, ◌>>=◌}

module _ {S E A B : Type 0} where
  continue_inv :
      (r : E ⊎ A) (f : A → Act S E B) (s : S) (b : B)
      → (continue r f s).0 ≡ inr b
      → (a : A) × (r ≡ inr a) × (continue r f s ≡ f a s)
  continue_inv (inl e) f s b h = absurd (cc)
  continue_inv (inr a) f s b h = (a, refl, refl)

  -- Both parts return, and the second goes on where the first ended.
  pub bind_inv :
      (m : Act S E A) (f : A → Act S E B) (s : S) (b : B)
      → ((m >>= f) s).0 ≡ inr b
      → (a : A) × ((m s).0 ≡ inr a) × ((m >>= f) s ≡ f a (m s).1)
  unfolding ◌>>=◌
  bind_inv m f s b h = continue_inv (m s).0 f (m s).1 b h

  -- The first part stops it, or returns and the second stops it.
  pub bind_stops :
      (m : Act S E A) (f : A → Act S E B) (s : S) (x : E)
      → ((m >>= f) s).0 ≡ inl x
      → (((m s).0 ≡ inl x) × (((m >>= f) s).1 ≡ (m s).1)) ⊎ ((a : A) × ((m >>= f) s ≡ f a (m s).1))
  unfolding ◌>>=◌
  bind_stops m f s x h = stopped (m s).0 (m s).1 h
    where
      stopped :
          (r : E ⊎ A) (t : S)
          → (continue r f t).0 ≡ inl x
          → ((r ≡ inl x) × ((continue r f t).1 ≡ t)) ⊎ ((a : A) × (continue r f t ≡ f a t))
      stopped (inl e) t k = let q : e ≡ x = cc in inl (ap (λ y. inl y) q, refl)
      stopped (inr a) t k = inr (a, refl)
