-- ===== src/Base/Slices.antt =====
-- Parts of lists: lengths, and a part of a part.
use Prim.Native.Nat.{ℕ, zero, suc, ◌+◌, ◌-◌, ◌≤◌, min}
use mathlib.Core.Path.{◌≡◌, refl, ap}
use mathlib.Core.List.{List, [], ◌∷◌, ◌++◌}
use native.Mathlib.Omega.{arith}
use native.Mathlib.Nat.{zero-add, suc-add}
use helpmate_tablebase.Base.Lists.{length, take, drop}

module _ {A : Type 0} where
  pub length-take : (n : ℕ) (xs : List A) → length (take n xs) ≡ min n (length xs)
  length-take zero xs = omega arith
  length-take (suc n) [] = omega arith
  length-take (suc n) (x ∷ xs) = omega (arith, length-take n xs)

  pub length-drop : (n : ℕ) (xs : List A) → length (drop n xs) ≡ length xs - n
  length-drop zero xs = omega arith
  length-drop (suc n) [] = omega arith
  length-drop (suc n) (x ∷ xs) = omega (arith, length-drop n xs)

  pub drop-drop : (m n : ℕ) (xs : List A) → drop m (drop n xs) ≡ drop (n + m) xs
  drop-drop m zero xs = rw (zero-add m) refl
  drop-drop zero (suc n) [] = rw (suc-add n 0) refl
  drop-drop (suc m) (suc n) [] = rw (suc-add n (suc m)) refl
  drop-drop m (suc n) (x ∷ xs) = rw (suc-add n m) (drop-drop m n xs)

  take-drop_le : (n k : ℕ) (xs : List A) → k ≤ n → take k (take n xs) ≡ take k xs
  take-drop_le n zero xs h = refl
  take-drop_le zero (suc k) xs h = absurd (omega arith)
  take-drop_le (suc n) (suc k) [] h = refl
  take-drop_le (suc n) (suc k) (x ∷ xs) h = ap (λ l. x ∷ l) (take-drop_le n k xs (omega arith))

  pub take-drop-take :
      (lo k n : ℕ) (xs : List A) → lo + k ≤ n → take k (drop lo (take n xs)) ≡ take k (drop lo xs)
  take-drop-take zero k n xs h = take-drop_le n k xs (omega arith)
  take-drop-take (suc lo) k zero xs h = absurd (omega arith)
  take-drop-take (suc lo) k (suc n) [] h = refl
  take-drop-take (suc lo) k (suc n) (x ∷ xs) h = take-drop-take lo k n xs (omega arith)

  pub take-append-drop : (k m : ℕ) (xs : List A) → take k xs ++ take m (drop k xs) ≡ take (k + m) xs
  take-append-drop zero m xs = rw (zero-add m) refl
  take-append-drop (suc k) zero [] = rw (suc-add k 0) refl
  take-append-drop (suc k) (suc m) [] = rw (suc-add k (suc m)) refl
  take-append-drop (suc k) m (x ∷ xs) = rw (suc-add k m) (ap (λ l. x ∷ l) (take-append-drop k m xs))

  pub take-drop_all : (n : ℕ) (xs : List A) → take n xs ++ drop n xs ≡ xs
  take-drop_all zero xs = refl
  take-drop_all (suc n) [] = refl
  take-drop_all (suc n) (x ∷ xs) = ap (λ l. x ∷ l) (take-drop_all n xs)
