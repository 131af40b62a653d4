-- ===== src/Base/Total.antt =====
-- Sums over lists: how much the elements weigh, and how many pass a test.
use Prim.Native.Nat.{ℕ, zero, suc, ◌+◌, ◌≤◌}
use mathlib.Core.Path.{◌≡◌, refl}
use mathlib.Core.Bool.{Bool, true, false}
use mathlib.Core.List.{List, [], ◌∷◌, ◌++◌}
use native.Mathlib.Omega.{arith}
use dsh_carbonclub.Base.Tests.{if◌then◌else◌}
use dsh_carbonclub.Base.Lists.{keep, any, drop}

module _ {ℓ} {A : Type ℓ} where
  -- How much the elements of a list weigh.
  unfoldable pub total : (A → ℕ) → List A → ℕ
  total w [] = 0
  total w (x ∷ xs) = w x + total w xs

  pub total-append : (w : A → ℕ) (xs ys : List A) → total w (xs ++ ys) ≡ total w xs + total w ys
  unfolding total
  total-append w [] ys = omega arith
  total-append w (x ∷ xs) ys = omega (arith, total-append w xs ys)

  pub total-keep-le : (w : A → ℕ) (p : A → Bool) (xs : List A) → total w (keep p xs) ≤ total w xs
  unfolding total keep
  total-keep-le w p [] = omega arith
  total-keep-le w p (x ∷ xs) = ground (arith, total-keep-le w p xs)

  abbrev pub one_if : (A → Bool) → A → ℕ
  one_if p x = if p x then 1 else 0

  pub any-false-total : (p : A → Bool) (xs : List A) → any p xs ≡ false → total (one_if p) xs ≡ 0
  unfolding any total
  any-false-total p [] h = refl
  any-false-total p (x ∷ xs) h = ground (arith, any-false-total p xs)

  pub any-true-total : (p : A → Bool) (xs : List A) → any p xs ≡ true → 1 ≤ total (one_if p) xs
  unfolding any total
  any-true-total p [] h = absurd (cc)
  any-true-total p (x ∷ xs) h = ground (arith, any-true-total p xs)

  pub total-drop-le : (w : A → ℕ) (n : ℕ) (xs : List A) → total w (drop n xs) ≤ total w xs
  unfolding total
  total-drop-le w zero xs = omega arith
  total-drop-le w (suc n) [] = omega arith
  total-drop-le w (suc n) (x ∷ xs) = omega (arith, total-drop-le w n xs)
