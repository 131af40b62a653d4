-- ===== src/Base/Sort.antt =====
-- `Array.prototype.sort`, which is stable, by a Boolean order.
use Prim.Native.Nat.{ℕ, ◌+◌}
use mathlib.Core.Path.{◌≡◌, refl, sym, ap, ◌∙◌}
use mathlib.Core.Logic.{inl, inr}
use mathlib.Core.Bool.{Bool, true, false}
use mathlib.Core.List.{List, [], ◌∷◌, ◌++◌}
use native.Mathlib.Omega.{arith}
use dsh_carbonclub.Base.Tests.{if◌then◌else◌, Bool-cases}
use dsh_carbonclub.Base.Lists.{length, All, append_nil, append_assoc}
use dsh_carbonclub.Base.Total.{total}

module _ {ℓ} {A : Type ℓ} where
  -- An element goes behind those that are not above it.
  insert_by : (A → A → Bool) → A → List A → List A
  insert_by less x [] = x ∷ []
  insert_by less x (y ∷ ys) = if less x y then x ∷ y ∷ ys else y ∷ insert_by less x ys

  sort_onto : (A → A → Bool) → List A → List A → List A
  sort_onto less done [] = done
  sort_onto less done (x ∷ xs) = sort_onto less (insert_by less x done) xs

  unfoldable pub sort_by : (A → A → Bool) → List A → List A
  unfolding sort_onto insert_by
  sort_by less xs = sort_onto less [] xs

  total-insert_by :
      (less : A → A → Bool) (w : A → ℕ) (x : A) (xs : List A)
      → total w (insert_by less x xs) ≡ w x + total w xs
  unfolding total insert_by
  total-insert_by less w x [] = refl
  total-insert_by less w x (y ∷ ys) = ground (arith, total-insert_by less w x ys)

  total-sort_onto :
      (less : A → A → Bool) (w : A → ℕ) (done xs : List A)
      → total w (sort_onto less done xs) ≡ total w done + total w xs
  unfolding total sort_onto
  total-sort_onto less w done [] = omega arith
  total-sort_onto less w done (x ∷ xs) =
      omega
        (arith, total-sort_onto less w (insert_by less x done) xs, total-insert_by less w x done)

  -- Sorting keeps every weight, and so every count.
  pub total-sort_by :
      (less : A → A → Bool) (w : A → ℕ) (xs : List A) → total w (sort_by less xs) ≡ total w xs
  unfolding sort_by total
  total-sort_by less w xs = omega (arith, total-sort_onto less w [] xs)

  length-total : (xs : List A) → length xs ≡ total (λ _. 1) xs
  unfolding total
  length-total [] = refl
  length-total (x ∷ xs) = omega (arith, length-total xs)

  pub length-sort_by : (less : A → A → Bool) (xs : List A) → length (sort_by less xs) ≡ length xs
  length-sort_by less xs =
      omega (arith, length-total xs, length-total (sort_by less xs), total-sort_by less (λ _. 1) xs)

  -- No element of a list above another.
  abbrev pub Above : (A → A → Bool) → A → A → Type 0
  Above less y z = less z y ≡ false

  abbrev pub IsSorted : (A → A → Bool) → List A → Type 0
  IsSorted less [] = Unit
  IsSorted less (x ∷ xs) = All (Above less x) xs × IsSorted less xs

  All-insert_by {κ} :
      (P : A → Type κ) (less : A → A → Bool) (x : A) (xs : List A)
      → P x
      → All P xs
      → All P (insert_by less x xs)
  unfolding insert_by
  All-insert_by P less x [] p ps = (p, tt)
  All-insert_by P less x (y ∷ ys) p ps = elim (Bool-cases (less x y)) [
    | inl h ↦ rw h (p, ps)
    | inr h ↦ rw h (ps.0, All-insert_by P less x ys p ps.1)
  ]

  All-sort_onto {κ} :
      (P : A → Type κ) (less : A → A → Bool) (done xs : List A)
      → All P done
      → All P xs
      → All P (sort_onto less done xs)
  unfolding sort_onto
  All-sort_onto P less done [] ds ps = ds
  All-sort_onto P less done (x ∷ xs) ds ps =
      All-sort_onto P less (insert_by less x done) xs (All-insert_by P less x done ps.0 ds) ps.1

  -- Sorting keeps what holds of every element.
  pub All-sort_by {κ} :
      (P : A → Type κ) (less : A → A → Bool) (xs : List A) → All P xs → All P (sort_by less xs)
  unfolding sort_by
  All-sort_by P less xs ps = All-sort_onto P less [] xs tt ps

  -- A strict order, where what is not above one element is not above a higher one.
  pub record IsOrder (less : A → A → Bool) : Type ℓ where
    pub asym : (x y : A) → less x y ≡ true → less y x ≡ false
    pub chain : (x y z : A) → less x y ≡ true → less z y ≡ false → less z x ≡ false

  Above-All :
      (less : A → A → Bool) (x y : A) (ys : List A)
      → IsOrder less
      → less x y ≡ true
      → All (Above less y) ys
      → All (Above less x) ys
  Above-All less x y [] order h ps = tt
  Above-All less x y (z ∷ zs) order h ps =
      (order.chain x y z h ps.0, Above-All less x y zs order h ps.1)

  insert_by-IsSorted :
      (less : A → A → Bool) (x : A) (xs : List A)
      → IsOrder less
      → IsSorted less xs
      → IsSorted less (insert_by less x xs)
  unfolding insert_by
  insert_by-IsSorted less x [] order s = (tt, tt)
  insert_by-IsSorted less x (y ∷ ys) order s = elim (Bool-cases (less x y)) [
    | inl h ↦ rw h ((order.asym x y h, Above-All less x y ys order h s.0), s)
    | inr h ↦
        rw h (All-insert_by (Above less y) less x ys h s.0, insert_by-IsSorted less x ys order s.1)
  ]

  sort_onto-IsSorted :
      (less : A → A → Bool) (done xs : List A)
      → IsOrder less
      → IsSorted less done
      → IsSorted less (sort_onto less done xs)
  unfolding sort_onto
  sort_onto-IsSorted less done [] order s = s
  sort_onto-IsSorted less done (x ∷ xs) order s =
      sort_onto-IsSorted less (insert_by less x done) xs order
        (insert_by-IsSorted less x done order s)

  pub sort_by-IsSorted :
      (less : A → A → Bool) (xs : List A) → IsOrder less → IsSorted less (sort_by less xs)
  unfolding sort_by
  sort_by-IsSorted less xs order = sort_onto-IsSorted less [] xs order tt

  insert_by-last :
      (less : A → A → Bool) (x : A) (xs : List A)
      → All (λ y. Above less y x) xs
      → insert_by less x xs ≡ xs ++ x ∷ []
  unfolding insert_by
  insert_by-last less x [] ps = refl
  insert_by-last less x (y ∷ ys) ps =
      rw (ps.0) (ap (λ (l : List A). y ∷ l) (insert_by-last less x ys ps.1))

  pub All-append {κ} : (P : A → Type κ) (xs ys : List A) → All P xs → All P ys → All P (xs ++ ys)
  All-append P [] ys ps qs = qs
  All-append P (x ∷ xs) ys ps qs = (ps.0, All-append P xs ys ps.1 qs)

  -- Every element of the one list is above every one of the other.
  abbrev AllAbove : (A → A → Bool) → List A → List A → Type 0
  AllAbove less done xs = All (λ x. All (λ y. Above less y x) done) xs

  AllAbove-snoc :
      (less : A → A → Bool) (done : List A) (x : A) (xs : List A)
      → All (Above less x) xs
      → AllAbove less done xs
      → AllAbove less (done ++ x ∷ []) xs
  AllAbove-snoc less done x [] ps qs = tt
  AllAbove-snoc less done x (z ∷ zs) ps qs = (
    All-append (λ (y : A). Above less y z) done (x ∷ []) qs.0 (ps.0, tt),
    AllAbove-snoc less done x zs ps.1 qs.1,
  )

  sort_onto-sorted :
      (less : A → A → Bool) (done xs : List A)
      → IsSorted less xs
      → AllAbove less done xs
      → sort_onto less done xs ≡ done ++ xs
  unfolding sort_onto
  sort_onto-sorted less done [] s ps = sym (append_nil done)
  sort_onto-sorted less done (x ∷ xs) s ps = rw (insert_by-last less x done ps.0) (
      sort_onto-sorted less (done ++ x ∷ []) xs s.1 (AllAbove-snoc less done x xs s.0 ps.1)
      ∙ append_assoc done (x ∷ []) xs)

  AllAbove-nil : (less : A → A → Bool) (xs : List A) → AllAbove less [] xs
  AllAbove-nil less [] = tt
  AllAbove-nil less (x ∷ xs) = (tt, AllAbove-nil less xs)

  -- Sorting leaves a sorted list as it is.
  pub sort_by-sorted : (less : A → A → Bool) (xs : List A) → IsSorted less xs → sort_by less xs ≡ xs
  unfolding sort_by
  sort_by-sorted less xs s = sort_onto-sorted less [] xs s (AllAbove-nil less xs)
