-- ===== src/Base/Lists.antt =====
-- Lists of task numbers: membership by counting, removal, and sums over the places below a bound.
use Prim.Native.Nat.{ℕ, zero, suc, ◌+◌, ◌<◌}
use mathlib.Core.Path.{◌≡◌, refl}
use mathlib.Core.Logic.{◌≢◌, ◌⊎◌, inl, inr}
use mathlib.Core.Bool.{Bool, true, false}
use mathlib.Core.Option.{Option, none, some}
use mathlib.Core.List.{List, [], ◌∷◌, ◌++◌}
use native.Mathlib.Omega.{arith}
use os_hw.Base.Tests.{◌==◌, if◌then◌else◌}

module _ {ℓ} {A : Type ℓ} where
  abbrev pub length : List A → ℕ
  length [] = 0
  length (x ∷ xs) = suc (length xs)

  abbrev pub is_empty : List A → Bool
  is_empty [] = true
  is_empty (x ∷ xs) = false

  abbrev pub first : List A → Option A
  first [] = none
  first (x ∷ xs) = some x

  pub length-append : (xs ys : List A) → length (xs ++ ys) ≡ length xs + length ys
  length-append [] ys = omega arith
  length-append (x ∷ xs) ys = omega (arith, length-append xs ys)

  pub is_empty-snoc : (xs : List A) (y : A) → is_empty (xs ++ y ∷ []) ≡ false
  is_empty-snoc [] y = refl
  is_empty-snoc (x ∷ xs) y = refl

unfoldable pub count : ℕ → List ℕ → ℕ
count p [] = 0
count p (x ∷ xs) = let rest = count p xs in if p == x then suc rest else rest

unfoldable pub remove : ℕ → List ℕ → List ℕ
remove p [] = []
remove p (x ∷ xs) = let rest = remove p xs in if p == x then rest else x ∷ rest

pub count-append : (p : ℕ) (xs ys : List ℕ) → count p (xs ++ ys) ≡ count p xs + count p ys
unfolding count
count-append p [] ys = omega arith
count-append p (x ∷ xs) ys = ground (arith, count-append p xs ys)

pub count-remove :
    (q p : ℕ) (xs : List ℕ) → count q (remove p xs) ≡ (if q == p then 0 else count q xs)
unfolding count remove
count-remove q p [] = ground arith
count-remove q p (x ∷ xs) = ground (arith, count-remove q p xs)

pub length-remove : (p : ℕ) (xs : List ℕ) → length (remove p xs) + count p xs ≡ length xs
unfolding count remove
length-remove p [] = omega arith
length-remove p (x ∷ xs) = ground (arith, length-remove p xs)

pub remove_absent : (p : ℕ) (xs : List ℕ) → count p xs ≡ 0 → remove p xs ≡ xs
unfolding count remove
remove_absent p [] h = refl
remove_absent p (x ∷ xs) h = ground (arith, remove_absent p xs)

pub count_empty : (p : ℕ) (xs : List ℕ) → is_empty xs ≡ true → count p xs ≡ 0
unfolding count
count_empty p [] h = refl
count_empty p (x ∷ xs) h = ground arith

pub count-first : (p : ℕ) (xs : List ℕ) → first xs ≡ some p → 0 < count p xs
unfolding count
count-first p [] h = ground arith
count-first p (x ∷ xs) h = ground arith

-- `sum_below n f` is `f 0 + ... + f (n - 1)`.
unfoldable pub sum_below : ℕ → (ℕ → ℕ) → ℕ
sum_below zero f = 0
sum_below (suc n) f = sum_below n f + f n

pub sum_below-ext :
    (n : ℕ) (f g : ℕ → ℕ) → ((i : ℕ) → i < n → f i ≡ g i) → sum_below n f ≡ sum_below n g
unfolding sum_below
sum_below-ext zero f g h = refl
sum_below-ext (suc n) f g h =
    omega (arith, h n (omega arith), sum_below-ext n f g (λ i l. h i (omega arith)))

pub sum_below-add :
    (n : ℕ) (f g : ℕ → ℕ) → sum_below n (λ i. f i + g i) ≡ sum_below n f + sum_below n g
unfolding sum_below
sum_below-add zero f g = omega arith
sum_below-add (suc n) f g = omega (arith, sum_below-add n f g)

pub sum_below_zero : (n : ℕ) (f : ℕ → ℕ) → ((i : ℕ) → i < n → f i ≡ 0) → sum_below n f ≡ 0
unfolding sum_below
sum_below_zero zero f h = refl
sum_below_zero (suc n) f h =
    omega (arith, h n (omega arith), sum_below_zero n f (λ i l. h i (omega arith)))

pub ==-cases : (a b : ℕ) → (a ≡ b) ⊎ (a ≢ b)
==-cases a b = omega arith

-- A change by one at one place changes the sum by one.
pub sum_below_bump :
    (n k : ℕ) (f g : ℕ → ℕ)
    → k < n
    → ((i : ℕ) → i < n → g i ≡ f i + (if k == i then 1 else 0))
    → sum_below n g ≡ sum_below n f + 1
unfolding sum_below
sum_below_bump zero k f g h e = elim h [ ]
sum_below_bump (suc n) k f g h e = elim (==-cases k n) [
  | inl same ↦
      omega (arith, bumped same, sum_below-ext n g f (λ i l. ground (arith, e i (omega arith))))
  | inr other ↦
      omega (arith, kept other, sum_below_bump n k f g (omega arith) (λ i l. e i (omega arith)))
]
  where
    bumped : k ≡ n → g n ≡ f n + 1
    bumped same = ground (arith, e n (omega arith))

    kept : k ≢ n → g n ≡ f n
    kept other = ground (arith, e n (omega arith))
