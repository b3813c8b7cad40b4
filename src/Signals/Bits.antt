-- ===== src/Signals/Bits.antt =====
-- The bits of a word, and of the operations on words that Signals uses.
use Prim.Native.Nat.{bit_and, bit_or, bit_and-bitwise, bit_or-bitwise, digits, min, max}
use os_hw.Base.{
  ℕ, zero, suc, ◌+◌, ◌-◌, ◌*◌, ◌/◌, ◌%◌, ◌^◌, ◌≤◌, ◌<◌, ◌≡◌, ◌⊎◌, inl, inr, refl, ap, ◌∙◌, Bool,
  true, false, not, ◌&&◌, ◌||◌, arith, ◌==◌, Bool-cases,
}

-- Bit `n` of a number, the lowest being bit 0.
unfoldable pub bit : ℕ → ℕ → Bool
bit zero x = x % 2 == 1
bit (suc n) x = bit n (x / 2)

pub bit-zero : (n : ℕ) → bit n 0 ≡ false
unfolding bit
bit-zero zero = refl
bit-zero (suc n) = bit-zero n

-- A number that ends in the digit `r`.
bit-shift : (n d r : ℕ) → r ≤ 1 → bit (suc n) (d * 2 + r) ≡ bit n d
unfolding bit
bit-shift n d r l = let e : (d * 2 + r) / 2 ≡ d = omega arith in ap (bit n) e

bit-digits-min :
    (fuel n a b : ℕ) → a ≤ fuel → bit n (digits (λ b. 0) min fuel a b) ≡ bit n a && bit n b
unfolding bit
bit-digits-min zero n zero b l = ground (arith, bit-zero n)
bit-digits-min zero n (suc a) b l = ground arith
bit-digits-min (suc fuel) n zero b l = ground (arith, bit-zero n)
bit-digits-min (suc fuel) zero (suc a) b l = ground arith
bit-digits-min (suc fuel) (suc n) (suc a) b l =
    bit-shift n (digits (λ b. 0) min fuel (suc a / 2) (b / 2)) (min (suc a % 2) (b % 2))
      (omega arith)
    ∙ bit-digits-min fuel n (suc a / 2) (b / 2) (omega arith)

bit-digits-max :
    (fuel n a b : ℕ) → a ≤ fuel → bit n (digits (λ b. b) max fuel a b) ≡ bit n a || bit n b
unfolding bit
bit-digits-max zero n zero b l = ground (arith, bit-zero n)
bit-digits-max zero n (suc a) b l = ground arith
bit-digits-max (suc fuel) n zero b l = ground (arith, bit-zero n)
bit-digits-max (suc fuel) zero (suc a) b l = ground arith
bit-digits-max (suc fuel) (suc n) (suc a) b l =
    bit-shift n (digits (λ b. b) max fuel (suc a / 2) (b / 2)) (max (suc a % 2) (b % 2))
      (omega arith)
    ∙ bit-digits-max fuel n (suc a / 2) (b / 2) (omega arith)

pub bit-bit_and : (n a b : ℕ) → bit n (bit_and a b) ≡ bit n a && bit n b
bit-bit_and n a b = ap (bit n) (bit_and-bitwise a b) ∙ bit-digits-min a n a b (omega arith)

pub bit-bit_or : (n a b : ℕ) → bit n (bit_or a b) ≡ bit n a || bit n b
bit-bit_or n a b = ap (bit n) (bit_or-bitwise a b) ∙ bit-digits-max a n a b (omega arith)

-- The complement in `w` bits.
pub bit-complement : (w n b : ℕ) → b < 2 ^ w → n < w → bit n (2 ^ w - 1 - b) ≡ not (bit n b)
unfolding bit
bit-complement zero n b lb ln = ground (arith, ln)
bit-complement (suc w) zero b lb ln =
    let e : 2 ^ suc w ≡ 2 ^ w * 2 = omega arith in ground (arith, e, lb)
bit-complement (suc w) (suc n) b lb ln =
    let e : 2 ^ suc w ≡ 2 ^ w * 2 = omega arith in
    let h : (2 ^ suc w - 1 - b) / 2 ≡ 2 ^ w - 1 - b / 2 = omega (arith, e, lb) in
    ap (bit n) h ∙ bit-complement w n (b / 2) (omega (arith, e, lb)) (omega (arith, ln))

pub bit-bound : (w n x : ℕ) → x < 2 ^ w → bit n x ≡ true → n < w
unfolding bit
bit-bound zero n zero l h = ground (arith, bit-zero n, h)
bit-bound zero n (suc x) l h = omega (arith, l)
bit-bound (suc w) zero x l h = omega arith
bit-bound (suc w) (suc n) x l h =
    let e : 2 ^ suc w ≡ 2 ^ w * 2 = omega arith in
    let less = bit-bound w n (x / 2) (omega (arith, e, l)) h in omega (arith, less)

-- A number other than 0 has a bit that is set.
pub bit-found : (fuel x : ℕ) → x ≤ fuel → (x ≡ 0) ⊎ ((n : ℕ) × (bit n x ≡ true))
unfolding bit
bit-found zero x l = inl (omega (arith, l))
bit-found (suc fuel) x l = elim (Bool-cases (x % 2 == 1)) [
  | inl e ↦ inr (0, e)
  | inr e ↦ elim (bit-found fuel (x / 2) (omega (arith, l))) [
    | inl z ↦ inl (ground (arith, e, z))
    | inr (n, h) ↦ inr (suc n, h)
  ]
]
