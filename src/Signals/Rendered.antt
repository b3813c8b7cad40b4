-- ===== src/Signals/Rendered.antt =====
-- render_sigset_t of sharedFolderHW2/sched.c, which writes a set of signals in hexadecimal digits.
use mathlib.Core.Path.{subst}
use os_hw.Base.{
  ℕ, zero, suc, ◌+◌, ◌-◌, ◌*◌, ◌/◌, ◌%◌, ◌^◌, ◌≤◌, ◌<◌, ◌≡◌, refl, ap, ◌∙◌, Bool, false, ◌&&◌, List,
  [], ◌∷◌, length, ltb, leb, ◌==◌, if◌then◌else◌, arith, ==-cases, inl, inr, if_split,
}

-- The four signals after `i`, as a number.
unfoldable pub nibble : (ℕ → Bool) → ℕ → ℕ
nibble set i =
    (if set (i + 1) then 1 else 0)
    + (if set (i + 2) then 2 else 0)
    + (if set (i + 3) then 4 else 0)
    + (if set (i + 4) then 8 else 0)

-- '0' is 48, and 'a' is 97.
unfoldable pub digit : ℕ → ℕ
digit x = (if ltb x 10 then 48 else 97 - 10) + x

-- The buffer, without the zero that ends it, for 4 * `n` signals.
unfoldable pub render_sigset_t : ℕ → (ℕ → Bool) → List ℕ
unfolding nibble digit
render_sigset_t zero set = []
render_sigset_t (suc n) set = digit (nibble set (4 * n)) ∷ render_sigset_t n set

-- What a digit stands for, and its bits.
unfoldable pub value_of : ℕ → ℕ
value_of c = if ltb c 58 then c - 48 else c - 87

unfoldable pub has_bit : ℕ → ℕ → Bool
has_bit v k = v / 2 ^ k % 2 == 1

-- Whether a signal is in the set that is written.
unfoldable pub read_member : List ℕ → ℕ → Bool
unfolding value_of has_bit
read_member [] sig = false
read_member (c ∷ cs) sig =
    let rest = read_member cs sig in
    let low = 4 * length cs in
    if ltb low sig && leb sig (low + 4) then has_bit (value_of c) (sig - low - 1) else rest

length-render_sigset_t : (n : ℕ) (set : ℕ → Bool) → length (render_sigset_t n set) ≡ n
unfolding render_sigset_t
length-render_sigset_t zero set = refl
length-render_sigset_t (suc n) set = ap suc (length-render_sigset_t n set)

value_of-digit : (x : ℕ) → value_of (digit x) ≡ x
unfolding value_of digit
value_of-digit x = ground arith

-- The bits of four tests.
bits_of_four :
    (a b c d : Bool)
    → let v =
        (if a then 1 else 0) + (if b then 2 else 0) + (if c then 4 else 0) + (if d then 8 else 0) in
      (has_bit v 0 ≡ a) × ((has_bit v 1 ≡ b) × ((has_bit v 2 ≡ c) × (has_bit v 3 ≡ d)))
unfolding has_bit
bits_of_four a b c d = ground arith

nibble-has_bit : (set : ℕ → Bool) (i k : ℕ) → k < 4 → has_bit (nibble set i) k ≡ set (i + k + 1)
unfolding nibble
nibble-has_bit set i k h =
    let bits = bits_of_four (set (i + 1)) (set (i + 2)) (set (i + 3)) (set (i + 4)) in
    let P : ℕ → Type 0 = λ j. has_bit (nibble set i) j ≡ set (i + j + 1) in
    elim (==-cases 0 k) [
      | inl e ↦ subst P e (bits.0 ∙ ap set (omega arith))
      | inr a ↦ elim (==-cases 1 k) [
        | inl e ↦ subst P e (bits.1.0 ∙ ap set (omega arith))
        | inr b ↦ elim (==-cases 2 k) [
          | inl e ↦ subst P e (bits.1.1.0 ∙ ap set (omega arith))
          | inr c ↦
              let e : 3 ≡ k = omega (arith, h, a, b, c) in
              subst P e (bits.1.1.1 ∙ ap set (omega arith))
        ]
      ]
    ]

-- The digits that render_sigset_t writes of a set of 4 * n signals, read back, tell of each signal
-- from 1 to 4 * n whether it is in the set.
pub read_member-render_sigset_t :
    (n : ℕ) (set : ℕ → Bool) (sig : ℕ)
    → 1 ≤ sig
    → sig ≤ 4 * n
    → read_member (render_sigset_t n set) sig ≡ set sig
unfolding render_sigset_t read_member
read_member-render_sigset_t zero set sig low high = ground (arith, low, high)
read_member-render_sigset_t (suc n) set sig low high =
    let len = length-render_sigset_t n set in
    let start : 4 * length (render_sigset_t n set) ≡ 4 * n = omega (arith, len) in
    if_split (λ b. b ≡ set sig)
      (ltb (4 * length (render_sigset_t n set)) sig
        && leb sig (4 * length (render_sigset_t n set) + 4))
      _ _
      (λ b.
        let past : 4 * n < sig = ground (arith, b, start) in
        let place : sig - 4 * length (render_sigset_t n set) - 1 < 4 = omega (arith, high, start) in
        ap (λ v. has_bit v (sig - 4 * length (render_sigset_t n set) - 1))
          (value_of-digit (nibble set (4 * n)))
        ∙ nibble-has_bit set (4 * n) (sig - 4 * length (render_sigset_t n set) - 1) place
        ∙ ap set (omega (arith, past, start)))
      (λ b. read_member-render_sigset_t n set sig low (ground (arith, b, start, high)))
