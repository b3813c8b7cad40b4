-- ===== src/Signals/Unrolled.antt =====
-- What recalc_sigpending of sharedFolderHW2/sched.h finds, bit by bit.
use Prim.Native.Nat.{bit_or, bit_or-bitwise}
use mathlib.Core.Path.{subst}
use os_hw.Base.{
  ℕ, zero, suc, ◌-◌, ◌<◌, ◌≡◌, ◌⊎◌, ◌↔◌, inl, inr, refl, sym, ap, ◌∙◌, true, false, not, ◌&&◌,
  arith, ◌==◌, if_split, ==_refl, ==-cases, Bool-cases,
}
use os_hw.Base.Words.{word_size}
use os_hw.Signals.Bits.{
  bit, bit-zero, bit-bit_and, bit-bit_or, bit-complement, bit-bound, bit-found,
}
use os_hw.Model.{Kernel}
use os_hw.Signals.{
  signal_pending, unblocked, ready_loop, ready_words, has_pending_signals, recalc_sigpending,
}

zero-bit_or : (b : ℕ) → bit_or 0 b ≡ b
zero-bit_or b = bit_or-bitwise 0 b

module _ (signal blocked : ℕ → ℕ) where
  -- The loop through as many words as there are cases for.
  four_words :
      ready_loop signal blocked 4 0
      ≡ bit_or
          (bit_or
            (bit_or (unblocked signal blocked 3) (unblocked signal blocked 2))
            (unblocked signal blocked 1))
          (unblocked signal blocked 0)
  unfolding ready_loop
  four_words =
      let w = unblocked signal blocked in
      ap (λ r. bit_or (bit_or (bit_or r (w 2)) (w 1)) (w 0)) (zero-bit_or (w 3))

  two_words :
      ready_loop signal blocked 2 0
      ≡ bit_or (unblocked signal blocked 1) (unblocked signal blocked 0)
  unfolding ready_loop
  two_words = let w = unblocked signal blocked in ap (λ r. bit_or r (w 0)) (zero-bit_or (w 1))

  one_word : ready_loop signal blocked 1 0 ≡ unblocked signal blocked 0
  unfolding ready_loop
  one_word = zero-bit_or (unblocked signal blocked 0)

  ready_words-ready_loop :
      (words : ℕ) → ready_words signal blocked words ≡ ready_loop signal blocked words 0
  unfolding ready_words
  ready_words-ready_loop words =
      let IsLoop : ℕ → Type 0 = λ r. r ≡ ready_loop signal blocked words 0 in
      if_split IsLoop (words == 4) _ _
        (λ e. let four : words ≡ 4 = ground arith in rw four (sym four_words))
        λ n4.
          if_split IsLoop (words == 2) _ _
            (λ e. let two : words ≡ 2 = ground arith in rw two (sym two_words))
            λ n2.
              if_split IsLoop (words == 1) _ _
                (λ e. let one : words ≡ 1 = ground arith in rw one (sym one_word)) (λ _. refl)

-- A signal that is pending and not blocked, in `words` words of 32 signals each.
abbrev pub HasDeliverable : ℕ → (ℕ → ℕ) → (ℕ → ℕ) → Type 0
HasDeliverable words pending masked =
    (i : ℕ) × (n : ℕ) × (i < words)
    × (n < 32)
    × (bit n (pending i) ≡ true)
    × (bit n (masked i) ≡ false)

module _ (signal blocked : ℕ → ℕ) where
  -- The bits of the loop's result.
  ready_loop_sound :
      (words n ready : ℕ)
      → bit n (ready_loop signal blocked words ready) ≡ true
      → (bit n ready ≡ true) ⊎ ((i : ℕ) × (i < words) × (bit n (unblocked signal blocked i) ≡ true))
  unfolding ready_loop
  ready_loop_sound zero n ready h = inl h
  ready_loop_sound (suc w) n ready h =
      let u = unblocked signal blocked w in
      elim (ready_loop_sound w n (bit_or ready u) h) [
        | inr (i, l, e) ↦ inr (i, omega (arith, l), e)
        | inl e ↦ elim (Bool-cases (bit n ready)) [
          | inl r ↦ inl r
          | inr r ↦ inr (w, omega arith, ground (arith, bit-bit_or n ready u, e, r))
        ]
      ]

  ready_loop_keeps :
      (words n ready : ℕ)
      → bit n ready ≡ true
      → bit n (ready_loop signal blocked words ready) ≡ true
  unfolding ready_loop
  ready_loop_keeps zero n ready h = h
  ready_loop_keeps (suc w) n ready h =
      let u = unblocked signal blocked w in
      ready_loop_keeps w n (bit_or ready u) (ground (arith, bit-bit_or n ready u, h))

  ready_loop_complete :
      (words n ready i : ℕ)
      → i < words
      → bit n (unblocked signal blocked i) ≡ true
      → bit n (ready_loop signal blocked words ready) ≡ true
  unfolding ready_loop
  ready_loop_complete zero n ready i l h = ground (arith, l)
  ready_loop_complete (suc w) n ready i l h =
      let u = unblocked signal blocked w in
      elim (==-cases i w) [
        | inl e ↦
            let here : bit n u ≡ true =
              subst (λ j. bit n (unblocked signal blocked j) ≡ true) e h in
            ready_loop_keeps w n (bit_or ready u) (ground (arith, bit-bit_or n ready u, here))
        | inr ne ↦ ready_loop_complete w n (bit_or ready u) i (omega (arith, l, ne)) h
      ]

  module _ (signal_word : (i : ℕ) → signal i < word_size)
      (blocked_word : (i : ℕ) → blocked i < word_size) where
    bit-unblocked :
        (n i : ℕ)
        → n < 32
        → bit n (unblocked signal blocked i) ≡ bit n (signal i) && not (bit n (blocked i))
    unfolding unblocked
    bit-unblocked n i l =
        bit-bit_and n (signal i) (word_size - 1 - blocked i)
        ∙ ap (λ b. bit n (signal i) && b) (bit-complement 32 n (blocked i) (blocked_word i) l)

    -- A bit of a pending signal is one of 32.
    low-unblocked : (n i : ℕ) → bit n (unblocked signal blocked i) ≡ true → n < 32
    unfolding unblocked
    low-unblocked n i h =
        let both = bit-bit_and n (signal i) (word_size - 1 - blocked i) in
        bit-bound 32 n (signal i) (signal_word i) (ground (arith, both, h))

    ready_loop_found :
        (words : ℕ)
        → not (ready_loop signal blocked words 0 == 0) ≡ true
        → HasDeliverable words signal blocked
    ready_loop_found words h =
        let r = ready_loop signal blocked words 0 in
        elim (bit-found r r (omega arith)) [
          | inl z ↦ ground (arith, h, z)
          | inr (n, e) ↦ elim (ready_loop_sound words n 0 e) [
            | inl none_set ↦ ground (arith, none_set, bit-zero n)
            | inr (i, l, u) ↦
                let low = low-unblocked n i u in
                let both = bit-unblocked n i low in
                (i, n, l, low, ground (arith, both, u), ground (arith, both, u))
          ]
        ]

    ready_loop_finds :
        (words : ℕ)
        → HasDeliverable words signal blocked
        → not (ready_loop signal blocked words 0 == 0) ≡ true
    ready_loop_finds words (i, n, l, low, pending, allowed) =
        let r = ready_loop signal blocked words 0 in
        let u : bit n (unblocked signal blocked i) ≡ true =
          ground (arith, bit-unblocked n i low, pending, allowed) in
        let set = ready_loop_complete words n 0 i l u in
        elim (==-cases r 0) [
          | inl z ↦
              let clear : bit n r ≡ false = ap (bit n) z ∙ bit-zero n in ground (arith, set, clear)
          | inr ne ↦ ground (arith, ne)
        ]

-- After recalc_sigpending of a task, signal_pending of it holds exactly if a bit below 32 in one
-- of the words of the sets is 1 in the set of the pending signals and 0 in that of the blocked
-- ones, for every number of words, also where it takes one of the cases of has_pending_signals
-- that are written out. The words are below 2 ^ 32.
pub signal_pending-recalc_sigpending :
    (words : ℕ) (pending masked : ℕ → ℕ → ℕ) (p : ℕ) (k : Kernel)
    → ((i : ℕ) → pending p i < word_size)
    → ((i : ℕ) → masked p i < word_size)
    → (signal_pending p (recalc_sigpending words pending masked p k) ≡ true)
      ↔ HasDeliverable words (pending p) (masked p)
unfolding signal_pending recalc_sigpending has_pending_signals
signal_pending-recalc_sigpending words pending masked p k pending_word masked_word =
    rw (signal_pending, ==_refl p)
      (subst (λ r. (not (r == 0) ≡ true) ↔ HasDeliverable words (pending p) (masked p))
        (sym (ready_words-ready_loop (pending p) (masked p) words))
        (
          ready_loop_found (pending p) (masked p) pending_word masked_word words,
          ready_loop_finds (pending p) (masked p) pending_word masked_word words,
        ))
