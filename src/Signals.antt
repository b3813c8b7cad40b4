-- ===== src/Signals.antt =====
-- signal_pending, has_pending_signals and recalc_sigpending of sharedFolderHW2/sched.h. A sigset_t is
-- the function from the index to the word; `words` is _NSIG_WORDS.
pub mod Bits
pub mod Rendered
pub mod Unrolled
use Prim.Native.Nat.{bit_and, bit_or}
use os_hw.Base.{ℕ, zero, suc, ◌-◌, Bool, not, ◌==◌, if◌then◌else◌}
use os_hw.Base.Words.{word_size}
use os_hw.Model.{Kernel, set_task}

unfoldable pub signal_pending : ℕ → Kernel → Bool
signal_pending p k = (k.tasks p).sigpending

-- signal->sig[i] &~ blocked->sig[i]
unfoldable pub unblocked : (ℕ → ℕ) → (ℕ → ℕ) → ℕ → ℕ
unblocked signal blocked i = bit_and (signal i) (word_size - 1 - blocked i)

module _ (signal blocked : ℕ → ℕ) where
  -- The loop of the default case, from the word below `i` down.
  unfoldable pub ready_loop : ℕ → ℕ → ℕ
  unfolding unblocked
  ready_loop zero ready = ready
  ready_loop (suc i) ready = ready_loop i (bit_or ready (unblocked signal blocked i))

  -- The value of `ready` after the switch.
  unfoldable pub ready_words : ℕ → ℕ
  unfolding ready_loop
  ready_words words =
      let w = unblocked signal blocked in
      if words == 4
      then bit_or (bit_or (bit_or (w 3) (w 2)) (w 1)) (w 0)
      else if words == 2
      then bit_or (w 1) (w 0)
      else if words == 1
      then w 0
      else ready_loop words 0

  unfoldable pub has_pending_signals : ℕ → Bool
  unfolding ready_words
  has_pending_signals words = not (ready_words words == 0)

-- recalc_sigpending; `pending` and `masked` are the sets of the tasks.
unfoldable pub recalc_sigpending : ℕ → (ℕ → ℕ → ℕ) → (ℕ → ℕ → ℕ) → ℕ → Kernel → Kernel
unfolding has_pending_signals
recalc_sigpending words pending masked p k =
    let t = k.tasks p in
    set_task k p (record t { sigpending = has_pending_signals (pending p) (masked p) words })
