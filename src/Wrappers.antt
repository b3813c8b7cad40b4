-- ===== src/Wrappers.antt =====
-- The functions of sharedFolderHW2/hw2_syscalls.h with which programs call the kernel. The numbers of
-- <asm/errno.h> are a parameter.
pub mod Answers
use os_hw.Base.{ℕ, ◌-◌, ◌^◌, leb, if◌then◌else◌}
use os_hw.Base.Int.{ℤ, negsuc}
use os_hw.Base.Words.{sub, to_word, to_int, word_size}
use os_hw.Model.{Env, Kernel, Errno, Retval, value, fail}
use os_hw.Syscalls.{sys_is_short, sys_short_remaining_time, sys_was_short}

-- What a call leaves for the program: its answer and errno.
pub record Seen : Type 0 where
  pub answer : ℤ
  pub errno : ℤ

-- From the register that the kernel answers in.
unfoldable pub finish_call : ℕ → ℤ → Seen
finish_call res errno =
    if leb (word_size - 125) res
    then record { answer = to_int (word_size - 1); errno = to_int (sub 0 res) }
    else record { answer = to_int res; errno = errno }

module _ (number : Errno → ℕ) where
  -- The register, for what a function of the kernel returns.
  unfoldable pub register : Retval → ℕ
  register (value v) = to_word v
  register (fail e) = sub 0 (number e)

  unfoldable pub is_short : ℤ → Kernel → ℤ → Seen
  unfolding finish_call register
  is_short pid k errno = finish_call (register (sys_is_short pid k)) errno

  unfoldable pub short_remaining_time : Env → ℤ → Kernel → ℤ → Seen
  unfolding finish_call register
  short_remaining_time env pid k errno =
      finish_call (register (sys_short_remaining_time env pid k)) errno

  unfoldable pub was_short : ℤ → Kernel → ℤ → Seen
  unfolding finish_call register
  was_short pid k errno = finish_call (register (sys_was_short pid k)) errno
