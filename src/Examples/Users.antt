-- ===== src/Examples/Users.antt =====
-- Niceness, the getters and the wait queues at concrete states.
use os_hw.Base.{◌≡◌, refl, true, false, [], ◌∷◌}
use os_hw.Base.Int.{negsuc}
use os_hw.Nice.{set_user_nice}
use os_hw.Nice.Outcome.{set_user_nice_unflagged}
use os_hw.Samples.{sample_env, sample_kernel, sample_kernel-IsValid}
use os_hw.Valid.{IsValid}
use os_hw.Wait.{Waiter, wake_up_common}
use os_hw.Wait.Invariant.{Awaited, wake_up_common-IsValid}

set_user_nice_unflagged_example :
    ((set_user_nice 1 (negsuc 4) sample_kernel).tasks 0).need_resched ≡ false
set_user_nice_unflagged_example =
    set_user_nice_unflagged 1 0 (negsuc 4) sample_kernel sample_kernel-IsValid (λ e. cc) (λ e. cc)

-- The tasks 1 and 2 wait, the second one for itself alone.
abbrev waiter_1 : Waiter
waiter_1 = record { task = 1; exclusive = false }

abbrev waiter_2 : Waiter
waiter_2 = record { task = 2; exclusive = true }

both-Awaited : Awaited 0 (waiter_1 ∷ waiter_2 ∷ [])
unfolding Awaited
both-Awaited = ((λ e. cc), ((λ e. cc), refl))

wake_up_common-IsValid_example :
    IsValid (wake_up_common sample_env (waiter_1 ∷ waiter_2 ∷ []) 3 1 sample_kernel)
wake_up_common-IsValid_example =
    wake_up_common-IsValid sample_env (waiter_1 ∷ waiter_2 ∷ []) 3 1 sample_kernel
      sample_kernel-IsValid both-Awaited
