-- ===== src/Examples/Families.antt =====
-- The links between processes, and the affinity of one, at concrete states.
use os_hw.Base.{
  ℕ, ◌≡◌, ◌↔◌, ◌≢◌, refl, true, none, some, [], ◌∷◌, arith, count, ◌==◌, if◌then◌else◌,
}
use os_hw.Base.Int.{pos}
use os_hw.Affinity.{sys_sched_setaffinity}
use os_hw.Affinity.Outcome.{IsUnchanged, sys_sched_setaffinity-IsUnchanged}
use os_hw.Family.{Relatives, set_links, remove_links}
use os_hw.Family.RoundTrip.{IsSameBut, remove_links-set_links}
use os_hw.Links.Ring.{IsRing}
use os_hw.Model.{good}
use os_hw.Signals.{signal_pending, recalc_sigpending}
use os_hw.Signals.Unrolled.{HasDeliverable, signal_pending-recalc_sigpending}
use os_hw.Samples.{sample_env, sample_kernel}

-- Process 0 is init_task, and 1 its only child.
abbrev two_processes : Relatives
two_processes = record {
  tasks = record { next = λ q. if q == 0 then 1 else 0; prev = λ q. if q == 0 then 1 else 0 };
  p_cptr = λ q. if q == 0 then some 1 else none;
  p_ysptr = λ q. none;
  p_osptr = λ q. none;
  p_pptr = λ q. 0;
}

two_processes-IsRing : IsRing two_processes.tasks 0 (1 ∷ [])
unfolding count
two_processes-IsRing = record { path = ground arith; distinct = λ q. ground arith }

five_is_new : count 5 (0 ∷ 1 ∷ []) ≡ 0
unfolding count
five_is_new = refl

one_is_youngest :
    (c : ℕ)
    → two_processes.p_cptr (two_processes.p_pptr 5) ≡ some c
    → (c ≢ 5) × (two_processes.p_ysptr c ≡ none)
one_is_youngest c e = (λ same. ground arith, refl)

remove_links-set_links_example :
    IsRing (remove_links 5 (set_links 0 5 two_processes)).tasks 0 (1 ∷ [])
    × IsSameBut 5 two_processes (remove_links 5 (set_links 0 5 two_processes))
remove_links-set_links_example =
    remove_links-set_links 0 5 (1 ∷ []) two_processes two_processes-IsRing five_is_new
      one_is_youngest

sys_sched_setaffinity-IsUnchanged_example :
    IsUnchanged sample_env sample_kernel
      (sys_sched_setaffinity sample_env 1 (pos 2) 4 (good 3) sample_kernel)
sys_sched_setaffinity-IsUnchanged_example =
    sys_sched_setaffinity-IsUnchanged sample_env 1 (pos 2) 4 (good 3) sample_kernel

-- Task 3 has the signals 0 and 2 pending, and blocks the first.
signal_pending-recalc_sigpending_example :
    (signal_pending 3 (
        recalc_sigpending 2
          (λ p i. if i == 0 then 5 else 0)
          (λ p i. if i == 0 then 1 else 0)
          3
          sample_kernel)
      ≡ true)
    ↔ HasDeliverable 2 (λ i. if i == 0 then 5 else 0) (λ i. if i == 0 then 1 else 0)
signal_pending-recalc_sigpending_example =
    signal_pending-recalc_sigpending 2 (λ p i. if i == 0 then 5 else 0)
      (λ p i. if i == 0 then 1 else 0) 3 sample_kernel (λ i. ground arith) (λ i. ground arith)
