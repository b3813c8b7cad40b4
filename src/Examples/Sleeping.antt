-- ===== src/Examples/Sleeping.antt =====
-- Sleeping on a wait queue at a concrete machine.
use mathlib.Core.Path.{subst}
use os_hw.Base.{
  ℕ, suc, ◌+◌, ◌<◌, ◌≡◌, ◌≢◌, refl, some, List, [], ◌∷◌, ◌++◌, arith, ◌==◌, if◌then◌else◌,
}
use os_hw.Base.Words.{dec}
use os_hw.Samples.{sample_kernel}
use os_hw.Wait.{Waiter}
use os_hw.Wait.Sleep.{
  Waiting, WaitEnv, wait_for_completion, sleep_once, slept, awaiter, queued,
  wait_for_completion_lem,
}

remove_waiter : ℕ → List Waiter → List Waiter
remove_waiter p [] = []
remove_waiter p (w ∷ ws) = let rest = remove_waiter p ws in if p == w.task then rest else w ∷ rest

-- Others finish what is waited for while the clock ticks from 1001 to 1002.
abbrev ticking : WaitEnv (List Waiter)
ticking = record {
  add = λ w q. w ∷ q;
  add_tail = λ w q. q ++ w ∷ [];
  remove = λ w q. remove_waiter w.task q;
  schedule = λ s. record s {
    kernel = record s.kernel { jiffies = s.kernel.jiffies + 1 };
    done = if s.kernel.jiffies == 1001 then 1 else s.done;
  };
  schedule_timeout = λ t s. (s, t);
}

abbrev before : Waiting (List Waiter)
before = record { kernel = sample_kernel; queue = []; done = 0 }

still_waiting : (i : ℕ) → i < 1 → (slept ticking (suc i) (queued ticking before)).done ≡ 0
unfolding slept sleep_once
still_waiting i h =
    let zeroth : 0 ≡ i = ground (arith, h) in
    subst (λ j. (slept ticking (suc j) (queued ticking before)).done ≡ 0) zeroth refl

then_done : (slept ticking 2 (queued ticking before)).done ≢ 0
unfolding slept sleep_once
then_done h = ground (arith, h)

wait_for_completion_lem_example :
    let last = slept ticking 2 (queued ticking before) in
    wait_for_completion ticking 5 before
    ≡ some (record last {
      queue = ticking.remove (awaiter ticking before) last.queue;
      done = dec last.done;
    })
wait_for_completion_lem_example =
    wait_for_completion_lem ticking 1 5 before refl (omega arith) still_waiting then_done
