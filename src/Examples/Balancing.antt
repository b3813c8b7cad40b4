-- ===== src/Examples/Balancing.antt =====
-- Load balancing at a concrete machine of two processors.
use os_hw.Base.{
  ℕ, zero, suc, ◌+◌, ◌-◌, ◌≤◌, ◌<◌, ◌≡◌, ◌≢◌, refl, Bool, true, none, some, [], ◌∷◌, arith, leb,
  ◌==◌, if◌then◌else◌,
}
use os_hw.Base.Int.{pos}
use os_hw.Balance.{load_of, find_busiest, double_lock_balance, pull_tasks, load_balance}
use os_hw.Balance.State.{Smp, SmpEnv}
use os_hw.Balance.Busiest.{IsInjective, IsChosen, IsOnlySaved, find_busiest_lem}
use os_hw.Balance.Moves.{IsPulled, pull_tasks-IsPulled}
use os_hw.Balance.Runs.{IsNextBit, IsApart, load_balance_ends}
use os_hw.Model.{PrioArray, max_prio}
use os_hw.Samples.{first_bit, sample_task, sample_array, sample_kernel}

first_bit-bounds : (n i : ℕ) (m : ℕ → Bool) → (i ≤ first_bit n i m) × (first_bit n i m ≤ i + n)
unfolding first_bit
first_bit-bounds zero i m = (omega arith, omega arith)
first_bit-bounds (suc n) i m = ground (arith, first_bit-bounds n (suc i) m)

next_bit : (ℕ → Bool) → ℕ → ℕ → ℕ
next_bit m size i = if leb i size then first_bit (size - i) i m else size

abbrev two_cpus : SmpEnv
two_cpus = record {
  smp_num_cpus = 2;
  cpu_logical_map = λ i. i;
  cpu_online_map = 3;
  cache_decay_ticks = 1;
  hz = 100;
  sched_find_first_bit = first_bit 141 0;
  find_next_bit = next_bit;
  ffs = λ w. 0;
  spin_trylock = λ c m. true;
  spin_lock = λ c m. m;
  down = λ p m. m;
  up = λ p m. m;
  cpu_relax = λ m. m;
  wake_up_process = λ p m. m;
}

two_cpus-IsInjective : IsInjective two_cpus
two_cpus-IsInjective i j h l e = e

two_cpus-IsNextBit : IsNextBit two_cpus
unfolding next_bit
two_cpus-IsNextBit = record {
  le = λ v i. ground (arith, first_bit-bounds (max_prio - i) i v);
  ge = λ v i h. ground (arith, first_bit-bounds (max_prio - i) i v);
  past = λ v i h. ground arith;
}

-- The processor 1 runs task 5, and has 6, 7 and 8 expired; the processor 0 is idle.
abbrev full_array : PrioArray
full_array = record {
  nr_active = 3;
  bitmap = λ i. if i == 120 then true else i == max_prio;
  queue = λ i. if i == 120 then 6 ∷ 7 ∷ 8 ∷ [] else [];
}

abbrev two_runqueues : Smp
two_runqueues = record {
  kernel = record sample_kernel {
    arrays = λ a. if a == 5 then full_array else sample_array;
    jiffies = 900;
    tasks = λ p. record (sample_task p) { cpus_allowed = 3 };
  };
  rqs = λ c. record {
    nr_running = if c == 1 then 4 else 0;
    nr_switches = 0;
    expired_timestamp = 0;
    rt_short = if c == 1 then 6 else 2;
    overdue = if c == 1 then 7 else 3;
    nr_uninterruptible = 0;
    curr = if c == 1 then 5 else 0;
    idle = 0;
    active = if c == 1 then 4 else 0;
    expired = if c == 1 then 5 else 1;
    prev_nr_running = λ d. 4;
    migration_thread = 9;
    migration_queue = [];
  };
  cpu = λ p. 1;
  sent = [];
}

always-IsApart : (q : ℕ) → IsApart q two_runqueues
always-IsApart q = ground arith

find_busiest_lem_example :
    let (found, m') = find_busiest two_cpus true 0 two_runqueues in
    ((i : ℕ)
      → i < 2
      → ((m'.rqs 0).prev_nr_running i ≡ (two_runqueues.rqs i).nr_running)
        × (i ≢ 0 → load_of true 0 i two_runqueues ≤ found.max_load))
    × (IsChosen two_cpus true 0 two_runqueues found.busiest found.max_load
        × IsOnlySaved two_cpus true 0 two_runqueues m')
find_busiest_lem_example = find_busiest_lem two_cpus true 0 two_cpus-IsInjective two_runqueues

load_balance_ends_example : (m' : Smp) × (load_balance two_cpus 282 0 true two_runqueues ≡ some m')
load_balance_ends_example =
    load_balance_ends two_cpus two_cpus-IsNextBit two_cpus-IsInjective (λ c m apart. apart) 282 0
      true two_runqueues always-IsApart (omega arith)

abbrev after_pull : Smp
after_pull = elim (pull_tasks two_cpus 2 true 0 1 0 (pos 2) two_runqueues) as (λ o. Smp) [
  | none ↦ two_runqueues
  | some m ↦ m
]

pulled_one : pull_tasks two_cpus 2 true 0 1 0 (pos 2) two_runqueues ≡ some after_pull
unfolding pull_tasks first_bit
pulled_one = refl

pull_tasks-IsPulled_example :
    IsPulled two_cpus 1 0 (double_lock_balance two_cpus 0 1 true 0 two_runqueues).1 after_pull
pull_tasks-IsPulled_example =
    pull_tasks-IsPulled two_cpus 1 0 2 true 0 (pos 2) two_runqueues after_pull (omega arith)
      pulled_one
