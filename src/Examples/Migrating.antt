-- ===== src/Examples/Migrating.antt =====
-- Migration at a concrete machine of two processors, and copies in pieces.
use os_hw.Base.{
  ℕ, ◌+◌, ◌-◌, ◌*◌, ◌≡◌, ◌≢◌, refl, true, some, [], ◌∷◌, ◌++◌, ◌&&◌, remove, arith, ◌==◌,
  if◌then◌else◌,
}
use os_hw.Base.Int.{pos}
use os_hw.Base.Words.{inc, dec}
use os_hw.Balance.State.{Smp, SmpEnv}
use os_hw.LowLatency.{CopyEnv, ll_copy_to_user, ll_copy_from_user}
use os_hw.LowLatency.Remainder.{answered, ll_copy_lem}
use os_hw.Migration.{migrate}
use os_hw.Migration.Locks.{after_relax}
use os_hw.Migration.Requests.{migrate_lem}
use os_hw.Prio.{short_task, rt_task, overdue_task}
use os_hw.Samples.{sample_env, sample_task, sample_kernel}

-- The task 7 stands on the array 0; the tasks 20 and 21 run.
abbrev two_processors : Smp
two_processors = record {
  kernel = record sample_kernel {
    tasks = λ p. if p == 7 then record (sample_task 7) { array = some 0 } else sample_task p;
  };
  rqs = λ c. record {
    nr_running = 2;
    nr_switches = 0;
    expired_timestamp = 0;
    nr_uninterruptible = 0;
    curr = 20 + c;
    idle = 0;
    active = 4 * c;
    expired = 4 * c + 1;
    rt_short = 4 * c + 2;
    overdue = 4 * c + 3;
    prev_nr_running = λ d. 0;
    migration_thread = 9;
    migration_queue = [];
  };
  cpu = λ p. 0;
  sent = [];
}

abbrev quiet : SmpEnv
quiet = record {
  smp_num_cpus = 2;
  cpu_logical_map = λ i. i;
  cpu_online_map = 3;
  cache_decay_ticks = 1;
  hz = 100;
  sched_find_first_bit = λ v. 0;
  find_next_bit = λ v size i. size;
  ffs = λ w. 1;
  spin_trylock = λ c m. true;
  spin_lock = λ c m. m;
  down = λ p m. m;
  up = λ p m. m;
  cpu_relax = λ m. record m { rqs = λ c. record (m.rqs c) { curr = 30 } };
  wake_up_process = λ p m. m;
}

migrate_lem_example :
    let m' = migrate sample_env quiet 0 7 0 1 two_processors in
    let k = two_processors.kernel in
    let k' = m'.kernel in
    ((k'.tasks 7).array ≡ some 4)
    × (((b i : ℕ)
          → let others = remove 7 ((k.arrays b).queue i) in
            (k'.arrays b).queue i
            ≡ (if 4 == b && (k'.tasks 7).prio == i then others ++ 7 ∷ [] else others))
        × (((m'.rqs 0).nr_running ≡ dec 2)
            × (((m'.rqs 1).nr_running ≡ inc 2)
                × (((q : ℕ) → m'.cpu q ≡ (if 7 == q then 1 else 0))
                    × ((q : ℕ) → q ≢ 0 → q ≢ 1 → m'.rqs q ≡ two_processors.rqs q)))))
unfolding short_task rt_task overdue_task
migrate_lem_example = migrate_lem sample_env quiet 0 7 1 0 two_processors refl refl (omega arith)

-- The task 20 runs when the wait begins, and another one after that.
abbrev later : Smp
later = record two_processors { rqs = λ c. record (two_processors.rqs c) { curr = 30 } }

relaxed : after_relax quiet 1 two_processors ≡ later
unfolding after_relax
relaxed = refl

-- The memory of the program ends at 10000.
abbrev short_memory : CopyEnv ℕ
short_memory = record {
  copy_to_user = λ to from n u. (u, n - (10000 - to));
  copy_from_user = λ to from n u. (u, n - (10000 - from));
  conditional_schedule = λ u. u + 1;
}

ll_copy_lem_example :
    ((u' : ℕ) × (ll_copy_to_user short_memory 5 1000 2000 12000 0
        ≡ some (u', pos (answered (10000 - 1000) 12000))))
    × ((u' : ℕ) × (ll_copy_from_user short_memory 5 1000 2000 12000 0
          ≡ some (u', pos (answered (10000 - 2000) 12000))))
ll_copy_lem_example =
    ll_copy_lem short_memory 10000 (λ to from n u. (refl, refl)) 5 1000 2000 12000 0 (omega arith)
      (omega arith) (omega arith)
