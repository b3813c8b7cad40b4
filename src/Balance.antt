-- ===== src/Balance.antt =====
-- Load balancing between the runqueues of sharedFolderHW2/sched.c: double_lock_balance, load_balance and
-- idle_tick. A processor's number stands for its runqueue, since the runqueues are an array.
pub mod State
pub mod Busiest
pub mod Fixed
pub mod Moves
pub mod Runs
use Prim.Native.Nat.{bit_and}
use os_hw.Base.{
  ℕ, zero, suc, ◌+◌, ◌*◌, ◌/◌, ◌%◌, ◌-◌, ◌^◌, Bool, true, false, not, ◌&&◌, ◌||◌, Option, none,
  some, List, [], ◌∷◌, upd, ltb, leb, ◌==◌, if◌then◌else◌,
}
use os_hw.Base.Int.{ℤ, pos, sub_ℕ, ◌-ℤ◌, quot, ltb_ℤ, pos_part, neg_part}
use os_hw.Base.Words.{wrap, sub, inc, dec}
use os_hw.Balance.State.{SmpRq, Smp, SmpEnv, set_smp_rq}
use os_hw.Links.Loops.{reverse}
use os_hw.Model.{Kernel, max_prio}
use os_hw.Queue.{dequeue_task, enqueue_task}
use os_hw.Runqueue.{resched_task}

-- A runqueue's length as the balance of `this` reads it for itself: the longer of now and before,
-- except when the processor is idle.
unfoldable pub own_load : Bool → ℕ → Smp → ℕ
own_load idle this m =
    let rq = m.rqs this in
    if idle || ltb (rq.prev_nr_running this) rq.nr_running
    then rq.nr_running
    else rq.prev_nr_running this

-- The one of another processor: the shorter of now and before, except when this processor is idle.
unfoldable pub load_of : Bool → ℕ → ℕ → Smp → ℕ
load_of idle this logical m =
    let now = (m.rqs logical).nr_running in
    let before = (m.rqs this).prev_nr_running logical in
    if idle || ltb now before then now else before

-- this_rq->prev_nr_running[logical] = rq_src->nr_running
unfoldable pub save_load : ℕ → ℕ → Smp → Smp
save_load this logical m =
    let rq = m.rqs this in
    let saved = upd rq.prev_nr_running logical (m.rqs logical).nr_running in
    set_smp_rq m this (record rq { prev_nr_running = saved })

-- What the search has found: the busiest processor, if any, and its load.
pub record Found : Type 0 where
  pub busiest : Option ℕ
  pub max_load : ℕ

-- How a queue of tasks is left: with the imbalance that remains, and whether it is enough.
pub record Walked : Type 0 where
  pub state : Smp
  pub imbalance : ℤ
  pub enough : Bool

module _ (env : SmpEnv) where
  -- The search, over the processors from `i` on.
  unfoldable pub search_from : ℕ → ℕ → Bool → ℕ → Found → Smp → Found × Smp
  unfolding load_of save_load
  search_from zero i idle this found m = (found, m)
  search_from (suc n) i idle this found m =
      let logical = env.cpu_logical_map i in
      let load = load_of idle this logical m in
      let found' =
        if ltb found.max_load load && not (logical == this)
        then record { busiest = some logical; max_load = load }
        else found in
      search_from n (suc i) idle this found' (save_load this logical m)

  unfoldable pub find_busiest : Bool → ℕ → Smp → Found × Smp
  unfolding search_from
  find_busiest idle this m =
      search_from env.smp_num_cpus 0 idle this (record { busiest = none; max_load = 1 }) m

  unfoldable pub double_lock_balance : ℕ → ℕ → Bool → ℕ → Smp → ℕ × Smp
  unfolding own_load
  double_lock_balance this busiest idle nr_running m =
      let both = env.spin_lock this (env.spin_lock busiest m) in
      if env.spin_trylock busiest m
      then (nr_running, m)
      else if ltb busiest this
      then (own_load idle this both, both)
      else (nr_running, env.spin_lock busiest m)

  -- CAN_MIGRATE_TASK
  unfoldable pub can_migrate_task : ℕ → ℕ → ℕ → Smp → Bool
  can_migrate_task p busiest this m =
      let t = m.kernel.tasks p in
      ltb env.cache_decay_ticks (sub m.kernel.jiffies t.sleep_timestamp)
      && (not (p == (m.rqs busiest).curr) && not (bit_and t.cpus_allowed (2 ^ this) == 0))

  -- A task out of the array of the other runqueue and into this one; then set_need_resched for
  -- `current`.
  unfoldable pub pull_task : ℕ → ℕ → ℕ → ℕ → Smp → Smp
  pull_task next array busiest this m =
      let out = dequeue_task next array m.kernel in
      let there = m.rqs busiest in
      let m1 = set_smp_rq m busiest (record there { nr_running = dec there.nr_running }) in
      let here = m1.rqs this in
      let m2 = set_smp_rq m1 this (record here { nr_running = inc here.nr_running }) in
      let k = enqueue_task next here.active out in
      let moved = record m2 { kernel = k; cpu = upd m2.cpu next this } in
      if ltb (k.tasks next).prio (k.tasks k.current).prio
      then record moved { kernel = resched_task k.current k }
      else moved

  -- The loop from the label skip_queue, over the tasks that are left of the queue. These are the ones
  -- that stood on it when the loop came to it: a task that has been pulled is behind the loop, and
  -- no fork is pending for enqueue_task.
  unfoldable pub walk_queue : List ℕ → Bool → ℕ → ℕ → ℕ → ℤ → Smp → Walked
  unfolding can_migrate_task pull_task
  walk_queue [] idle array busiest this imbalance m = record {
    state = m;
    imbalance = imbalance;
    enough = false;
  }
  walk_queue (tmp ∷ tasks) idle array busiest this imbalance m =
      let m' = pull_task tmp array busiest this m in
      let less = imbalance -ℤ pos 1 in
      let on = walk_queue tasks idle array busiest this less m' in
      let past = walk_queue tasks idle array busiest this imbalance m in
      let zero_left = pos_part less + neg_part less == 0 in
      if not (can_migrate_task tmp busiest this m)
      then past
      else if idle
      then record { state = m'; imbalance = imbalance; enough = true }
      else if zero_left
      then record { state = m'; imbalance = less; enough = true }
      else on

  -- The loop from the label skip_bitmap, with a bound on its runs; `none` when they are not enough.
  unfoldable pub walk_array : ℕ → ℕ → Bool → ℕ → ℕ → ℕ → ℤ → Smp → Option Smp
  unfolding walk_queue
  walk_array zero idx idle array busiest this imbalance m = none
  walk_array (suc runs) idx idle array busiest this imbalance m =
      let v = m.kernel.arrays array in
      let at =
        if idx == 0
        then env.sched_find_first_bit v.bitmap
        else env.find_next_bit v.bitmap max_prio idx in
      let rq = m.rqs busiest in
      let other = walk_array runs 0 idle rq.active busiest this imbalance m in
      let w = walk_queue (reverse (v.queue at)) idle array busiest this imbalance m in
      let on = walk_array runs (suc at) idle array busiest this w.imbalance w.state in
      if at == max_prio
      then if array == rq.expired then other else some m
      else if w.enough
      then some w.state
      else on

  -- load_balance from double_lock_balance on
  unfoldable pub pull_tasks : ℕ → Bool → ℕ → ℕ → ℕ → ℤ → Smp → Option Smp
  unfolding double_lock_balance walk_array
  pull_tasks runs idle this busiest nr_running imbalance m =
      let (nr, m') = double_lock_balance this busiest idle nr_running m in
      let rq = m'.rqs busiest in
      let array =
        if not ((m'.kernel.arrays rq.expired).nr_active == 0) then rq.expired else rq.active in
      let walked = walk_array runs 0 idle array busiest this imbalance m' in
      if leb rq.nr_running (wrap (nr + 1)) then some m' else walked

  -- load_balance of the processor `this`, with a bound on the runs of its search for tasks
  unfoldable pub load_balance : ℕ → ℕ → Bool → Smp → Option Smp
  unfolding find_busiest pull_tasks
  load_balance runs this idle m =
      let nr_running = own_load idle this m in
      let (found, m') = find_busiest idle this m in
      let imbalance = quot (sub_ℕ found.max_load nr_running) 2 in
      elim found.busiest [
        | none ↦ some m'
        | some busiest ↦
            let pulled = pull_tasks runs idle this busiest nr_running imbalance m' in
            if not idle && ltb_ℤ imbalance (pos ((found.max_load + 3) / 4)) then some m' else pulled
      ]

  -- IDLE_REBALANCE_TICK, and BUSY_REBALANCE_TICK
  unfoldable pub idle_rebalance_tick : ℕ
  idle_rebalance_tick = if env.hz / 1000 == 0 then 1 else env.hz / 1000

  unfoldable pub busy_rebalance_tick : ℕ
  busy_rebalance_tick = if env.hz / 4 == 0 then 1 else env.hz / 4

  unfoldable pub idle_tick : ℕ → ℕ → Smp → Option Smp
  unfolding load_balance idle_rebalance_tick
  idle_tick runs this m =
      if not (m.kernel.jiffies % idle_rebalance_tick == 0)
      then some m
      else load_balance runs this true (env.spin_lock this m)
