-- ===== src/Schedule/Order.antt =====
-- schedule takes the first task of the list of ready tasks.
use os_hw.Base.{
  ℕ, ◌<◌, ◌≡◌, ◌≢◌, refl, Option, none, some, List, [], ◌∷◌, ◌++◌, arith, ◌⊎◌, first, sum_below,
}
use os_hw.Base.Words.{word_size}
use os_hw.Model.{Env, Kernel}
use os_hw.Queue.Sync.{total}
use os_hw.Schedule.{choose_array, pick_next}
use os_hw.Schedule.Ready.{in_order, ready, first_task-in_order, in_order-none}
use os_hw.Valid.{IsValid}

abbrev or_else : Option ℕ → Option ℕ → Option ℕ
or_else none o = o
or_else (some x) o = some x

first-or_else : (xs ys : List ℕ) → first (xs ++ ys) ≡ or_else (first xs) (first ys)
first-or_else [] ys = refl
first-or_else (x ∷ xs) ys = refl

first-ready :
    (k : Kernel)
    → first (ready k)
      ≡ or_else (first (in_order (k.arrays k.rq.rt_short))) (
          or_else (first (in_order (k.arrays k.rq.active))) (
            or_else
              (first (in_order (k.arrays k.rq.expired)))
              (first (in_order (k.arrays k.rq.overdue)))))
unfolding ready
first-ready k =
    let rt = in_order (k.arrays k.rq.rt_short) in
    let active = in_order (k.arrays k.rq.active) in
    let expired = in_order (k.arrays k.rq.expired) in
    let overdue = in_order (k.arrays k.rq.overdue) in
    simp (
      first-or_else rt (active ++ (expired ++ overdue)),
      first-or_else active (expired ++ overdue),
      first-or_else expired overdue,
    )

-- Of four numbers that are not all 0 the last is not 0 if the others are.
fourth_pos :
    (t : ℕ → ℕ) (a e r o : ℕ)
    → (a ≡ 0) × (e ≡ 1) ⊎ (a ≡ 1) × (e ≡ 0)
    → r ≡ 2
    → o ≡ 3
    → sum_below 4 t ≢ 0
    → t r ≡ 0
    → t a ≡ 0
    → t e ≡ 0
    → t o ≢ 0
unfolding sum_below
fourth_pos t a e r o p q s l u v w = ground arith

module _ (env : Env) where
  -- In a valid state in which no array holds 2 ^ 32 tasks and a task is running or ready, schedule
  -- finds a next task, and it is the first of the list of the ready tasks: those of rt_short, of
  -- active, of expired and of overdue, each array in the order of its priorities.
  pub pick_next-ready :
      (k : Kernel)
      → IsValid k
      → ((a : ℕ) → total (k.arrays a) < word_size)
      → k.rq.nr_running ≢ 0
      → ((pick_next env k).1 ≡ first (ready k)) × ((pick_next env k).1 ≢ none)
  unfolding pick_next choose_array
  pick_next-ready k v fits busy =
      let s = v.sound.sync in
      let rq = k.rq in
      rw (first-ready k) (
        ground (
          arith,
          v.running,
          fourth_pos (λ a. total (k.arrays a)) rq.active rq.expired rq.rt_short rq.overdue
              v.sound.arrays.timeshare v.sound.arrays.rt_short v.sound.arrays.overdue,
          first_task-in_order env s rq.rt_short,
          first_task-in_order env s rq.active,
          first_task-in_order env s rq.expired,
          first_task-in_order env s rq.overdue,
          in_order-none env s rq.rt_short,
          in_order-none env s rq.active,
          in_order-none env s rq.expired,
          s.counted rq.rt_short,
          s.counted rq.active,
          s.counted rq.expired,
          s.counted rq.overdue,
          fits rq.rt_short,
          fits rq.active,
          fits rq.expired,
          fits rq.overdue,
        ))
