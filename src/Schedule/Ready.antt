-- ===== src/Schedule/Ready.antt =====
-- The order in which schedule serves the tasks, as one list.
use os_hw.Base.{
  ℕ, zero, suc, ◌+◌, ◌<◌, ◌≤◌, ◌≡◌, ◌≢◌, refl, true, false, none, List, [], ◌∷◌, ◌++◌, arith, inl,
  inr, if◌then◌else◌, is_empty, length, first, sum_below, Bool-cases, ==-cases, sym,
}
use os_hw.Model.{Env, PrioArray, Kernel, max_prio}
use os_hw.Queue.Sync.{InSync, total}
use os_hw.Schedule.{first_task}

-- The lists from `i` on, `n` of them, one behind the other.
unfoldable pub flat : ℕ → ℕ → (ℕ → List ℕ) → List ℕ
flat zero i q = []
flat (suc n) i q = q i ++ flat n (suc i) q

-- The tasks of an array, the most urgent first.
abbrev pub in_order : PrioArray → List ℕ
in_order v = flat max_prio 0 v.queue

-- Real-time and SHORT tasks, then ordinary ones, then those whose slice is up, then the overdue.
unfoldable pub ready : Kernel → List ℕ
ready k =
    in_order (k.arrays k.rq.rt_short)
    ++ (in_order (k.arrays k.rq.active)
        ++ (in_order (k.arrays k.rq.expired) ++ in_order (k.arrays k.rq.overdue)))

first-append : (xs ys : List ℕ) → first (xs ++ ys) ≡ (if is_empty xs then first ys else first xs)
first-append [] ys = refl
first-append (x ∷ xs) ys = refl

-- The first task of the lists is the first one of the first list that is not empty.
first-flat :
    (n i j : ℕ) (q : ℕ → List ℕ)
    → i ≤ j
    → j < i + n
    → is_empty (q j) ≡ false
    → ((h : ℕ) → i ≤ h → h < j → is_empty (q h) ≡ true)
    → first (flat n i q) ≡ first (q j)
unfolding flat
first-flat zero i j q l u full least = absurd (omega arith)
first-flat (suc n) i j q l u full least = elim (==-cases i j) [
  | inl same ↦ ground (arith, first-append (q i) (flat n (suc i) q))
  | inr less ↦ ground (
    arith,
    first-append (q i) (flat n (suc i) q),
    least i,
    first-flat n (suc i) j q (omega arith) (omega arith) full (λ h a b. least h (omega arith) b),
  )
]

first-flat-none :
    (n i : ℕ) (q : ℕ → List ℕ)
    → ((h : ℕ) → h < i + n → is_empty (q h) ≡ true)
    → first (flat n i q) ≡ none
unfolding flat
first-flat-none zero i q h = refl
first-flat-none (suc n) i q h = ground (
  arith,
  first-append (q i) (flat n (suc i) q),
  h i,
  first-flat-none n (suc i) q (λ j l. h j (omega arith)),
)

empty_of_sum :
    (n : ℕ) (q : ℕ → List ℕ)
    → sum_below n (λ h. length (q h)) ≡ 0
    → (h : ℕ) → h < n
    → is_empty (q h) ≡ true
unfolding sum_below
empty_of_sum zero q e h l = absurd (omega arith)
empty_of_sum (suc n) q e h l = elim (==-cases h n) [
  | inl same ↦ ground arith
  | inr less ↦ empty_of_sum n q (omega arith) h (omega arith)
]

-- A sum that is not 0 has a term that is not 0.
full_of_sum :
    (n : ℕ) (q : ℕ → List ℕ)
    → sum_below n (λ h. length (q h)) ≢ 0
    → (h : ℕ) × (h < n) × (is_empty (q h) ≡ false)
unfolding sum_below
full_of_sum zero q e = absurd (e refl)
full_of_sum (suc n) q e = elim (Bool-cases (is_empty (q n))) [
  | inr full ↦ (n, omega arith, full)
  | inl bare ↦ let (h, l, full) = full_of_sum n q (ground arith) in (h, omega arith, full)
]

module _ (env : Env) {k : Kernel} (s : InSync none k) where
  -- schedule finds the first task of an array that is not empty.
  pub first_task-in_order :
      (a : ℕ)
      → total (k.arrays a) ≢ 0
      → (first_task env a k ≡ first (in_order (k.arrays a))) × (first_task env a k ≢ none)
  unfolding first_task
  first_task-in_order a full =
      let v = k.arrays a in
      let (h, l, some_task) = full_of_sum max_prio v.queue full in
      let i = env.sched_find_first_bit v.bitmap in
      let (set, least) = env.find_set v.bitmap h (omega arith) (ground (arith, s.marked a h l)) in
      let i_lt : i < max_prio = omega arith in
      let taken : is_empty (v.queue i) ≡ false = ground (arith, s.marked a i i_lt) in
      let before : (j : ℕ) → 0 ≤ j → j < i → is_empty (v.queue j) ≡ true =
        λ j z b. ground (arith, s.marked a j, env.find_set v.bitmap j) in
      (sym (first-flat max_prio 0 i v.queue (omega arith) (omega arith) taken before), ground arith)

  pub in_order-none : (a : ℕ) → total (k.arrays a) ≡ 0 → first (in_order (k.arrays a)) ≡ none
  in_order-none a none_on =
      first-flat-none max_prio 0 (k.arrays a).queue
        λ h l. empty_of_sum max_prio (k.arrays a).queue none_on h (omega arith)
