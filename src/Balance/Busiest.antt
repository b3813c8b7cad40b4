-- ===== src/Balance/Busiest.antt =====
-- The search of load_balance of sharedFolderHW2/sched.c for the busiest runqueue.
use mathlib.Core.Path.{subst}
use os_hw.Base.{
  ℕ, zero, suc, ◌+◌, ◌≤◌, ◌<◌, ◌≡◌, ◌≢◌, refl, sym, ◌∙◌, Bool, not, ◌&&◌, Option, none, some, ltb,
  ◌==◌, if◌then◌else◌, arith, ==-cases, inl, inr, if_split,
}
use os_hw.Balance.{load_of, save_load, Found, search_from, find_busiest}
use os_hw.Balance.State.{Smp, SmpEnv}

-- The processors of the map are different ones.
abbrev pub IsInjective : SmpEnv → Type 0
IsInjective env =
    (i j : ℕ)
    → i < env.smp_num_cpus
    → j < env.smp_num_cpus
    → env.cpu_logical_map i ≡ env.cpu_logical_map j
    → i ≡ j

module _ (env : SmpEnv) (idle : Bool) (this : ℕ) where
  -- A saved length of another processor does not change a load.
  load_of-save_load :
      (c d : ℕ) (m : Smp) → c ≢ d → load_of idle this d (save_load this c m) ≡ load_of idle this d m
  unfolding load_of save_load
  load_of-save_load c d m ne = ground (arith, ne)

  -- What has been found: no processor, or another one with its load.
  abbrev pub IsChosen : Smp → Option ℕ → ℕ → Type 0
  IsChosen m none load = load ≡ 1
  IsChosen m (some b) load = (b ≢ this) × ((load_of idle this b m ≡ load) × (1 < load))

  -- A search over `n` processors from `i` on, after which no other has more load.
  search_from-max :
      IsInjective env
      → (n i : ℕ) (found : Found) (m : Smp) → i + n ≤ env.smp_num_cpus
      → let found' = (search_from env n i idle this found m).0 in
        (found.max_load ≤ found'.max_load)
        × ((j : ℕ)
            → i ≤ j
            → j < i + n
            → env.cpu_logical_map j ≢ this
            → load_of idle this (env.cpu_logical_map j) m ≤ found'.max_load)
  unfolding search_from
  search_from-max inj zero i found m h = (omega arith, λ j l u. ground (arith, l, u))
  search_from-max inj (suc n) i found m h =
      let c = env.cpu_logical_map i in
      let load = load_of idle this c m in
      let found' : Found =
        if ltb found.max_load load && not (c == this)
        then record { busiest = some c; max_load = load }
        else found in
      let (more, all) =
        search_from-max inj n (suc i) found' (save_load this c m) (omega (arith, h)) in
      (
        ground (arith, more),
        λ j l u ne. elim (==-cases i j) [
          | inl same ↦
              subst
                (λ k.
                  load_of idle this (env.cpu_logical_map k) m
                  ≤ (search_from env n (suc i) idle this found' (save_load this c m)).0.max_load)
                same (ground (arith, more, subst (λ k. env.cpu_logical_map k ≢ this) (sym same) ne))
          | inr other ↦
              subst
                (λ k.
                  k ≤ (search_from env n (suc i) idle this found' (save_load this c m)).0.max_load)
                (load_of-save_load c (env.cpu_logical_map j) m
                  (λ e. other (inj i j (omega (arith, h)) (omega (arith, h, u)) e)))
                (all j (ground (arith, l, other)) (omega (arith, u)) ne)
        ],
      )

  search_from-IsChosen :
      IsInjective env
      → (n i : ℕ) (found : Found) (m m0 : Smp) → i + n ≤ env.smp_num_cpus
      → ((j : ℕ)
          → i ≤ j
          → j < i + n
          → load_of idle this (env.cpu_logical_map j) m
            ≡ load_of idle this (env.cpu_logical_map j) m0)
      → 1 ≤ found.max_load
      → IsChosen m0 found.busiest found.max_load
      → let found' = (search_from env n i idle this found m).0 in
        IsChosen m0 found'.busiest found'.max_load
  unfolding search_from
  search_from-IsChosen inj zero i found m m0 h same one chosen = chosen
  search_from-IsChosen inj (suc n) i found m m0 h same one chosen =
      let c = env.cpu_logical_map i in
      let load = load_of idle this c m in
      let better = ltb found.max_load load && not (c == this) in
      let found' : Found = if better then record { busiest = some c; max_load = load } else found in
      search_from-IsChosen inj n (suc i) found' (save_load this c m) m0 (omega (arith, h))
        (λ j l u.
          load_of-save_load c (env.cpu_logical_map j) m
            (λ e. omega (arith, inj i j (omega (arith, h)) (omega (arith, h, u)) e, l))
          ∙ same j (omega (arith, l)) (omega (arith, u)))
        (if_split (λ (f : Found). 1 ≤ f.max_load) better _ _ (λ b. ground (arith, b, one))
          (λ b. one))
        (if_split (λ (f : Found). IsChosen m0 f.busiest f.max_load) better _ _
          (λ b.
            (ground (arith, b), (sym (same i (omega arith) (omega arith)), ground (arith, b, one))))
          (λ b. chosen))

  -- What the search leaves alone.
  pub record IsOnlySaved (m m' : Smp) : Type 0 where
    pub kernel : m'.kernel ≡ m.kernel
    pub cpu : m'.cpu ≡ m.cpu
    pub others : (q : ℕ) → this ≢ q → m'.rqs q ≡ m.rqs q
    pub own : m'.rqs this ≡ record (m.rqs this) { prev_nr_running = (m'.rqs this).prev_nr_running }

  search_from-IsOnlySaved :
      (n i : ℕ) (found : Found) (m : Smp) → IsOnlySaved m (search_from env n i idle this found m).1
  unfolding search_from save_load
  search_from-IsOnlySaved zero i found m = record {
    kernel = refl;
    cpu = refl;
    others = λ q ne. refl;
    own = refl;
  }
  search_from-IsOnlySaved (suc n) i found m =
      let c = env.cpu_logical_map i in
      let load = load_of idle this c m in
      let found' : Found =
        if ltb found.max_load load && not (c == this)
        then record { busiest = some c; max_load = load }
        else found in
      let s = search_from-IsOnlySaved n (suc i) found' (save_load this c m) in
      record {
        kernel = s.kernel;
        cpu = s.cpu;
        others = λ q ne. s.others q ne ∙ ground (arith, ne);
        own = ground (arith, s.own);
      }

  search_from-saved :
      IsInjective env
      → (n i : ℕ) (found : Found) (m : Smp) → i + n ≤ env.smp_num_cpus
      → (j : ℕ) → j < i + n
      → ((j < i
          → (m.rqs this).prev_nr_running (env.cpu_logical_map j)
            ≡ (m.rqs (env.cpu_logical_map j)).nr_running))
      → ((search_from env n i idle this found m).1.rqs this).prev_nr_running (env.cpu_logical_map j)
        ≡ (m.rqs (env.cpu_logical_map j)).nr_running
  unfolding search_from save_load
  search_from-saved inj zero i found m h j u old = old (omega (arith, u))
  search_from-saved inj (suc n) i found m h j u old =
      let c = env.cpu_logical_map i in
      let load = load_of idle this c m in
      let found' : Found =
        if ltb found.max_load load && not (c == this)
        then record { busiest = some c; max_load = load }
        else found in
      search_from-saved inj n (suc i) found' (save_load this c m) (omega (arith, h)) j
        (omega (arith, u))
        (λ l. elim (==-cases i j) [
          | inl same ↦
              subst
                (λ k.
                  ((save_load this c m).rqs this).prev_nr_running (env.cpu_logical_map k)
                  ≡ ((save_load this c m).rqs (env.cpu_logical_map k)).nr_running)
                same (ground arith)
          | inr other ↦ ground (arith, old (omega (arith, l, other)))
        ])
      ∙ ground arith

  -- The search of load_balance finds no load above that of the processor it answers with, which is
  -- another than this one and has a load above 1, or answers with none, and then no other
  -- processor has a load above 1; it saves the length of each runqueue, and changes nothing else.
  -- The processors of cpu_logical_map are to be different ones.
  pub find_busiest_lem :
      IsInjective env
      → (m : Smp)
      → let (found, m') = find_busiest env idle this m in
        ((i : ℕ)
          → i < env.smp_num_cpus
          → let c = env.cpu_logical_map i in
            ((m'.rqs this).prev_nr_running c ≡ (m.rqs c).nr_running)
            × (c ≢ this → load_of idle this c m ≤ found.max_load))
        × (IsChosen m found.busiest found.max_load × IsOnlySaved m m')
  unfolding find_busiest
  find_busiest_lem inj m =
      let n = env.smp_num_cpus in
      let start : Found = record { busiest = none; max_load = 1 } in
      let (more, all) = search_from-max inj n 0 start m (omega arith) in
      (
        λ i h. (
          search_from-saved inj n 0 start m (omega arith) i (omega (arith, h))
              (λ l. ground (arith, l)),
          all i (omega arith) (omega (arith, h)),
        ),
        (
          search_from-IsChosen inj n 0 start m m (omega arith) (λ j l u. refl) (omega arith) refl,
          search_from-IsOnlySaved n 0 start m,
        ),
      )
