-- ===== src/LowLatency/Remainder.antt =====
-- What ll_copy_to_user and ll_copy_from_user of sharedFolderHW2/sched.c answer, against the number of
-- the bytes that are left.
use os_hw.Base.{
  ℕ, zero, suc, ◌+◌, ◌-◌, ◌*◌, ◌/◌, ◌^◌, ◌≤◌, ◌<◌, ◌≡◌, ◌≢◌, sym, ap, ◌∙◌, ◌==◌, Option, some,
  if◌then◌else◌, arith, if_split,
}
use os_hw.Base.Int.{ℤ, pos}
use os_hw.Base.Words.{wrap, to_int}
use os_hw.LowLatency.{CopyEnv, n_to_copy, ll_copy_to_user, ll_copy_from_user}

-- How many bytes are left of `len`, when `room` can be copied.
abbrev pub left_over : ℕ → ℕ → ℕ
left_over room len = len - room

-- What the loop answers: the bytes that are left, and the length of the piece that fails.
abbrev pub answered : ℕ → ℕ → ℕ
answered room len =
    if left_over room len == 0
    then 0
    else left_over room len + n_to_copy (len - 4096 * (room / 4096))

-- A piece that fails.
answered_now :
    (room len : ℕ) → room < n_to_copy len → (n_to_copy len - room) + len ≡ answered room len
unfolding n_to_copy
answered_now room len h = ground (arith, h)

-- A piece that is copied.
answered_later :
    (room len : ℕ)
    → n_to_copy len ≤ room
    → answered (room - n_to_copy len) (len - n_to_copy len) ≡ answered room len
unfolding n_to_copy
answered_later room len h = ground (arith, h)

none_left : (room len : ℕ) → len ≡ 0 → 0 ≡ answered room len
unfolding n_to_copy
none_left room len h = ground (arith, h)

further : (limit at n : ℕ) → limit - (at + n) ≡ limit - at - n
further limit at n = omega arith

-- The loop ends with this answer.
abbrev IsAnswered : {U : Type 0} → ℕ → Option (U × ℤ) → Type 0
IsAnswered {U = U} n o = (u : U) × (o ≡ some (u, pos n))

-- The number that C returns for a piece that fails.
answer_fits :
    (left len room : ℕ)
    → left ≡ n_to_copy len - room
    → len < 2 ^ 30
    → room < n_to_copy len
    → to_int (wrap (left + len)) ≡ pos (answered room len)
answer_fits left len room e small h =
    let same : answered room len ≡ left + len =
      sym (answered_now room len h) ∙ ap (λ k. k + len) (sym e) in
    let bound : left + len < 2 ^ 31 = unfold n_to_copy in ground (arith, e, small) in
    rw same (ground (arith, bound))

-- A piece that is copied is one run, and others are left for what comes after it.
runs_left :
    (len runs : ℕ)
    → len ≢ 0
    → len ≤ 4096 * (suc runs - 1)
    → (len - n_to_copy len ≤ 4096 * (runs - 1)) × (1 ≤ runs)
unfolding n_to_copy
runs_left len runs h l = ground (arith, h, l)

module _ {U : Type 0} (env : CopyEnv U) (limit : ℕ) where
  to_user-IsAnswered :
      ((to from n : ℕ) (u : U) → (env.copy_to_user to from n u).1 ≡ n - (limit - to))
      → (runs to from len : ℕ) (u : U) → len < 2 ^ 30
      → len ≤ 4096 * (runs - 1)
      → 1 ≤ runs
      → IsAnswered (answered (limit - to) len) (ll_copy_to_user env runs to from len u)
  unfolding ll_copy_to_user
  to_user-IsAnswered copies zero to from len u small h one = ground (arith, one)
  to_user-IsAnswered copies (suc runs) to from len u small h one =
      let n = n_to_copy len in
      let done = env.copy_to_user to from n u in
      let left : done.1 ≡ n - (limit - to) = copies to from n u in
      let P : Option (U × ℤ) → Type 0 = IsAnswered (answered (limit - to) len) in
      if_split P (len == 0) _ _
        (λ z. (u, ap (λ k. some (u, pos k)) (none_left (limit - to) len (ground (arith, z)))))
        (λ z.
          if_split P (done.1 == 0) _ _
            (λ y.
              let fits : n ≤ limit - to = ground (arith, y, left) in
              let more = runs_left len runs (ground (arith, z)) h in
              let (u', e) =
                to_user-IsAnswered copies runs (to + n) (from + n) (len - n)
                  (env.conditional_schedule done.0) (omega (arith, small)) more.0 more.1 in
              (
                u',
                e
                    ∙ ap (λ k. some (u', pos k))
                        (ap (λ r. answered r (len - n)) (further limit to n)
                          ∙ answered_later (limit - to) len fits),
              ))
            (λ y. (
              done.0,
              ap (λ k. some (done.0, k))
                  (answer_fits done.1 len (limit - to) left small (ground (arith, y, left))),
            )))

  from_user-IsAnswered :
      ((to from n : ℕ) (u : U) → (env.copy_from_user to from n u).1 ≡ n - (limit - from))
      → (runs to from len : ℕ) (u : U) → len < 2 ^ 30
      → len ≤ 4096 * (runs - 1)
      → 1 ≤ runs
      → IsAnswered (answered (limit - from) len) (ll_copy_from_user env runs to from len u)
  unfolding ll_copy_from_user
  from_user-IsAnswered copies zero to from len u small h one = ground (arith, one)
  from_user-IsAnswered copies (suc runs) to from len u small h one =
      let n = n_to_copy len in
      let done = env.copy_from_user to from n u in
      let left : done.1 ≡ n - (limit - from) = copies to from n u in
      let P : Option (U × ℤ) → Type 0 = IsAnswered (answered (limit - from) len) in
      if_split P (len == 0) _ _
        (λ z. (u, ap (λ k. some (u, pos k)) (none_left (limit - from) len (ground (arith, z)))))
        (λ z.
          if_split P (done.1 == 0) _ _
            (λ y.
              let fits : n ≤ limit - from = ground (arith, y, left) in
              let more = runs_left len runs (ground (arith, z)) h in
              let (u', e) =
                from_user-IsAnswered copies runs (to + n) (from + n) (len - n)
                  (env.conditional_schedule done.0) (omega (arith, small)) more.0 more.1 in
              (
                u',
                e
                    ∙ ap (λ k. some (u', pos k))
                        (ap (λ r. answered r (len - n)) (further limit from n)
                          ∙ answered_later (limit - from) len fits),
              ))
            (λ y. (
              done.0,
              ap (λ k. some (done.0, k))
                  (answer_fits done.1 len (limit - from) left small (ground (arith, y, left))),
            )))

  -- With copies of which all bytes up to an address succeed, and a bound of one run more than the
  -- pieces of 4096 bytes, ll_copy_to_user and ll_copy_from_user of a length below 2 ^ 30 end, and
  -- answer 0 if the bytes up to the end of the length can be copied; else they answer not the
  -- number of bytes that are left, but that number plus the length of the piece that fails.
  pub ll_copy_lem :
      ((to from n : ℕ) (u : U)
        → ((env.copy_to_user to from n u).1 ≡ n - (limit - to))
          × ((env.copy_from_user to from n u).1 ≡ n - (limit - from)))
      → (runs to from len : ℕ) (u : U) → len < 2 ^ 30
      → len ≤ 4096 * (runs - 1)
      → 1 ≤ runs
      → ((u' : U) × (ll_copy_to_user env runs to from len u
            ≡ some (u', pos (answered (limit - to) len))))
        × ((u' : U) × (ll_copy_from_user env runs to from len u
              ≡ some (u', pos (answered (limit - from) len))))
  ll_copy_lem copies runs to from len u small h one = (
    to_user-IsAnswered (λ t f n v. (copies t f n v).0) runs to from len u small h one,
    from_user-IsAnswered (λ t f n v. (copies t f n v).1) runs to from len u small h one,
  )
