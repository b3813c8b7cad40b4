-- ===== src/LowLatency.antt =====
-- ll_copy_to_user and ll_copy_from_user of sharedFolderHW2/sched.c, which copy in pieces and let others
-- run between them. The copy of a piece and conditional_schedule are parameters.
pub mod Remainder
use os_hw.Base.{ℕ, zero, suc, ◌+◌, ◌-◌, ◌==◌, ltb, Option, none, some, if◌then◌else◌}
use os_hw.Base.Int.{ℤ, pos}
use os_hw.Base.Words.{wrap, to_int}

-- Both copies take the target, the source and the length, and answer how many bytes are left.
pub record CopyEnv (U : Type 0) : Type 0 where
  pub copy_to_user : ℕ → ℕ → ℕ → U → U × ℕ
  pub copy_from_user : ℕ → ℕ → ℕ → U → U × ℕ
  pub conditional_schedule : U → U

-- The length of the next piece.
unfoldable pub n_to_copy : ℕ → ℕ
n_to_copy len = if ltb 4096 len then 4096 else len

module _ {U : Type 0} (env : CopyEnv U) where
  -- With a bound on the runs of the loop; `none` when they are not enough.
  unfoldable pub ll_copy_to_user : ℕ → ℕ → ℕ → ℕ → U → Option (U × ℤ)
  unfolding n_to_copy
  ll_copy_to_user zero to_user from len u = none
  ll_copy_to_user (suc runs) to_user from len u =
      let n = n_to_copy len in
      let (u', remainder) = env.copy_to_user to_user from n u in
      let rest =
        ll_copy_to_user runs (to_user + n) (from + n) (len - n) (env.conditional_schedule u') in
      if len == 0
      then some (u, pos 0)
      else if remainder == 0
      then rest
      else some (u', to_int (wrap (remainder + len)))

  unfoldable pub ll_copy_from_user : ℕ → ℕ → ℕ → ℕ → U → Option (U × ℤ)
  unfolding n_to_copy
  ll_copy_from_user zero to from_user len u = none
  ll_copy_from_user (suc runs) to from_user len u =
      let n = n_to_copy len in
      let (u', remainder) = env.copy_from_user to from_user n u in
      let rest =
        ll_copy_from_user runs (to + n) (from_user + n) (len - n) (env.conditional_schedule u') in
      if len == 0
      then some (u, pos 0)
      else if remainder == 0
      then rest
      else some (u', to_int (wrap (remainder + len)))
