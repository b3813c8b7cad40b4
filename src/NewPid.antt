-- ===== src/NewPid.antt =====
-- get_pid of sharedFolderHW2/fork.c: the search for a PID that no task uses.
pub mod Fresh
use os_hw.Base.{
  ℕ, zero, suc, ◌+◌, Bool, true, false, ◌&&◌, ◌||◌, Option, none, some, List, [], ◌∷◌, ltb, leb,
  ◌==◌, if◌then◌else◌,
}
use os_hw.Model.{Task, Kernel}

-- The static variables last_pid and next_safe.
pub record Window : Type 0 where
  pub last_pid : ℕ
  pub next_safe : ℕ

unfoldable pub uses : ℕ → Task → Bool
uses pid t = (t.pid == pid) || (t.pgrp == pid) || (t.tgid == pid) || (t.session == pid)

-- One of the four tests that bring next_safe down.
unfoldable pub lower : ℕ → ℕ → ℕ → ℕ
lower last id safe = if ltb last id && ltb id safe then id else safe

unfoldable pub lowered : Task → Window → Window
unfolding lower
lowered t s =
    let l = s.last_pid in
    record s {
      next_safe = lower l t.session (lower l t.tgid (lower l t.pgrp (lower l t.pid s.next_safe)));
    }

-- `pid_max` is PID_MAX of <linux/threads.h>.
module _ (pid_max : ℕ) where
  -- `++last_pid` in the loop, with the wrap-around to 300.
  unfoldable pub bump : Window → Window
  bump s =
      let next = s.last_pid + 1 in
      if leb s.next_safe next
      then record { last_pid = if leb 0x8000 next then 300 else next; next_safe = pid_max }
      else record s { last_pid = next }

  -- One run through the tasks: `true` if it got to the end, `false` if it has to start again.
  unfoldable pub scan : (ℕ → Task) → List ℕ → Window → Window × Bool
  unfolding uses lowered bump
  scan tasks [] s = (s, true)
  scan tasks (p ∷ ps) s =
      let rest = scan tasks ps (lowered (tasks p) s) in
      if uses s.last_pid (tasks p) then (bump s, false) else rest

  -- The runs from `repeat` on, with a bound on their number; no PID is left if the search comes back
  -- to where it began.
  unfoldable pub search_pid : (ℕ → Task) → List ℕ → ℕ → ℕ → Window → Window × Option ℕ
  unfolding scan
  search_pid tasks ps begin_pid zero s = (s, none)
  search_pid tasks ps begin_pid (suc runs) s =
      let r = scan tasks ps s in
      let rest = search_pid tasks ps begin_pid runs r.0 in
      if r.1
      then (r.0, some (r.0.last_pid))
      else if r.0.last_pid == begin_pid
      then (r.0, some 0)
      else rest

  -- get_pid without the flag CLONE_PID, with a bound on the runs.
  unfoldable pub get_pid : ℕ → (ℕ → Task) → List ℕ → Window → Window × Option ℕ
  unfolding search_pid
  get_pid runs tasks ps s =
      let next = s.last_pid + 1 in
      let first = if leb 0x8000 next then 300 else next in
      if leb 0x8000 next || leb s.next_safe next
      then search_pid tasks ps s.last_pid runs (record { last_pid = first; next_safe = pid_max })
      else (record s { last_pid = next }, some next)
