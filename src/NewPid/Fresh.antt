-- ===== src/NewPid/Fresh.antt =====
-- The PID that a run through the tasks settles on is not in use.
use os_hw.Base.{
  ℕ, ◌+◌, ◌<◌, ◌≤◌, ◌≡◌, refl, true, false, List, [], ◌∷◌, arith, ◌⊎◌, Bool-cases, inl, inr, sym,
  ap, Bool, ◌∙◌,
}
use os_hw.Model.{Task}
use os_hw.NewPid.{Window, uses, lower, lowered, scan}

-- No number of the task lies in the window from last_pid to before next_safe.
pub record IsOutside (s : Window) (t : Task) : Type 0 where
  pub pid : (t.pid < s.last_pid) ⊎ (s.next_safe ≤ t.pid)
  pub pgrp : (t.pgrp < s.last_pid) ⊎ (s.next_safe ≤ t.pgrp)
  pub tgid : (t.tgid < s.last_pid) ⊎ (s.next_safe ≤ t.tgid)
  pub session : (t.session < s.last_pid) ⊎ (s.next_safe ≤ t.session)

lowered-IsOutside : (s : Window) (t : Task) → uses s.last_pid t ≡ false → IsOutside (lowered t s) t
unfolding uses lowered lower
lowered-IsOutside s t free = ground arith

IsOutside-le :
    (s s' : Window) (t : Task)
    → s'.last_pid ≡ s.last_pid
    → s'.next_safe ≤ s.next_safe
    → IsOutside s t
    → IsOutside s' t
IsOutside-le s s' t e l h = ground arith

lowered-le : (s : Window) (t : Task) → (lowered t s).next_safe ≤ s.next_safe
unfolding lowered lower
lowered-le s t = ground arith

lowered-lt :
    (s : Window) (t : Task) → s.last_pid < s.next_safe → s.last_pid < (lowered t s).next_safe
unfolding lowered lower
lowered-lt s t h = ground arith

lowered_last : (s : Window) (t : Task) → (lowered t s).last_pid ≡ s.last_pid
unfolding lowered
lowered_last s t = refl

-- All tasks of the list are outside.
unfoldable pub AllOutside : Window → (ℕ → Task) → List ℕ → Type 0
AllOutside s tasks [] = s ≡ s
AllOutside s tasks (p ∷ ps) = IsOutside s (tasks p) × AllOutside s tasks ps

-- No task of the list uses the number.
unfoldable pub Unused : ℕ → (ℕ → Task) → List ℕ → Type 0
Unused pid tasks [] = pid ≡ pid
Unused pid tasks (p ∷ ps) = (uses pid (tasks p) ≡ false) × Unused pid tasks ps

-- What a run has settled.
pub record IsSettled (s s' : Window) (tasks : ℕ → Task) (ps : List ℕ) : Type 0 where
  pub last_pid : s'.last_pid ≡ s.last_pid
  pub next_safe : s'.next_safe ≤ s.next_safe
  pub outside : AllOutside s' tasks ps
  pub unused : Unused s'.last_pid tasks ps

true_not_false : true ≡ false → ⊥
true_not_false e = cc

IsSettled-empty :
    (m : ℕ) (tasks : ℕ → Task) (s : Window) → IsSettled s (scan m tasks [] s).0 tasks []
unfolding scan AllOutside Unused
IsSettled-empty m tasks s = record {
  last_pid = refl;
  next_safe = omega arith;
  outside = refl;
  unused = refl;
}

scan_used :
    (m : ℕ) (tasks : ℕ → Task) (p : ℕ) (ps : List ℕ) (s : Window)
    → uses s.last_pid (tasks p) ≡ true
    → (scan m tasks (p ∷ ps) s).1 ≡ false
unfolding scan
scan_used m tasks p ps s e = rw e refl

scan_free :
    (m : ℕ) (tasks : ℕ → Task) (p : ℕ) (ps : List ℕ) (s : Window)
    → uses s.last_pid (tasks p) ≡ false
    → scan m tasks (p ∷ ps) s ≡ scan m tasks ps (lowered (tasks p) s)
unfolding scan
scan_free m tasks p ps s e = rw e refl

-- A run of get_pid through the tasks that reaches their end keeps last_pid, which no task of the
-- list uses as PID, process group, thread group or session, and leaves a next_safe, not above the
-- one before, such that no number of these tasks lies from last_pid to before next_safe.
scan-IsSettled :
    (pid_max : ℕ) (tasks : ℕ → Task) (ps : List ℕ) (s : Window)
    → (scan pid_max tasks ps s).1 ≡ true
    → IsSettled s (scan pid_max tasks ps s).0 tasks ps
unfolding AllOutside Unused
scan-IsSettled m tasks [] s e = IsSettled-empty m tasks s
scan-IsSettled m tasks (p ∷ ps) s e = elim (Bool-cases (uses s.last_pid (tasks p))) [
  | inl used ↦ absurd (true_not_false (sym e ∙ scan_used m tasks p ps s used))
  | inr free ↦
      let t = tasks p in
      let s1 = lowered t s in
      let same = scan_free m tasks p ps s free in
      let h = scan-IsSettled m tasks ps s1 (ap (λ (r : Window × Bool). r.1) (sym same) ∙ e) in
      let s' = (scan m tasks ps s1).0 in
      let last : s1.last_pid ≡ s.last_pid = lowered_last s t in
      rw same (record {
        last_pid = h.last_pid ∙ last;
        next_safe = omega (arith, h.next_safe, lowered-le s t);
        outside =
            (IsOutside-le s1 s' t h.last_pid h.next_safe (lowered-IsOutside s t free), h.outside);
        unused = (rw (h.last_pid, last) free, h.unused);
      })
]

-- If no number of the tasks of a list lies from last_pid to before next_safe, and last_pid + 1 is
-- below next_safe, then last_pid + 1, which get_pid hands out without a search, is not used by any
-- of these tasks.
next-Unused :
    (s : Window) (tasks : ℕ → Task) (ps : List ℕ)
    → AllOutside s tasks ps
    → s.last_pid + 1 < s.next_safe
    → Unused (s.last_pid + 1) tasks ps
unfolding AllOutside Unused uses
next-Unused s tasks [] h l = refl
next-Unused s tasks (p ∷ ps) (h, hs) l = (ground arith, next-Unused s tasks ps hs l)
