-- ===== src/Pid/Lookup.antt =====
-- What find_task_by_pid finds after hash_pid and unhash_pid.
use os_hw.Base.{
  ℕ, ◌≡◌, ◌≢◌, refl, some, List, [], ◌∷◌, arith, ◌==◌, if◌then◌else◌, remove, ==_refl, inl, inr,
  ==-cases,
}
use os_hw.Model.{Task, Kernel}
use os_hw.Pid.{pid_hashfn, find_in_chain, find_task_by_pid, hash_pid, unhash_pid}

-- After a task is hashed, find_task_by_pid finds it under its PID, and under any other PID what it
-- found before.
find_task_by_pid-hash_pid :
    (pid p : ℕ) (k : Kernel)
    → find_task_by_pid pid (hash_pid p k)
      ≡ (if (k.tasks p).pid == pid then some p else find_task_by_pid pid k)
unfolding find_task_by_pid hash_pid
find_task_by_pid-hash_pid pid p k = elim (==-cases (k.tasks p).pid pid) [
  | inl same ↦ rw (same, ==_refl (pid_hashfn pid)) (ground arith)
  | inr other ↦ ground arith
]

find_in_chain-remove :
    (tasks : ℕ → Task) (pid p : ℕ) (chain : List ℕ)
    → (tasks p).pid ≢ pid
    → find_in_chain tasks pid (remove p chain) ≡ find_in_chain tasks pid chain
unfolding find_in_chain remove
find_in_chain-remove tasks pid p [] ne = refl
find_in_chain-remove tasks pid p (q ∷ qs) ne = ground (arith, find_in_chain-remove tasks pid p qs)

-- What is found has the PID that was looked for.
find_in_chain_pid :
    (tasks : ℕ → Task) (pid : ℕ) (chain : List ℕ) (p : ℕ)
    → find_in_chain tasks pid chain ≡ some p
    → (tasks p).pid ≡ pid
unfolding find_in_chain
find_in_chain_pid tasks pid [] p e = cc
find_in_chain_pid tasks pid (q ∷ qs) p e = ground (arith, find_in_chain_pid tasks pid qs p)

find_in_chain_gone :
    (tasks : ℕ → Task) (pid p : ℕ) (chain : List ℕ)
    → find_in_chain tasks pid (remove p chain) ≢ some p
unfolding find_in_chain remove
find_in_chain_gone tasks pid p [] e = cc
find_in_chain_gone tasks pid p (q ∷ qs) e = ground (arith, find_in_chain_gone tasks pid p qs)

-- After a task is unhashed, find_task_by_pid finds under every other PID what it found before.
find_task_by_pid-unhash_pid :
    (pid p : ℕ) (k : Kernel)
    → (k.tasks p).pid ≢ pid
    → find_task_by_pid pid (unhash_pid p k) ≡ find_task_by_pid pid k
unfolding find_task_by_pid unhash_pid
find_task_by_pid-unhash_pid pid p k ne =
    ground (arith, find_in_chain-remove k.tasks pid p (k.pidhash (pid_hashfn pid)) ne)

-- After a task is unhashed, find_task_by_pid does not find that task under its PID.
find_task_by_pid-unhash_pid_own :
    (p : ℕ) (k : Kernel) → find_task_by_pid (k.tasks p).pid (unhash_pid p k) ≢ some p
unfolding find_task_by_pid unhash_pid
find_task_by_pid-unhash_pid_own p k =
    let h = pid_hashfn (k.tasks p).pid in
    rw (==_refl h) (find_in_chain_gone k.tasks (k.tasks p).pid p (k.pidhash h))

-- A task that find_task_by_pid finds has the PID that was looked for.
find_task_by_pid_pid :
    (pid p : ℕ) (k : Kernel) → find_task_by_pid pid k ≡ some p → (k.tasks p).pid ≡ pid
unfolding find_task_by_pid
find_task_by_pid_pid pid p k e = find_in_chain_pid k.tasks pid (k.pidhash (pid_hashfn pid)) p e
