-- ===== src/Pid.antt =====
-- The PID hash of sharedFolderHW2/sched.h, and the system calls' way from a PID to a task. A chain of
-- `pidhash_next` pointers is the list of its tasks.
pub mod Lookup
use Prim.Native.Nat.{bit_and, bit_xor}
use os_hw.Base.{
  ℕ, ◌-◌, ◌/◌, ◌^◌, Option, none, some, List, [], ◌∷◌, upd, ◌==◌, if◌then◌else◌, remove,
}
use os_hw.Model.{Task, Kernel}

abbrev pub pidhash_size : ℕ
pidhash_size = 4096 / 2 ^ 2

-- pid_hashfn of a PID that is not negative
unfoldable pub pid_hashfn : ℕ → ℕ
pid_hashfn x = bit_and (bit_xor (x / 2 ^ 8) x) (pidhash_size - 1)

-- The loop of find_task_by_pid along a chain.
unfoldable pub find_in_chain : (ℕ → Task) → ℕ → List ℕ → Option ℕ
find_in_chain tasks pid [] = none
find_in_chain tasks pid (p ∷ ps) =
    let rest = find_in_chain tasks pid ps in if (tasks p).pid == pid then some p else rest

unfoldable pub find_task_by_pid : ℕ → Kernel → Option ℕ
unfolding find_in_chain
find_task_by_pid pid k = find_in_chain k.tasks pid (k.pidhash (pid_hashfn pid))

unfoldable pub hash_pid : ℕ → Kernel → Kernel
hash_pid p k =
    let h = pid_hashfn (k.tasks p).pid in record k { pidhash = upd k.pidhash h (p ∷ k.pidhash h) }

-- unhash_pid, which unlinks the task from the chain that it is on
unfoldable pub unhash_pid : ℕ → Kernel → Kernel
unhash_pid p k =
    let h = pid_hashfn (k.tasks p).pid in
    record k { pidhash = upd k.pidhash h (remove p (k.pidhash h)) }

-- find_process_by_pid of sched.c
unfoldable pub find_process_by_pid : ℕ → Kernel → Option ℕ
find_process_by_pid pid k = if pid == 0 then some k.current else find_task_by_pid pid k
