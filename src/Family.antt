-- ===== src/Family.antt =====
-- The links between processes of sharedFolderHW2/sched.h: SET_LINKS, REMOVE_LINKS and unhash_process. The
-- ring of all tasks is the ring of the links `tasks`; a relative that is NULL is `none`.
pub mod Ring
pub mod RoundTrip
use os_hw.Base.{ℕ, Option, none, some, upd}
use os_hw.Base.Words.{dec}
use os_hw.Links.{Links, list_del}
use os_hw.Model.{Kernel}
use os_hw.Pid.{unhash_pid}

-- next_task and prev_task, the youngest child, the younger and the older sibling, and the parent
pub record Relatives : Type 0 where
  pub tasks : Links
  pub p_cptr : ℕ → Option ℕ
  pub p_ysptr : ℕ → Option ℕ
  pub p_osptr : ℕ → Option ℕ
  pub p_pptr : ℕ → ℕ

-- (q)->p_ysptr = v, if there is a q
abbrev pub set_younger : Option ℕ → Option ℕ → Relatives → Relatives
set_younger none v r = r
set_younger (some q) v r = record r { p_ysptr = upd r.p_ysptr q v }

-- The ring of SET_LINKS: `p` is put before init_task.
unfoldable pub append_task : ℕ → ℕ → Links → Links
append_task init p m =
    let m1 = record m { next = upd m.next p init } in
    let m2 = record m1 { prev = upd m1.prev p (m1.prev init) } in
    let m3 = record m2 { next = upd m2.next (m2.prev init) p } in
    record m3 { prev = upd m3.prev init p }

unfoldable pub set_links : ℕ → ℕ → Relatives → Relatives
unfolding append_task
set_links init p r =
    let r1 = record r { tasks = append_task init p r.tasks; p_ysptr = upd r.p_ysptr p none } in
    let older = r1.p_cptr (r1.p_pptr p) in
    let r2 = record r1 { p_osptr = upd r1.p_osptr p older } in
    let r3 = set_younger older (some p) r2 in
    record r3 { p_cptr = upd r3.p_cptr (r3.p_pptr p) (some p) }

-- The ring of REMOVE_LINKS.
unfoldable pub remove_task : ℕ → Links → Links
remove_task p m =
    let m1 = record m { prev = upd m.prev (m.next p) (m.prev p) } in
    record m1 { next = upd m1.next (m1.prev p) (m1.next p) }

-- The second test of REMOVE_LINKS, on p_ysptr.
unfoldable pub detach : Option ℕ → ℕ → Relatives → Relatives
detach none p r = record r { p_cptr = upd r.p_cptr (r.p_pptr p) (r.p_osptr p) }
detach (some y) p r = record r { p_osptr = upd r.p_osptr y (r.p_osptr p) }

unfoldable pub remove_links : ℕ → Relatives → Relatives
unfolding remove_task detach
remove_links p r =
    let r1 = record r { tasks = remove_task p r.tasks } in
    let r2 = set_younger (r1.p_osptr p) (r1.p_ysptr p) r1 in detach (r2.p_ysptr p) p r2

-- unhash_process: the count of the threads, the PID hash, the relatives, and the thread group.
unfoldable pub unhash_process :
    ℕ → (ℕ × Kernel) × (Relatives × Links) → (ℕ × Kernel) × (Relatives × Links)
unfolding remove_links
unhash_process p ((nr_threads, k), (r, groups)) =
    ((dec nr_threads, unhash_pid p k), (remove_links p r, list_del p groups))
