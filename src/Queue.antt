-- ===== src/Queue.antt =====
-- Priority arrays: the list and bit operations on them, dequeue_task and enqueue_task of
-- sharedFolderHW2/sched.c. `run_list` is one node in each task, so a task stands on one list at most,
-- and list_del takes it off whichever list that is.
pub mod Effects
pub mod Frame
pub mod Forked
pub mod Sync
use os_hw.Base.{
  ℕ, zero, suc, Bool, true, false, ◌&&◌, some, List, [], ◌∷◌, ◌++◌, upd, ◌==◌, if◌then◌else◌,
  is_empty, remove,
}
use os_hw.Base.Words.{inc, dec}
use os_hw.Model.{Task, Kernel, sched_short, set_task, set_array}

-- list_del(&p->run_list)
unfoldable pub list_del : ℕ → Kernel → Kernel
list_del p k = record k {
  arrays = λ a. let v = k.arrays a in record v { queue = λ i. remove p (v.queue i) };
}

-- list_add(&p->run_list, array->queue + prio)
unfoldable pub list_add : ℕ → ℕ → ℕ → Kernel → Kernel
list_add p a prio k =
    let v = k.arrays a in set_array k a (record v { queue = upd v.queue prio (p ∷ v.queue prio) })

-- list_add_tail(&p->run_list, array->queue + prio)
unfoldable pub list_add_tail : ℕ → ℕ → ℕ → Kernel → Kernel
list_add_tail p a prio k =
    let v = k.arrays a in
    set_array k a (record v { queue = upd v.queue prio (v.queue prio ++ p ∷ []) })

-- array->nr_active-- and array->nr_active++
unfoldable pub count_out : ℕ → Kernel → Kernel
count_out a k = let v = k.arrays a in set_array k a (record v { nr_active = dec v.nr_active })

unfoldable pub count_in : ℕ → Kernel → Kernel
count_in a k = let v = k.arrays a in set_array k a (record v { nr_active = inc v.nr_active })

-- __set_bit(prio, array->bitmap) and __clear_bit(prio, array->bitmap)
unfoldable pub set_bit : ℕ → ℕ → Kernel → Kernel
set_bit prio a k =
    let v = k.arrays a in set_array k a (record v { bitmap = upd v.bitmap prio true })

unfoldable pub clear_bit : ℕ → ℕ → Kernel → Kernel
clear_bit prio a k =
    let v = k.arrays a in set_array k a (record v { bitmap = upd v.bitmap prio false })

-- list_empty(array->queue + prio)
unfoldable pub list_empty : ℕ → ℕ → Kernel → Bool
list_empty a prio k = is_empty ((k.arrays a).queue prio)

unfoldable pub dequeue_task : ℕ → ℕ → Kernel → Kernel
unfolding list_del count_out clear_bit list_empty
dequeue_task p a k =
    let k' = list_del p (count_out a k) in
    let prio = (k.tasks p).prio in if list_empty a prio k' then clear_bit prio a k' else k'

-- The test at the head of enqueue_task: a SHORT task is forking, and `p` is its child.
unfoldable pub fork_pending : ℕ → Kernel → Bool
fork_pending p k =
    let current = k.tasks k.current in
    let child = k.tasks p in
    current.policy == sched_short
    && (current.just_got_forked
        && (child.i_am_overdue == 0 && (k.tasks child.p_opptr).just_got_forked))

-- The three statements that end enqueue_task.
unfoldable pub link_array : ℕ → ℕ → Kernel → Kernel
unfolding set_bit count_in
link_array p a k =
    let k' = count_in a (set_bit (k.tasks p).prio a k) in
    let t = k'.tasks p in set_task k' p (record t { array = some a })

-- The branch without a fork.
unfoldable pub enqueue_tail : ℕ → ℕ → Kernel → Kernel
unfolding list_add_tail link_array
enqueue_tail p a k = link_array p a (list_add_tail p a (k.tasks p).prio k)

-- p->p_opptr->justGotForked = 0
unfoldable pub clear_forked : ℕ → Kernel → Kernel
clear_forked p k = let t = k.tasks p in set_task k p (record t { just_got_forked = false })

-- enqueue_task with a bound on the depth of its calls of itself.
unfoldable pub enqueue_depth : ℕ → ℕ → ℕ → Kernel → Kernel
unfolding fork_pending enqueue_tail clear_forked dequeue_task list_add link_array
enqueue_depth zero p a k = enqueue_tail p a k
enqueue_depth (suc depth) p a k =
    let parent = (k.tasks p).p_opptr in
    let moved = enqueue_depth depth parent a (dequeue_task parent a (clear_forked parent k)) in
    let front = link_array p a (list_add p a (moved.tasks p).prio moved) in
    if fork_pending p k then front else enqueue_tail p a k

-- How many tasks of the list have the flag; each call of enqueue_task by itself clears one.
unfoldable pub forked_among : (ℕ → Task) → List ℕ → ℕ
forked_among tasks [] = 0
forked_among tasks (p ∷ ps) =
    let rest = forked_among tasks ps in if (tasks p).just_got_forked then suc rest else rest

unfoldable pub enqueue_task : ℕ → ℕ → Kernel → Kernel
unfolding enqueue_depth forked_among
enqueue_task p a k = enqueue_depth (forked_among k.tasks k.task_list) p a k
