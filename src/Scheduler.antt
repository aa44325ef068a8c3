-- ===== src/Scheduler.antt =====
-- system/scheduler.c: which thread runs next, and the end of a thread. Log lines print and change
-- no state, and are left out.
pub mod Cycle
pub mod Fair
pub mod Kill
pub mod Slice
use tupix.Base.{Bool, Option, if◌then◌else◌, leb, none, some, ℕ, ◌==◌}
use tupix.Base.Int.{pos, negsuc}
use tupix.Base.Result.{◌>>=◌, ok, from_option, Result}
use tupix.Types.{pop_index, push_index}
use tupix.Context.{switch_context}
use tupix.Sleep.{decrement_waits}
use tupix.Kernel.{Kernel, Tcb, load_process, load_thread, null_thread, ThreadState, store_process}

-- The part of `scheduler_cycle` after `old_thread` was running and `index` was popped.
unfoldable pub switch_to : Kernel → ℕ → ℕ → Result Kernel
switch_to k old_thread index =
    let k' = record k { running_thread = index } in
    if old_thread == null_thread then switch_context k' none index else (do
      old ← load_thread k' old_thread
      let (pushed, run) = push_index k'.thread_indices_q old.index
      let k'' = record k' { thread_indices_q = run }
      elim pushed [ negsuc _ ↦ ok k'' | pos _ ↦ switch_context k'' (some old_thread) index ])

unfoldable pub scheduler_cycle : Kernel → Bool → Result Kernel
scheduler_cycle k decrement = do
  k ← if decrement then decrement_waits k else ok k
  if k.thread_indices_q.count == 0
      then ok k
      else (let (index, run) = pop_index k.thread_indices_q in
          let k' = record k { thread_indices_q = run } in
          elim index [ negsuc _ ↦ ok k' | pos i ↦ switch_to k' k.running_thread i ])

unfoldable pub get_cur_thread_index : Kernel → Result ℕ
get_cur_thread_index k = do t ← load_thread k k.running_thread; ok t.index

-- The slot of the running thread's process; none for NULL.
unfoldable pub get_cur_process : Kernel → Result (Option ℕ)
get_cur_process k = do t ← load_thread k k.running_thread; ok t.process

unfoldable pub get_cur_thread_state : Kernel → Result ThreadState
get_cur_thread_state k = do t ← load_thread k k.running_thread; ok t.state

-- What is left of `kill_cur_thread` once the next thread runs: the killed thread's index in its
-- process is free again, and so is the process when it has no thread left.
unfoldable pub release_thread : Kernel → Option ℕ → Tcb → Result Kernel
release_thread k cur_process cur_thread = do
  slot ← from_option cur_process
  p ← load_process k slot
  let free = (push_index p.free_indices_q cur_thread.index).1
  k ← store_process k slot (record p { free_indices_q = free })
  if leb free.size free.count
      then ok
          (record k { free_process_indices_q = (push_index k.free_process_indices_q p.index).1 })
      else ok k

unfoldable pub kill_cur_thread : Kernel → Result Kernel
kill_cur_thread k = do
  cur_thread ← load_thread k k.running_thread
  let (index, run) = pop_index k.thread_indices_q
  let next : ℕ = elim index [ negsuc _ ↦ null_thread | pos i ↦ i ]
  k ← switch_context (record k { thread_indices_q = run; running_thread = next }) none next
  release_thread k cur_thread.process cur_thread
