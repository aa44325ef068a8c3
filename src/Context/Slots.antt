-- ===== src/Context/Slots.antt =====
-- `get_global_thread_index` of system/scheduler.c.
use tupix.Base.{arith, ℕ, ◌*◌, ◌+◌, ◌-◌, ◌<◌, ◌≡◌, ◌≤◌}
use tupix.Base.Result.{ok}
use tupix.Kernel.{Kernel, n_threads_per_process, deref_process, Tcb, n_processes, Pcb, n_threads}
use tupix.Context.{get_global_thread_index}

-- Threads 1 to 4 of the processes 1 to 8 stand in the slots 1 to 32, and no two share a slot.
pub get_global_thread_index_injective :
    (k : Kernel) (t u : Tcb) (p q : Pcb)
    → deref_process k t.process ≡ ok p
    → deref_process k u.process ≡ ok q
    → (0 < p.index) × (p.index ≤ n_processes)
    → (0 < q.index) × (q.index ≤ n_processes)
    → (0 < t.index) × (t.index ≤ n_threads_per_process)
    → (0 < u.index) × (u.index ≤ n_threads_per_process)
    → get_global_thread_index k t ≡ get_global_thread_index k u
    → (p.index ≡ q.index) × (t.index ≡ u.index)
unfolding get_global_thread_index
get_global_thread_index_injective k t u p q ep eq hp hq ht hu same = ground arith

-- The slot of a thread lies in the table, past the null thread's.
pub get_global_thread_index_range :
    (k : Kernel) (t : Tcb) (p : Pcb)
    → deref_process k t.process ≡ ok p
    → (0 < p.index) × (p.index ≤ n_processes)
    → (0 < t.index) × (t.index ≤ n_threads_per_process)
    → (s : ℕ) × (get_global_thread_index k t ≡ ok s) × (0 < s) × (s ≤ n_threads)
unfolding get_global_thread_index
get_global_thread_index_range k t p ep hp ht =
    ((p.index - 1) * 4 + t.index, ground arith, ground arith, ground arith)
