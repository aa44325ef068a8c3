-- ===== src/Calls.antt =====
-- system/calls.c: the system calls. A caller whose pointers do not verify is killed.
pub mod GetChar
pub mod Verify
use tupix.Base.{
  Bool, Option, bit_and, false, if◌then◌else◌, leb, ltb, none, some, sub32, true, ℕ, ◌%◌, ◌&&◌,
  ◌==◌, ◌^◌, ◌∷◌,
}
use tupix.Base.Result.{◌>>=◌, from_option, panicked, ok, Result}
use tupix.Uart.{uart_pop_char, uart_queue_is_emtpy}
use tupix.Thread.{get_max_stack_pointer, get_stack_pointer}
use tupix.Scheduler.{get_cur_thread_state, get_cur_thread_index, kill_cur_thread, get_cur_process}
use tupix.Kernel.{ThreadState, ready, Kernel}
use tupix.Isr.Dump.{Locals, report_to_uart}
use tupix.Waiting.{scheduler_on_sleep, scheduler_on_getchar}
use tupix.Process.{process_create, thread_create}

unfoldable pub verify_pointer : Kernel → ℕ → Result Bool
verify_pointer k p = do
  index ← get_cur_thread_index k
  let min_sp = get_stack_pointer index
  let max_sp = get_max_stack_pointer index
  ok ((p % 4 == 0) && (ltb p min_sp && leb max_sp p))

unfoldable pub verify_func_pointer : ℕ → Bool
verify_func_pointer p = p % 4 == 0

-- `SET_SYSCALL_RETURN_VALUE`
unfoldable pub set_syscall_return_value : Kernel → ℕ → Kernel
set_syscall_return_value k value = record k {
  regs = record (k.regs) { gr = record (k.regs.gr) { r0 = value } };
}

unfoldable pub is_ready : ThreadState → Bool
is_ready ready = true
is_ready _ = false

unfoldable pub exec_syscall_get_char : Kernel → Result Kernel
exec_syscall_get_char k =
    if uart_queue_is_emtpy k.queue
    then (do
      k ← scheduler_on_getchar k
      state ← get_cur_thread_state k
      if is_ready state then ok k else panicked)
    else (let (c, queue) = uart_pop_char k.queue in
        ok (set_syscall_return_value (record k { queue = queue }) c))

-- `uart_put_char` of driver/uart.c, once the transmit FIFO has room.
unfoldable pub uart_put_char : Kernel → ℕ → Kernel
uart_put_char k c = record k { transmitted = c ∷ k.transmitted }

unfoldable pub exec_syscall_put_char : Kernel → Result Kernel
exec_syscall_put_char k = ok (uart_put_char k (k.regs.gr.r0 % 2 ^ 8))

unfoldable pub exec_syscall_wait : Kernel → Result Kernel
exec_syscall_wait k = scheduler_on_sleep k k.regs.gr.r0

-- The three tests that `exec_syscall_fork` and `exec_syscall_create_thread` share: the function, the
-- argument pointer, and the pointer `args - (args_size - 4)`.
unfoldable pub verify_args : Kernel → Result Bool
verify_args k =
    let args = k.regs.gr.r1 in
    let below = sub32 args (sub32 k.regs.gr.r2 4) in
    if verify_func_pointer k.regs.gr.r0
    then (verify_pointer k args >>= λ good. (if good then verify_pointer k below else ok false))
    else ok false

unfoldable pub exec_syscall_fork : Kernel → Result Kernel
exec_syscall_fork k = do
  good ← verify_args k
  if good then process_create k k.regs.gr.r0 k.regs.gr.r1 k.regs.gr.r2 else kill_cur_thread k

unfoldable pub exec_syscall_create_thread : Kernel → Result Kernel
exec_syscall_create_thread k = do
  good ← verify_args k
  if good
      then (do
        cur ← get_cur_process k
        slot ← from_option cur
        (thread, k) ← thread_create k slot k.regs.gr.r0 k.regs.gr.r1 k.regs.gr.r2
        ok k)
      else kill_cur_thread k

-- `fetch` reads a word of the user's code, from which the number of the call is taken.
unfoldable pub get_syscall_id : (ℕ → ℕ) → ℕ → ℕ
get_syscall_id fetch lr = bit_and (fetch (sub32 lr 4)) 0xff

-- `enum syscall_id`
pub data SyscallId : Type 0 where
  exit get_char put_char wait fork create_thread : SyscallId

unfoldable pub syscall_of : ℕ → Option SyscallId
syscall_of id =
    if id == 1
    then some exit
    else if id == 2
    then some get_char
    else if id == 3
    then some put_char
    else if id == 4
    then some wait
    else if id == 5
    then some fork
    else if id == 6
    then some create_thread
    else none

unfoldable pub run_syscall : Locals → Option SyscallId → Kernel → Result Kernel
run_syscall locals (some exit) k = kill_cur_thread k
run_syscall locals (some get_char) k = exec_syscall_get_char k
run_syscall locals (some put_char) k = exec_syscall_put_char k
run_syscall locals (some wait) k = exec_syscall_wait k
run_syscall locals (some fork) k = exec_syscall_fork k
run_syscall locals (some create_thread) k = exec_syscall_create_thread k
run_syscall locals none k = do
  k ← report_to_uart locals "Software Interrupt" "Killing thread." k
  kill_cur_thread k

unfoldable pub exec_syscall : Locals → ℕ → Kernel → Result Kernel
exec_syscall locals id k = run_syscall locals (syscall_of id) k
