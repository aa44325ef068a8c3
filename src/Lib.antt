-- ===== src/Lib.antt =====
-- A model of the tupix kernel, an ARMv7 teaching kernel, and theorems about it.
--
-- The kernel keeps a table of 8 processes with 4 threads each, a run queue of slots of the thread
-- table, and two waiting queues. A timer interrupt counts the sleeping threads down and switches to
-- the next thread; an interrupt of the UART buffers a character and wakes the thread that has waited
-- for one longest; a system call ends, parks or creates threads. Every handler works on the register
-- frame that the exception entry built, and a context switch exchanges its contents.
--
-- Files, and the code that they model:
--   Base         numbers, lists, and how a function ends: `ok`, `panicked` (ASSERTM), `halted`
--                (kendless_loop), `faulted` (an access to what is not there), `timeout` (no fuel)
--                (Result), chains of fallible steps (Chains)
--   Types        data/types.c, include/data/types.h: index queues (Inv, Ring, Refine)
--   Bits         include/std/bits.h (Laws, Low, Single)
--   Registers    include/arch/armv7/registers.h
--   Mmu          driver/mmu.c: page table entries and tables (Entry, Megabyte, Pointer, Initial,
--                Domains), and init_mmu of driver/mmuasm.S
--   Uart, Timer  driver/uart.c, driver/timer.c
--   Devices      the device registers that driver/uart.c and driver/interrupt_controller.c set up
--   Kernel       the shared state of system/scheduler.c, include/system/thread.h and process.h
--   Memory       switch_memory, and lib/std/mem.c: memcpy through a page table (Blocks), memset
--                (Bytes)
--   Thread       system/thread.c: stack pointers and the initial thread (Stacks)
--   Context      system/scheduler.c: get_global_thread_index, switch_context
--   Sleep        system/scheduler.c: decrement_waits (Steps, Ticks, Ticked, Order)
--   Tables       system/scheduler.c: initialisation and registration
--   Scheduler    system/scheduler.c: scheduler_cycle, kill_cur_thread, the getters (Cycle, Slice,
--                Kill, Fair)
--   Waiting      system/scheduler.c: sleeping, waiting for a character, its delivery
--   Process      system/process.c (Spawned, Forked), and thread_create of system/thread.c
--                (Created, Copied)
--   Calls        system/calls.c
--   Isr          system/isr.c: the handlers, the text of a status word (Status), the register dump
--                (Dump), the handlers' reports (Reports)
--   Start        system/start.c (Boot)
--   Invariant    what every handler keeps, over system/scheduler.c, process.c, calls.c and isr.c
--   Strings      lib/std/strings.c
--   Numbers      lib/std/util.c: digits and signs
--   Format       lib/std/io.c: the check of formats (Grammar, Check, Accept) and kprintf
--   User         user/src/std/io.c (Check) and user/src/sys/user_thread.c, and putchar of
--                user/src/sys/calls.S through the handler of software interrupts (Calls), a round
--                of main_thread (Main, Stored, Grow); user/src/std/util.c, strings.c and mem.c (Util), and
--                all these copies against the functions of lib/std (Copies)
--   Tests        whole runs, and the theorems at concrete inputs
--
-- State and pointers. `Kernel` holds the tables, the queues, the frame and the memory; an operation
-- takes it and returns it. A pointer into a table is a slot number, and NULL is `none` or 0 where
-- the code can meet it. Words are native numbers, cut to 32 bits where the code's types do. The
-- array behind the pointer of an index queue is a list in the record. For the free indices of a process
-- that array is a local of process_create: a single operation takes it to keep its contents, and a
-- write to it to change nothing else; the invariant allows any bytes there between two operations.
--
-- Output. kprintf returns the bytes that it sends to the UART; the user's printf takes the machine
-- through one putchar per byte. A string is the list of the bytes under its pointer, and the arguments
-- behind `...` are words and strings. The buffer of digits on the stack is an argument, since the code
-- does not clear it.
--
-- Fuel. The loop of decrement_waits has one round more than the queue has entries, which is enough:
-- each round passes an entry or removes one. The loops over digits have 33 rounds: a word has at
-- most 32 digits in any base from 2 on. kprintf has one round more than its format has bytes, each of
-- which passes a byte, and so have the loops of the user library's checks.
--
-- Not modelled: the log lines of klog (include/std/log.h); trigger_exception of system/isr.c, a
-- debugging aid in assembly; the wait of uart_put_char for the transmit FIFO, which the device ends;
-- the assembly of system/ivt.S, system/entry.S and system/kutil.S, and the flush of the TLB; the loop
-- of main_thread in user/src/sys/user_thread.c beyond one round, since it is endless. The processor's
-- translation of addresses is read as the page table entries define it, and the registers that
-- init_mmu writes are not read by it.
pub mod Base
pub mod Types
pub mod Bits
pub mod Registers
pub mod Mmu
pub mod Uart
pub mod Timer
pub mod Devices
pub mod Kernel
pub mod Memory
pub mod Thread
pub mod Context
pub mod Sleep
pub mod Tables
pub mod Scheduler
pub mod Waiting
pub mod Process
pub mod Calls
pub mod Isr
pub mod Start
pub mod Invariant
pub mod Strings
pub mod Numbers
pub mod Format
pub mod User
pub mod Tests
