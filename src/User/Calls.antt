-- ===== src/User/Calls.antt =====
-- `putchar` of user/src/sys/calls.S through the kernel: `printf` and the example thread of
-- user/src/sys/user_thread.c, with no other interrupt during their output.
use tupix.Base.{
  List, Option, [], ap, map, append_assoc, refl, sym, true, ℕ, ◌%◌, ◌++◌, ◌^◌, ◌∙◌, ◌∷◌, ◌≡◌,
}
use tupix.Base.Result.{Result, ok, ◌>>=◌}
use tupix.Calls.{
  exec_syscall, exec_syscall_put_char, get_syscall_id, run_syscall, syscall_of, uart_put_char,
}
use tupix.Format.{
  Argument, byte_at, calc_field_width, check_conversion, check_format_str, convert, is_digit,
  kprintf, kprintf_loop, va_word, word,
}
use tupix.Format.Convert.{IsNumStr}
use tupix.Format.Grammar.{Piece, render}
use tupix.Format.Loop.{Prints, kprintf-Prints}
use tupix.Isr.{software_interrupt_handler, user_interrupted}
use tupix.Isr.Dump.{Locals}
use tupix.Kernel.{Kernel}
use tupix.Timer.{disable_timer, enable_timer, reset_timer}
use tupix.User.Loop.{printf-emit}
use tupix.Base.Chains.{bind_each}
use tupix.User.Output.{emit, emit-append}
use tupix.Strings.{codes}
use tupix.User.{printf, thread_char, user_thread}
use mathlib.Core.List.{reverse, reverse-cons}

-- A call of `putchar`: the exception entry saves `c` in `r0` and the address behind the `svc`, and
-- the handler runs.
unfoldable pub putchar : Locals → (ℕ → ℕ) → ℕ → ℕ → Kernel → Result Kernel
putchar locals fetch lr c k =
    software_interrupt_handler locals fetch
      (record k { regs = record (k.regs) { gr = record (k.regs.gr) { r0 = c; lr = lr } } })

-- Nothing but what is transmitted, the frame's general registers, and the timer differs.
abbrev pub OnlyPrints : Kernel → Kernel → Type 0
OnlyPrints k k' = k' ≡ record k {
  transmitted = k'.transmitted;
  regs = record (k.regs) { gr = k'.regs.gr };
  timer = k'.timer;
}

abbrev low_bytes : List ℕ → List ℕ
low_bytes = map (λ c. c % 2 ^ 8)

-- The latest byte stands first.
unfoldable pub sent : List ℕ → Kernel → List ℕ
sent out k = reverse (low_bytes out) ++ k.transmitted

module _ (locals : Locals) (fetch : ℕ → ℕ) (lr : ℕ) (is_call : get_syscall_id fetch lr ≡ 3) where
  putchar-sends :
      (c : ℕ) (k : Kernel)
      → user_interrupted k.regs.spsr ≡ true
      → (k' : Kernel) × (putchar locals fetch lr c k ≡ ok k')
        × OnlyPrints k k'
        × (k'.transmitted ≡ c % 2 ^ 8 ∷ k.transmitted)
  unfolding putchar software_interrupt_handler exec_syscall syscall_of run_syscall
      exec_syscall_put_char uart_put_char
  putchar-sends c k user =
      let t = disable_timer k.timer in
      let k' : Kernel = record k {
        regs = record (k.regs) { gr = record (k.regs.gr) { r0 = c; lr = lr } };
        transmitted = c % 2 ^ 8 ∷ k.transmitted;
        timer = enable_timer (reset_timer t);
      } in
      (k', rw (user, is_call) refl, refl, refl)

  -- The calls for the bytes of a list.
  emit-sends :
      (out : List ℕ) (k : Kernel)
      → user_interrupted k.regs.spsr ≡ true
      → (k' : Kernel) × (emit (putchar locals fetch lr) out k ≡ ok k')
        × OnlyPrints k k'
        × (k'.transmitted ≡ sent out k)
  unfolding emit sent
  emit-sends [] k user = (k, refl, refl, refl)
  emit-sends (c ∷ out) k user =
      let (k', calls, kept, first) = putchar-sends c k user in
      let still : user_interrupted k'.regs.spsr ≡ true =
        ap (λ (x : Kernel). user_interrupted x.regs.spsr) kept ∙ user in
      let (k'', more, kept', rest) = emit-sends out k' still in
      (
        k'',
        ap (λ (r : Result Kernel). r >>= λ s. emit (putchar locals fetch lr) out s) calls ∙ more,
        kept'
            ∙ ap
                (λ (x : Kernel). record x {
                  transmitted = k''.transmitted;
                  regs = record (x.regs) { gr = k''.regs.gr };
                  timer = k''.timer;
                })
                kept,
        rest
            ∙ ap (λ (t : List ℕ). reverse (low_bytes out) ++ t) first
            ∙ sym (append_assoc (reverse (low_bytes out)) (c % 2 ^ 8 ∷ []) k.transmitted)
            ∙ ap (λ (l : List ℕ). l ++ k.transmitted)
                (sym (reverse-cons (c % 2 ^ 8) (low_bytes out))),
      )

  -- In user mode and with the code of `putchar` under the saved address, `printf` on a format of the
  -- grammar and fitting arguments returns: every byte of the text has gone through the kernel to the
  -- UART, in order, and no thread, queue or memory of the kernel has changed. What the buffer of
  -- numbers holds before and what lies behind the format does not matter.
  pub printf-sends :
      {ps : List Piece} {args : List Argument} {out : List ℕ} (after buffer : List ℕ) (k : Kernel)
      → Prints ps args out
      → IsNumStr buffer
      → user_interrupted k.regs.spsr ≡ true
      → (k' : Kernel) × (printf (putchar locals fetch lr) (render ps ++ 0 ∷ after) args buffer k
          ≡ ok k')
        × OnlyPrints k k'
        × (k'.transmitted ≡ sent out k)
  printf-sends {ps} {args} {out} after buffer k p size user =
      let (k', sends, kept, bytes) = emit-sends out k user in
      (
        k',
        printf-emit (putchar locals fetch lr) (render ps ++ 0 ∷ after) args buffer out k
              (kprintf-Prints after buffer p size)
            ∙ sends,
        kept,
        bytes,
      )

  -- The example thread greets with the character of its argument.
  pub user_thread-sends :
      (args : Option ℕ) (stack stack' : List ℕ) (k : Kernel)
      → user_interrupted k.regs.spsr ≡ true
      → (k' : Kernel) × (user_thread (putchar locals fetch lr) args stack stack' k ≡ ok k')
        × OnlyPrints k k'
        × (k'.transmitted ≡ sent (codes "Hello World! " ++ thread_char args % 2 ^ 8 ∷ b'\n' ∷ []) k)
  unfolding user_thread kprintf kprintf_loop check_format_str check_conversion calc_field_width
      byte_at convert is_digit va_word
  user_thread-sends args stack stack' k user =
      let name : List ℕ = thread_char args % 2 ^ 8 ∷ b'\n' ∷ [] in
      let (k', sends, kept, bytes) = emit-sends (codes "Hello World! " ++ name) k user in
      (
        k',
        ap
              (λ (r : Result Kernel).
                r
                >>= printf (putchar locals fetch lr) (codes "%c\n" ++ 0 ∷ [])
                    (word (thread_char args) ∷ []) stack')
              (printf-emit (putchar locals fetch lr) (codes "Hello World! " ++ 0 ∷ []) [] stack
                (codes "Hello World! ") k refl)
            ∙ bind_each (emit (putchar locals fetch lr) (codes "Hello World! ") k) _ _ (λ s.
              printf-emit (putchar locals fetch lr) (codes "%c\n" ++ 0 ∷ [])
                (word (thread_char args) ∷ []) stack' name s refl)
            ∙ sym (emit-append (putchar locals fetch lr) (codes "Hello World! ") name k)
            ∙ sends,
        kept,
        bytes,
      )
