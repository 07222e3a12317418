-- ===== src/Interrupts/Ends.antt =====
-- interrupts.rs: on every path a handler notifies the end of its interrupt once.
use molt_os.Prelude.{
  ℕ, ◌+◌, ◌%◌, ◌≡◌, ◌≢◌, refl, sym, subst, inl, inr, Option, none, some, ◌∷◌, ◌==◌, ==_iff,
  Bool-cases, word, arith, Checked, ok,
}
use molt_os.Scheduler.Global.{Scheduler, tick_prepare}
use molt_os.Task.Keyboard.{ArrayQueue, AtomicWaker, add_scancode}
use molt_os.Doom.Keys.{Keyboard, feed_scancode}
use molt_os.Cpu.{rdi, Cpu, exec}
use molt_os.Cpu.Context.{context_switch_to}
use molt_os.Interrupts.Frame.{frame_of, IsFrame}
use molt_os.Interrupts.Copied.{CanPreempt}
use molt_os.Interrupts.Saved.{IsPreempted, save_frame-IsPreempted}
use molt_os.Interrupts.Preempt.{calling, irq_preempt-ok}
use molt_os.Interrupts.{
  Kernel, Handled, returns, switches, InterruptIndex, timer, keyboard, as_u8, finish,
  notify_end_of_interrupt, timer_interrupt_inner, keyboard_interrupt_inner,
}

module _ {Q W : Type 0} where
  abbrev pub kernel_of : Handled Q W → Kernel Q W
  kernel_of (returns k) = k
  kernel_of (switches k) = k

  -- What the end of a handler does to the kernel: one notification, and nothing but that to what the
  -- handler works on besides the processor.
  record Ends (irq : InterruptIndex) (k k' : Kernel Q W) : Type 0 where
    pub sent : k'.sent ≡ as_u8 irq ∷ k.sent
    pub tick_count : k'.tick_count ≡ k.tick_count
    pub scheduler : k'.scheduler ≡ k.scheduler
    pub scancodes : k'.scancodes ≡ k.scancodes
    pub keys : k'.keys ≡ k.keys

  -- A switch can be made from the interrupted state `s`: its frame is in memory and the context that
  -- it is saved in is apart.
  abbrev pub Preemptable : Cpu → Kernel Q W → Option (ℕ × ℕ) → Type 0
  Preemptable s k none = Unit
  Preemptable s k (some (from, to)) = CanPreempt s from × IsFrame s (frame_of s) k.cpu.memory

  preemptable :
      (s : Cpu) (k k1 : Kernel Q W) (switch : Option (ℕ × ℕ))
      → k1.cpu ≡ k.cpu
      → Preemptable s k switch
      → Preemptable s k1 switch
  preemptable s k k1 none e h = tt
  preemptable s k k1 (some (from, to)) e h =
      (h.0, subst (λ c. IsFrame s (frame_of s) c.memory) (sym e) h.1)

  -- The handler does what the scheduler says about the interrupted state `s`: it returns with the
  -- processor as it was where there is no switch, or one to the same context, and else it has executed
  -- `context_switch_to`, in a state that holds the new context and has saved `s` in the old one.
  pub data Follows (s : Cpu) (c : Cpu) : Option (ℕ × ℕ) → Handled Q W → Type 0 where
    stays : {k : Kernel Q W} → k.cpu ≡ c → Follows s c none (returns k)
    same :
        {k : Kernel Q W} {from to : ℕ}
        → from ≡ to
        → k.cpu ≡ c
        → Follows s c (some (from, to)) (returns k)
    moves :
        {k : Kernel Q W} {from to : ℕ}
        → from ≢ to
        → (calling s from to c).registers rdi ≡ to
        → IsPreempted s from (calling s from to c).memory
        → k.cpu ≡ exec context_switch_to (calling s from to c)
        → Follows s c (some (from, to)) (switches k)

  -- A handler ends: it returns or has switched, as the scheduler said, with these effects.
  record Ended (irq : InterruptIndex) (s : Cpu) (switch : Option (ℕ × ℕ)) (k : Kernel Q W)
      (m : Checked (Handled Q W)) : Type 0 where
    pub handled : Handled Q W
    pub result : m ≡ ok handled
    pub follows : Follows s k.cpu switch handled
    pub effects : Ends irq k (kernel_of handled)

  finish-Ended :
      (s : Cpu) (irq : InterruptIndex) (switch : Option (ℕ × ℕ)) (k : Kernel Q W)
      → Preemptable s k switch
      → Ended irq s switch k (finish (frame_of s) irq switch k)
  unfolding finish
  finish-Ended s irq none k h = record {
    handled = returns (notify_end_of_interrupt irq k);
    result = refl;
    follows = stays refl;
    effects = record {
      sent = refl;
      tick_count = refl;
      scheduler = refl;
      scancodes = refl;
      keys = refl;
    };
  }
  finish-Ended s irq (some (from, to)) k h = elim (Bool-cases (from == to)) [
    | inl t ↦ record {
      handled = returns (notify_end_of_interrupt irq k);
      result = rw t;
      follows = same ((==_iff from to).0 t) refl;
      effects = record {
        sent = refl;
        tick_count = refl;
        scheduler = refl;
        scancodes = refl;
        keys = refl;
      };
    }
    | inr f ↦ record {
      handled = switches (
          notify_end_of_interrupt irq
            (record k { cpu = exec context_switch_to (calling s from to k.cpu) }));
      follows =
          moves (ground (arith, f)) refl (save_frame-IsPreempted s from k.cpu.memory h.0 h.1) refl;
      result = rw (f, irq_preempt-ok s from to irq k h.0 h.1);
      effects = record {
        sent = refl;
        tick_count = refl;
        scheduler = refl;
        scancodes = refl;
        keys = refl;
      };
    }
  ]

  -- The timer's handler, where the scheduler's tick returns `switch`: the rest of it does not panic. It
  -- counts the tick, keeps the scheduler's new state, returns or switches as the scheduler said, and
  -- notifies the end of interrupt 32 once.
  pub timer_interrupt_inner-notifies :
      (s : Cpu) (k : Kernel Q W) (scheduler : Scheduler) (switch : Option (ℕ × ℕ))
      → tick_prepare k.scheduler ((k.tick_count + 1) % word) ≡ ok (scheduler, switch)
      → Preemptable s k switch
      → (h : Handled Q W) × (timer_interrupt_inner (frame_of s) k ≡ ok h)
        × Follows s k.cpu switch h
        × ((kernel_of h).sent ≡ 32 ∷ k.sent)
        × ((kernel_of h).tick_count ≡ (k.tick_count + 1) % word)
        × ((kernel_of h).scheduler ≡ scheduler)
  unfolding timer_interrupt_inner
  timer_interrupt_inner-notifies s k scheduler switch e p =
      let k1 : Kernel Q W = record k {
        tick_count = (k.tick_count + 1) % word;
        scheduler = scheduler;
      } in
      let ended : Ended timer s switch k1 (finish (frame_of s) timer switch k1) =
        finish-Ended s timer switch k1 (preemptable s k k1 switch refl p) in
      (
        ended.handled,
        rw e ended.result,
        ended.follows,
        ended.effects.sent,
        ended.effects.tick_count,
        ended.effects.scheduler,
      )

  -- The keyboard's handler, likewise: the byte goes to the shell's queue and to the game's ring, no
  -- tick is counted, and the end of interrupt 33 is notified once.
  pub keyboard_interrupt_inner-feeds :
      (a : ArrayQueue Q) (w : AtomicWaker W) (s : Cpu) (scancode : ℕ) (k : Kernel Q W)
      (keys : Keyboard) (scheduler : Scheduler) (switch : Option (ℕ × ℕ))
      → feed_scancode k.keys scancode ≡ ok keys
      → tick_prepare k.scheduler k.tick_count ≡ ok (scheduler, switch)
      → Preemptable s k switch
      → (h : Handled Q W) × (keyboard_interrupt_inner a w scancode (frame_of s) k ≡ ok h)
        × Follows s k.cpu switch h
        × ((kernel_of h).sent ≡ 33 ∷ k.sent)
        × ((kernel_of h).tick_count ≡ k.tick_count)
        × ((kernel_of h).scancodes ≡ add_scancode a w k.scancodes scancode)
        × ((kernel_of h).keys ≡ keys)
  unfolding keyboard_interrupt_inner
  keyboard_interrupt_inner-feeds a w s scancode k keys scheduler switch fed e p =
      let k1 : Kernel Q W = record k {
        scancodes = add_scancode a w k.scancodes scancode;
        keys = keys;
        scheduler = scheduler;
      } in
      let ended : Ended keyboard s switch k1 (finish (frame_of s) keyboard switch k1) =
        finish-Ended s keyboard switch k1 (preemptable s k k1 switch refl p) in
      (
        ended.handled,
        rw (fed, e) ended.result,
        ended.follows,
        ended.effects.sent,
        ended.effects.tick_count,
        ended.effects.scancodes,
        ended.effects.keys,
      )
