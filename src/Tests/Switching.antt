-- ===== src/Tests/Switching.antt =====
-- Switches and interrupts at concrete states of the machine.
use molt_os.Prelude.{
  ℕ, ◌+◌, ◌≤◌, ◌<◌, ◌≡◌, refl, ◌==◌, if◌then◌else◌, true, false, Option, none, some, [], ◌∷◌, ok,
  arith,
}
use molt_os.Cpu.{rdi, number, Cpu, set, step, exec}
use molt_os.Cpu.Context.{context_switch, context_switch_to}
use molt_os.Cpu.Halves.{CanSwitch}
use molt_os.Cpu.Yield.{Returned, context_switch-returns}
use molt_os.Cpu.Stack.{KernelStack, check_canary}
use molt_os.Scheduler.Thread.{Thread}
use molt_os.Scheduler.Global.{Scheduler, tick_prepare}
use molt_os.Scheduler.Eevdf
use molt_os.Scheduler.Eevdf.{
  EevdfScheduler, tick_threads, account, charge, sum_weights, sum_from, runnable, charge_by, choose,
  pick, pick_from, candidates, min_vruntime_or, min_from, min_by_deadline, virtual_deadline,
  conclude, commit, first_runnable, from_context, switch_to,
}
use molt_os.Scheduler.Created.{with_stack_size}
use molt_os.Scheduler.Starting.{Starts, with_stack_size-Starts}
use molt_os.Doom.Keys
use molt_os.Interrupts.{
  Kernel, Handled, switches, timer, finish, deliver, entry_pushes, entry_of, timer_interrupt_inner,
}
use molt_os.Interrupts.Frame.{HasFrame, frame_of, IsFrame, entry-Entered}
use molt_os.Interrupts.Popped.{Undisturbed, interrupt-Undisturbed}
use molt_os.Interrupts.Copied.{CanPreempt}
use molt_os.Interrupts.Preempt.{Keeps, Continued, preemption-resumes}
use molt_os.Interrupts.Ends.{kernel_of, Follows, timer_interrupt_inner-notifies}

-- A thread with its context at 1000 and its stack at 5000; the context at 2000 has its stack at 6000.
abbrev running : Cpu
running = record {
  registers = λ r.
      if number r == 4
      then 5000
      else if number r == 7
      then 1000
      else if number r == 6
      then 2000
      else number r;
  rip = 99;
  rflags = 0x202;
  memory = λ a. if a == 2000 then 6000 else if a == 5000 then 77 else if a == 6000 then 88 else 0;
}

running-CanSwitch : CanSwitch running
running-CanSwitch = record {
  yields = record {
    room = omega arith;
    in_word = omega arith;
    flags_apart = λ k lt e. omega (arith, lt, e);
    return_apart = λ k lt e. omega (arith, lt, e);
  };
  stack = record {
    room = omega arith;
    in_word = omega arith;
    apart = λ k lt e. omega (arith, lt, e);
  };
  contexts_apart = λ k lt e. omega (arith, lt, e);
  saved_apart = omega arith;
  old_apart = λ k lt e. omega (arith, lt, e);
  return_apart = omega arith;
}

-- The state after the switch, when the first context is the one to go to.
abbrev later : Cpu
later = record (exec context_switch running) {
  registers = set (exec context_switch running).registers rdi 1000;
}

context_switch-returns_example : Returned running (exec context_switch_to later)
context_switch-returns_example =
    context_switch-returns running later running-CanSwitch refl (λ k lt. refl) refl

running-HasFrame : HasFrame running
running-HasFrame = record { room = omega arith; in_word = omega arith }

abbrev entered : Cpu
entered = exec entry_pushes (deliver 8 16 running)

interrupt-Undisturbed_example : Undisturbed running (exec (entry_of timer).after entered)
interrupt-Undisturbed_example =
    interrupt-Undisturbed timer 8 16 running entered running-HasFrame refl (λ o lt. refl)

running-CanPreempt : CanPreempt running 1000
running-CanPreempt = record {
  has_frame = running-HasFrame;
  apart = λ b low high k lt e. omega (arith, low, high, lt, e);
}

entered-IsFrame : IsFrame running (frame_of running) entered.memory
entered-IsFrame = (entry-Entered 8 16 running running-HasFrame).frame

-- The threads of the two contexts; the first one runs.
abbrev threads : ℕ → Option ℕ → ℕ → EevdfScheduler
threads vruntime current last = record {
  threads = record { id = 1; context = 1000 } ∷ record { id = 2; context = 2000 } ∷ [];
  metadata =
      record { vruntime = vruntime; weight = 1024; blocked = false }
      ∷ record { vruntime = 0; weight = 1024; blocked = false }
      ∷ [];
  current = current;
  min_vruntime = 0;
  last_switch_tick = last;
}

abbrev kernel : Kernel Unit Unit
kernel = record {
  cpu = entered;
  tick_count = 41;
  scheduler = record { eevdf = threads 0 (some 0) 40; bootstrap_ctx = 3000 };
  sent = [];
  scancodes = record { queue = none; waker = tt; woken = [] };
  keys = record { extended = false; ring = Keys.new };
}

abbrev afterwards : Scheduler
afterwards = record { eevdf = threads 1024 (some 1) 42; bootstrap_ctx = 3000 }

second_runs : tick_prepare kernel.scheduler 42 ≡ ok (afterwards, some (1000, 2000))
unfolding Eevdf.tick_prepare tick_threads account charge sum_weights sum_from runnable charge_by
    choose pick pick_from candidates min_vruntime_or min_from min_by_deadline virtual_deadline
    conclude commit first_runnable from_context switch_to
second_runs = refl

timer_interrupt_inner-notifies_example :
    (h : Handled Unit Unit) × (timer_interrupt_inner (frame_of running) kernel ≡ ok h)
    × Follows running kernel.cpu (some (1000, 2000)) h
    × ((kernel_of h).sent ≡ 32 ∷ [])
    × ((kernel_of h).tick_count ≡ 42)
    × ((kernel_of h).scheduler ≡ afterwards)
timer_interrupt_inner-notifies_example =
    timer_interrupt_inner-notifies running kernel afterwards (some (1000, 2000)) second_runs
      (running-CanPreempt, entered-IsFrame)

preemption-resumes_example :
    (k' : Kernel Unit Unit) × (finish (frame_of running) timer (some (1000, 2000)) kernel
      ≡ ok (switches k'))
    × (k'.sent ≡ 32 ∷ [])
    × ((t : Cpu)
        → Keeps running 1000 k'.cpu.memory t
        → Continued running (exec context_switch_to t))
unfolding exec step entry_pushes deliver
preemption-resumes_example =
    preemption-resumes running 1000 2000 timer kernel running-CanPreempt
      record {
        stack = record {
          room = omega arith;
          in_word = omega arith;
          apart = λ k lt e. omega (arith, lt, e);
        };
        contexts_apart = λ k lt e. omega (arith, lt, e);
        field_apart = omega arith;
        slot_apart = λ k lt e. omega (arith, lt, e);
        return_apart = omega arith;
      }
      entered-IsFrame refl

with_stack_size-Starts_example :
    (t : ℕ) × (thread : Thread) × (stack : KernelStack) × (counter' : ℕ) × (m' : ℕ → ℕ)
    × (with_stack_size 10000 1000 77 64 5 running.memory ≡ ok (thread, stack, counter', m'))
    × (stack.start ≡ 10000)
    × (stack.size ≡ 64)
    × (t + 8 + 8 ≤ 10000 + 64)
    × (10000 + 64 ≤ t + 8 + 24)
    × (thread.context ≡ 1000)
    × (check_canary stack m' ≡ true)
    × ((u : Cpu)
        → u.registers rdi ≡ thread.context
        → ((k : ℕ) → k < 144 → u.memory (thread.context + k) ≡ m' (thread.context + k))
        → u.memory t ≡ m' t
        → Starts 77 t (exec context_switch_to u))
with_stack_size-Starts_example = with_stack_size-Starts 10000 1000 77 64 5 running.memory record {
  room = omega arith;
  in_word = omega arith;
  apart = λ b low high k lt e. omega (arith, low, high, lt, e);
}
