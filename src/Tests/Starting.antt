-- ===== src/Tests/Starting.antt =====
-- The boot at a concrete state.
use molt_os.Prelude.{
  ℕ, zero, suc, ◌+◌, ◌≡◌, ◌≤◌, ◌<◌, refl, false, Option, none, some, List, [], ◌∷◌, ◌++◌, get_elem?,
  ok, arith,
}
use molt_os.Memory.{
  MemoryRegion, usable, init, page_size, containing_address, frames_from, usable_frames,
  allocate_frame,
}
use molt_os.Memory.Mapping.{
  Mapper, map_page, map_pages, init_heap, heap_pages, map_vga_buffer, map_framebuffer, map_identity,
}
use molt_os.Allocator.{heap_start, heap_size}
use molt_os.Allocator.FixedSize
use molt_os.Disk.Ata.{Ports}
use molt_os.Task.Executor.{Future, Executor}
use molt_os.Cpu.{Cpu, rdi, exec}
use molt_os.Cpu.Context.{context_switch_to}
use molt_os.Scheduler.Thread.{Thread}
use molt_os.Scheduler.Starting.{IsPlaced, Starts}
use molt_os.Scheduler.Global.{Scheduler, new, enter_scheduler, enter_with}
use molt_os.Boot.{Kernel, executor_stack, kernel_main}
use molt_os.Boot.Ready.{HasTasks, kernel_main-Starts}
use molt_os.Tests.Typing.{list_queue, list_queue-IsArrayQueue, cell}

-- Page tables that take every page and need no frames.
abbrev mapper : Mapper Unit
mapper = record { map_to = λ t a page frame flags. (none, t, a); translate = λ t page. none }

-- It hands out one address; the boot only initialises it.
abbrev roomy_heap : FixedSize.Heap Unit
roomy_heap = record {
  empty = tt;
  init = λ f start size. tt;
  allocate_first_fit = λ f layout. (some 0x100000, tt);
  deallocate = λ f p layout. tt;
}

-- Sixty-four MiB, 16384 pages, from the second on.
abbrev memory_map : List MemoryRegion
memory_map = record { start = 0x100000; stop = 0x4100000; region_type = usable } ∷ []

frames_from-get :
    (n addr i : ℕ) (rest : List ℕ)
    → i < n
    → (f : ℕ) × (get_elem? (frames_from n addr ++ rest) i ≡ some f)
unfolding frames_from
frames_from-get zero addr i rest h = absurd (omega arith)
frames_from-get (suc n) addr zero rest h = (containing_address addr, refl)
frames_from-get (suc n) addr (suc i) rest h =
    frames_from-get n (addr + page_size) i rest (omega arith)

map_page-none :
    (page next : ℕ)
    → next < 16384
    → map_page mapper page tt (record { memory_map = memory_map; next = next })
      ≡ (none, tt, record { memory_map = memory_map; next = next + 1 })
unfolding map_page allocate_frame usable_frames
map_page-none page next h =
    let (f, e) = frames_from-get 16384 0x100000 next [] h in rw (e, map_page) refl

map_pages-none :
    (n page next : ℕ)
    → next + n ≤ 16384
    → (map_pages mapper n page tt (record { memory_map = memory_map; next = next })).0 ≡ none
unfolding map_pages
map_pages-none zero page next h = refl
map_pages-none (suc n) page next h =
    rw (map_page-none page next (omega arith))
      (map_pages-none n (page + page_size) (next + 1) (omega arith))

heap_fits : (init_heap mapper roomy_heap (FixedSize.new roomy_heap) tt (init memory_map)).0.0 ≡ none
unfolding init_heap
heap_fits =
    let e : (map_pages mapper heap_pages heap_start tt (init memory_map)).0 ≡ none =
      map_pages-none heap_pages heap_start 0 (omega arith) in
    rw (init_heap, e) e

-- No drive answers.
abbrev no_drive : Ports Unit
no_drive = record { read = λ p d. (0xff, d); write = λ p v d. d }

-- A future that is never ready.
abbrev pending : Future ℕ Unit
pending = record { poll = λ n id env. (n, false, [], env) }

abbrev power_on : Kernel Unit Unit Unit (List ℕ × ℕ) (Option ℕ) ℕ
power_on = record {
  tables = tt;
  frames = init memory_map;
  boot_map = none;
  allocator = FixedSize.new roomy_heap;
  drive = tt;
  archive = none;
  scancodes = record { queue = none; waker = none; woken = [] };
  next_task = 0;
  executor = none;
  next_thread = 1;
  scheduler = new 7;
  memory = λ a. 0;
  writer = record {
    column_position = 0;
    color = 14;
    buffer = λ r c. record { ascii_character = 32; color = 14 };
  };
}

executor_stack-IsPlaced : IsPlaced 0x100000 0x80000 executor_stack
executor_stack-IsPlaced = record {
  room = omega arith;
  in_word = omega arith;
  apart = λ a low high k lt e. omega arith;
}

kernel_main-Starts_example :
    (k' : Kernel Unit Unit Unit (List ℕ × ℕ) (Option ℕ) ℕ) × (e : Executor ℕ (List ℕ × ℕ)) × (t : ℕ)
    × (thread : Thread) × (kernel_main mapper roomy_heap no_drive list_queue cell pending 20 30
          (some (0x100000, 0x80000))
          0x1234
          power_on
        ≡ ok k')
    × (k'.executor ≡ some e)
    × HasTasks mapper roomy_heap no_drive list_queue cell pending list_queue-IsArrayQueue 20 30 e
    × (k'.scancodes.queue ≡ some ([], 100))
    × (k'.boot_map ≡ some memory_map)
    × (k'.allocator ≡ FixedSize.init roomy_heap (FixedSize.new roomy_heap) heap_start heap_size)
    × ((tick : ℕ) (cpu : Cpu)
        → (s : Scheduler) × (enter_scheduler k'.scheduler tick cpu
            ≡ ok (s, enter_with (some (7, thread.context)) cpu)))
    × ((u : Cpu)
        → u.registers rdi ≡ thread.context
        → ((i : ℕ) → i < 144 → u.memory (thread.context + i) ≡ k'.memory (thread.context + i))
        → u.memory t ≡ k'.memory t
        → Starts 0x1234 t (exec context_switch_to u))
unfolding map_vga_buffer map_framebuffer map_identity
kernel_main-Starts_example =
    kernel_main-Starts mapper roomy_heap no_drive list_queue cell pending list_queue-IsArrayQueue 20
      30 0x100000 0x80000 0x1234 7 power_on refl heap_fits refl refl executor_stack-IsPlaced
      (omega arith) refl refl refl
