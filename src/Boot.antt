-- ===== src/Boot.antt =====
-- src/main.rs: how `kernel_main` puts the parts together, up to its first pass through the scheduler.
-- Where the heap puts the first thread's stack and context is an argument, as are the futures of its
-- two tasks; the other allocations are taken to succeed; what goes to the serial port is left out.
pub mod Ready
pub mod Hardware
use molt_os.Prelude.{
  ℕ, ◌*◌, Option, none, some, List, [], ◌∷◌, ◌++◌, ascii, Checked, ok, panic, or_panic, ◌>>=◌,
}
use molt_os.Memory.{MemoryRegion, FrameAllocator, init_memory_map}
use molt_os.Memory.Mapping.{Mapper, init_heap, map_vga_buffer, map_framebuffer}
use molt_os.Allocator.FixedSize.{Heap, FixedSizeBlockAllocator}
use molt_os.Disk.Ata.{Ports}
use molt_os.Disk.Archive
use molt_os.Task.Keyboard.{ArrayQueue, AtomicWaker, Scancodes, init_scancode_queue}
use molt_os.Task.Executor.{Future, Executor, new_task}
use molt_os.Task.Executor
use molt_os.Vga.Format.{decimal}
use molt_os.Scheduler.Created.{with_stack_size}
use molt_os.Scheduler.Global.{Scheduler, spawn, len}
use molt_os.Vga.Text.{Writer, write_string}

-- The kernel's state: page tables, free frames, the stored memory map, the global allocator, the drive and the archive, the
-- queue of scancodes, the counters of ids, the executor, the scheduler, memory and the screen.
pub record Kernel (T F D Q W X : Type 0) : Type 0 where
  pub tables : T
  pub frames : FrameAllocator
  -- `MEMORY_MAP`.
  pub boot_map : Option (List MemoryRegion)
  pub allocator : FixedSizeBlockAllocator F
  pub drive : D
  pub archive : Option (List ℕ)
  pub scancodes : Scancodes Q W
  pub next_task : ℕ
  pub executor : Option (Executor X Q)
  pub next_thread : ℕ
  pub scheduler : Scheduler
  pub memory : ℕ → ℕ
  pub writer : Writer

abbrev pub executor_stack : ℕ
executor_stack = 256 * 1024

module _ {T F D Q W X E : Type 0} (mapper : Mapper T) (heap : Heap F) (ports : Ports D)
    (queue : ArrayQueue Q) (waker : AtomicWaker W) (future : Future X E) where
  -- `expect` of a result.
  abbrev pub expect : {A B : Type 0} → Option A → B → Checked B
  expect none b = ok b
  expect (some e) b = panic

  -- `k.frames` is the allocator over the bootloader's memory map, which is also the one that is stored.
  unfoldable pub map_memory : Kernel T F D Q W X → Checked (Kernel T F D Q W X)
  map_memory k = do
    r ←
        expect (init_heap mapper heap k.allocator k.tables k.frames).0.0
          (init_heap mapper heap k.allocator k.tables k.frames)
    vga ← map_vga_buffer mapper r.0.1 r.0.2
    boot_map ← init_memory_map k.boot_map k.frames.memory_map
    fb ← map_framebuffer mapper vga.0 vga.1
    ok (record k { tables = fb.0; frames = fb.1; boot_map = boot_map; allocator = r.1 })

  -- `fs::init`, whose result is only printed.
  unfoldable pub load_archive : Kernel T F D Q W X → Checked (Kernel T F D Q W X)
  load_archive k = do
    r ← Archive.init ports k.archive k.drive
    ok (record k { archive = r.1; drive = r.2 })

  unfoldable pub start_tasks : X → X → Kernel T F D Q W X → Checked (Kernel T F D Q W X)
  start_tasks run_shell heartbeat k = do
    let shell = new_task run_shell k.next_task
    let beat = new_task heartbeat shell.1
    e ← Executor.spawn queue future (Executor.new queue future) shell.0
    e' ← Executor.spawn queue future e beat.0
    ok (record k { next_task = beat.1; executor = some e' })

  -- The thread that runs `executor_entry`, where the heap puts its stack and its context at `place`; a
  -- failed allocation panics.
  unfoldable pub start_thread :
      Option (ℕ × ℕ) → ℕ → Kernel T F D Q W X → Checked (Kernel T F D Q W X)
  start_thread place executor_entry k = do
    at ← or_panic place
    r ← with_stack_size at.0 at.1 executor_entry executor_stack k.next_thread k.memory
    ok (record k { scheduler = spawn k.scheduler r.0; next_thread = r.2; memory = r.3 })

  -- The two lines that `kernel_main` prints.
  abbrev pub banner : ℕ → List ℕ
  banner threads =
      ascii "Moltos: threads + shell. Timer preempts round-robin."
      ++ (10 ∷ (ascii "Scheduler has " ++ (decimal threads ++ (ascii " threads" ++ (10 ∷ [])))))

  unfoldable pub greet : Kernel T F D Q W X → Checked (Kernel T F D Q W X)
  greet k = do w ← write_string k.writer (banner (len k.scheduler)); ok (record k { writer = w })

  unfoldable pub kernel_main :
      X → X → Option (ℕ × ℕ) → ℕ → Kernel T F D Q W X → Checked (Kernel T F D Q W X)
  kernel_main run_shell heartbeat place executor_entry k = do
    k1 ← map_memory k
    k2 ← load_archive k1
    let k3 = record k2 { scancodes = init_scancode_queue queue waker k2.scancodes }
    k4 ← start_tasks run_shell heartbeat k3
    k5 ← start_thread place executor_entry k4
    greet k5
