-- ===== src/Boot/Ready.antt =====
-- src/main.rs: what stands when `kernel_main` enters the scheduler.
use molt_os.Prelude.{
  ℕ, ◌+◌, ◌≡◌, ◌<◌, refl, ap, ◌∙◌, Option, none, some, List, [], ◌∷◌, ◌++◌, length, ok, arith,
}
use molt_os.Memory.{FrameAllocator, init_memory_map}
use molt_os.Memory.Mapping.{Mapper, init_heap, map_vga_buffer, map_framebuffer}
use molt_os.Allocator.FixedSize.{Heap}
use molt_os.Disk.Ata.{Ports}
use molt_os.Disk.Archive
use molt_os.Disk.Archive.Reports.{loaded, refused_archive, disk_failed, init-Outcome}
use molt_os.Task.Keyboard.{ArrayQueue, IsArrayQueue, AtomicWaker, Scancodes, init_scancode_queue}
use molt_os.Task.Executor.{Future, Executor, wake_task, new_task, get}
use molt_os.Task.Executor
use molt_os.Cpu.{Cpu, rdi, exec}
use molt_os.Cpu.Stack.{KernelStack}
use molt_os.Scheduler.Created.{with_stack_size}
use molt_os.Memory.Mapping.Heap.{init_heap-allocator}
use molt_os.Cpu.Context.{context_switch_to}
use molt_os.Scheduler.Thread.{Thread}
use molt_os.Scheduler.Starting.{IsPlaced, Starts, with_stack_size-Starts}
use molt_os.Scheduler.Global.{Scheduler, new, enter_scheduler, enter_with}
use molt_os.Scheduler.Global
use molt_os.Scheduler.Eevdf
use molt_os.Allocator.{heap_start, heap_size}
use molt_os.Allocator.FixedSize
use molt_os.Vga.Text.{Writer}
use molt_os.Vga.Text.Writing.{write_string-total}
use molt_os.Vga.Text.Writing.{IsValid}
use molt_os.Boot.{
  Kernel, executor_stack, map_memory, load_archive, start_tasks, start_thread, banner, greet,
  kernel_main,
}

module _ {T F D Q W X E : Type 0} (mapper : Mapper T) (heap : Heap F) (ports : Ports D)
    (queue : ArrayQueue Q) (waker : AtomicWaker W) (future : Future X E) where
  abbrev World : Type 0
  World = Kernel T F D Q W X

  -- Whatever is on the drive, the boot goes on.
  load_archive-ok :
      (k : World)
      → (archive : Option (List ℕ)) × (d : D) × (load_archive mapper heap ports queue waker future k
          ≡ ok (record k { archive = archive; drive = d }))
  unfolding load_archive
  load_archive-ok k = elim (init-Outcome ports k.archive k.drive) [
    | loaded bytes count d e starts ↦ (Archive.keep_first k.archive bytes, d, rw e refl)
    | refused_archive d e ↦ (k.archive, d, rw e refl)
    | disk_failed d e ↦ (k.archive, d, rw e refl)
  ]

  -- Both tasks are there, and queued in order.
  pub record HasTasks (law : IsArrayQueue queue) (shell beat : X) (e : Executor X Q) : Type 0 where
    pub tasks : e.tasks ≡ (1, beat) ∷ (0, shell) ∷ []
    pub queued : law.contents e.task_queue ≡ 0 ∷ 1 ∷ []

  start_tasks-ok :
      (law : IsArrayQueue queue) (shell beat : X) (k : World)
      → k.next_task ≡ 0
      → (e : Executor X Q) × (start_tasks mapper heap ports queue waker future shell beat k
          ≡ ok (record k { next_task = 2; executor = some e }))
        × HasTasks law shell beat e
  unfolding start_tasks Executor.spawn wake_task get
  start_tasks-ok law shell beat k first =
      let q0 = queue.empty 100 in
      let none_yet = law.empty_contents 100 in
      let (q1, pushed, held, room) =
        law.push_room q0 0 (omega (arith, ap length none_yet, law.empty_capacity 100)) in
      let held1 : law.contents q1 ≡ 0 ∷ [] = held ∙ ap (λ (l : List ℕ). l ++ (0 ∷ [])) none_yet in
      let (q2, pushed', held', _) =
        law.push_room q1 1 (omega (arith, ap length held1, room, law.empty_capacity 100)) in
      let e : Executor X Q = record {
        tasks = (1, beat) ∷ (0, shell) ∷ [];
        task_queue = q2;
        waker_cache = [];
      } in
      (
        e,
        rw (first, pushed, pushed') refl,
        record { tasks = refl; queued = held' ∙ ap (λ (l : List ℕ). l ++ (1 ∷ [])) held1 },
      )

  map_memory-ok :
      (k : World) {vga fb : T × FrameAllocator}
      → k.boot_map ≡ none
      → (init_heap mapper heap k.allocator k.tables k.frames).0.0 ≡ none
      → map_vga_buffer mapper
          (init_heap mapper heap k.allocator k.tables k.frames).0.1
          (init_heap mapper heap k.allocator k.tables k.frames).0.2
        ≡ ok vga
      → map_framebuffer mapper vga.0 vga.1 ≡ ok fb
      → map_memory mapper heap ports queue waker future k
        ≡ ok (record k {
          tables = fb.0;
          frames = fb.1;
          boot_map = some k.frames.memory_map;
          allocator = (init_heap mapper heap k.allocator k.tables k.frames).1;
        })
  unfolding map_memory init_memory_map
  map_memory-ok k unset heap_ok vga_ok fb_ok = rw (map_memory, heap_ok, vga_ok, unset, fb_ok) refl

  start_thread-ok :
      (start ctx entry : ℕ) (k : World) {r : Thread × KernelStack × ℕ × (ℕ → ℕ)}
      → with_stack_size start ctx entry executor_stack k.next_thread k.memory ≡ ok r
      → start_thread mapper heap ports queue waker future (some (start, ctx)) entry k
        ≡ ok
            (record k { scheduler = Global.spawn k.scheduler r.0; next_thread = r.2; memory = r.3 })
  unfolding start_thread
  start_thread-ok start ctx entry k e = rw (start_thread, e) refl

  greet-ok :
      (k : World)
      → IsValid k.writer
      → (w : Writer) × (greet mapper heap ports queue waker future k ≡ ok (record k { writer = w }))
  unfolding greet
  greet-ok k screen =
      let (w, e, _) =
        write_string-total (banner mapper heap ports queue waker future (Global.len k.scheduler))
          k.writer screen in
      (w, rw (greet, e) refl)

  queue_made :
      (s : Scancodes Q W)
      → s.queue ≡ none
      → (init_scancode_queue queue waker s).queue ≡ some (queue.empty 100)
  unfolding init_scancode_queue
  queue_made s none_yet = rw (init_scancode_queue, none_yet) refl

  -- The first pass of `enter_scheduler` switches from the bootstrap to the only thread.
  first_pass :
      (b tick : ℕ) (t : Thread) (cpu : Cpu)
      → (s : Scheduler) × (enter_scheduler (Global.spawn (new b) t) tick cpu
          ≡ ok (s, enter_with (some (b, t.context)) cpu))
  unfolding enter_scheduler Eevdf.spawn Eevdf.tick_prepare Eevdf.tick_threads Eevdf.account
      Eevdf.charge Eevdf.sum_weights Eevdf.sum_from Eevdf.runnable Eevdf.charge_by Eevdf.choose
      Eevdf.pick Eevdf.pick_from Eevdf.candidates Eevdf.min_vruntime_or Eevdf.min_from
      Eevdf.min_by_deadline Eevdf.virtual_deadline Eevdf.conclude Eevdf.commit Eevdf.first_runnable
      Eevdf.from_context Eevdf.switch_to
  first_pass b tick t cpu = (_, refl)

  -- Where memory can be mapped and the heap has room for the first thread's stack and context, apart
  -- from each other, none of the code's own panics is reached, whatever the drive does; that the heap
  -- has room for the executor and the queues is not modelled. The executor has the shell and the
  -- heartbeat, queued in this order, the queue of scancodes is there, the memory map is stored, the
  -- allocator has the heap, and the first pass of
  -- `enter_scheduler` asks for a switch from the bootstrap to a context that starts `executor_entry`.
  pub kernel_main-Starts :
      (law : IsArrayQueue queue) (run_shell heartbeat : X) (start ctx executor_entry b : ℕ)
      (k : World) {vga fb : T × FrameAllocator}
      → k.boot_map ≡ none
      → (init_heap mapper heap k.allocator k.tables k.frames).0.0 ≡ none
      → map_vga_buffer mapper
          (init_heap mapper heap k.allocator k.tables k.frames).0.1
          (init_heap mapper heap k.allocator k.tables k.frames).0.2
        ≡ ok vga
      → map_framebuffer mapper vga.0 vga.1 ≡ ok fb
      → IsPlaced start ctx executor_stack
      → IsValid k.writer
      → k.next_task ≡ 0
      → k.scancodes.queue ≡ none
      → k.scheduler ≡ new b
      → (k' : World) × (e : Executor X Q) × (t : ℕ) × (thread : Thread) × (kernel_main mapper heap
            ports queue waker future run_shell heartbeat
            (some (start, ctx))
            executor_entry
            k
          ≡ ok k')
        × (k'.executor ≡ some e)
        × HasTasks law run_shell heartbeat e
        × (k'.scancodes.queue ≡ some (queue.empty 100))
        × (k'.boot_map ≡ some k.frames.memory_map)
        × (k'.allocator ≡ FixedSize.init heap k.allocator heap_start heap_size)
        × ((tick : ℕ) (cpu : Cpu)
            → (s : Scheduler) × (enter_scheduler k'.scheduler tick cpu
                ≡ ok (s, enter_with (some (b, thread.context)) cpu)))
        × ((u : Cpu)
            → u.registers rdi ≡ thread.context
            → ((i : ℕ) → i < 144 → u.memory (thread.context + i) ≡ k'.memory (thread.context + i))
            → u.memory t ≡ k'.memory t
            → Starts executor_entry t (exec context_switch_to u))
  unfolding kernel_main
  kernel_main-Starts law run_shell heartbeat start ctx executor_entry b k {vga} {fb} unset heap_ok
        vga_ok fb_ok placed screen first no_queue empty =
      let k1 : World = record k {
        tables = fb.0;
        frames = fb.1;
        boot_map = some k.frames.memory_map;
        allocator = (init_heap mapper heap k.allocator k.tables k.frames).1;
      } in
      let (archive, d, e2) = load_archive-ok k1 in
      let k3 : World = record k1 {
        archive = archive;
        drive = d;
        scancodes = init_scancode_queue queue waker k.scancodes;
      } in
      let (e, e4, tasks) = start_tasks-ok law run_shell heartbeat k3 first in
      let k4 : World = record k3 { next_task = 2; executor = some e } in
      let (t, thread, stack, counter, m, made, _, _, _, _, _, _, starts) =
        with_stack_size-Starts start ctx executor_entry executor_stack k4.next_thread k4.memory
          placed in
      let k5 : World = record k4 {
        scheduler = Global.spawn k4.scheduler thread;
        next_thread = counter;
        memory = m;
      } in
      let e5 = start_thread-ok start ctx executor_entry k4 made in
      let (w, e6) = greet-ok k5 screen in
      let k6 : World = record k5 { writer = w } in
      (
        k6,
        e,
        t,
        thread,
        rw (map_memory-ok k unset heap_ok vga_ok fb_ok, e2, e4, e5, e6) refl,
        refl,
        tasks,
        queue_made k.scancodes no_queue,
        refl,
        init_heap-allocator mapper heap k.allocator k.tables k.frames heap_ok,
        λ tick cpu. rw empty (first_pass b tick thread cpu),
        starts,
      )
