-- ===== src/Lib.antt =====
-- MoltOS: an x86-64 kernel in Rust with preemptive threads, a sleeping mutex, heap allocators, a
-- text screen, and the glue for a port of Doom.
--
-- The parts and their files. A method that takes `&mut self` is a function that returns the new
-- state; names are those of the code.
-- - Scheduler/Thread.antt: src/thread/thread.rs, a thread as the schedulers see it.
-- - Scheduler/Eevdf.antt: src/thread/schedulers/eevdf.rs, `EevdfScheduler`. The steps of
--   `tick_prepare` are `account` (charge and `min_vruntime`), `choose` (`next_idx`) and `conclude`.
--   Its child files hold the proofs.
-- - Scheduler/RoundRobin.antt: src/thread/schedulers/round_robin.rs.
-- - Sync.antt: src/sync.rs, `KMutex` as a step relation on the places where a thread stands in
--   `lock` and `drop`. It uses of the scheduler that a blocked thread is not run. Sync/Irq.antt:
--   `IrqMutex`, as the interleavings of threads and an interrupt handler.
-- - Allocator.antt: `align_up` of src/allocator.rs; Allocator/Bump.antt: src/allocator/bump.rs;
--   Allocator/LinkedList.antt: src/allocator/linked_list.rs, whose nodes are a list of regions;
--   Allocator/FixedSize.antt: src/allocator/fixed_size_block.rs, over a fallback heap that is a
--   parameter.
-- - Vga/Text.antt: the `Writer` of src/vga_buffer.rs.
-- - Doom/Keys.antt: the key ring and the scancodes of src/ffi/mod.rs.
-- - Memory.antt: src/memory.rs, the boot frame allocator and `translate_addr`; the physical memory is
--   a function from a frame and an index to the page-table entry there.
-- - Memory/Mapping.antt: `init_heap` of src/allocator.rs, `map_vga_buffer` of src/memory.rs and
--   `map_framebuffer` of src/vga_mode13.rs; the page tables are a parameter with the laws that the
--   x86_64 crate documents of `map_to`.
-- - Vga/Mode13.antt: src/vga_mode13.rs; the card behind the ports is a parameter, and
--   Vga/Mode13/Card.antt says what the VGA documents of its registers.
-- - Cpu.antt: the registers, flags and memory that the assembly of src/thread/context.rs and
--   src/interrupts.rs runs on, and the instructions that it uses. Cpu/Context.antt: the two switches
--   of src/thread/context.rs as lists of instructions; Cpu/Stack.antt: src/thread/stack.rs.
-- - Scheduler/Created.antt: how src/thread/thread.rs makes a thread; Scheduler/Global.antt:
--   src/thread/scheduler.rs and src/thread/mod.rs.
-- - Interrupts.antt: src/interrupts.rs. The processor and the entry build a frame on the stack, the
--   inner function feeds the keyboard (Task/Keyboard.antt, Doom/Keys.antt), asks the scheduler
--   (Scheduler/Global.antt), and returns or switches (Cpu/Context.antt).
-- - Memory/Dump.antt: the print of the memory map in src/memory.rs; Vga/Format.antt: the formats of
--   numbers.
-- - Task/Keyboard.antt: src/task/keyboard.rs; `ArrayQueue` and `AtomicWaker` are parameters with the
--   laws that their crates document.
-- - Disk/Ata.antt: src/ata.rs over a drive that is a parameter; Disk/Archive.antt: src/fs.rs, which
--   reads the drive through it. Disk/Archive/Packed.antt builds archives of the documented format.
-- - Syscall.antt: src/syscall.rs; it prints through Vga/Text.antt.
-- - Task/Shell.antt: src/task/shell.rs, which prints through Vga/Text.antt and makes system calls
--   (Syscall.antt); the decoder of scancodes is a parameter, and so is where the heap puts the game's
--   thread.
-- - Task/Executor.antt: src/task/executor.rs and src/task/mod.rs; a future is a parameter, and the
--   loop of `run_ready_tasks` has one unit of fuel for each turn. `run`, which never ends, is a turn
--   for each tick of a list, with Task/Sleep.antt.
-- - Doom/Engine.antt: the rest of src/ffi/mod.rs, which the game engine calls; the loop of
--   `DG_SleepMs` has one unit of fuel for each reading of the clock.
-- - Doom/Palette.antt: `load_playpal` of src/ffi/mod.rs and `set_palette_entry` of
--   src/vga_mode13.rs.
-- - Task/Sleep.antt: src/task/sleep.rs; a waker is a number.
-- - Boot.antt: `kernel_main` of src/main.rs, over the parts above.
-- - Boot/Hardware.antt: `init` of src/lib.rs, which comes before, as the actions that it takes.
-- - Prelude.antt: shared types, tests and lemmas; `Checked` is the result of code that may panic.
-- - Tests.antt: runs at concrete inputs.
--
-- Conventions. `u64`, `usize` arithmetic is that of a debug build: a sum, difference or product out
-- of range is `panic`, as is an index out of range; saturating and checked operations are written
-- out. Only the counters of ids and a cast wrap. A length or an index of a `Vec` is far below 2^64, so
-- its successor is not checked. An array is a function, with the bound checked where the code's
-- index is not a loop's own. Every loop of the modelled code runs over a list or a counted
-- range, but those named above with their fuel and that of `wake_sleepers`, which has one unit of fuel
-- for each sleeper: each turn removes a sleeper or passes one. The wait for the drive has the code's
-- own bound on its polls. Memory is the word at each address; a word that matters to a theorem is kept
-- apart from the others by a hypothesis on the addresses, and the stack that the compiler's own code
-- uses is not modelled.
--
-- Atomicity. The kernel has one core. A spin lock that is taken with interrupts disabled makes the
-- code under it one step; the spin lock of `KMutex.waiters`, which `drop` takes with interrupts
-- enabled, is modelled as a lock.
--
-- Not modelled: the set-up of paging and of the interrupt table, which crates do, and the
-- exception handlers, which print and halt; allocations of the kernel's own data that fail, but those
-- of the threads that `kernel_main` and the shell spawn; the crates that the code calls;
-- src/ffi/stubs.c and the game engine; src/gdt.rs and src/serial.rs,
-- which only set up hardware, and the test runner; src/doom/mod.rs, which no module of the crate names.
pub mod Prelude
pub mod Scheduler
pub mod Sync
pub mod Allocator
pub mod Memory
pub mod Vga
pub mod Doom
pub mod Boot
pub mod Cpu
pub mod Disk
pub mod Interrupts
pub mod Syscall
pub mod Task
pub mod Tests
