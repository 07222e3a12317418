-- ===== src/Doom/Engine.antt =====
-- src/ffi/mod.rs: what the game engine, which is C and not modelled, calls in the kernel, and the start
-- of its thread. A pointer to bytes is the bytes; null is `none`.
pub mod Waiting
use molt_os.Prelude.{
  ℕ, zero, suc, ◌+◌, ◌-◌, ◌*◌, ◌/◌, ◌%◌, ◌^◌, max, Bool, true, false, ◌&&◌, ltb, leb, if◌then◌else◌,
  Option, none, some, List, [], ◌∷◌, ascii, Checked, ok, panic, ◌>>=◌, or_panic, add64, mul64,
}
use molt_os.Allocator.FixedSize.{Heap, FixedSizeBlockAllocator, from_size_align}
use molt_os.Allocator.FixedSize
use molt_os.Disk.Ata.{Ports}
use molt_os.Disk.Archive.{open_file, utf8_from, until_zero}
use molt_os.Doom.Palette.{load_playpal}
use molt_os.Memory.Mapping.{fb_addr}
use molt_os.Vga.Mode13.{width, height, enter_mode13}

-- How the engine's thread starts: it idles without the game's file, or the display is switched and the
-- engine is called.
pub data Start (D : Type 0) : Type 0 where
  idle : Start D
  engine : D → (ℕ → ℕ) → Start D

abbrev pub wad_name : List ℕ
wad_name = ascii "doom1.wad"

-- `doom_thread_entry`, with the archive, the ports and the memory.
unfoldable pub doom_thread_entry :
    {D : Type 0} → Ports D → Option (List ℕ) → D → (ℕ → ℕ) → Checked (Start D)
doom_thread_entry ports archive d memory = do
  found ← open_file archive wad_name
  elim found [
    | none ↦ ok idle
    | some wad ↦ let r = enter_mode13 ports d memory in ok (engine r.0 r.1)
  ]

-- `DG_Init`: its writes to ports.
unfoldable pub dg_init : Option (List ℕ) → Checked (List (ℕ × ℕ))
dg_init archive = do
  found ← open_file archive wad_name
  elim found [ none ↦ ok [] | some wad ↦ load_playpal wad ]

-- `DG_DrawFrame`: the copy of the engine's buffer to the frame buffer, which it does not overlap.
unfoldable pub dg_draw_frame : Option ℕ → (ℕ → ℕ) → ℕ → ℕ
dg_draw_frame none memory addr = memory addr
dg_draw_frame (some screen_buffer) memory addr =
    if leb fb_addr addr && ltb addr (fb_addr + width * height)
    then memory (screen_buffer + (addr - fb_addr))
    else memory addr

-- The loop of `DG_SleepMs` from the reading `i` of the clock on: the reading that ends it.
unfoldable pub sleep_loop : ℕ → (ℕ → ℕ) → ℕ → ℕ → Option ℕ
sleep_loop zero clock i target = none
sleep_loop (suc fuel) clock i target =
    let rest = sleep_loop fuel clock (suc i) target in if ltb (clock i) target then rest else some i

-- `DG_SleepMs`: `clock i` is what the reading `i` of `uptime_ticks` gives; each turn halts until an
-- interrupt.
unfoldable pub dg_sleep_ms : ℕ → (ℕ → ℕ) → ℕ → Checked (Option ℕ)
dg_sleep_ms fuel clock ms = do
  target ← add64 (clock 0) (max (ms / 10) 1)
  ok (sleep_loop fuel clock 1 target)

-- `DG_GetTicksMs`.
unfoldable pub dg_get_ticks_ms : ℕ → Checked ℕ
dg_get_ticks_ms ticks = do ms ← mul64 ticks 10; ok (ms % 2 ^ 32)

module _ {F : Type 0} (heap : Heap F) where
  unfoldable pub rust_alloc :
      FixedSizeBlockAllocator F → ℕ → ℕ → Checked (FixedSizeBlockAllocator F × ℕ)
  rust_alloc a size align = or_panic (from_size_align size align) >>= FixedSize.alloc heap a

  unfoldable pub rust_free :
      FixedSizeBlockAllocator F → ℕ → ℕ → ℕ → Checked (FixedSizeBlockAllocator F)
  rust_free a ptr size align =
      or_panic (from_size_align size align) >>= FixedSize.dealloc heap a ptr

  unfoldable pub rust_realloc :
      FixedSizeBlockAllocator F
      → ℕ
      → ℕ
      → ℕ
      → ℕ
      → Checked (FixedSizeBlockAllocator F × ℕ × Option (FixedSize.Copied heap))
  rust_realloc a ptr old_size align new_size = do
    layout ← or_panic (from_size_align old_size align)
    FixedSize.realloc heap a ptr layout new_size

-- `rust_serial_write`: what it prints.
unfoldable pub rust_serial_write : List ℕ → List ℕ
rust_serial_write bytes = if utf8_from [] bytes then bytes else []

-- `rust_fs_open` of a C string: the file and its size, which is that of the bytes.
unfoldable pub rust_fs_open : Option (List ℕ) → List ℕ → Checked (Option (List ℕ))
rust_fs_open archive c_string =
    let name = until_zero c_string in if utf8_from [] name then open_file archive name else ok none
