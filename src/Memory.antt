-- ===== src/Memory.antt =====
-- src/memory.rs: the boot frame allocator and the walk of the page tables. The memory map is the
-- bootloader's and the page-table entries are the x86_64 crate's, as lists and functions.
pub mod Frames
pub mod Walk
pub mod Mapping
pub mod Dump
use molt_os.Prelude.{
  ℕ, zero, suc, ◌+◌, ◌-◌, ◌*◌, ◌/◌, ◌%◌, ◌^◌, Bool, true, false, Option, none, some, List, [], ◌∷◌,
  ◌++◌, if◌then◌else◌, get_elem?, Checked, ok, panic, ◌>>=◌,
}

abbrev pub page_size : ℕ
page_size = 4096

-- `MemoryRegionType`, as far as the code tells them apart.
pub data MemoryRegionType : Type 0 where
  usable reserved other : MemoryRegionType

abbrev pub is_usable : MemoryRegionType → Bool
is_usable usable = true
is_usable reserved = false
is_usable other = false

-- A region of the memory map: its range of addresses, and its type.
pub record MemoryRegion : Type 0 where
  pub start : ℕ
  pub stop : ℕ
  pub region_type : MemoryRegionType

-- `init_memory_map`, where `MEMORY_MAP` holds `cell`.
unfoldable pub init_memory_map :
    Option (List MemoryRegion) → List MemoryRegion → Checked (Option (List MemoryRegion))
init_memory_map none map = ok (some map)
init_memory_map (some old) map = panic

-- `BootInfoFrameAllocator`.
pub record FrameAllocator : Type 0 where
  pub memory_map : List MemoryRegion
  pub next : ℕ

-- `BootInfoFrameAllocator::init`.
abbrev pub init : List MemoryRegion → FrameAllocator
init memory_map = record { memory_map = memory_map; next = 0 }

-- `PhysFrame::containing_address`.
abbrev pub containing_address : ℕ → ℕ
containing_address addr = addr / page_size * page_size

-- `count` steps of `step_by(4096)`, each as a frame.
unfoldable pub frames_from : ℕ → ℕ → List ℕ
frames_from zero addr = []
frames_from (suc count) addr = containing_address addr ∷ frames_from count (addr + page_size)

-- `(start..end).step_by(4096)`: every step that is below the end.
abbrev pub frames_of : MemoryRegion → List ℕ
frames_of r = frames_from ((r.stop - r.start + (page_size - 1)) / page_size) r.start

unfoldable pub usable_frames : List MemoryRegion → List ℕ
usable_frames [] = []
usable_frames (r ∷ rs) =
    let rest = usable_frames rs in if is_usable r.region_type then frames_of r ++ rest else rest

-- `allocate_frame`: `nth` of the frames, and the count moves on even when there is none.
unfoldable pub allocate_frame : FrameAllocator → FrameAllocator × Option ℕ
allocate_frame a = (record a { next = a.next + 1 }, get_elem? (usable_frames a.memory_map) a.next)

-- `PageTableEntry::frame`.
pub data Entry : Type 0 where
  frame : ℕ → Entry
  not_present huge : Entry

-- The indexes of the four levels, and the offset in the page.
abbrev pub table_indexes : ℕ → List ℕ
table_indexes addr =
    (addr / 2 ^ 39 % 512)
    ∷ (addr / 2 ^ 30 % 512)
    ∷ (addr / 2 ^ 21 % 512)
    ∷ (addr / 2 ^ 12 % 512)
    ∷ []

abbrev pub page_offset : ℕ → ℕ
page_offset addr = addr % page_size

-- The loop of `translate_addr`. `tables` is the physical memory read as page tables: the entry of an
-- index in the table of a frame.
unfoldable pub walk : (ℕ → ℕ → Entry) → List ℕ → ℕ → Checked (Option ℕ)
walk tables [] at = ok (some at)
walk tables (index ∷ indexes) at = elim (tables at index) [
  | frame next ↦ walk tables indexes next
  | not_present ↦ ok none
  | huge ↦ panic
]

-- `translate_addr`, with the frame of the level 4 table that `Cr3` holds.
unfoldable pub translate_addr : (ℕ → ℕ → Entry) → ℕ → ℕ → Checked (Option ℕ)
translate_addr tables level_4_frame addr =
    walk tables (table_indexes addr) level_4_frame >>= λ found. elim found [
      | none ↦ ok none
      | some at ↦ ok (some (at + page_offset addr))
    ]
