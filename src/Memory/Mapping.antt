-- ===== src/Memory/Mapping.antt =====
-- What the kernel maps at boot: the heap (`init_heap` of src/allocator.rs), the text buffer
-- (`map_vga_buffer` of src/memory.rs) and the frame buffer (`map_framebuffer` of src/vga_mode13.rs).
-- The page tables are the x86_64 crate's and a parameter; a page and a frame are their addresses.
pub mod Pages
pub mod Heap
pub mod Identity
use molt_os.Prelude.{
  ℕ, zero, suc, ◌+◌, ◌-◌, ◌*◌, ◌/◌, ◌^◌, ◌≡◌, ◌≢◌, ◌≤◌, ◌⊎◌, Option, none, some, Checked, ok, panic,
  ◌>>=◌,
}
use molt_os.Memory.{FrameAllocator, page_size, containing_address, allocate_frame}
use molt_os.Allocator.{heap_start, heap_size}
use molt_os.Allocator.FixedSize.{FixedSizeBlockAllocator}
use molt_os.Allocator.FixedSize

-- `MapToError`.
pub data MapToError : Type 0 where
  frame_allocation_failed parent_entry_huge_page : MapToError
  page_already_mapped : ℕ → MapToError

-- What a call leaves: its error if it has one, the page tables, and the frame allocator.
abbrev pub Mapped : Type 0 → Type 0
Mapped T = Option MapToError × T × FrameAllocator

-- `Mapper<Size4KiB>`: `map_to` with a page, a frame and flags; `translate` is the frame and the flags
-- of a page that is mapped.
pub record Mapper (T : Type 0) : Type 0 where
  pub map_to : T → FrameAllocator → ℕ → ℕ → ℕ → Mapped T
  pub translate : T → ℕ → Option (ℕ × ℕ)

-- What the crate documents of `map_to`: it maps the page and no other, or fails and changes no
-- mapping; it reports a page that is mapped, with its frame; and it only takes frames from the
-- allocator.
pub record IsMapper {T : Type 0} (m : Mapper T) : Type 0 where
  pub maps :
      (t : T) (a : FrameAllocator) (page frame flags : ℕ)
      → (m.map_to t a page frame flags).0 ≡ none
      → m.translate (m.map_to t a page frame flags).1 page ≡ some (frame, flags)
  pub keeps :
      (t : T) (a : FrameAllocator) (page frame flags other : ℕ)
      → ((m.map_to t a page frame flags).0 ≢ none) ⊎ (other ≢ page)
      → m.translate (m.map_to t a page frame flags).1 other ≡ m.translate t other
  pub reports :
      (t : T) (a : FrameAllocator) (page frame flags at : ℕ)
      → (m.map_to t a page frame flags).0 ≡ some (page_already_mapped at)
      → (old : ℕ) × (m.translate t page ≡ some (at, old))
  pub takes :
      (t : T) (a : FrameAllocator) (page frame flags : ℕ)
      → ((m.map_to t a page frame flags).2.memory_map ≡ a.memory_map)
        × (a.next ≤ (m.map_to t a page frame flags).2.next)

-- `PRESENT | WRITABLE`.
abbrev pub present_writable : ℕ
present_writable = 3

-- The pages of `range_inclusive` from that of the first byte of the heap to that of its last.
abbrev pub heap_pages : ℕ
heap_pages =
    (containing_address (heap_start + heap_size - 1) - containing_address heap_start) / page_size
    + 1

abbrev pub fb_addr : ℕ
fb_addr = 0xa0000

module _ {T : Type 0} (m : Mapper T) where
  -- The `?` of a call: an error ends the function.
  abbrev pub and_then : Mapped T → (T → FrameAllocator → Mapped T) → Mapped T
  and_then (none, t, a) next = next t a
  and_then (some e, t, a) next = (some e, t, a)

  -- The body of the loop of `init_heap` at a page.
  unfoldable pub map_page : ℕ → T → FrameAllocator → Mapped T
  map_page page t a = elim (allocate_frame a).1 [
    | none ↦ (some frame_allocation_failed, t, (allocate_frame a).0)
    | some frame ↦ m.map_to t (allocate_frame a).0 page frame present_writable
  ]

  -- The loop over `n` pages from `page` on.
  unfoldable pub map_pages : ℕ → ℕ → T → FrameAllocator → Mapped T
  map_pages zero page t a = (none, t, a)
  map_pages (suc n) page t a = and_then (map_page page t a) (map_pages n (page + page_size))

  -- `init_heap`, with the global allocator before and after.
  unfoldable pub init_heap :
      {F : Type 0}
      → FixedSize.Heap F
      → FixedSizeBlockAllocator F
      → T
      → FrameAllocator
      → Mapped T × FixedSizeBlockAllocator F
  init_heap heap allocator t a =
      let mapped = map_pages heap_pages (containing_address heap_start) t a in
      elim mapped.0 [
        | none ↦ (mapped, FixedSize.init heap allocator heap_start heap_size)
        | some e ↦ (mapped, allocator)
      ]

  -- A page that is mapped already is taken as it is; any other error panics.
  abbrev pub tolerate : Mapped T → Checked (T × FrameAllocator)
  tolerate (none, t, a) = ok (t, a)
  tolerate (some (page_already_mapped at), t, a) = ok (t, a)
  tolerate (some frame_allocation_failed, t, a) = panic
  tolerate (some parent_entry_huge_page, t, a) = panic

  -- `map_vga_buffer`.
  unfoldable pub map_vga_buffer : T → FrameAllocator → Checked (T × FrameAllocator)
  map_vga_buffer t a =
      tolerate
        (m.map_to t a (containing_address 0xb8000) (containing_address 0xb8000) present_writable)

  -- The loop of `map_framebuffer`, over `n` pages from the address `phys` on.
  unfoldable pub map_identity : ℕ → ℕ → T → FrameAllocator → Checked (T × FrameAllocator)
  map_identity zero phys t a = ok (t, a)
  map_identity (suc n) phys t a =
      tolerate (m.map_to t a (containing_address phys) (containing_address phys) present_writable)
      >>= λ r. map_identity n (phys + page_size) r.0 r.1

  unfoldable pub map_framebuffer : T → FrameAllocator → Checked (T × FrameAllocator)
  map_framebuffer t a = map_identity 16 fb_addr t a
