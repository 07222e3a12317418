-- ===== src/Allocator/FixedSize.antt =====
-- src/allocator/fixed_size_block.rs: free lists of blocks of nine sizes over a fallback heap, which is
-- the crate linked_list_allocator's and a parameter. A free list is the list of its nodes' addresses.
pub mod Classes
pub mod Blocks
pub mod Sound
pub mod Fallback
pub mod Lists
pub mod Reuse
use molt_os.Prelude.{
  ℕ, zero, suc, ◌+◌, ◌-◌, ◌*◌, ◌/◌, ◌%◌, ◌^◌, min, max, ◌==◌, Bool, true, false, not, ◌&&◌, ltb,
  leb, if◌then◌else◌, Option, none, some, List, [], ◌∷◌, length, get_elem?, set, replicate, Checked,
  ok, panic, ◌>>=◌, index, or_panic,
}
use molt_os.Allocator.{Layout}

-- `linked_list_allocator::Heap`; `none` is an error.
pub record Heap (F : Type 0) : Type 0 where
  pub empty : F
  pub init : F → ℕ → ℕ → F
  pub allocate_first_fit : F → Layout → Option ℕ × F
  pub deallocate : F → ℕ → Layout → F

abbrev pub block_sizes : List ℕ
block_sizes = 8 ∷ 16 ∷ 32 ∷ 64 ∷ 128 ∷ 256 ∷ 512 ∷ 1024 ∷ 2048 ∷ []

-- `ListNode`: its size and alignment.
abbrev pub node_size : ℕ
node_size = 8

abbrev pub node_align : ℕ
node_align = 8

pub record FixedSizeBlockAllocator (F : Type 0) : Type 0 where
  pub list_heads : List (List ℕ)
  pub fallback_allocator : F

-- The position of the first size that is enough.
unfoldable pub position_from : ℕ → ℕ → List ℕ → Option ℕ
position_from i required [] = none
position_from i required (s ∷ ss) =
    let rest = position_from (suc i) required ss in if leb required s then some i else rest

unfoldable pub list_index : Layout → Option ℕ
list_index layout = position_from 0 (max layout.size layout.align) block_sizes

-- `isize::MAX`.
abbrev pub isize_max : ℕ
isize_max = 2 ^ 63 - 1

-- The alignments that are powers of two, below 2^64.
unfoldable pub is_power_of_two : ℕ → ℕ → Bool
is_power_of_two zero a = false
is_power_of_two (suc n) a =
    let rest = is_power_of_two n (a / 2) in if a == 1 then true else (a % 2 == 0) && rest

-- `Layout::from_size_align`.
unfoldable pub from_size_align : ℕ → ℕ → Option Layout
from_size_align size align =
    if is_power_of_two 64 align && leb size (isize_max - (align - 1))
    then some (record { size = size; align = align })
    else none

module _ {F : Type 0} (heap : Heap F) where
  abbrev pub new : FixedSizeBlockAllocator F
  new = record { list_heads = replicate 9 []; fallback_allocator = heap.empty }

  abbrev pub init : FixedSizeBlockAllocator F → ℕ → ℕ → FixedSizeBlockAllocator F
  init a heap_start heap_size = record a {
    fallback_allocator = heap.init a.fallback_allocator heap_start heap_size;
  }

  abbrev pub pointer : Option ℕ → ℕ
  pointer none = 0
  pointer (some p) = p

  -- Null where the heap refuses.
  unfoldable pub fallback_alloc : FixedSizeBlockAllocator F → Layout → FixedSizeBlockAllocator F × ℕ
  fallback_alloc a layout =
      let r = heap.allocate_first_fit a.fallback_allocator layout in
      (record a { fallback_allocator = r.1 }, pointer r.0)

  -- `alloc` in the size class `i`, whose free list is `nodes`.
  unfoldable pub alloc_class :
      FixedSizeBlockAllocator F → ℕ → List ℕ → Checked (FixedSizeBlockAllocator F × ℕ)
  alloc_class a i (node ∷ next) = ok (record a { list_heads = set a.list_heads i next }, node)
  alloc_class a i [] = do
    block_size ← index block_sizes i
    layout ← or_panic (from_size_align block_size block_size)
    ok (fallback_alloc a layout)

  abbrev pub alloc_at :
      FixedSizeBlockAllocator F → Layout → Option ℕ → Checked (FixedSizeBlockAllocator F × ℕ)
  alloc_at a layout none = ok (fallback_alloc a layout)
  alloc_at a layout (some i) = index a.list_heads i >>= alloc_class a i

  unfoldable pub alloc :
      FixedSizeBlockAllocator F → Layout → Checked (FixedSizeBlockAllocator F × ℕ)
  alloc a layout = alloc_at a layout (list_index layout)

  -- `dealloc` in the size class `i`, whose free list is `nodes`; the assertions are on the node.
  unfoldable pub dealloc_class :
      FixedSizeBlockAllocator F → ℕ → ℕ → ℕ → List ℕ → Checked (FixedSizeBlockAllocator F)
  dealloc_class a ptr i block_size nodes =
      if leb node_size block_size && leb node_align block_size
      then ok (record a { list_heads = set a.list_heads i (ptr ∷ nodes) })
      else panic

  abbrev pub dealloc_at :
      FixedSizeBlockAllocator F → ℕ → Layout → Option ℕ → Checked (FixedSizeBlockAllocator F)
  dealloc_at a ptr layout none =
      if ptr == 0
      then panic
      else ok (record a { fallback_allocator = heap.deallocate a.fallback_allocator ptr layout })
  dealloc_at a ptr layout (some i) = do
    block_size ← index block_sizes i
    nodes ← index a.list_heads i
    dealloc_class a ptr i block_size nodes

  unfoldable pub dealloc :
      FixedSizeBlockAllocator F → ℕ → Layout → Checked (FixedSizeBlockAllocator F)
  dealloc a ptr layout = dealloc_at a ptr layout (list_index layout)

  -- A copy of bytes: the addresses and the count.
  pub record Copied : Type 0 where
    pub from : ℕ
    pub to : ℕ
    pub count : ℕ

  -- `realloc` once the new layout is valid; with the copy that it makes.
  unfoldable pub realloc_to :
      FixedSizeBlockAllocator F
      → ℕ
      → Layout
      → Layout
      → Checked (FixedSizeBlockAllocator F × ℕ × Option Copied)
  realloc_to a ptr layout new_layout = do
    (a', new_ptr) ← alloc a new_layout
    if new_ptr == 0 then ok (a', 0, none) else (do
      a'' ← dealloc a' ptr layout
      ok (
        a'',
        new_ptr,
        some (record { from = ptr; to = new_ptr; count = min layout.size new_layout.size }),
      ))

  abbrev pub realloc_with :
      FixedSizeBlockAllocator F
      → ℕ
      → Layout
      → Option Layout
      → Checked (FixedSizeBlockAllocator F × ℕ × Option Copied)
  realloc_with a ptr layout none = ok (a, 0, none)
  realloc_with a ptr layout (some new_layout) = realloc_to a ptr layout new_layout

  unfoldable pub realloc :
      FixedSizeBlockAllocator F
      → ℕ
      → Layout
      → ℕ
      → Checked (FixedSizeBlockAllocator F × ℕ × Option Copied)
  realloc a ptr layout new_size = realloc_with a ptr layout (from_size_align new_size layout.align)
