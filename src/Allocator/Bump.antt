-- ===== src/Allocator/Bump.antt =====
-- src/allocator/bump.rs: the bump allocator. A method returns the new allocator; the spin lock
-- round it makes each call atomic.
pub mod Outcome
mod Stacked
pub mod Live
use molt_os.Prelude.{
  ℕ, Option, none, some, ◌==◌, ltb, if◌then◌else◌, Checked, ok, ◌>>=◌, add64, sub64, checked_add,
}
use molt_os.Allocator.{Layout, align_up}

pub record BumpAllocator : Type 0 where
  pub heap_start : ℕ
  pub heap_end : ℕ
  pub next : ℕ
  pub allocations : ℕ

-- `BumpAllocator::new`.
abbrev pub new : BumpAllocator
new = record { heap_start = 0; heap_end = 0; next = 0; allocations = 0 }

unfoldable pub init : BumpAllocator → ℕ → ℕ → Checked BumpAllocator
init b heap_start heap_size = do
  heap_end ← add64 heap_start heap_size
  ok (record { heap_start = heap_start; heap_end = heap_end; next = heap_start; allocations = 0 })

-- The end of `alloc`, once the block's end is known.
unfoldable pub claim : BumpAllocator → ℕ → ℕ → Checked (BumpAllocator × ℕ)
claim b alloc_start alloc_end = if ltb b.heap_end alloc_end then ok (b, 0) else (do
  n ← add64 b.allocations 1
  ok (record b { next = alloc_end; allocations = n }, alloc_start))

-- `match alloc_start.checked_add(layout.size())`.
unfoldable pub claim_to : BumpAllocator → ℕ → Option ℕ → Checked (BumpAllocator × ℕ)
claim_to b alloc_start none = ok (b, 0)
claim_to b alloc_start (some alloc_end) = claim b alloc_start alloc_end

-- `alloc`: the new allocator and the pointer, which is null when there is no room.
unfoldable pub alloc : BumpAllocator → Layout → Checked (BumpAllocator × ℕ)
alloc b layout = do
  alloc_start ← align_up b.next layout.align
  claim_to b alloc_start (checked_add alloc_start layout.size)

-- `dealloc` does not look at the pointer or the layout.
unfoldable pub dealloc : BumpAllocator → Checked BumpAllocator
dealloc b = do
  n ← sub64 b.allocations 1
  ok (
      if n == 0
      then record b { allocations = n; next = b.heap_start }
      else record b { allocations = n })
