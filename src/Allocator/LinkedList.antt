-- ===== src/Allocator/LinkedList.antt =====
-- src/allocator/linked_list.rs: the first-fit allocator. Its list of `ListNode`s, each at the start
-- of the free region that it describes, is a list of regions, the newest first.
pub mod Fit
pub mod Free
pub mod Live
pub mod NoPanic
use molt_os.Prelude.{
  ℕ, ◌+◌, ◌-◌, ◌*◌, ◌/◌, ◌^◌, max, ◌&&◌, Option, none, some, List, [], ◌∷◌, ◌==◌, ltb, leb,
  if◌then◌else◌, Checked, ok, panic, ◌>>=◌, add64, sub64, checked_add,
}
use molt_os.Allocator.{Layout, align_up}

-- `mem::size_of::<ListNode>()` and `mem::align_of::<ListNode>()` on x86-64.
abbrev pub node_size : ℕ
node_size = 16

abbrev pub node_align : ℕ
node_align = 8

-- `ListNode`: `start_addr()` and `size`.
pub record Region : Type 0 where
  pub start : ℕ
  pub size : ℕ

-- `LinkedListAllocator::new`: the list after `head`.
abbrev pub new : List Region
new = []

unfoldable pub add_free_region : List Region → ℕ → ℕ → Checked (List Region)
add_free_region regions addr size = do
  aligned ← align_up addr node_align
  if aligned == addr && leb node_size size
      then ok (record { start = addr; size = size } ∷ regions)
      else panic

unfoldable pub init : List Region → ℕ → ℕ → Checked (List Region)
init regions heap_start heap_size = add_free_region regions heap_start heap_size

-- The end of `alloc_from_region`: the rest of the region is empty, or has room for a node.
abbrev pub fits : ℕ → ℕ → ℕ → Option ℕ
fits alloc_start alloc_end region_end =
    if ltb region_end alloc_end
    then none
    else if ltb 0 (region_end - alloc_end) && ltb (region_end - alloc_end) node_size
    then none
    else some alloc_start

unfoldable pub fits_to : Region → ℕ → Option ℕ → Checked (Option ℕ)
fits_to region alloc_start none = ok none
fits_to region alloc_start (some alloc_end) = do
  region_end ← add64 region.start region.size
  ok (fits alloc_start alloc_end region_end)

unfoldable pub alloc_from_region : Region → ℕ → ℕ → Checked (Option ℕ)
alloc_from_region region size align = do
  alloc_start ← align_up region.start align
  fits_to region alloc_start (checked_add alloc_start size)

-- The region found, the start of the block in it, and the other regions.
abbrev pub Found : Type 0
Found = Region × ℕ × List Region

abbrev pub behind : Region → Option Found → Option Found
behind r none = none
behind r (some f) = some (f.0, f.1, r ∷ f.2)

unfoldable pub find_region : List Region → ℕ → ℕ → Checked (Option Found)
find_region [] size align = ok none
find_region (r ∷ rs) size align = alloc_from_region r size align >>= λ start. elim start [
  | some s ↦ ok (some (r, s, rs))
  | none ↦ (do rest ← find_region rs size align; ok (behind r rest))
]

abbrev pub isize_max : ℕ
isize_max = 2 ^ 63 - 1

-- `Layout::pad_to_align`: the size rounded up to a multiple of the alignment.
abbrev pub pad_to_align : ℕ → ℕ → ℕ
pad_to_align size align = (size + align - 1) / align * align

-- `align_to` fails where the padded size leaves the range of `isize`.
unfoldable pub size_align : Layout → Checked (ℕ × ℕ)
size_align l =
    let align : ℕ = max l.align node_align in
    if ltb isize_max (pad_to_align l.size align)
    then panic
    else ok (max (pad_to_align l.size align) node_size, align)

unfoldable pub give_back : List Region → ℕ → ℕ → Checked (List Region)
give_back regions alloc_end excess =
    if ltb 0 excess then add_free_region regions alloc_end excess else ok regions

-- `alloc` once the search is done.
unfoldable pub take : List Region → ℕ → Option Found → Checked (List Region × ℕ)
take regions size none = ok (regions, 0)
take regions size (some (region, alloc_start, rest)) = do
  alloc_end ← add64 alloc_start size
  region_end ← add64 region.start region.size
  excess ← sub64 region_end alloc_end
  regions' ← give_back rest alloc_end excess
  ok (regions', alloc_start)

unfoldable pub alloc : List Region → Layout → Checked (List Region × ℕ)
alloc regions layout = do
  (size, align) ← size_align layout
  found ← find_region regions size align
  take regions size found

unfoldable pub dealloc : List Region → ℕ → Layout → Checked (List Region)
dealloc regions ptr layout = do (size, align) ← size_align layout; add_free_region regions ptr size
