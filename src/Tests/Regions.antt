-- ===== src/Tests/Regions.antt =====
-- The linked-list allocator at concrete inputs.
use molt_os.Prelude.{ℕ, ◌^◌, ◌≡◌, refl, List, [], ◌∷◌, ok, inr, arith}
use molt_os.Allocator.{Layout, IsLayout, align_up}
use molt_os.Allocator.LinkedList.{
  Region, add_free_region, fits_to, alloc_from_region, find_region, size_align, give_back, take,
  alloc, dealloc,
}
use molt_os.Allocator.LinkedList.Fit.{first}
use molt_os.Allocator.LinkedList.Free.{IsSound}
use molt_os.Allocator.LinkedList.NoPanic.{linked_alloc-total}
use molt_os.Allocator.LinkedList.Live.{Allocated, linked_alloc-Allocated, linked_dealloc-IsSound}

abbrev region : ℕ → ℕ → Region
region start size = record { start = start; size = size }

abbrev twenty : Layout
twenty = record { size = 20; align = 2 ^ 0 }

twenty-IsLayout : IsLayout twenty
twenty-IsLayout = record { exponent = 0; rest = 64; in_word = refl; power = refl }

-- The first region is too small, and the second is split.
abbrev before : List Region
before = region 8192 16 ∷ region 4096 1024 ∷ []

abbrev after : List Region
after = region 4120 1000 ∷ region 8192 16 ∷ []

abbrev in_use : List Region
in_use = region 512 64 ∷ []

before-IsSound : IsSound before in_use
before-IsSound = record {
  nodes = omega arith;
  free_apart = ((inr (omega arith), tt), (tt, tt));
  live_apart = (tt, tt);
  all_apart = ((inr (omega arith), tt), ((inr (omega arith), tt), tt));
}

alloc-twenty : alloc before twenty ≡ ok (after, 4096)
unfolding alloc size_align find_region alloc_from_region align_up fits_to take give_back
    add_free_region
alloc-twenty = refl

linked_alloc-Allocated_example : Allocated before in_use twenty after 4096
linked_alloc-Allocated_example =
    linked_alloc-Allocated before in_use twenty twenty-IsLayout before-IsSound alloc-twenty

abbrev sixty : Layout
sixty = record { size = 60; align = 2 ^ 0 }

size_align-sixty : size_align sixty ≡ ok (64, 8)
unfolding size_align
size_align-sixty = refl

dealloc-sixty : dealloc before 512 sixty ≡ ok (region 512 64 ∷ before)
unfolding dealloc size_align align_up add_free_region
dealloc-sixty = refl

linked_dealloc-IsSound_example :
    (region 512 64 ∷ before ≡ region 512 64 ∷ before) × IsSound (region 512 64 ∷ before) []
linked_dealloc-IsSound_example =
    linked_dealloc-IsSound before in_use [] (region 512 64) sixty 8 before-IsSound first
      size_align-sixty dealloc-sixty

linked_alloc-total_example : (out : List Region × ℕ) × (alloc before twenty ≡ ok out)
linked_alloc-total_example =
    linked_alloc-total before twenty twenty-IsLayout (omega arith) (omega arith)
