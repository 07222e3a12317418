-- ===== src/Tests/Heap.antt =====
-- The bump allocator at concrete inputs.
use molt_os.Prelude.{ℕ, ◌+◌, ◌≤◌, ◌≡◌, refl, List, [], ◌∷◌, ok, arith}
use molt_os.Allocator.{Layout, IsLayout, align_up}
use molt_os.Allocator.Bump.{BumpAllocator, new, init, claim, claim_to, alloc, dealloc}
use molt_os.Allocator.Bump.Live.{Call, allocate, free, Client, call, run, run-disjoint}

abbrev byte_block : Layout
byte_block = record { size = 3; align = 1 }

abbrev word_block : Layout
word_block = record { size = 16; align = 8 }

byte_block-IsLayout : IsLayout byte_block
byte_block-IsLayout = record { exponent = 0; rest = 64; in_word = refl; power = refl }

word_block-IsLayout : IsLayout word_block
word_block-IsLayout = record { exponent = 3; rest = 61; in_word = refl; power = refl }

-- A heap of 100 bytes.
abbrev heap : ℕ → ℕ → BumpAllocator
heap next allocations = record {
  heap_start = 4096;
  heap_end = 4196;
  next = next;
  allocations = allocations;
}

-- A full heap answers with the null pointer.
alloc_full : alloc (heap 4190 1) word_block ≡ ok (heap 4190 1, 0)
unfolding alloc align_up claim_to claim
alloc_full = refl

abbrev calls : List Call
calls = allocate byte_block ∷ allocate word_block ∷ allocate byte_block ∷ free ∷ []

abbrev after_calls : Client
after_calls = record { allocator = heap 4123 2; blocks = (4120, 3) ∷ (4104, 16) ∷ (4096, 3) ∷ [] }

init-heap : init new 4096 100 ≡ ok (heap 4096 0)
unfolding init
init-heap = refl

run-calls : run (record { allocator = heap 4096 0; blocks = [] }) calls ≡ ok after_calls
unfolding run call alloc align_up claim_to claim dealloc
run-calls = refl

run-disjoint_example : (4096 ≤ 4096) × (4096 + 3 ≤ 4104) × (4104 + 16 ≤ 4096 + 100)
run-disjoint_example =
    run-disjoint 4096 100 new (heap 4096 0) calls after_calls 1 2 (4104, 16) (4096, 3) (omega arith)
      init-heap (byte_block-IsLayout, (word_block-IsLayout, (byte_block-IsLayout, (tt, tt))))
      run-calls refl refl (omega arith)
