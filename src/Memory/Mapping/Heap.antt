-- ===== src/Memory/Mapping/Heap.antt =====
-- `init_heap` (src/allocator.rs): which pages are mapped, and to what.
use molt_os.Prelude.{ℕ, ◌+◌, ◌*◌, ◌≡◌, ◌≤◌, ◌<◌, ◌⊎◌, inl, inr, refl, sym, ◌∙◌, none, some, arith}
use molt_os.Memory.{FrameAllocator, page_size}
use molt_os.Memory.Frames.{IsSorted, Ascending-apart, usable_frames-Ascending}
use molt_os.Memory.Mapping.{
  MapToError, Mapped, Mapper, IsMapper, present_writable, heap_pages, map_pages, init_heap,
}
use molt_os.Memory.Mapping.Pages.{map_pages-keeps, map_pages-Backed, Option-cases}
use molt_os.Allocator.{heap_start, heap_size}
use molt_os.Allocator.FixedSize.{FixedSizeBlockAllocator}
use molt_os.Allocator.FixedSize

module _ {T : Type 0} (m : Mapper T) {F : Type 0} (heap : FixedSize.Heap F) where
  -- The whole heap is mapped, each page to a frame of its own, and the allocator has it; or there is
  -- an error and the allocator is as before.
  pub data Outcome (allocator : FixedSizeBlockAllocator F)
      (r : Mapped T × FixedSizeBlockAllocator F) : Type 0 where
    ready :
        (frame : ℕ → ℕ)
        → r.0.0 ≡ none
        → r.1 ≡ FixedSize.init heap allocator heap_start heap_size
        → ((i : ℕ)
            → i * page_size < heap_size
            → m.translate r.0.1 (heap_start + i * page_size) ≡ some (frame i, present_writable))
        → ((i j : ℕ) → i < j → j * page_size < heap_size → frame i + page_size ≤ frame j)
        → Outcome allocator r
    refused : (e : MapToError) → r.0.0 ≡ some e → r.1 ≡ allocator → Outcome allocator r

  -- Without an error the allocator has the heap.
  pub init_heap-allocator :
      (allocator : FixedSizeBlockAllocator F) (t : T) (a : FrameAllocator)
      → (init_heap m heap allocator t a).0.0 ≡ none
      → (init_heap m heap allocator t a).1 ≡ FixedSize.init heap allocator heap_start heap_size
  unfolding init_heap
  init_heap-allocator allocator t a h =
      elim (Option-cases (map_pages m heap_pages heap_start t a).0) [
        | inl done ↦ rw (init_heap, done) refl
        | inr (e, failed) ↦
            let h' : some e ≡ none = sym failed ∙ (rw (init_heap, failed) at h) in cc
      ]

  -- On a map of whole pages in order, `init_heap` maps every page of the heap, present and writable,
  -- to a frame of its own and gives the heap to the allocator, or it returns an error and leaves the
  -- allocator as it was; a page outside the heap stays as it was either way.
  pub init_heap-Outcome :
      (law : IsMapper m) (allocator : FixedSizeBlockAllocator F) (t : T) (a : FrameAllocator)
      (low : ℕ)
      → IsSorted low a.memory_map
      → Outcome allocator (init_heap m heap allocator t a)
        × ((p : ℕ)
            → (p < heap_start) ⊎ (heap_start + heap_size ≤ p)
            → m.translate (init_heap m heap allocator t a).0.1 p ≡ m.translate t p)
  unfolding init_heap
  init_heap-Outcome law allocator t a low sorted =
      elim (Option-cases (map_pages m heap_pages heap_start t a).0) [
        | inl done ↦
            let v = map_pages-Backed m law heap_pages heap_start t a done in
            let ordered = usable_frames-Ascending a.memory_map low sorted in
            (
              rw (init_heap, done)
                  (ready v.frame done refl (λ i h. v.mapped i (omega arith))
                    (λ i j h k.
                      Ascending-apart _ low (v.call i) (v.call j) (v.frame i) (v.frame j) ordered
                        (v.taken i (omega arith)) (v.taken j (omega arith))
                        (v.rising i j h (omega arith)))),
              λ p out. rw (init_heap, done) (outside p out),
            )
        | inr (e, failed) ↦ (
          rw (init_heap, failed) (refused e failed refl),
          λ p out. rw (init_heap, failed) (outside p out),
        )
      ]
    where
      outside :
          (p : ℕ)
          → (p < heap_start) ⊎ (heap_start + heap_size ≤ p)
          → m.translate (map_pages m heap_pages heap_start t a).1 p ≡ m.translate t p
      outside p out =
          map_pages-keeps m law heap_pages heap_start t a p (λ i h e. elim out [
            | inl low' ↦ absurd (omega arith)
            | inr high ↦ absurd (omega arith)
          ])
