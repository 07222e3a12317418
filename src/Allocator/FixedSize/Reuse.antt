-- ===== src/Allocator/FixedSize/Reuse.antt =====
-- fixed_size_block.rs: no block is handed out while it is in use, over a heap that keeps that promise.
use molt_os.Prelude.{
  ℕ, ◌≤◌, ◌≡◌, ◌≢◌, inl, inr, refl, sym, ap, ◌∙◌, ◌==◌, false, List-cases, none, some, ◌∷◌, set, ok,
  arith,
}
use molt_os.Allocator.{Layout}
use molt_os.Allocator.FixedSize.{
  Heap, FixedSizeBlockAllocator, list_index, pointer, fallback_alloc, alloc_class, alloc,
  dealloc_class, dealloc,
}
use molt_os.Allocator.FixedSize.Classes.{get_elem?-in, list_index-lt, block_layout, Option-cases}
use molt_os.Allocator.FixedSize.Blocks.{
  InUse, remove, granted_at, granted, granted-size, block_granted,
}
use molt_os.Allocator.FixedSize.Sound.{IsHeap, IsSound, Handed, nothing, handed, shrink, not_live}
use molt_os.Allocator.FixedSize.Fallback.{granted-IsSound, returned-IsSound}
use molt_os.Allocator.FixedSize.Lists.{listed-Handed, listed-IsSound}

module _ {F : Type 0} (heap : Heap F) (used : F → InUse) (law : IsHeap heap used) where
  fallback_alloc-Handed :
      (live : InUse) (a : FixedSizeBlockAllocator F) (layout block : Layout)
      → IsSound heap used live a
      → granted layout ≡ block
      → Handed heap used live layout (fallback_alloc heap a block).0 (fallback_alloc heap a block).1
  unfolding fallback_alloc
  fallback_alloc-Handed live a layout block h behind =
      let r = heap.allocate_first_fit a.fallback_allocator block in
      elim (Option-cases r.0) [
        | inl none_left ↦
            let same = law.refuses a.fallback_allocator block none_left in
            nothing (ap (pointer heap) none_left) record {
              nine = h.nine;
              clients = λ x l e. (same x ∙ (h.clients x l e).0, (h.clients x l e).1);
              nodes = λ i list x at c. same x ∙ h.nodes i list x at c;
              once = h.once;
              accounted = λ x m e. h.accounted x m (sym (same x) ∙ e);
              no_null = same 0 ∙ h.no_null;
              apart = λ x y l m ne e f. h.apart x y l m ne (sym (same x) ∙ e) (sym (same y) ∙ f);
            }
        | inr (p, got) ↦
            let (proper, unused, away, more) = law.hands_out a.fallback_allocator block p got in
            let same : pointer heap r.0 ≡ p = ap (pointer heap) got in
            let room : layout.size ≤ block.size =
              rw (← behind) (granted-size layout (list_index layout) refl) in
            let taken : live p ≡ none =
              not_live heap used live a p h (λ l at. cc (unused, (h.clients p l at).0)) in
            rw same (
              handed proper taken
                (λ y m at.
                  shrink heap used p y layout block m (granted m) room
                    (granted-size m (list_index m) refl) (away y (granted m) (h.clients y m at).0))
                (granted-IsSound heap used live a layout block p r.1 h behind proper unused away
                  more))
      ]

  -- `alloc` does not panic, and hands out nothing, or a block that no client has and that overlaps no
  -- client's; the blocks stay accounted for.
  pub alloc-Handed :
      (live : InUse) (a : FixedSizeBlockAllocator F) (layout : Layout)
      → IsSound heap used live a
      → (a' : FixedSizeBlockAllocator F) × (p : ℕ) × (alloc heap a layout ≡ ok (a', p))
        × Handed heap used live layout a' p
  unfolding alloc alloc_class
  alloc-Handed live a layout h = elim (Option-cases (list_index layout)) [
    | inl large ↦
        let r = fallback_alloc heap a layout in
        let behind : granted layout ≡ layout = ap (λ o. granted_at o layout) large in
        (r.0, r.1, rw large, fallback_alloc-Handed live a layout layout h behind)
    | inr (i, e) ↦
        let lt = list_index-lt layout i e in
        let (nodes, at) = get_elem?-in a.list_heads i (omega (arith, h.nine, lt)) in
        elim (List-cases nodes) [
          | inl empty ↦
              let (size, block, sized, valid, is_class) = block_granted i lt in
              let behind : granted layout ≡ block = ap (λ o. granted_at o layout) e ∙ is_class in
              let r = fallback_alloc heap a block in
              (
                r.0,
                r.1,
                rw (e, at, empty, sized, valid),
                fallback_alloc-Handed live a layout block h behind,
              )
          | inr (p, next, full) ↦ (
            record a { list_heads = set a.list_heads i next },
            p,
            rw (e, at, full),
            listed-Handed heap used live a layout i p next h e (at ∙ ap some full),
          )
        ]
  ]

  -- A block that a client has, given back with the layout that it was asked for: `dealloc` does not
  -- panic, the block is in a free list or again the heap's, and the blocks stay accounted for.
  pub dealloc-IsSound :
      (live : InUse) (a : FixedSizeBlockAllocator F) (p : ℕ) (layout : Layout)
      → IsSound heap used live a
      → live p ≡ some layout
      → (a' : FixedSizeBlockAllocator F) × (dealloc heap a p layout ≡ ok a')
        × IsSound heap used (remove live p) a'
  unfolding dealloc dealloc_class
  dealloc-IsSound live a p layout h mine =
      let (held, free) = h.clients p layout mine in
      let not_null : p ≢ 0 = λ z. cc (ap (used a.fallback_allocator) z, held, h.no_null) in
      let proper : (p == 0) ≡ false = ground (arith, not_null) in
      elim (Option-cases (list_index layout)) [
        | inl large ↦
            let behind : granted layout ≡ layout = ap (λ o. granted_at o layout) large in
            let back = law.takes_back a.fallback_allocator layout p (held ∙ ap some behind) in
            let f = heap.deallocate a.fallback_allocator p layout in
            (
              record a { fallback_allocator = f },
              rw (large, proper),
              returned-IsSound heap used live a p layout f h mine back,
            )
        | inr (i, e) ↦
            let lt = list_index-lt layout i e in
            let (list, at) = get_elem?-in a.list_heads i (omega (arith, h.nine, lt)) in
            let (size, _, sized, _, node) = block_layout i lt in
            (
              record a { list_heads = set a.list_heads i (p ∷ list) },
              rw (e, sized, at, node),
              listed-IsSound heap used live a layout i p list h mine e at,
            )
      ]
