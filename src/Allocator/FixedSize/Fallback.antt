-- ===== src/Allocator/FixedSize/Fallback.antt =====
-- fixed_size_block.rs: blocks that go from the heap to a client and back keep the allocator sound.
use molt_os.Prelude.{
  ℕ, ◌<◌, ◌≡◌, ◌≢◌, inl, inr, sym, ap, ◌∙◌, ◌==◌, ==_iff, false, Bool-cases, none, some, arith,
}
use molt_os.Allocator.{Layout}
use molt_os.Allocator.FixedSize.{Heap, FixedSizeBlockAllocator}
use molt_os.Allocator.FixedSize.Classes.{total}
use molt_os.Allocator.FixedSize.Blocks.{
  Apart, InUse, put, remove, granted, count-total, put-ne, put-eq, remove-eq, remove-ne, put-cases,
  remove-cases,
}
use molt_os.Allocator.FixedSize.Sound.{IsSound, unlisted}

module _ {F : Type 0} (heap : Heap F) (used : F → InUse) where
  -- The heap has handed out `p` for `layout`.
  pub granted-IsSound :
      (live : InUse) (a : FixedSizeBlockAllocator F) (layout block : Layout) (p : ℕ) (f : F)
      → IsSound heap used live a
      → granted layout ≡ block
      → p ≢ 0
      → used a.fallback_allocator p ≡ none
      → ((x : ℕ) (m : Layout) → used a.fallback_allocator x ≡ some m → Apart p block x m)
      → ((x : ℕ) → used f x ≡ put (used a.fallback_allocator) p block x)
      → IsSound heap used (put live p layout) (record a { fallback_allocator = f })
  granted-IsSound live a layout block p f h behind proper unused away more = record {
    nine = h.nine;
    clients = λ x l e. elim (put-cases live p layout x l e) [
      | inl (at, same) ↦ (
        more x
            ∙ put-eq (used a.fallback_allocator) p block x at
            ∙ ap some (sym behind)
            ∙ ap (λ (z : Layout). some (granted z)) (sym same),
        ap (λ z. total z a.list_heads) at ∙ unlisted heap used live a p h unused,
      )
      | inr (away_from, old) ↦
          let (held, free) = h.clients x l old in
          (more x ∙ put-ne (used a.fallback_allocator) p block x away_from ∙ held, free)
    ];
    nodes = λ i list x at c.
        let held = h.nodes i list x at c in
        let ne : (x == p) ≡ false = elim (Bool-cases (x == p)) [
          | inl t ↦ absurd (cc (ap (used a.fallback_allocator) ((==_iff x p).0 t), held, unused))
          | inr k ↦ k
        ] in
        more x ∙ put-ne (used a.fallback_allocator) p block x ne ∙ held;
    once = h.once;
    accounted = λ x m e.
        elim (put-cases (used a.fallback_allocator) p block x m (sym (more x) ∙ e)) [
          | inl (at, same) ↦ inl (layout, put-eq live p layout x at)
          | inr (ne, old) ↦ elim (h.accounted x m old) [
            | inl (l, has) ↦ inl (l, put-ne live p layout x ne ∙ has)
            | inr listed ↦ inr listed
          ]
        ];
    no_null =
        let ne : (0 == p) ≡ false = ground (arith, proper) in
        more 0 ∙ put-ne (used a.fallback_allocator) p block 0 ne ∙ h.no_null;
    apart = λ x y l m ne e g.
        elim (put-cases (used a.fallback_allocator) p block x l (sym (more x) ∙ e)) [
          | inl (at, same) ↦
              elim (put-cases (used a.fallback_allocator) p block y m (sym (more y) ∙ g)) [
                | inl (at', same') ↦ absurd (ne (at ∙ sym at'))
                | inr (_, old) ↦ rw (at, same) (away y m old)
              ]
          | inr (_, old) ↦
              elim (put-cases (used a.fallback_allocator) p block y m (sym (more y) ∙ g)) [
                | inl (at', same') ↦ rw (at', same') (flip p x block l (away x l old))
                | inr (_, old') ↦ h.apart x y l m ne old old'
              ]
        ];
  }
    where
      flip : (p x : ℕ) (l m : Layout) → Apart p l x m → Apart x m p l
      flip p x l m (inl e) = inr e
      flip p x l m (inr e) = inl e

  -- A client's block goes back to the heap.
  pub returned-IsSound :
      (live : InUse) (a : FixedSizeBlockAllocator F) (p : ℕ) (layout : Layout) (f : F)
      → IsSound heap used live a
      → live p ≡ some layout
      → ((x : ℕ) → used f x ≡ remove (used a.fallback_allocator) p x)
      → IsSound heap used (remove live p) (record a { fallback_allocator = f })
  returned-IsSound live a p layout f h mine less =
      let (held, free) = h.clients p layout mine in
      let kept : (x : ℕ) (m : Layout)
          → used f x ≡ some m
          → ((x == p) ≡ false) × (used a.fallback_allocator x ≡ some m) =
        λ x m e. remove-cases (used a.fallback_allocator) p x m (sym (less x) ∙ e) in
      let stays : (x : ℕ) → (x == p) ≡ false → used f x ≡ used a.fallback_allocator x =
        λ x ne. less x ∙ remove-ne (used a.fallback_allocator) p x ne in
      record {
        nine = h.nine;
        clients = λ x l at.
            let (ne, old) = remove-cases live p x l at in
            let (other, unlisted_yet) = h.clients x l old in (stays x ne ∙ other, unlisted_yet);
        nodes = λ i list x at c.
            let listed : 0 < total x a.list_heads =
              omega (arith, count-total x i list a.list_heads at, c) in
            let ne : (x == p) ≡ false = elim (Bool-cases (x == p)) [
              | inl t ↦
                  absurd
                    (omega (arith, ap (λ z. total z a.list_heads) ((==_iff x p).0 t), free, listed))
              | inr k ↦ k
            ] in
            stays x ne ∙ h.nodes i list x at c;
        once = h.once;
        accounted = λ x m e.
            let (ne, old) = kept x m e in
            elim (h.accounted x m old) [
              | inl (l, has) ↦ inl (l, remove-ne live p x ne ∙ has)
              | inr full ↦ inr full
            ];
        no_null = elim (Bool-cases (0 == p)) [
          | inl t ↦ less 0 ∙ remove-eq (used a.fallback_allocator) p 0 t
          | inr k ↦ stays 0 k ∙ h.no_null
        ];
        apart = λ x y l m ne e g. h.apart x y l m ne (kept x l e).1 (kept y m g).1;
      }
