-- ===== src/Allocator/FixedSize/Lists.antt =====
-- fixed_size_block.rs: blocks that go from a free list to a client and back keep the allocator sound.
use molt_os.Prelude.{
  ℕ, ◌≤◌, ◌<◌, ◌≡◌, ◌≢◌, inl, inr, refl, sym, ap, ◌∙◌, ◌==◌, ==_iff, Bool-cases, none, some, List,
  ◌∷◌, length-set, get_elem?, set, arith,
}
use molt_os.Allocator.{Layout}
use molt_os.Allocator.FixedSize.{Heap, FixedSizeBlockAllocator, list_index}
use molt_os.Allocator.FixedSize.Classes.{one, one_self, count, total, total-set}
use molt_os.Allocator.FixedSize.Blocks.{
  InUse, remove, class_layout, granted_at, granted, granted-size, count-total, put-ne, put-eq,
  remove-ne, put-cases, remove-cases, set-cases,
}
use molt_os.Allocator.FixedSize.Sound.{IsSound, Handed, handed, shrink, not_live}

module _ {F : Type 0} (heap : Heap F) (used : F → InUse) where
  -- The first block of a list of the class goes to a client.
  pub listed-Handed :
      (live : InUse) (a : FixedSizeBlockAllocator F) (layout : Layout) (i p : ℕ) (next : List ℕ)
      → IsSound heap used live a
      → list_index layout ≡ some i
      → get_elem? a.list_heads i ≡ some (p ∷ next)
      → Handed heap used live layout (record a { list_heads = set a.list_heads i next }) p
  listed-Handed live a layout i p next h class e =
      let moved = λ (x : ℕ). total-set x a.list_heads i (p ∷ next) next e in
      let front : 0 < count p (p ∷ next) = omega (arith, one_self p) in
      let held : used a.fallback_allocator p ≡ some (class_layout i) =
        h.nodes i (p ∷ next) p e front in
      let listed : 0 < total p a.list_heads =
        omega (arith, count-total p i (p ∷ next) a.list_heads e, front) in
      let behind : class_layout i ≡ granted layout = ap (λ o. granted_at o layout) (sym class) in
      let room : layout.size ≤ (granted layout).size =
        granted-size layout (list_index layout) refl in
      let proper : p ≢ 0 = λ z. cc (ap (used a.fallback_allocator) z, held, h.no_null) in
      let taken : live p ≡ none =
        not_live heap used live a p h (λ l at. omega (arith, (h.clients p l at).1, listed)) in
      handed proper taken
        (λ y m at.
          let (other, free) = h.clients y m at in
          let ne : p ≢ y =
            λ same. omega (arith, ap (λ z. total z a.list_heads) same, free, listed) in
          shrink heap used p y layout (granted layout) m (granted m) room
            (granted-size m (list_index m) refl)
            (h.apart p y (granted layout) (granted m) ne (held ∙ ap some behind) other))
        record {
          nine = length-set a.list_heads i next ∙ h.nine;
          clients = λ x l at. elim (put-cases live p layout x l at) [
            | inl (here, same) ↦ (
              ap (used a.fallback_allocator) here
                  ∙ held
                  ∙ ap some behind
                  ∙ ap (λ (z : Layout). some (granted z)) (sym same),
              ap (λ z. total z (set a.list_heads i next)) here
                  ∙ omega (arith, moved p, h.once p, one_self p),
            )
            | inr (_, old) ↦
                let (other, free) = h.clients x l old in (other, omega (arith, moved x, free))
          ];
          nodes = λ j list x at c. elim (set-cases a.list_heads i j next (p ∷ next) list e at) [
            | inl (same, rest) ↦
                let still : 0 < count x next = omega (arith, ap (count x) rest, c) in
                rw same (h.nodes i (p ∷ next) x e (omega (arith, still)))
            | inr old ↦ h.nodes j list x old c
          ];
          once = λ x. omega (arith, moved x, h.once x);
          accounted = λ x m at. elim (Bool-cases (x == p)) [
            | inl t ↦ inl (layout, put-eq live p layout x ((==_iff x p).0 t))
            | inr f ↦ elim (h.accounted x m at) [
              | inl (l, has) ↦ inl (l, put-ne live p layout x f ∙ has)
              | inr full ↦
                  let apart_from : one x p ≡ 0 = rw f refl in
                  inr (omega (arith, moved x, full, apart_from))
            ]
          ];
          no_null = h.no_null;
          apart = h.apart;
        }

  -- A client's block of the class goes to its list.
  pub listed-IsSound :
      (live : InUse) (a : FixedSizeBlockAllocator F) (layout : Layout) (i p : ℕ) (list : List ℕ)
      → IsSound heap used live a
      → live p ≡ some layout
      → list_index layout ≡ some i
      → get_elem? a.list_heads i ≡ some list
      → IsSound heap used (remove live p) (record a { list_heads = set a.list_heads i (p ∷ list) })
  listed-IsSound live a layout i p list h mine class e =
      let moved = λ (x : ℕ). total-set x a.list_heads i list (p ∷ list) e in
      let (held, free) = h.clients p layout mine in
      let behind : granted layout ≡ class_layout i = ap (λ o. granted_at o layout) class in
      record {
        nine = length-set a.list_heads i (p ∷ list) ∙ h.nine;
        clients = λ x l at.
            let (ne, old) = remove-cases live p x l at in
            let (other, unlisted_yet) = h.clients x l old in
            let apart_from : one x p ≡ 0 = rw ne refl in
            (other, omega (arith, moved x, unlisted_yet, apart_from));
        nodes = λ j list' x at c. elim (set-cases a.list_heads i j (p ∷ list) list list' e at) [
          | inl (same, grown) ↦ elim (Bool-cases (x == p)) [
            | inl t ↦
                ap (used a.fallback_allocator) ((==_iff x p).0 t)
                ∙ held
                ∙ ap some behind
                ∙ ap (λ z. some (class_layout z)) (sym same)
            | inr f ↦
                let apart_from : one x p ≡ 0 = rw f refl in
                let still : 0 < count x list = omega (arith, ap (count x) grown, c, apart_from) in
                h.nodes i list x e still ∙ ap (λ z. some (class_layout z)) (sym same)
          ]
          | inr old ↦ h.nodes j list' x old c
        ];
        once = λ x. elim (Bool-cases (x == p)) [
          | inl t ↦
              let here : x ≡ p = (==_iff x p).0 t in
              let counted : one x p ≡ 1 = rw t refl in
              omega (arith, moved x, ap (λ z. total z a.list_heads) here, free, counted)
          | inr f ↦
              let apart_from : one x p ≡ 0 = rw f refl in
              omega (arith, moved x, h.once x, apart_from)
        ];
        accounted = λ x m at. elim (Bool-cases (x == p)) [
          | inl t ↦
              let here : x ≡ p = (==_iff x p).0 t in
              let counted : one x p ≡ 1 = rw t refl in
              inr (omega (arith, moved x, ap (λ z. total z a.list_heads) here, free, counted))
          | inr f ↦ elim (h.accounted x m at) [
            | inl (l, has) ↦ inl (l, remove-ne live p x f ∙ has)
            | inr full ↦
                let apart_from : one x p ≡ 0 = rw f refl in
                inr (omega (arith, moved x, full, apart_from))
          ]
        ];
        no_null = h.no_null;
        apart = h.apart;
      }
