-- ===== src/Allocator/FixedSize/Sound.antt =====
-- fixed_size_block.rs: which blocks are whose, and how they move between clients, lists and heap.
use molt_os.Prelude.{
  ℕ, ◌≤◌, ◌<◌, ◌≡◌, ◌≢◌, ◌⊎◌, inl, inr, refl, ◌==◌, ==_iff, Bool-cases, Option, none, some, List,
  length, get_elem?, arith,
}
use molt_os.Allocator.{Layout}
use molt_os.Allocator.FixedSize.{Heap, FixedSizeBlockAllocator}
use molt_os.Allocator.FixedSize.Classes.{count, total}
use molt_os.Allocator.FixedSize.Blocks.{Apart, InUse, put, remove, class_layout, granted, total-in}

-- What the fallback heap documents, with `used` its blocks in use and the layouts that they were
-- allocated with: it hands out a block that is not null and overlaps none in use, and takes back one
-- with its layout.
pub record IsHeap {F : Type 0} (heap : Heap F) (used : F → InUse) : Type 0 where
  pub refuses :
      (f : F) (l : Layout)
      → (heap.allocate_first_fit f l).0 ≡ none
      → (x : ℕ) → used (heap.allocate_first_fit f l).1 x ≡ used f x
  pub hands_out :
      (f : F) (l : Layout) (p : ℕ)
      → (heap.allocate_first_fit f l).0 ≡ some p
      → (p ≢ 0)
        × (used f p ≡ none)
        × ((x : ℕ) (m : Layout) → used f x ≡ some m → Apart p l x m)
        × ((x : ℕ) → used (heap.allocate_first_fit f l).1 x ≡ put (used f) p l x)
  pub takes_back :
      (f : F) (l : Layout) (p : ℕ)
      → used f p ≡ some l
      → (x : ℕ) → used (heap.deallocate f p l) x ≡ remove (used f) p x

module _ {F : Type 0} (heap : Heap F) (used : F → InUse) where
  -- `live` are the blocks that clients have, with the layouts that they asked for. Behind each is a
  -- block of the heap that is in no free list; a free list of a class holds blocks of the class, and a
  -- block stands in one place; the heap has no other blocks in use, and these do not overlap.
  pub record IsSound (live : InUse) (a : FixedSizeBlockAllocator F) : Type 0 where
    pub nine : length a.list_heads ≡ 9
    pub clients :
        (x : ℕ) (l : Layout)
        → live x ≡ some l
        → (used a.fallback_allocator x ≡ some (granted l)) × (total x a.list_heads ≡ 0)
    pub nodes :
        (i : ℕ) (list : List ℕ) (x : ℕ)
        → get_elem? a.list_heads i ≡ some list
        → 0 < count x list
        → used a.fallback_allocator x ≡ some (class_layout i)
    pub once : (x : ℕ) → total x a.list_heads ≤ 1
    pub accounted :
        (x : ℕ) (m : Layout)
        → used a.fallback_allocator x ≡ some m
        → ((l : Layout) × (live x ≡ some l)) ⊎ (total x a.list_heads ≡ 1)
    pub no_null : used a.fallback_allocator 0 ≡ none
    pub apart :
        (x y : ℕ) (l m : Layout)
        → x ≢ y
        → used a.fallback_allocator x ≡ some l
        → used a.fallback_allocator y ≡ some m
        → Apart x l y m

  -- A call that hands out nothing, or a block that no client has and that overlaps none of theirs.
  pub data Handed (live : InUse) (layout : Layout) (a : FixedSizeBlockAllocator F) (p : ℕ)
      : Type 0 where
    nothing : p ≡ 0 → IsSound live a → Handed live layout a p
    handed :
        p ≢ 0
        → live p ≡ none
        → ((y : ℕ) (m : Layout) → live y ≡ some m → Apart p layout y m)
        → IsSound (put live p layout) a
        → Handed live layout a p

  -- Smaller blocks at the same places do not overlap either.
  pub shrink :
      (p y : ℕ) (l l' m m' : Layout)
      → l.size ≤ l'.size
      → m.size ≤ m'.size
      → Apart p l' y m'
      → Apart p l y m
  shrink p y l l' m m' h k (inl e) = inl (omega (arith, h, e))
  shrink p y l l' m m' h k (inr e) = inr (omega (arith, k, e))

  -- A block that the heap does not have in use is a client's no more, and in no list.
  pub not_live :
      (live : InUse) (a : FixedSizeBlockAllocator F) (x : ℕ)
      → IsSound live a
      → ((l : Layout) → live x ≡ some l → ⊥)
      → live x ≡ none
  not_live live a x h never = go (live x) refl
    where
      go : (o : Option Layout) → live x ≡ o → live x ≡ none
      go none e = e
      go (some l) e = absurd (never l e)

  pub unlisted :
      (live : InUse) (a : FixedSizeBlockAllocator F) (x : ℕ)
      → IsSound live a
      → used a.fallback_allocator x ≡ none
      → total x a.list_heads ≡ 0
  unlisted live a x h e = elim (Bool-cases (total x a.list_heads == 0)) [
    | inl t ↦ (==_iff (total x a.list_heads) 0).0 t
    | inr f ↦
        let some_there : 0 < total x a.list_heads = ground (arith, f) in
        let (i, list, at, counted) = total-in x a.list_heads some_there in
        absurd (cc (e, h.nodes i list x at counted))
  ]
