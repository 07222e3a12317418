-- ===== src/Tests/Blocks.antt =====
-- The fixed-size block allocator over a heap of one block.
use molt_os.Prelude.{
  ℕ, zero, suc, ◌<◌, ◌≡◌, ◌≢◌, refl, ap, sym, ◌∙◌, inl, inr, ◌==◌, ==_iff, Bool-cases,
  if◌then◌else◌, Option, none, some, List, [], ◌∷◌, get_elem?, replicate, ok, arith,
}
use molt_os.Allocator.{Layout}
use molt_os.Allocator.FixedSize.{
  Heap, FixedSizeBlockAllocator, list_index, alloc, dealloc, position_from,
}
use molt_os.Allocator.FixedSize.Classes.{one, count}
use molt_os.Allocator.FixedSize.Blocks.{Apart, InUse, put, remove, granted, class_layout, put-cases}
use molt_os.Allocator.FixedSize.Sound.{IsHeap, IsSound, Handed}
use molt_os.Allocator.FixedSize.Reuse.{alloc-Handed, dealloc-IsSound}

abbrev take_block : Option Layout → Layout → Option ℕ × Option Layout
take_block none l = (some 4096, some l)
take_block (some m) l = (none, some m)

-- A heap with one block, at 4096; the state is the layout that it is in use with.
abbrev block_heap : Heap (Option Layout)
block_heap = record {
  empty = none;
  init = λ f start size. f;
  allocate_first_fit = take_block;
  deallocate = λ f p l. if p == 4096 then none else f;
}

abbrev in_use : Option Layout → InUse
in_use none x = none
in_use (some l) x = put (λ y. none) 4096 l x

refuses :
    (f : Option Layout) (l : Layout)
    → (take_block f l).0 ≡ none
    → (x : ℕ) → in_use (take_block f l).1 x ≡ in_use f x
refuses none l e x = cc
refuses (some m) l e x = refl

hands_out :
    (f : Option Layout) (l : Layout) (p : ℕ)
    → (take_block f l).0 ≡ some p
    → (p ≢ 0)
      × (in_use f p ≡ none)
      × ((x : ℕ) (m : Layout) → in_use f x ≡ some m → Apart p l x m)
      × ((x : ℕ) → in_use (take_block f l).1 x ≡ put (in_use f) p l x)
hands_out (some m) l p e = cc
hands_out none l p e =
    let same : 4096 ≡ p = cc e in
    (omega (arith, same), refl, λ x m h. cc h, λ x. ap (λ q. put (λ y. none) q l x) same)

takes_back :
    (f : Option Layout) (l : Layout) (p : ℕ)
    → in_use f p ≡ some l
    → (x : ℕ) → in_use (if p == 4096 then none else f) x ≡ remove (in_use f) p x
takes_back none l p h x = cc h
takes_back (some m) l p h x = elim (put-cases (λ y. none) 4096 m p l h) [
  | inl (at, _) ↦ elim (Bool-cases (x == 4096)) [
    | inl t ↦ rw (at, t) refl
    | inr f ↦ rw (at, f) refl
  ]
  | inr (_, old) ↦ cc old
]

block_heap-IsHeap : IsHeap block_heap in_use
block_heap-IsHeap = record { refuses = refuses; hands_out = hands_out; takes_back = takes_back }

abbrev lists : List ℕ → List (List ℕ)
lists ps = [] ∷ [] ∷ ps ∷ [] ∷ [] ∷ [] ∷ [] ∷ [] ∷ [] ∷ []

abbrev block : Layout
block = record { size = 32; align = 32 }

abbrev layout : Layout
layout = record { size = 20; align = 8 }

-- The block waits in the list of the size 32.
abbrev kept : FixedSizeBlockAllocator (Option Layout)
kept = record { list_heads = lists (4096 ∷ []); fallback_allocator = some block }

-- The block is a client's.
abbrev given : FixedSizeBlockAllocator (Option Layout)
given = record { list_heads = lists []; fallback_allocator = some block }

only : (x : ℕ) (m : Layout) → in_use (some block) x ≡ some m → (x ≡ 4096) × (m ≡ block)
only x m e = elim (put-cases (λ y. none) 4096 block x m e) [
  | inl here ↦ here
  | inr (_, old) ↦ cc old
]

all_empty : (n i : ℕ) (list : List ℕ) → get_elem? (replicate n []) i ≡ some list → list ≡ []
all_empty zero i list e = cc e
all_empty (suc n) zero list e = cc e
all_empty (suc n) (suc i) list e = all_empty n i list e

-- Only the list of the size 32 may hold a block.
in_third :
    (ps : List ℕ) (i : ℕ) (list : List ℕ) (x : ℕ)
    → get_elem? (lists ps) i ≡ some list
    → 0 < count x list
    → (i ≡ 2) × (0 < count x ps)
in_third ps zero list x e c =
    let none_there : list ≡ [] = cc e in absurd (omega (arith, c, ap (count x) none_there))
in_third ps (suc zero) list x e c =
    let none_there : list ≡ [] = cc e in absurd (omega (arith, c, ap (count x) none_there))
in_third ps (suc (suc zero)) list x e c =
    let same : list ≡ ps = cc e in (refl, omega (arith, c, ap (count x) same))
in_third ps (suc (suc (suc i))) list x e c =
    let none_there = all_empty 6 i list e in absurd (omega (arith, c, ap (count x) none_there))

counted_once : (x : ℕ) → 0 < count x (4096 ∷ []) → x ≡ 4096
counted_once x c = elim (Bool-cases (x == 4096)) [
  | inl t ↦ (==_iff x 4096).0 t
  | inr f ↦ let nothing : one x 4096 ≡ 0 = rw f refl in absurd (omega (arith, c, nothing))
]

kept-IsSound : IsSound block_heap in_use (λ x. none) kept
kept-IsSound = record {
  nine = refl;
  clients = λ x l e. cc e;
  nodes = λ i list x at c.
      let (third, counted) = in_third (4096 ∷ []) i list x at c in
      ap (in_use (some block)) (counted_once x counted)
      ∙ ap (λ z. some (class_layout z)) (sym third);
  once = λ x. elim (Bool-cases (x == 4096)) [
    | inl t ↦ let once : one x 4096 ≡ 1 = rw t refl in omega (arith, once)
    | inr f ↦ let nothing : one x 4096 ≡ 0 = rw f refl in omega (arith, nothing)
  ];
  accounted = λ x m e.
      let once : one x 4096 ≡ 1 = ap (λ z. one z 4096) (only x m e).0 in inr (omega (arith, once));
  no_null = refl;
  apart = λ x y l m ne e f. absurd (ne ((only x l e).0 ∙ sym (only y m f).0));
}

given-IsSound : IsSound block_heap in_use (put (λ x. none) 4096 layout) given
unfolding list_index position_from
given-IsSound = record {
  nine = refl;
  clients = λ x l e. elim (put-cases (λ y. none) 4096 layout x l e) [
    | inl (at, same) ↦
        (ap (in_use (some block)) at ∙ ap (λ (z : Layout). some (granted z)) (sym same), refl)
    | inr (_, old) ↦ cc old
  ];
  nodes = λ i list x at c. absurd (omega (arith, (in_third [] i list x at c).1));
  once = λ x. omega arith;
  accounted = λ x m e. inl (layout, ap (put (λ y. none) 4096 layout) (only x m e).0);
  no_null = refl;
  apart = λ x y l m ne e f. absurd (ne ((only x l e).0 ∙ sym (only y m f).0));
}

alloc-Handed_example :
    (a' : FixedSizeBlockAllocator (Option Layout)) × (p : ℕ) × (alloc block_heap kept layout
      ≡ ok (a', p))
    × Handed block_heap in_use (λ x. none) layout a' p
alloc-Handed_example =
    alloc-Handed block_heap in_use block_heap-IsHeap (λ x. none) kept layout kept-IsSound

dealloc-IsSound_example :
    (a' : FixedSizeBlockAllocator (Option Layout)) × (dealloc block_heap given 4096 layout ≡ ok a')
    × IsSound block_heap in_use (remove (put (λ x. none) 4096 layout) 4096) a'
dealloc-IsSound_example =
    dealloc-IsSound block_heap in_use block_heap-IsHeap (put (λ x. none) 4096 layout) given 4096
      layout given-IsSound refl
