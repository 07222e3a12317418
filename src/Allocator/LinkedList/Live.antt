-- ===== src/Allocator/LinkedList/Live.antt =====
-- linked_list.rs: what a call of `alloc` or `dealloc` does to the free regions and the blocks in use.
use native.Mathlib.Nat.{mod-lt, div-add-mod', one-le-pow, pow-suc}
use molt_os.Prelude.{
  ℕ, zero, suc, ◌+◌, ◌-◌, ◌*◌, ◌^◌, ◌≤◌, ◌<◌, ◌≡◌, inl, inr, refl, ap, ap₂, sym, ◌∙◌, subst, max,
  Option, none, some, List, [], ◌∷◌, ltb, ok, panic, add64, sub64, arith, All, >>=-eq-ok,
  add64-eq-ok, sub64-eq-ok, Bool-cases,
}
use molt_os.Allocator.{Layout, IsLayout}
use molt_os.Allocator.LinkedList.{
  Region, Found, node_size, node_align, add_free_region, find_region, isize_max, pad_to_align,
  size_align, give_back, take, alloc, dealloc,
}
use molt_os.Allocator.LinkedList.Fit.{Removed, IsFound, find_region-Placed, Removed-All}
use molt_os.Allocator.LinkedList.Free.{
  Apart, ApartFrom, Pairwise-Removed, IsSound, Apart-sym, add_free_region-eq-ok, cut-IsSound,
}

-- The alignment that `size_align` asks for is a power of two as well.
pub max-pow : (e : ℕ) → max (2 ^ e) node_align ≡ 2 ^ max e 3
max-pow zero = refl
max-pow (suc zero) = refl
max-pow (suc (suc zero)) = refl
max-pow (suc (suc (suc e))) =
    let big : node_align ≤ 2 ^ suc (suc (suc e)) = omega (
      arith,
      pow-suc 2 (suc (suc e)),
      pow-suc 2 (suc e),
      pow-suc 2 e,
      one-le-pow e 2 (omega arith),
    ) in
    let same : max (suc (suc (suc e))) 3 ≡ suc (suc (suc e)) = omega arith in rw same (omega arith)

le-pad_to_align : (size align : ℕ) → 0 < align → size ≤ pad_to_align size align
le-pad_to_align size align h =
    omega (arith, div-add-mod' (size + align - 1) align, mod-lt (size + align - 1) h)

size_align-eq-ok :
    (l : Layout) {size align : ℕ}
    → IsLayout l
    → size_align l ≡ ok (size, align)
    → (l.size ≤ size) × (align ≡ max l.align node_align)
unfolding size_align
size_align-eq-ok l {size} {align} v e =
    let a : ℕ = max l.align node_align in
    elim (Bool-cases (ltb isize_max (pad_to_align l.size a))) [
      | inl t ↦ let e' : panic ≡ ok (size, align) = rw t at e in cc e'
      | inr t ↦
          let e' : ok (max (pad_to_align l.size a) node_size, a) ≡ ok (size, align) = rw t at e in
          let size_is : max (pad_to_align l.size a) node_size ≡ size = cc e' in
          let align_is : a ≡ align = cc e' in
          (omega (arith, le-pad_to_align l.size a (omega arith)), sym align_is)
    ]

-- How `alloc` ends: with a null pointer and no change, or with an aligned block that is big enough
-- and overlaps neither a block in use nor a region that is still free.
pub data Allocated (free live : List Region) (l : Layout) (free' : List Region) : ℕ → Type 0 where
  refused : free' ≡ free → Allocated free live l free' 0
  granted :
      (start size quotient : ℕ)
      → l.size ≤ size
      → start ≡ quotient * max l.align node_align
      → IsSound free' (record { start = start; size = size } ∷ live)
      → Allocated free live l free' start

take-Allocated :
    (free live : List Region) (l : Layout) (size exponent : ℕ) (o : Option Found)
    {free' : List Region} {p : ℕ}
    → IsSound free live
    → l.size ≤ size
    → max l.align node_align ≡ 2 ^ exponent
    → ((f : Found) → o ≡ some f → IsFound free size (2 ^ exponent) f)
    → take free size o ≡ ok (free', p)
    → Allocated free live l free' p
unfolding take
take-Allocated free live l size exponent none {free'} {p} v h a found e =
    let null : 0 ≡ p = cc e in
    let state : free' ≡ free = cc e in subst (Allocated free live l free') null (refused state)
take-Allocated free live l size exponent (some (r, s, rest)) {free'} {p} v h a found e =
    let (m, place) = found (r, s, rest) refl in
    let (stop, es, f) = >>=-eq-ok (add64 s size) _ e in
    let (region_end, er, g) = >>=-eq-ok (add64 r.start r.size) _ f in
    let (excess, ex, k) = >>=-eq-ok (sub64 region_end stop) _ g in
    let (given, eg, last) = >>=-eq-ok (give_back rest stop excess) _ k in
    let stop_is : stop ≡ s + size = (add64-eq-ok s size es).0 in
    let excess_is : excess ≡ r.start + r.size - (s + size) =
      omega (arith, sub64-eq-ok region_end stop ex, add64-eq-ok r.start r.size er) in
    let eg' : give_back rest (s + size) (r.start + r.size - (s + size)) ≡ ok given =
      ap₂ (give_back rest) (sym stop_is) (sym excess_is) ∙ eg in
    let state : given ≡ free' = cc last in
    let here : s ≡ p = cc last in
    let sound : IsSound free' (record { start = s; size = size } ∷ live) =
      subst (λ x. IsSound x (record { start = s; size = size } ∷ live)) state
        (cut-IsSound free rest live r size (2 ^ exponent) s v m place eg') in
    subst (Allocated free live l free') here (
      granted s size place.aligned.quotient h
        (place.aligned.multiple ∙ ap (λ x. place.aligned.quotient * x) (sym a)) sound)

-- A call of `alloc` that returns, where free regions and blocks in use do not overlap, ends in one of
-- the two ways, and so they still do not overlap.
pub linked_alloc-Allocated :
    (free live : List Region) (l : Layout) {free' : List Region} {p : ℕ}
    → IsLayout l
    → IsSound free live
    → alloc free l ≡ ok (free', p)
    → Allocated free live l free' p
unfolding alloc
linked_alloc-Allocated free live l {free'} {p} w v e =
    let ((size, align), es, f) = >>=-eq-ok (size_align l) _ e in
    let (found, ef, g) = >>=-eq-ok (find_region free size align) _ f in
    let (big, align_is) = size_align-eq-ok l w es in
    let power : max l.align node_align ≡ 2 ^ max w.exponent 3 =
      ap (λ x. max x node_align) w.power ∙ max-pow w.exponent in
    let ef' : find_region free size (2 ^ max w.exponent 3) ≡ ok found =
      subst (λ x. find_region free size x ≡ ok found) (align_is ∙ power) ef in
    let in_word : (64 - max w.exponent 3) + max w.exponent 3 ≡ 64 = omega (arith, w.in_word) in
    take-Allocated free live l size (max w.exponent 3) found v big power
      (λ f' same.
        find_region-Placed free size (max w.exponent 3) (64 - max w.exponent 3) in_word
          (ef' ∙ ap ok same))
      g

-- A block in use that is given back with the size that it was asked for, rounded as `alloc` rounds
-- it, becomes a free region, if the call returns, and nothing overlaps.
pub linked_dealloc-IsSound :
    (free live live' : List Region) (b : Region) (l : Layout) (align : ℕ) {free' : List Region}
    → IsSound free live
    → Removed b live live'
    → size_align l ≡ ok (b.size, align)
    → dealloc free b.start l ≡ ok free'
    → (free' ≡ b ∷ free) × IsSound free' live'
unfolding dealloc
linked_dealloc-IsSound free live live' b l align {free'} v m es e =
    let e' : add_free_region free b.start b.size ≡ ok free' = rw es at e in
    let (same, node) = add_free_region-eq-ok free b.start b.size e' in
    let (b_live, live_apart) = Pairwise-Removed m v.live_apart in
    (
      same,
      rw same (record {
        nodes = (node, v.nodes);
        free_apart = (from_free free v.all_apart, v.free_apart);
        live_apart = live_apart;
        all_apart = (b_live, fewer free v.all_apart);
      }),
    )
  where
    from_free : (xs : List Region) → All (ApartFrom live) xs → ApartFrom xs b
    from_free [] a = tt
    from_free (x ∷ xs) a = (Apart-sym x b (Removed-All (Apart x) m a.0).0, from_free xs a.1)

    fewer : (xs : List Region) → All (ApartFrom live) xs → All (ApartFrom live') xs
    fewer [] a = tt
    fewer (x ∷ xs) a = ((Removed-All (Apart x) m a.0).1, fewer xs a.1)
