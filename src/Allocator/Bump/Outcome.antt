-- ===== src/Allocator/Bump/Outcome.antt =====
-- bump.rs: how a call of `alloc` can end.
use molt_os.Prelude.{
  ℕ, ◌+◌, ◌^◌, ◌≤◌, ◌<◌, ◌≡◌, inl, inr, refl, sym, subst, Option, none, some, ltb, ok, ◌>>=◌, add64,
  checked_add, word, arith, >>=-eq-ok, add64-eq-ok, Bool-cases,
}
use molt_os.Allocator.{Layout, IsLayout, align_up}
use molt_os.Allocator.AlignUp.{IsAligned, align_up-IsAligned}
use molt_os.Allocator.Bump.{BumpAllocator, claim, claim_to, alloc}

-- `next` is inside the heap, and at its start when nothing is allocated.
pub record IsValid (b : BumpAllocator) : Type 0 where
  pub from_start : b.heap_start ≤ b.next
  pub to_end : b.next ≤ b.heap_end
  pub fits : b.heap_end < word
  pub empty : b.allocations ≡ 0 → b.next ≡ b.heap_start

-- How `alloc` ends: with a null pointer and no change, or with a block that starts at the first
-- aligned address from `next` on and ends in the heap, at the new `next`.
pub data Allocated (b : BumpAllocator) (l : Layout) (b' : BumpAllocator) : ℕ → Type 0 where
  refused : b' ≡ b → Allocated b l b' 0
  granted :
      (start : ℕ)
      → IsAligned b.next l.align start
      → start + l.size ≤ b.heap_end
      → b' ≡ record b { next = start + l.size; allocations = b.allocations + 1 }
      → Allocated b l b' start

claim-Allocated :
    (b : BumpAllocator) (l : Layout) (start : ℕ) {b' : BumpAllocator} {p : ℕ}
    → IsAligned b.next l.align start
    → claim b start (start + l.size) ≡ ok (b', p)
    → Allocated b l b' p
unfolding claim
claim-Allocated b l start {b'} {p} a e = elim (Bool-cases (ltb b.heap_end (start + l.size))) [
  | inl t ↦
      let e' : ok (b, 0) ≡ ok (b', p) = rw t at e in
      let state : b' ≡ b = cc e' in
      let null : 0 ≡ p = cc e' in subst (Allocated b l b') null (refused state)
  | inr t ↦
      let inside : start + l.size ≤ b.heap_end = ground arith in
      let e' : (add64 b.allocations 1 >>= λ n.
      ok (record b { next = start + l.size; allocations = n }, start))
          ≡ ok (b', p) =
        rw t at e in
      let (n, en, f) = >>=-eq-ok (add64 b.allocations 1) _ e' in
      let (count, _) = add64-eq-ok b.allocations 1 en in
      let here : start ≡ p = cc f in
      let state : b' ≡ record b { next = start + l.size; allocations = b.allocations + 1 } =
        cc (f, count) in
      subst (Allocated b l b') here (granted start a inside state)
]

-- Every call of `alloc` that returns ends in one of the two ways.
pub alloc-Allocated :
    (b : BumpAllocator) (l : Layout) {b' : BumpAllocator} {p : ℕ}
    → IsLayout l
    → alloc b l ≡ ok (b', p)
    → Allocated b l b' p
unfolding alloc claim_to
alloc-Allocated b l {b'} {p} v e =
    let (start, es, f) = >>=-eq-ok (align_up b.next l.align) _ e in
    let es' : align_up b.next (2 ^ v.exponent) ≡ ok start =
      subst (λ a. align_up b.next a ≡ ok start) v.power es in
    let aligned : IsAligned b.next l.align start =
      subst (λ a. IsAligned b.next a start) (sym v.power)
        (align_up-IsAligned v.rest v.exponent b.next v.in_word es').0 in
    go start aligned (checked_add start l.size) refl f
  where
    go :
        (start : ℕ)
        → IsAligned b.next l.align start
        → (o : Option ℕ) → checked_add start l.size ≡ o
        → claim_to b start o ≡ ok (b', p)
        → Allocated b l b' p
    go start a none q f =
        let state : b' ≡ b = cc f in
        let null : 0 ≡ p = cc f in subst (Allocated b l b') null (refused state)
    go start a (some alloc_end) q f =
        let stop : alloc_end ≡ start + l.size = ground arith in
        claim-Allocated b l start a (subst (λ x. claim b start x ≡ ok (b', p)) stop f)
