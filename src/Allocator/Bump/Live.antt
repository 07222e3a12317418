-- ===== src/Allocator/Bump/Live.antt =====
-- bump.rs: blocks that are in use together do not overlap. A client is a sequence of calls, with the
-- list of the blocks that it was given since the allocator was last empty.
use molt_os.Prelude.{
  ℕ, ◌+◌, ◌≤◌, ◌<◌, ◌≡◌, ◌≢◌, inl, inr, refl, ◌∙◌, subst, false, some, List, [], ◌∷◌, ◌==◌,
  if◌then◌else◌, Checked, ok, ◌>>=◌, add64, sub64, arith, >>=-eq-ok, add64-eq-ok, Bool-cases,
  get_elem?,
}
use molt_os.Allocator.{Layout, IsLayout}
use molt_os.Allocator.Bump.{BumpAllocator, init, alloc, dealloc}
use molt_os.Allocator.Bump.Outcome.{IsValid, Allocated, refused, granted, alloc-Allocated}
use molt_os.Allocator.Bump.Stacked.{Stacked, Stacked-mono, Stacked-disjoint}

-- An allocator with the blocks handed out since it was last empty, as addresses and sizes.
pub record Client : Type 0 where
  pub allocator : BumpAllocator
  pub blocks : List (ℕ × ℕ)

pub data Call : Type 0 where
  allocate : Layout → Call
  free : Call

-- What a call does to the client. A block that is freed stays listed until the allocator is empty.
unfoldable pub call : Client → Call → Checked Client
call c (allocate l) = do
  (b, p) ← alloc c.allocator l
  ok (record { allocator = b; blocks = if p == 0 then c.blocks else (p, l.size) ∷ c.blocks })
call c free = do
  b ← dealloc c.allocator
  ok (record { allocator = b; blocks = if b.allocations == 0 then [] else c.blocks })

unfoldable pub run : Client → List Call → Checked Client
run c [] = ok c
run c (k ∷ ks) = call c k >>= λ c'. run c' ks

-- The heap is the same region.
abbrev pub SameHeap : BumpAllocator → BumpAllocator → Type 0
SameHeap b b' = (b'.heap_start ≡ b.heap_start) × (b'.heap_end ≡ b.heap_end)

pub record IsSound (c : Client) : Type 0 where
  pub valid : IsValid c.allocator
  pub stacked : Stacked c.allocator.heap_start c.allocator.next c.blocks

Allocated-IsSound :
    (c : Client) (l : Layout) (b' : BumpAllocator) (p : ℕ)
    → 0 < c.allocator.heap_start
    → IsSound c
    → Allocated c.allocator l b' p
    → IsSound
        (record { allocator = b'; blocks = if p == 0 then c.blocks else (p, l.size) ∷ c.blocks })
      × SameHeap c.allocator b'
Allocated-IsSound c l b' p h v (refused same) = rw same (v, (refl, refl))
Allocated-IsSound c l b' p h v (granted start a inside same) =
    let not_null : (p == 0) ≡ false = ground arith in
    rw (same, not_null)
      (
        record {
          valid = omega arith;
          stacked = (
            omega arith,
            Stacked-mono c.allocator.heap_start c.allocator.next p c.blocks a.above v.stacked,
          );
        },
        (refl, refl),
      )

dealloc-IsSound :
    (c : Client) {b' : BumpAllocator}
    → IsSound c
    → dealloc c.allocator ≡ ok b'
    → IsSound (record { allocator = b'; blocks = if b'.allocations == 0 then [] else c.blocks })
      × SameHeap c.allocator b'
unfolding dealloc
dealloc-IsSound c {b'} v e =
    let (n, en, f) = >>=-eq-ok (sub64 c.allocator.allocations 1) _ e in
    elim (Bool-cases (n == 0)) [
      | inl t ↦
          let f' : ok (record c.allocator { allocations = n; next = c.allocator.heap_start })
              ≡ ok b' =
            rw t at f in
          let state : b' ≡ record c.allocator { allocations = n; next = c.allocator.heap_start } =
            cc f' in
          rw (state, t) (record { valid = omega arith; stacked = omega arith }, (refl, refl))
      | inr t ↦
          let f' : ok (record c.allocator { allocations = n }) ≡ ok b' = rw t at f in
          let state : b' ≡ record c.allocator { allocations = n } = cc f' in
          let some_left : n ≢ 0 = ground arith in
          let w = v.valid in
          rw (state, t)
            (
              record {
                valid = record {
                  from_start = w.from_start;
                  to_end = w.to_end;
                  fits = w.fits;
                  empty = λ q. absurd (some_left q);
                };
                stacked = v.stacked;
              },
              (refl, refl),
            )
    ]

-- Layouts as `Layout::from_size_align` makes them.
abbrev pub IsCall : Call → Type 0
IsCall (allocate l) = IsLayout l
IsCall free = Unit

call-IsSound :
    (c : Client) (k : Call) {c' : Client}
    → IsCall k
    → 0 < c.allocator.heap_start
    → IsSound c
    → call c k ≡ ok c'
    → IsSound c' × SameHeap c.allocator c'.allocator
unfolding call
call-IsSound c (allocate l) {c'} w h v e =
    let ((b, p), eb, f) = >>=-eq-ok (alloc c.allocator l) _ e in
    subst (λ x. IsSound x × SameHeap c.allocator x.allocator) (cc f)
      (Allocated-IsSound c l b p h v (alloc-Allocated c.allocator l w eb))
call-IsSound c free {c'} w h v e =
    let (b, eb, f) = >>=-eq-ok (dealloc c.allocator) _ e in
    subst (λ x. IsSound x × SameHeap c.allocator x.allocator) (cc f) (dealloc-IsSound c v eb)

abbrev pub AllCalls : List Call → Type 0
AllCalls [] = Unit
AllCalls (k ∷ ks) = IsCall k × AllCalls ks

run-IsSound :
    (ks : List Call) (c : Client) {c' : Client}
    → AllCalls ks
    → 0 < c.allocator.heap_start
    → IsSound c
    → run c ks ≡ ok c'
    → IsSound c' × SameHeap c.allocator c'.allocator
unfolding run
run-IsSound [] c w h v e =
    subst (λ x. IsSound x × SameHeap c.allocator x.allocator) (cc e) (v, (refl, refl))
run-IsSound (k ∷ ks) c w h v e =
    let (d, ed, f) = >>=-eq-ok (call c k) _ e in
    let (sound, same) = call-IsSound c k w.0 h v ed in
    let (sound', same') = run-IsSound ks d w.1 (rw same.0 h) sound f in
    (sound', (same'.0 ∙ same.0, same'.1 ∙ same.1))

init-IsSound :
    (b : BumpAllocator) (start size : ℕ) {fresh : BumpAllocator}
    → init b start size ≡ ok fresh
    → IsSound (record { allocator = fresh; blocks = [] })
      × (fresh.heap_start ≡ start)
      × (fresh.heap_end ≡ start + size)
unfolding init
init-IsSound b start size {fresh} e =
    let (stop, es, f) = >>=-eq-ok (add64 start size) _ e in
    let (value, fits) = add64-eq-ok start size es in
    let state : fresh
        ≡ record { heap_start = start; heap_end = stop; next = start; allocations = 0 } =
      cc f in
    rw state (record { valid = omega arith; stacked = omega arith }, refl, value)

-- After any calls that do not panic, on a heap that does not begin at address 0: any two of the
-- blocks handed out since the allocator was last empty lie in the heap, the older below the newer.
pub run-disjoint :
    (start size : ℕ) (b fresh : BumpAllocator) (ks : List Call) (c : Client) (i j : ℕ) (x y : ℕ × ℕ)
    → 0 < start
    → init b start size ≡ ok fresh
    → AllCalls ks
    → run (record { allocator = fresh; blocks = [] }) ks ≡ ok c
    → get_elem? c.blocks i ≡ some x
    → get_elem? c.blocks j ≡ some y
    → i < j
    → (start ≤ y.0) × (y.0 + y.1 ≤ x.0) × (x.0 + x.1 ≤ start + size)
run-disjoint start size b fresh ks c i j x y h ei w er ex ey lt =
    let (sound, first, last) = init-IsSound b start size ei in
    let (sound', same) =
      run-IsSound ks (record { allocator = fresh; blocks = [] }) w (rw first h) sound er in
    let apart =
      Stacked-disjoint c.allocator.heap_start c.allocator.next c.blocks i j x y sound'.stacked ex ey
        lt in
    omega (arith, apart, sound'.valid.to_end, same, first, last)
