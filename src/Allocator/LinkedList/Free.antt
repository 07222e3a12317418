-- ===== src/Allocator/LinkedList/Free.antt =====
-- linked_list.rs: the free regions and the blocks in use never overlap.
use molt_os.Prelude.{
  ℕ, ◌+◌, ◌-◌, ◌%◌, ◌≤◌, ◌≡◌, ◌⊎◌, inl, inr, refl, ◌&&◌, List, [], ◌∷◌, ◌==◌, ==_iff, ltb, leb,
  leb→le, &&-eq-true, ok, panic, arith, All, >>=-eq-ok, Bool-cases,
}
use molt_os.Allocator.{align_up}
use molt_os.Allocator.AlignUp.{align_up-IsAligned}
use molt_os.Allocator.LinkedList.{Region, node_size, node_align, add_free_region, give_back}
use molt_os.Allocator.LinkedList.Fit.{Placed, Removed, first, later, Removed-All}

abbrev pub Apart : Region → Region → Type 0
Apart r s = (r.start + r.size ≤ s.start) ⊎ (s.start + s.size ≤ r.start)

abbrev pub Pairwise : List Region → Type 0
Pairwise [] = Unit
Pairwise (r ∷ rs) = All (Apart r) rs × Pairwise rs

abbrev pub ApartFrom : List Region → Region → Type 0
ApartFrom rs r = All (Apart r) rs

-- A region that a node can stand in.
abbrev pub IsNode : Region → Type 0
IsNode r = (r.start % node_align ≡ 0) × (node_size ≤ r.size)

-- The free regions, and the blocks in use.
pub record IsSound (free live : List Region) : Type 0 where
  pub nodes : All IsNode free
  pub free_apart : Pairwise free
  pub live_apart : Pairwise live
  pub all_apart : All (ApartFrom live) free

abbrev Within : Region → Region → Type 0
Within b r = (r.start ≤ b.start) × (b.start + b.size ≤ r.start + r.size)

pub Apart-sym : (r s : Region) → Apart r s → Apart s r
Apart-sym r s (inl h) = inr h
Apart-sym r s (inr h) = inl h

Apart-Within : (b r s : Region) → Within b r → Apart r s → Apart b s
Apart-Within b r s w (inl h) = inl (omega arith)
Apart-Within b r s w (inr h) = inr (omega arith)

ApartFrom-Within : (b r : Region) (xs : List Region) → Within b r → ApartFrom xs r → ApartFrom xs b
ApartFrom-Within b r [] w a = tt
ApartFrom-Within b r (x ∷ xs) w a = (Apart-Within b r x w a.0, ApartFrom-Within b r xs w a.1)

-- A region that is apart from all is one more that they are apart from.
ApartFrom-cons :
    (b : Region) (live xs : List Region)
    → ApartFrom xs b
    → All (ApartFrom live) xs
    → All (ApartFrom (b ∷ live)) xs
ApartFrom-cons b live [] a v = tt
ApartFrom-cons b live (x ∷ xs) a v = ((Apart-sym b x a.0, v.0), ApartFrom-cons b live xs a.1 v.1)

pub Pairwise-Removed :
    {r : Region} {rs rest : List Region}
    → Removed r rs rest
    → Pairwise rs
    → ApartFrom rest r × Pairwise rest
Pairwise-Removed first v = v
Pairwise-Removed {r} (later {x} m) v =
    let (apart, others) = Removed-All (Apart x) m v.0 in
    let (below, pairs) = Pairwise-Removed m v.1 in ((Apart-sym x r apart, below), (others, pairs))

pub add_free_region-eq-ok :
    (rs : List Region) (addr size : ℕ) {rs' : List Region}
    → add_free_region rs addr size ≡ ok rs'
    → (rs' ≡ record { start = addr; size = size } ∷ rs)
      × IsNode (record { start = addr; size = size })
unfolding add_free_region
add_free_region-eq-ok rs addr size {rs'} e =
    let (a, ea, f) = >>=-eq-ok (align_up addr node_align) _ e in
    let aligned = (align_up-IsAligned 61 3 addr refl ea).0 in
    elim (Bool-cases (a == addr && leb node_size size)) [
      | inl t ↦
          let f' : ok (record { start = addr; size = size } ∷ rs) ≡ ok rs' = rw t at f in
          let (same, room) = &&-eq-true (a == addr) (leb node_size size) t in
          let here : a ≡ addr = (==_iff a addr).0 same in
          (cc f', (omega (arith, aligned.multiple), leb→le node_size size room))
      | inr t ↦ let f' : panic ≡ ok rs' = rw t at f in cc f'
    ]

-- A block cut from a free region, with what is behind it given back.
pub cut-IsSound :
    (free rest live : List Region) (r : Region) (size align s : ℕ) {free' : List Region}
    → IsSound free live
    → Removed r free rest
    → Placed r size align s
    → give_back rest (s + size) (r.start + r.size - (s + size)) ≡ ok free'
    → IsSound free' (record { start = s; size = size } ∷ live)
unfolding give_back
cut-IsSound free rest live r size align s {free'} v m p e =
    let b : Region = record { start = s; size = size } in
    let t : Region = record { start = s + size; size = r.start + r.size - (s + size) } in
    let (r_live, rest_live) = Removed-All (ApartFrom live) m v.all_apart in
    let (_, rest_nodes) = Removed-All IsNode m v.nodes in
    let (r_rest, rest_apart) = Pairwise-Removed m v.free_apart in
    let b_in : Within b r = omega (arith, p.aligned.above, p.inside) in
    let b_live : ApartFrom live b = ApartFrom-Within b r live b_in r_live in
    let apart = ApartFrom-cons b live rest (ApartFrom-Within b r rest b_in r_rest) rest_live in
    elim (Bool-cases (ltb 0 (r.start + r.size - (s + size)))) [
      | inl q ↦
          let e' : add_free_region rest (s + size) (r.start + r.size - (s + size)) ≡ ok free' =
            rw q at e in
          let (same, node) = add_free_region-eq-ok rest (s + size) _ e' in
          let t_in : Within t r = omega (arith, p.aligned.above, p.inside) in
          rw same (record {
            nodes = (node, rest_nodes);
            free_apart = (ApartFrom-Within t r rest t_in r_rest, rest_apart);
            live_apart = (b_live, v.live_apart);
            all_apart = ((inr (omega arith), ApartFrom-Within t r live t_in r_live), apart);
          })
      | inr q ↦
          let e' : ok rest ≡ ok free' = rw q at e in
          let same : rest ≡ free' = cc e' in
          rw (← same) (record {
            nodes = rest_nodes;
            free_apart = rest_apart;
            live_apart = (b_live, v.live_apart);
            all_apart = apart;
          })
    ]
