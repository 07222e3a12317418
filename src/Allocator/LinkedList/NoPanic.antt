-- ===== src/Allocator/LinkedList/NoPanic.antt =====
-- linked_list.rs: `alloc` returns, and the assertions of `add_free_region` hold in it.
use native.Mathlib.Nat.{one-le-pow, mul_assoc}
use Prim.Native.Nat.{bit_and}
use molt_os.Prelude.{
  ℕ, ◌+◌, ◌-◌, ◌*◌, ◌/◌, ◌%◌, ◌^◌, ◌≤◌, ◌<◌, ◌≡◌, ◌⊎◌, inl, inr, refl, ap, sym, ◌∙◌, subst, max,
  false, Option, none, some, List, [], ◌∷◌, ==_iff, ltb, lt→ltb, le→leb, ok, word, u64_max, arith,
  All, Bool-cases,
}
use molt_os.Prelude.Bits.{pow-add}
use molt_os.Allocator.{Layout, IsLayout, align_up}
use molt_os.Allocator.AlignUp.{align_up-IsAligned}
use molt_os.Allocator.LinkedList.{
  Region, Found, node_size, node_align, fits, fits_to, alloc_from_region, behind, add_free_region,
  find_region, isize_max, pad_to_align, size_align, give_back, take, alloc,
}
use molt_os.Allocator.LinkedList.Fit.{IsFound, find_region-Placed}
use molt_os.Allocator.LinkedList.Live.{max-pow}

align_up-total : (k addr : ℕ) → addr + 2 ^ k < word → (r : ℕ) × (align_up addr (2 ^ k) ≡ ok r)
unfolding align_up
align_up-total k addr h =
    let one = one-le-pow k 2 (omega arith) in
    (
      bit_and (addr + 2 ^ k - 1) (u64_max - (2 ^ k - 1)),
      rw
          (
            lt→ltb (addr + 2 ^ k) word h,
            le→leb 1 (addr + 2 ^ k) (omega (arith, one)),
            le→leb 1 (2 ^ k) one,
          )
          refl,
    )

-- An address that is aligned stays.
align_up-aligned :
    (addr : ℕ)
    → addr % node_align ≡ 0
    → addr + node_align < word
    → align_up addr node_align ≡ ok addr
align_up-aligned addr m h =
    let (r, e) = align_up-total 3 addr h in
    let v = (align_up-IsAligned 61 3 addr refl e).0 in
    let same : r ≡ addr = omega (arith, v.multiple, v.above, v.next_below) in e ∙ ap ok same

-- What the addresses of a region leave room for.
abbrev pub HasRoom : ℕ → Region → Type 0
HasRoom align r = (r.start + align < word) × (r.start + r.size < word)

alloc_from_region-total :
    (r : Region) (size k : ℕ)
    → HasRoom (2 ^ k) r
    → (o : Option ℕ) × (alloc_from_region r size (2 ^ k) ≡ ok o)
unfolding alloc_from_region fits_to
alloc_from_region-total r size k h =
    let (a, e) = align_up-total k r.start h.0 in
    elim (Bool-cases (ltb (a + size) word)) [
      | inl t ↦
          (fits a (a + size) (r.start + r.size), rw (e, t, lt→ltb (r.start + r.size) word h.1) refl)
      | inr t ↦ (none, rw (e, t) refl)
    ]

find_region-total :
    (rs : List Region) (size k : ℕ)
    → All (HasRoom (2 ^ k)) rs
    → (o : Option Found) × (find_region rs size (2 ^ k) ≡ ok o)
unfolding find_region
find_region-total [] size k h = (none, refl)
find_region-total (r ∷ rs) size k h =
    let (o, e) = alloc_from_region-total r size k h.0 in
    let (rest, e') = find_region-total rs size k h.1 in
    elim o
        as (λ o.
          alloc_from_region r size (2 ^ k) ≡ ok o
          → (f : Option Found) × (find_region (r ∷ rs) size (2 ^ k) ≡ ok f)) [
            | some s ↦ λ q. (some (r, s, rs), rw q refl)
            | none ↦ λ q. (behind r rest, rw (q, e') refl)
          ]
      e

-- A multiple of an alignment from 8 on is one of 8.
mul-pow-mod : (q k : ℕ) → 3 ≤ k → q * 2 ^ k % node_align ≡ 0
mul-pow-mod q k h =
    let split : k ≡ (k - 3) + 3 = omega arith in
    let power : 2 ^ k ≡ 2 ^ (k - 3) * 8 = ap (λ x. 2 ^ x) split ∙ pow-add (k - 3) 3 in
    let same : q * 2 ^ k ≡ (q * 2 ^ (k - 3)) * 8 =
      ap (λ x. q * x) power ∙ sym (mul_assoc q (2 ^ (k - 3)) 8) in
    omega (arith, same)

-- The rest of a region can hold a node, so it is added without a panic.
give_back-total :
    (rs : List Region) (stop excess : ℕ)
    → stop % node_align ≡ 0
    → (excess ≡ 0) ⊎ (node_size ≤ excess)
    → stop + excess < word
    → (rs' : List Region) × (give_back rs stop excess ≡ ok rs')
unfolding give_back add_free_region
give_back-total rs stop excess m (inl h) w = (rs, rw h refl)
give_back-total rs stop excess m (inr h) w = (
  record { start = stop; size = excess } ∷ rs,
  rw
      (
        lt→ltb 0 excess (omega arith),
        align_up-aligned stop m (omega arith),
        (==_iff stop stop).1 refl,
        le→leb node_size excess h,
      )
      refl,
)

take-total :
    (rs : List Region) (size k : ℕ) (o : Option Found)
    → 3 ≤ k
    → size % node_align ≡ 0
    → ((f : Found) → o ≡ some f → IsFound rs size (2 ^ k) f)
    → (out : List Region × ℕ) × (take rs size o ≡ ok out)
unfolding take
take-total rs size k none h m found = ((rs, 0), refl)
take-total rs size k (some (r, s, rest)) h m found =
    let p = (found (r, s, rest) refl).1 in
    let start_mod : s % node_align ≡ 0 =
      omega (arith, p.aligned.multiple, mul-pow-mod p.aligned.quotient k h) in
    let excess : ℕ = r.start + r.size - (s + size) in
    let split : (excess ≡ 0) ⊎ (node_size ≤ excess) = ground (arith, p.rest_fits) in
    let (given, e) =
      give_back-total rest (s + size) excess (omega arith) split
        (omega (arith, p.inside, p.region_fits)) in
    (
      (given, s),
      rw
          (
            lt→ltb (s + size) word (omega (arith, p.inside, p.region_fits)),
            lt→ltb (r.start + r.size) word p.region_fits,
            le→leb (s + size) (r.start + r.size) p.inside,
            e,
          )
          refl,
    )

-- Where the free regions leave room in a word and the padded size is in range, `alloc` returns, and no
-- assertion fails.
pub linked_alloc-total :
    (free : List Region) (l : Layout)
    → IsLayout l
    → pad_to_align l.size (max l.align node_align) ≤ isize_max
    → All (HasRoom (max l.align node_align)) free
    → (out : List Region × ℕ) × (alloc free l ≡ ok out)
unfolding alloc size_align
linked_alloc-total free l w fits_isize room =
    let k : ℕ = max w.exponent 3 in
    let power : max l.align node_align ≡ 2 ^ k =
      ap (λ x. max x node_align) w.power ∙ max-pow w.exponent in
    let size : ℕ = max (pad_to_align l.size (max l.align node_align)) node_size in
    let no_panic : ltb isize_max (pad_to_align l.size (max l.align node_align)) ≡ false =
      ground arith in
    let (o, e) = find_region-total free size k (subst (λ x. All (HasRoom x) free) power room) in
    let in_word : (64 - k) + k ≡ 64 = omega (arith, w.in_word) in
    let size_mod : size % node_align ≡ 0 = omega (
      arith,
      mul-pow-mod ((l.size + 2 ^ k - 1) / 2 ^ k) k (omega arith),
      ap (pad_to_align l.size) power,
    ) in
    let e' : find_region free size (max l.align node_align) ≡ ok o =
      subst (λ x. find_region free size x ≡ ok o) (sym power) e in
    let (out, t) =
      take-total free size k o (omega arith) size_mod
        (λ f same. find_region-Placed free size k (64 - k) in_word (e ∙ ap ok same)) in
    (out, rw (no_panic, e') t)
