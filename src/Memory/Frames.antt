-- ===== src/Memory/Frames.antt =====
-- memory.rs: no frame is handed out twice.
use molt_os.Prelude.{
  ℕ, zero, suc, ◌+◌, ◌-◌, ◌*◌, ◌/◌, ◌%◌, ◌≤◌, ◌<◌, ◌≡◌, ap, ◌∙◌, subst, some, List, [], ◌∷◌, ◌++◌,
  get_elem?, arith, Bool-cases, inl, inr,
}
use molt_os.Memory.{
  is_usable, MemoryRegion, FrameAllocator, page_size, containing_address, frames_from, frames_of,
  usable_frames, allocate_frame,
}

-- Whole pages one after the other, from `low` on.
abbrev pub Ascending : ℕ → List ℕ → Type 0
Ascending low [] = Unit
Ascending low (x ∷ xs) = (low ≤ x) × Ascending (x + page_size) xs

-- The regions of the map are whole pages, in the order of their addresses.
abbrev pub IsSorted : ℕ → List MemoryRegion → Type 0
IsSorted low [] = Unit
IsSorted low (r ∷ rs) =
    (low ≤ r.start)
    × (r.start ≤ r.stop)
    × (r.start % page_size ≡ 0)
    × (r.stop % page_size ≡ 0)
    × IsSorted r.stop rs

Ascending-mono : (a b : ℕ) (xs : List ℕ) → a ≤ b → Ascending b xs → Ascending a xs
Ascending-mono a b [] h v = tt
Ascending-mono a b (x ∷ xs) h v = (omega arith, v.1)

frames_from-Ascending :
    (count addr : ℕ) (rest : List ℕ)
    → addr % page_size ≡ 0
    → Ascending (addr + count * page_size) rest
    → Ascending addr (frames_from count addr ++ rest)
unfolding frames_from
frames_from-Ascending zero addr rest m v =
    Ascending-mono addr (addr + 0 * page_size) rest (omega arith) v
frames_from-Ascending (suc count) addr rest m v =
    let same : containing_address addr ≡ addr = omega arith in
    rw same (
      omega arith,
      frames_from-Ascending count (addr + page_size) rest (omega arith) (
          Ascending-mono (addr + page_size + count * page_size) (addr + suc count * page_size) rest
            (omega arith) v),
    )

pub usable_frames-Ascending :
    (rs : List MemoryRegion) (low : ℕ) → IsSorted low rs → Ascending low (usable_frames rs)
unfolding usable_frames
usable_frames-Ascending [] low v = tt
usable_frames-Ascending (r ∷ rs) low (above, order, first_page, last_page, others) =
    let rest = usable_frames-Ascending rs r.stop others in
    elim (Bool-cases (is_usable r.region_type)) [
      | inl t ↦
          let pages : r.start + (r.stop - r.start + (page_size - 1)) / page_size * page_size
              ≡ r.stop =
            omega arith in
          rw t (
            Ascending-mono low r.start (frames_of r ++ usable_frames rs) above (
              frames_from-Ascending ((r.stop - r.start + (page_size - 1)) / page_size) r.start
                (usable_frames rs) first_page (rw pages rest)))
      | inr t ↦ rw t (Ascending-mono low r.stop (usable_frames rs) (omega arith) rest)
    ]

Ascending-above : (xs : List ℕ) (low i a : ℕ) → Ascending low xs → get_elem? xs i ≡ some a → low ≤ a
Ascending-above [] low i a v e = cc
Ascending-above (x ∷ xs) low zero a v e = let same : x ≡ a = cc in omega arith
Ascending-above (x ∷ xs) low (suc i) a v e =
    omega (arith, Ascending-above xs (x + page_size) i a v.1 e)

pub Ascending-apart :
    (xs : List ℕ) (low i j a b : ℕ)
    → Ascending low xs
    → get_elem? xs i ≡ some a
    → get_elem? xs j ≡ some b
    → i < j
    → a + page_size ≤ b
Ascending-apart [] low i j a b v ea eb h = cc
Ascending-apart (x ∷ xs) low i zero a b v ea eb h = absurd (omega arith)
Ascending-apart (x ∷ xs) low zero (suc j) a b v ea eb h =
    let same : x ≡ a = cc in omega (arith, Ascending-above xs (x + page_size) j b v.1 eb)
Ascending-apart (x ∷ xs) low (suc i) (suc j) a b v ea eb h =
    Ascending-apart xs (x + page_size) i j a b v.1 ea eb (omega arith)

-- The allocator after `k` calls.
unfoldable pub calls : ℕ → FrameAllocator → FrameAllocator
calls zero s = s
calls (suc k) s = calls k (allocate_frame s).0

calls-next : (k : ℕ) (s : FrameAllocator) → calls k s ≡ record s { next = s.next + k }
unfolding calls allocate_frame
calls-next zero s =
    let none_more : s.next ≡ s.next + 0 = omega arith in ap (λ n. record s { next = n }) none_more
calls-next (suc k) s =
    let more : s.next + 1 + k ≡ s.next + suc k = omega arith in
    calls-next k (record s { next = s.next + 1 }) ∙ ap (λ n. record s { next = n }) more

-- On a map of whole pages in the order of their addresses, a frame of a later call lies a page or
-- more above that of an earlier one: no two calls return the same memory.
pub allocate_frame-apart :
    (s : FrameAllocator) (low i j a b : ℕ)
    → IsSorted low s.memory_map
    → (allocate_frame (calls i s)).1 ≡ some a
    → (allocate_frame (calls j s)).1 ≡ some b
    → i < j
    → a + page_size ≤ b
unfolding allocate_frame
allocate_frame-apart s low i j a b v ea eb h =
    let ea' : get_elem? (usable_frames s.memory_map) (s.next + i) ≡ some a =
      subst (λ x. (allocate_frame x).1 ≡ some a) (calls-next i s) ea in
    let eb' : get_elem? (usable_frames s.memory_map) (s.next + j) ≡ some b =
      subst (λ x. (allocate_frame x).1 ≡ some b) (calls-next j s) eb in
    Ascending-apart (usable_frames s.memory_map) low (s.next + i) (s.next + j) a b
      (usable_frames-Ascending s.memory_map low v) ea' eb' (omega arith)
