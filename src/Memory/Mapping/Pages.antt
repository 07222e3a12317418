-- ===== src/Memory/Mapping/Pages.antt =====
-- The loop of `init_heap` (src/allocator.rs).
use molt_os.Prelude.{
  ℕ, zero, suc, ◌+◌, ◌*◌, ◌≡◌, ◌≢◌, ◌≤◌, ◌<◌, ◌⊎◌, inl, inr, refl, ◌∙◌, subst, Option, none, some,
  get_elem?, arith,
}
use molt_os.Memory.{FrameAllocator, page_size, usable_frames, allocate_frame}
use molt_os.Memory.Mapping.{
  MapToError, frame_allocation_failed, Mapped, Mapper, IsMapper, present_writable, and_then,
  map_page, map_pages,
}

pub Option-cases {ℓ} : {A : Type ℓ} (o : Option A) → (o ≡ none) ⊎ ((x : A) × (o ≡ some x))
Option-cases none = inl refl
Option-cases (some x) = inr (x, refl)

module _ {T : Type 0} (m : Mapper T) (law : IsMapper m) where
  -- A call that succeeded is followed by the next, and one that failed is the end.
  and_then-cases :
      (r : Mapped T) (next : T → FrameAllocator → Mapped T)
      → ((r.0 ≡ none) × (and_then m r next ≡ next r.1 r.2))
        ⊎ ((e : MapToError) × (r.0 ≡ some e) × (and_then m r next ≡ r))
  and_then-cases (none, t, a) next = inl (refl, refl)
  and_then-cases (some e, t, a) next = inr (e, refl, refl)

  -- A page that was mapped has the next frame of the allocator.
  pub record PageMapped (page : ℕ) (a : FrameAllocator) (r : Mapped T) : Type 0 where
    pub frame : ℕ
    pub taken : get_elem? (usable_frames a.memory_map) a.next ≡ some frame
    pub mapped : m.translate r.1 page ≡ some (frame, present_writable)
    pub same_map : r.2.memory_map ≡ a.memory_map
    pub moved : a.next < r.2.next

  map_page-PageMapped :
      (page : ℕ) (t : T) (a : FrameAllocator)
      → (map_page m page t a).0 ≡ none
      → PageMapped page a (map_page m page t a)
  unfolding map_page allocate_frame
  map_page-PageMapped page t a h =
      elim (Option-cases (get_elem? (usable_frames a.memory_map) a.next)) [
        | inl out ↦ let e : some frame_allocation_failed ≡ none = rw (out, map_page) at h in cc
        | inr (f, e) ↦
            let b : FrameAllocator = record a { next = a.next + 1 } in
            let h' : (m.map_to t b page f present_writable).0 ≡ none = rw (e, map_page) at h in
            rw (e, map_page)
              (record {
                frame = f;
                taken = e;
                mapped = law.maps t b page f present_writable h';
                same_map = (law.takes t b page f present_writable).0;
                moved = omega (arith, (law.takes t b page f present_writable).1);
              })
      ]

  map_page-keeps :
      (page : ℕ) (t : T) (a : FrameAllocator) (p : ℕ)
      → p ≢ page
      → m.translate (map_page m page t a).1 p ≡ m.translate t p
  unfolding map_page allocate_frame
  map_page-keeps page t a p ne =
      elim (Option-cases (get_elem? (usable_frames a.memory_map) a.next)) [
        | inl out ↦ rw (out, map_page) refl
        | inr (f, e) ↦
            let b : FrameAllocator = record a { next = a.next + 1 } in
            rw (e, map_page) (law.keeps t b page f present_writable p (inr ne))
      ]

  -- A page that is none of the loop's is mapped as before, also where the loop fails.
  pub map_pages-keeps :
      (n page : ℕ) (t : T) (a : FrameAllocator) (p : ℕ)
      → ((i : ℕ) → i < n → p ≢ page + i * page_size)
      → m.translate (map_pages m n page t a).1 p ≡ m.translate t p
  unfolding map_pages
  map_pages-keeps zero page t a p out = refl
  map_pages-keeps (suc n) page t a p out =
      let r = map_page m page t a in
      let first : p ≢ page = λ e. out 0 (omega arith) (omega arith) in
      elim (and_then-cases r (map_pages m n (page + page_size))) [
        | inl (_, e) ↦ rw e (
            map_pages-keeps n (page + page_size) r.1 r.2 p
              (λ i b q. out (suc i) (omega arith) (omega arith))
            ∙ map_page-keeps page t a p first)
        | inr (_, _, e) ↦ rw e (map_page-keeps page t a p first)
      ]

  -- `n` pages from `page` on have frames that the allocator `a` hands out one after the other.
  pub record Backed (n page : ℕ) (a : FrameAllocator) (t : T) : Type 0 where
    pub call : ℕ → ℕ
    pub frame : ℕ → ℕ
    pub taken : (i : ℕ) → i < n → get_elem? (usable_frames a.memory_map) (call i) ≡ some (frame i)
    pub mapped :
        (i : ℕ) → i < n → m.translate t (page + i * page_size) ≡ some (frame i, present_writable)
    pub later : (i : ℕ) → i < n → a.next ≤ call i
    pub rising : (i j : ℕ) → i < j → j < n → call i < call j

  -- A first value before the others.
  abbrev before : ℕ → (ℕ → ℕ) → ℕ → ℕ
  before x f zero = x
  before x f (suc i) = f i

  Backed-suc :
      (n page : ℕ) (a b : FrameAllocator) (t t' : T) (f : ℕ)
      → get_elem? (usable_frames a.memory_map) a.next ≡ some f
      → m.translate t' page ≡ some (f, present_writable)
      → b.memory_map ≡ a.memory_map
      → a.next < b.next
      → Backed n (page + page_size) b t'
      → Backed (suc n) page a t'
  Backed-suc n page a b t t' f got first same moved v = record {
    call = before a.next v.call;
    frame = before f v.frame;
    taken = taken';
    mapped = mapped';
    later = later';
    rising = rising';
  }
    where
      taken' :
          (i : ℕ)
          → i < suc n
          → get_elem? (usable_frames a.memory_map) (before a.next v.call i)
            ≡ some (before f v.frame i)
      taken' zero h = got
      taken' (suc i) h =
          subst (λ r. get_elem? (usable_frames r) (v.call i) ≡ some (v.frame i)) same
            (v.taken i (omega arith))

      mapped' :
          (i : ℕ)
          → i < suc n
          → m.translate t' (page + i * page_size) ≡ some (before f v.frame i, present_writable)
      mapped' zero h = let here : page + 0 * page_size ≡ page = omega arith in rw here first
      mapped' (suc i) h =
          let there : page + suc i * page_size ≡ page + page_size + i * page_size = omega arith in
          rw there (v.mapped i (omega arith))

      later' : (i : ℕ) → i < suc n → a.next ≤ before a.next v.call i
      later' zero h = omega arith
      later' (suc i) h = omega (arith, v.later i (omega arith))

      rising' : (i j : ℕ) → i < j → j < suc n → before a.next v.call i < before a.next v.call j
      rising' i zero h k = absurd (omega arith)
      rising' zero (suc j) h k = omega (arith, v.later j (omega arith))
      rising' (suc i) (suc j) h k = v.rising i j (omega arith) (omega arith)

  pub map_pages-Backed :
      (n page : ℕ) (t : T) (a : FrameAllocator)
      → (map_pages m n page t a).0 ≡ none
      → Backed n page a (map_pages m n page t a).1
  unfolding map_pages
  map_pages-Backed zero page t a h = record {
    call = λ i. 0;
    frame = λ i. 0;
    taken = λ i b. absurd (omega arith);
    mapped = λ i b. absurd (omega arith);
    later = λ i b. absurd (omega arith);
    rising = λ i j b c. absurd (omega arith);
  }
  map_pages-Backed (suc n) page t a h =
      let r = map_page m page t a in
      elim (and_then-cases r (map_pages m n (page + page_size))) [
        | inl (done, e) ↦
            let v = map_page-PageMapped page t a done in
            let h' : (map_pages m n (page + page_size) r.1 r.2).0 ≡ none = rw e at h in
            rw e (
              Backed-suc n page a r.2 r.1 (map_pages m n (page + page_size) r.1 r.2).1 v.frame
                v.taken
                (map_pages-keeps n (page + page_size) r.1 r.2 page (λ i b q. absurd (omega arith))
                  ∙ v.mapped)
                v.same_map v.moved (map_pages-Backed n (page + page_size) r.1 r.2 h'))
        | inr (failure, failed, e) ↦ let h' : r.0 ≡ none = rw e at h in cc
      ]
