-- ===== src/Memory/Mapping/Identity.antt =====
-- The frame buffer of src/vga_mode13.rs and the text buffer of src/memory.rs: their pages are mapped
-- to themselves, or stay as they were mapped.
use molt_os.Prelude.{
  ℕ, zero, suc, ◌+◌, ◌*◌, ◌%◌, ◌≡◌, ◌≢◌, ◌<◌, ◌⊎◌, inl, inr, refl, sym, ◌∙◌, none, some, ok,
  >>=-eq-ok, arith,
}
use molt_os.Memory.{FrameAllocator, page_size, containing_address}
use molt_os.Memory.Mapping.{
  page_already_mapped, frame_allocation_failed, parent_entry_huge_page, Mapped, Mapper, IsMapper,
  present_writable, tolerate, map_identity, map_framebuffer, map_vga_buffer, fb_addr,
}

module _ {T : Type 0} (m : Mapper T) where
  -- The page is mapped to itself now, or it was mapped and still is as it was.
  abbrev pub Available : ℕ → T → T → Type 0
  Available p t t' =
      (m.translate t' p ≡ some (p, present_writable))
      ⊎ ((x : ℕ × ℕ) × (m.translate t p ≡ some x) × (m.translate t' p ≡ some x))

  tolerate-eq-ok :
      (r : Mapped T) {s : T × FrameAllocator}
      → tolerate m r ≡ ok s
      → (s ≡ (r.1, r.2)) × ((r.0 ≡ none) ⊎ ((at : ℕ) × (r.0 ≡ some (page_already_mapped at))))
  tolerate-eq-ok (none, t, a) e = (cc, inl refl)
  tolerate-eq-ok (some (page_already_mapped at), t, a) e = (cc, inr (at, refl))
  tolerate-eq-ok (some frame_allocation_failed, t, a) e = cc
  tolerate-eq-ok (some parent_entry_huge_page, t, a) e = cc

  -- What one page of the loop leaves.
  map_one :
      (law : IsMapper m) (p : ℕ) (t : T) (a : FrameAllocator) {s : T × FrameAllocator}
      → tolerate m (m.map_to t a p p present_writable) ≡ ok s
      → Available p t s.0 × ((q : ℕ) → q ≢ p → m.translate s.0 q ≡ m.translate t q)
  map_one law p t a {s} e =
      let r = m.map_to t a p p present_writable in
      let (same, how) = tolerate-eq-ok r e in
      rw same (
        elim how [
          | inl done ↦ inl (law.maps t a p p present_writable done)
          | inr (at, failed) ↦
              let (old, was) = law.reports t a p p present_writable at failed in
              let still = law.keeps t a p p present_writable p (inl (λ q. cc)) in
              inr ((at, old), was, still ∙ was)
        ],
        λ q ne. law.keeps t a p p present_writable q (inr ne),
      )

  Available-later :
      (p : ℕ) (t u v : T) → m.translate v p ≡ m.translate u p → Available p t u → Available p t v
  Available-later p t u v e (inl now) = inl (e ∙ now)
  Available-later p t u v e (inr (x, was, still)) = inr (x, was, e ∙ still)

  Available-earlier :
      (p : ℕ) (t u v : T) → m.translate u p ≡ m.translate t p → Available p u v → Available p t v
  Available-earlier p t u v e (inl now) = inl now
  Available-earlier p t u v e (inr (x, was, still)) = inr (x, sym e ∙ was, still)

  map_identity-Available :
      (law : IsMapper m) (n phys : ℕ) (t : T) (a : FrameAllocator) {s : T × FrameAllocator}
      → phys % page_size ≡ 0
      → map_identity m n phys t a ≡ ok s
      → ((i : ℕ) → i < n → Available (phys + i * page_size) t s.0)
        × ((q : ℕ)
            → ((i : ℕ) → i < n → q ≢ phys + i * page_size)
            → m.translate s.0 q ≡ m.translate t q)
  unfolding map_identity
  map_identity-Available law zero phys t a {s} whole e =
      let same : (t, a) ≡ s = cc in (λ i h. absurd (omega arith), λ q out. rw (← same) refl)
  map_identity-Available law (suc n) phys t a {s} whole e =
      let whole_page : containing_address phys ≡ phys = omega arith in
      let (r, first, rest) =
        >>=-eq-ok
          (tolerate m
            (m.map_to t a (containing_address phys) (containing_address phys) present_writable))
          (λ r. map_identity m n (phys + page_size) r.0 r.1) e in
      let first' : tolerate m (m.map_to t a phys phys present_writable) ≡ ok r =
        rw whole_page at first in
      let (here, others) = map_one law phys t a first' in
      let (later, outside) =
        map_identity-Available law n (phys + page_size) r.0 r.1 (omega arith) rest in
      (
        λ i h. pages i h r.0 here (outside phys (λ j k q. absurd (omega arith))) (λ j q.
            (others (phys + i * page_size) (λ z. absurd (omega arith)), later j (omega arith))),
        λ q out.
            outside q (λ j k z. out (suc j) (omega arith) (omega arith))
            ∙ others q (λ z. out 0 (omega arith) (omega arith)),
      )
    where
      pages :
          (i : ℕ)
          → i < suc n
          → (u : T) → Available phys t u
          → m.translate s.0 phys ≡ m.translate u phys
          → ((j : ℕ)
              → i ≡ suc j
              → (m.translate u (phys + i * page_size) ≡ m.translate t (phys + i * page_size))
                × Available (phys + page_size + j * page_size) u s.0)
          → Available (phys + i * page_size) t s.0
      pages zero h u now kept others =
          let here : phys + 0 * page_size ≡ phys = omega arith in
          rw here (Available-later phys t u s.0 kept now)
      pages (suc j) h u now kept others =
          let there : phys + page_size + j * page_size ≡ phys + suc j * page_size = omega arith in
          let (before, after) = others j refl in
          Available-earlier (phys + suc j * page_size) t u s.0 before (rw (← there) after)

  -- If `map_framebuffer` returns, each of the 16 pages of the frame buffer is mapped to itself, or it
  -- was mapped before and is as it was; and no other page has changed.
  pub map_framebuffer-Available :
      (law : IsMapper m) (t : T) (a : FrameAllocator) {s : T × FrameAllocator}
      → map_framebuffer m t a ≡ ok s
      → ((i : ℕ) → i < 16 → Available (fb_addr + i * page_size) t s.0)
        × ((q : ℕ)
            → ((i : ℕ) → i < 16 → q ≢ fb_addr + i * page_size)
            → m.translate s.0 q ≡ m.translate t q)
  unfolding map_framebuffer
  map_framebuffer-Available law t a e = map_identity-Available law 16 fb_addr t a refl e

  -- The same of the page of the text buffer.
  pub map_vga_buffer-Available :
      (law : IsMapper m) (t : T) (a : FrameAllocator) {s : T × FrameAllocator}
      → map_vga_buffer m t a ≡ ok s
      → Available 0xb8000 t s.0 × ((q : ℕ) → q ≢ 0xb8000 → m.translate s.0 q ≡ m.translate t q)
  unfolding map_vga_buffer
  map_vga_buffer-Available law t a e = map_one law 0xb8000 t a e
