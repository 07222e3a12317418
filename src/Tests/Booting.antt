-- ===== src/Tests/Booting.antt =====
-- The mappings of the boot and the switch to mode 13h at concrete inputs.
use molt_os.Prelude.{
  ℕ, ◌+◌, ◌≡◌, ◌≢◌, ◌≤◌, ◌<◌, ◌⊎◌, inl, inr, refl, true, false, Bool-cases, ◌==◌, ◌&&◌, ==_iff,
  if◌then◌else◌, Option, none, some, List, [], ◌∷◌, ltb, leb, arith,
}
use molt_os.Memory.{MemoryRegion, usable, FrameAllocator, init}
use molt_os.Memory.Mapping.{page_already_mapped, Mapped, Mapper, IsMapper, init_heap, fb_addr}
use molt_os.Memory.Mapping.Heap.{Outcome, init_heap-Outcome}
use molt_os.Boot.Hardware
use molt_os.Boot.Hardware.{Prepared, init-Prepared}
use molt_os.Allocator.{heap_start, heap_size}
use molt_os.Allocator.FixedSize
use molt_os.Disk.Ata.{Ports}
use molt_os.Vga.Mode13.{
  misc_write, seq_index, seq_data, crtc_index, crtc_data, gc_index, gc_data, ac_port, input_status1,
  enter_mode13,
}
use molt_os.Vga.Mode13.Card.{Card, put, put_crtc, put_ac, IsVga}
use molt_os.Vga.Mode13.Entered.{IsMode13, enter_mode13-IsMode13}

-- Page tables as a function from pages.
abbrev Tables : Type 0
Tables = ℕ → Option (ℕ × ℕ)

abbrev with_page : Tables → ℕ → ℕ × ℕ → Tables
with_page t page x p = if p == page then some x else t p

abbrev map_at : Option (ℕ × ℕ) → Tables → FrameAllocator → ℕ → ℕ → ℕ → Mapped Tables
map_at none t a page frame flags = (none, with_page t page (frame, flags), a)
map_at (some old) t a page frame flags = (some (page_already_mapped old.0), t, a)

abbrev mapper : Mapper Tables
mapper = record {
  map_to = λ t a page frame flags. map_at (t page) t a page frame flags;
  translate = λ t page. t page;
}

maps_it :
    (o : Option (ℕ × ℕ)) (t : Tables) (a : FrameAllocator) (page frame flags : ℕ)
    → (map_at o t a page frame flags).0 ≡ none
    → (map_at o t a page frame flags).1 page ≡ some (frame, flags)
maps_it none t a page frame flags h = rw ((==_iff page page).1 refl) refl
maps_it (some old) t a page frame flags h = cc

keeps_others :
    (o : Option (ℕ × ℕ)) (t : Tables) (a : FrameAllocator) (page frame flags other : ℕ)
    → ((map_at o t a page frame flags).0 ≢ none) ⊎ (other ≢ page)
    → (map_at o t a page frame flags).1 other ≡ t other
keeps_others none t a page frame flags other h = elim (Bool-cases (other == page)) [
  | inl same ↦ elim h [
    | inl failed ↦ absurd (failed refl)
    | inr ne ↦ absurd (ne ((==_iff other page).0 same))
  ]
  | inr differs ↦ rw differs refl
]
keeps_others (some old) t a page frame flags other h = refl

reports_it :
    (o : Option (ℕ × ℕ)) (t : Tables) (a : FrameAllocator) (page frame flags at : ℕ)
    → t page ≡ o
    → (map_at o t a page frame flags).0 ≡ some (page_already_mapped at)
    → (old : ℕ) × (t page ≡ some (at, old))
reports_it none t a page frame flags at e h = cc
reports_it (some (f, old)) t a page frame flags at e h =
    let same : f ≡ at = cc in (old, rw (← same) e)

takes_none :
    (o : Option (ℕ × ℕ)) (t : Tables) (a : FrameAllocator) (page frame flags : ℕ)
    → ((map_at o t a page frame flags).2.memory_map ≡ a.memory_map)
      × (a.next ≤ (map_at o t a page frame flags).2.next)
takes_none none t a page frame flags = (refl, omega arith)
takes_none (some old) t a page frame flags = (refl, omega arith)

mapper-IsMapper : IsMapper mapper
mapper-IsMapper = record {
  maps = λ t a page frame flags. maps_it (t page) t a page frame flags;
  keeps = λ t a page frame flags other. keeps_others (t page) t a page frame flags other;
  reports = λ t a page frame flags at. reports_it (t page) t a page frame flags at refl;
  takes = λ t a page frame flags. takes_none (t page) t a page frame flags;
}

-- A heap that refuses everything.
abbrev no_heap : FixedSize.Heap Unit
no_heap = record {
  empty = tt;
  init = λ f start size. tt;
  allocate_first_fit = λ f layout. (none, tt);
  deallocate = λ f p layout. tt;
}

-- Sixty-four MiB from the second on.
abbrev memory_map : List MemoryRegion
memory_map = record { start = 0x100000; stop = 0x4100000; region_type = usable } ∷ []

abbrev no_pages : Tables
no_pages p = none

init_heap-Outcome_example :
    Outcome mapper no_heap
      (FixedSize.new no_heap)
      (init_heap mapper no_heap (FixedSize.new no_heap) no_pages (init memory_map))
    × ((p : ℕ)
        → (p < heap_start) ⊎ (heap_start + heap_size ≤ p)
        → (init_heap mapper no_heap (FixedSize.new no_heap) no_pages (init memory_map)).0.1 p
          ≡ none)
init_heap-Outcome_example =
    init_heap-Outcome mapper no_heap mapper-IsMapper (FixedSize.new no_heap) no_pages
      (init memory_map) 0 (omega arith, omega arith, refl, refl, tt)

-- A card behind the ports.
abbrev write_card : ℕ → ℕ → Card → Card
write_card p v c =
    if p == misc_write
    then record c { misc = v }
    else if p == seq_index
    then record c { seq_at = v }
    else if p == seq_data
    then record c { seq = put c.seq c.seq_at v }
    else if p == crtc_index
    then record c { crtc_at = v }
    else if p == crtc_data
    then record c { crtc = put_crtc c.crtc c.crtc_at v }
    else if p == gc_index
    then record c { gc_at = v }
    else if p == gc_data
    then record c { gc = put c.gc c.gc_at v }
    else if p == ac_port
    then put_ac v c
    else c

abbrev read_card : ℕ → Card → ℕ × Card
read_card p c =
    if p == crtc_data
    then (c.crtc c.crtc_at, c)
    else if p == input_status1
    then (0, record c { data_next = false })
    else (0xff, c)

abbrev card_ports : Ports Card
card_ports = record { read = read_card; write = write_card }

abbrev card_ports-IsVga : IsVga card_ports
card_ports-IsVga = record {
  card = λ c. c;
  to_misc = λ v c. refl;
  to_seq_index = λ v c. refl;
  to_seq_data = λ v c. refl;
  to_crtc_index = λ v c. refl;
  to_crtc_data = λ v c. refl;
  to_gc_index = λ v c. refl;
  to_gc_data = λ v c. refl;
  to_ac = λ v c. refl;
  from_crtc = λ c. (refl, refl);
  from_status = λ c. refl;
}

-- The registers are protected, and the attribute controller waits for data.
abbrev text_mode : Card
text_mode = record {
  misc = 0x67;
  seq_at = 0;
  seq = λ i. 0;
  crtc_at = 0;
  crtc = λ i. 0x8e;
  gc_at = 0;
  gc = λ i. 0;
  ac_at = 0x30;
  ac = λ i. 0;
  data_next = true;
}

enter_mode13-IsMode13_example :
    IsMode13 card_ports card_ports-IsVga (enter_mode13 card_ports text_mode (λ addr. 7)).0
    × ((addr : ℕ)
        → (enter_mode13 card_ports text_mode (λ addr. 7)).1 addr
          ≡ (if leb fb_addr addr && ltb addr (fb_addr + 64000) then 0 else 7))
enter_mode13-IsMode13_example =
    enter_mode13-IsMode13 card_ports card_ports-IsVga text_mode (λ addr. 7)

-- Paging and protection are on, and the coprocessor is emulated.
init-Prepared_example : Prepared 0x80000015 0x20 (Hardware.init 0x80000015 0x20)
init-Prepared_example = init-Prepared 0x80000015 0x20
