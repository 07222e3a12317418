-- ===== src/Tests/Paging.antt =====
-- The frame allocator and the page walk at concrete inputs.
use molt_os.Prelude.{ℕ, ◌+◌, ◌*◌, ◌≡◌, ◌==◌, refl, none, some, List, [], ◌∷◌, if◌then◌else◌, ok}
use molt_os.Memory.{
  MemoryRegion, usable, reserved, init, page_size, Entry, frame, not_present, frames_from,
  usable_frames, allocate_frame, walk, translate_addr,
}
use molt_os.Memory.Frames.{calls}

-- Two pages, a reserved one, and one more.
abbrev boot_map : List MemoryRegion
boot_map =
    record { start = 4096; stop = 12288; region_type = usable }
    ∷ record { start = 12288; stop = 16384; region_type = reserved }
    ∷ record { start = 20480; stop = 24576; region_type = usable }
    ∷ []

second_frame : (allocate_frame (calls 1 (init boot_map))).1 ≡ some 8192
unfolding calls allocate_frame usable_frames frames_from
second_frame = refl

third_frame : (allocate_frame (calls 2 (init boot_map))).1 ≡ some 20480
unfolding calls allocate_frame usable_frames frames_from
third_frame = refl

no_fourth_frame : (allocate_frame (calls 3 (init boot_map))).1 ≡ none
unfolding calls allocate_frame usable_frames frames_from
no_fourth_frame = refl

-- Tables in which every entry 0 is present.
abbrev tables : ℕ → ℕ → Entry
tables at index = if index == 0 then frame (at + 4096) else not_present

translate_low : translate_addr tables 4096 (0 * page_size + 7) ≡ ok (some 20487)
unfolding translate_addr walk
translate_low = refl

translate_unmapped : translate_addr tables 4096 5000 ≡ ok none
unfolding translate_addr walk
translate_unmapped = refl
