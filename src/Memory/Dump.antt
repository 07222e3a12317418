-- ===== src/Memory/Dump.antt =====
-- `dump_memory_map` of src/memory.rs, which prints the memory map.
use molt_os.Prelude.{
  ℕ, ◌/◌, Option, none, some, List, [], ◌∷◌, ◌++◌, ascii, Checked, ok, panic, ◌>>=◌, sub64,
}
use molt_os.Memory.{MemoryRegion, MemoryRegionType, usable, reserved, other}
use molt_os.Syscall.{System, print}
use molt_os.Vga.Format.{decimal, hex_digits, align_right}

abbrev pub kind_of : MemoryRegionType → List ℕ
kind_of usable = ascii "Usable"
kind_of reserved = ascii "Reserved"
kind_of other = ascii "Other"

-- The line of a region of `size_kib`.
abbrev pub region_line : MemoryRegion → ℕ → List ℕ
region_line r size_kib =
    ascii "  "
    ++ (hex_digits 16 r.start
        ++ (ascii "-"
            ++ (hex_digits 16 r.stop
                ++ (ascii " "
                    ++ (align_right 8 (decimal size_kib)
                        ++ (ascii " KiB  " ++ (kind_of r.region_type ++ (10 ∷ []))))))))

unfoldable pub dump_region : MemoryRegion → System → Checked System
dump_region r s = do size ← sub64 r.stop r.start; print (region_line r (size / 1024)) s

unfoldable pub dump_regions : List MemoryRegion → System → Checked System
dump_regions [] s = ok s
dump_regions (r ∷ rs) s = dump_region r s >>= dump_regions rs

-- Where `MEMORY_MAP` holds `cell`.
unfoldable pub dump_memory_map : Option (List MemoryRegion) → System → Checked System
dump_memory_map none s = panic
dump_memory_map (some regions) s = dump_regions regions s
