-- ===== src/Allocator.antt =====
-- src/allocator.rs and src/allocator/: the heap allocators. A `Layout` is that of `core::alloc`; an
-- address is a number, and the null pointer is 0.
pub mod AlignUp
pub mod Bump
pub mod LinkedList
pub mod FixedSize
use Prim.Native.Nat.{bit_and}
use molt_os.Prelude.{ℕ, ◌+◌, ◌-◌, ◌*◌, ◌^◌, ◌<◌, ◌≡◌, Checked, ok, ◌>>=◌, add64, sub64, u64_max}

pub record Layout : Type 0 where
  pub size : ℕ
  pub align : ℕ

-- `HEAP_START` and `HEAP_SIZE` of allocator.rs.
abbrev pub heap_start : ℕ
heap_start = 0x444444440000

abbrev pub heap_size : ℕ
heap_size = 56 * 1024 * 1024

-- `(addr + align - 1) & !(align - 1)`.
unfoldable pub align_up : ℕ → ℕ → Checked ℕ
align_up addr align = do
  sum ← add64 addr align
  last ← sub64 sum 1
  mask ← sub64 align 1
  ok (bit_and last (u64_max - mask))

-- What `Layout::from_size_align` guarantees of the alignment: a power of two of a 64-bit word.
pub record IsLayout (l : Layout) : Type 0 where
  pub exponent : ℕ
  pub rest : ℕ
  pub in_word : rest + exponent ≡ 64
  pub power : l.align ≡ 2 ^ exponent
