-- ===== src/Allocator/FixedSize/Classes.antt =====
-- fixed_size_block.rs: the size classes, and the number of times that an address stands in the free lists.
use molt_os.Prelude.{
  ℕ, zero, suc, ◌+◌, ◌<◌, ◌≡◌, ◌⊎◌, inl, inr, refl, ap, max, ◌==◌, true, ◌&&◌, Bool-cases, leb,
  if◌then◌else◌, Option, none, some, List, [], ◌∷◌, length, get_elem?, set, ok, index, arith,
}
use molt_os.Allocator.{Layout}
use molt_os.Allocator.FixedSize.{
  block_sizes, node_size, node_align, position_from, list_index, from_size_align, is_power_of_two,
}

abbrev pub one : ℕ → ℕ → ℕ
one x p = if x == p then 1 else 0

abbrev pub count : ℕ → List ℕ → ℕ
count x [] = 0
count x (p ∷ ps) = one x p + count x ps

abbrev pub total : ℕ → List (List ℕ) → ℕ
total x [] = 0
total x (l ∷ ls) = count x l + total x ls

pub total-set :
    (x : ℕ) (ls : List (List ℕ)) (i : ℕ) (old new : List ℕ)
    → get_elem? ls i ≡ some old
    → total x (set ls i new) + count x old ≡ total x ls + count x new
total-set x [] i old new e = cc
total-set x (l ∷ ls) zero old new e = let same : l ≡ old = cc in omega (arith, ap (count x) same)
total-set x (l ∷ ls) (suc i) old new e = omega (arith, total-set x ls i old new e)

pub get_elem?-in :
    (ls : List (List ℕ)) (i : ℕ) → i < length ls → (l : List ℕ) × (get_elem? ls i ≡ some l)
get_elem?-in [] i h = absurd (omega arith)
get_elem?-in (l ∷ ls) zero h = (l, refl)
get_elem?-in (l ∷ ls) (suc i) h = get_elem?-in ls i (omega (arith, h))

position_from-lt :
    (i required : ℕ) (ss : List ℕ) (k : ℕ)
    → position_from i required ss ≡ some k
    → k < i + length ss
unfolding position_from
position_from-lt i required [] k e = cc
position_from-lt i required (s ∷ ss) k e = elim (Bool-cases (leb required s)) [
  | inl t ↦
      let first : some i ≡ some k = rw t at e in let same : i ≡ k = cc first in omega (arith, same)
  | inr f ↦
      let later : position_from (suc i) required ss ≡ some k = rw f at e in
      omega (arith, position_from-lt (suc i) required ss k later)
]

pub list_index-lt : (layout : Layout) (k : ℕ) → list_index layout ≡ some k → k < 9
unfolding list_index
list_index-lt layout k e = position_from-lt 0 (max layout.size layout.align) block_sizes k e

-- A class has a size, which is a layout, and which a node fits in.
pub block_layout :
    (i : ℕ)
    → i < 9
    → (s : ℕ) × (l : Layout) × (index block_sizes i ≡ ok s)
      × (from_size_align s s ≡ some l)
      × (leb node_size s && leb node_align s ≡ true)
unfolding from_size_align is_power_of_two
block_layout zero h = (8, record { size = 8; align = 8 }, refl, refl, refl)
block_layout (suc zero) h = (16, record { size = 16; align = 16 }, refl, refl, refl)
block_layout (suc (suc zero)) h = (32, record { size = 32; align = 32 }, refl, refl, refl)
block_layout (suc (suc (suc zero))) h = (64, record { size = 64; align = 64 }, refl, refl, refl)
block_layout (suc (suc (suc (suc zero)))) h =
    (128, record { size = 128; align = 128 }, refl, refl, refl)
block_layout (suc (suc (suc (suc (suc zero))))) h =
    (256, record { size = 256; align = 256 }, refl, refl, refl)
block_layout (suc (suc (suc (suc (suc (suc zero)))))) h =
    (512, record { size = 512; align = 512 }, refl, refl, refl)
block_layout (suc (suc (suc (suc (suc (suc (suc zero))))))) h =
    (1024, record { size = 1024; align = 1024 }, refl, refl, refl)
block_layout (suc (suc (suc (suc (suc (suc (suc (suc zero)))))))) h =
    (2048, record { size = 2048; align = 2048 }, refl, refl, refl)
block_layout (suc (suc (suc (suc (suc (suc (suc (suc (suc i))))))))) h = absurd (omega (arith, h))

pub one_self : (p : ℕ) → one p p ≡ 1
one_self p = let same : (p == p) ≡ true = ground arith in rw same

pub Option-cases : (o : Option ℕ) → (o ≡ none) ⊎ ((p : ℕ) × (o ≡ some p))
Option-cases none = inl refl
Option-cases (some p) = inr (p, refl)
