-- ===== src/Prelude/Bits.antt =====
-- Masks of ones: what `bit_and` with them keeps, at every width.
use native.Mathlib.Nat.{pow-suc, one-le-pow, div-add-mod', mod-lt}
use Prim.Native.Nat.{
  ℕ, zero, suc, ◌+◌, ◌-◌, ◌*◌, ◌/◌, ◌%◌, ◌^◌, ◌≤◌, ◌<◌, min, bit_and, digits, bit_and-bitwise,
}
use mathlib.Core.Path.{◌≡◌, refl, sym, ap, ap₂, ◌∙◌}
use native.Mathlib.Omega.{arith}

-- `bit_and` by the recursion that the native operation stands for, on `fuel` digits.
abbrev masked : ℕ → ℕ → ℕ → ℕ
masked fuel mask a = digits (λ rest. 0) min fuel mask a

-- Fuel beyond the mask's digits changes nothing.
masked-suc : (fuel mask a : ℕ) → mask ≤ fuel → masked (suc fuel) mask a ≡ masked fuel mask a
masked-suc zero zero a h = refl
masked-suc zero (suc mask) a h = absurd (omega arith)
masked-suc (suc fuel) zero a h = refl
masked-suc (suc fuel) (suc mask) a h =
    ap (λ x. x * 2 + min (suc mask % 2) (a % 2))
      (masked-suc fuel (suc mask / 2) (a / 2) (omega arith))

masked-add :
    (extra fuel mask a : ℕ) → mask ≤ fuel → masked (extra + fuel) mask a ≡ masked fuel mask a
masked-add zero fuel mask a h =
    let none_more : 0 + fuel ≡ fuel = omega arith in ap (λ x. masked x mask a) none_more
masked-add (suc extra) fuel mask a h =
    let one_more : suc extra + fuel ≡ suc (extra + fuel) = omega arith in
    ap (λ x. masked x mask a) one_more
    ∙ masked-suc (extra + fuel) mask a (omega arith)
    ∙ masked-add extra fuel mask a h

-- The last digits, and the others.
pub bit_and_step : (a b : ℕ) → bit_and a b ≡ bit_and (a / 2) (b / 2) * 2 + min (a % 2) (b % 2)
bit_and_step zero b = omega (arith, bit_and-bitwise 0 b, bit_and-bitwise 0 (b / 2))
bit_and_step (suc a) b =
    let spare : a ≡ (a - suc a / 2) + suc a / 2 = omega arith in
    let rest : masked a (suc a / 2) (b / 2) ≡ bit_and (suc a / 2) (b / 2) =
      ap (λ x. masked x (suc a / 2) (b / 2)) spare
      ∙ masked-add (a - suc a / 2) (suc a / 2) (suc a / 2) (b / 2) (omega arith)
      ∙ sym (bit_and-bitwise (suc a / 2) (b / 2)) in
    bit_and-bitwise (suc a) b ∙ ap (λ x. x * 2 + min (suc a % 2) (b % 2)) rest

masked-zero : (fuel a : ℕ) → masked fuel a 0 ≡ 0
masked-zero zero a = refl
masked-zero (suc fuel) zero = refl
masked-zero (suc fuel) (suc a) = omega (arith, masked-zero fuel (suc a / 2))

bit_and-zero : (a : ℕ) → bit_and a 0 ≡ 0
bit_and-zero a = bit_and-bitwise a 0 ∙ masked-zero a a

-- `d` ones.
abbrev pub ones : ℕ → ℕ
ones zero = 0
ones (suc d) = ones d * 2 + 1

pub ones-pow : (d : ℕ) → ones d + 1 ≡ 2 ^ d
ones-pow zero = refl
ones-pow (suc d) = omega (arith, ones-pow d, pow-suc 2 d)

mul-pow-suc : (q k : ℕ) → q * 2 ^ suc k ≡ 2 * (q * 2 ^ k)
mul-pow-suc q k = omega (arith, ap (λ (t : ℕ). q * t) (pow-suc 2 k))

-- A mask of as many ones as the number has digits keeps it.
pub bit_and-ones : (d a : ℕ) → a < 2 ^ d → bit_and a (ones d) ≡ a
bit_and-ones zero a h = omega (arith, bit_and-zero a)
bit_and-ones (suc d) a h = omega (
  arith,
  bit_and_step a (ones (suc d)),
  ap (bit_and (a / 2)) half_mask,
  bit_and-ones d (a / 2) (omega (arith, pow-suc 2 d)),
)
  where
    half_mask : ones (suc d) / 2 ≡ ones d
    half_mask = omega arith

-- The mask drops a bit above its digits.
pub bit_and-ones_above : (d a : ℕ) → a < 2 ^ d → bit_and (a + 2 ^ d) (ones d) ≡ a
bit_and-ones_above zero a h = omega (arith, bit_and-zero (a + 2 ^ 0))
bit_and-ones_above (suc d) a h = omega (
  arith,
  bit_and_step (a + 2 ^ suc d) (ones (suc d)),
  ap₂ bit_and half half_mask,
  bit_and-ones_above d (a / 2) (omega (arith, pow-suc 2 d)),
  pow-suc 2 d,
)
  where
    half_mask : ones (suc d) / 2 ≡ ones d
    half_mask = omega arith

    half : (a + 2 ^ suc d) / 2 ≡ a / 2 + 2 ^ d
    half = omega (arith, pow-suc 2 d)

-- A mask with `k` zeros at its end drops the low `k` bits.
pub bit_and-high :
    (k q r m : ℕ) → r < 2 ^ k → bit_and (q * 2 ^ k + r) (m * 2 ^ k) ≡ bit_and q m * 2 ^ k
bit_and-high zero q r m h =
    let same : q * 2 ^ 0 + r ≡ q = omega arith in
    let mask : m * 2 ^ 0 ≡ m = omega arith in rw (same, mask) (omega arith)
bit_and-high (suc k) q r m h = omega (
  arith,
  bit_and_step (q * 2 ^ suc k + r) (m * 2 ^ suc k),
  mul-pow-suc q k,
  mul-pow-suc m k,
  mul-pow-suc (bit_and q m) k,
  pow-suc 2 k,
  ap₂ bit_and half_number half_mask,
  bit_and-high k q (r / 2) m (omega (arith, pow-suc 2 k)),
)
  where
    half_number : (q * 2 ^ suc k + r) / 2 ≡ q * 2 ^ k + r / 2
    half_number = omega (arith, mul-pow-suc q k)

    half_mask : m * 2 ^ suc k / 2 ≡ m * 2 ^ k
    half_mask = omega (arith, mul-pow-suc m k)

-- `a & !(2^k - 1)` in a word of `k + d` bits: the multiple of `2^k` at or below `a`.
pub bit_and-clear : (k d a : ℕ) → a / 2 ^ k < 2 ^ d → bit_and a (ones d * 2 ^ k) ≡ a / 2 ^ k * 2 ^ k
bit_and-clear k d a h =
    let p : ℕ = 2 ^ k in
    let pos : 0 < 2 ^ k = one-le-pow k 2 (omega arith) in
    let split : a / 2 ^ k * 2 ^ k + a % 2 ^ k ≡ a = div-add-mod' a (2 ^ k) in
    ap (λ x. bit_and x (ones d * 2 ^ k)) (sym split)
    ∙ bit_and-high k (a / 2 ^ k) (a % 2 ^ k) (ones d) (mod-lt a pos)
    ∙ ap (λ x. x * 2 ^ k) (bit_and-ones d (a / 2 ^ k) h)

pub pow-add : (d k : ℕ) → 2 ^ (d + k) ≡ 2 ^ d * 2 ^ k
pow-add zero k = omega (arith, ap (λ (x : ℕ). 2 ^ x) (same k))
  where
    same : (k : ℕ) → 0 + k ≡ k
    same k = omega arith
pow-add (suc d) k =
    ap (λ x. 2 ^ x) shift
    ∙ omega (
      arith,
      pow-suc 2 (d + k),
      pow-suc 2 d,
      pow-add d k,
      ap (λ (t : ℕ). t * 2 ^ k) (pow-suc 2 d),
    )
  where
    shift : suc d + k ≡ suc (d + k)
    shift = omega arith

-- `!(2^k - 1)` in a word of `d + k` bits.
pub ones-mul-pow : (d k : ℕ) → ones d * 2 ^ k + 2 ^ k ≡ 2 ^ (d + k)
ones-mul-pow d k = omega (arith, pow-add d k, ap (λ (t : ℕ). t * 2 ^ k) (ones-pow d))
