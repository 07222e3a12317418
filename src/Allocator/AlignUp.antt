-- ===== src/Allocator/AlignUp.antt =====
-- `align_up` of src/allocator.rs, for the powers of two that a `Layout` allows.
use Prim.Native.Nat.{bit_and}
use native.Mathlib.Nat.{one-le-pow, div-add-mod', mod-lt, div-lt_iff_lt-mul}
use molt_os.Prelude.{
  ℕ, ◌+◌, ◌-◌, ◌*◌, ◌/◌, ◌^◌, ◌≤◌, ◌<◌, ◌≡◌, ap, ◌∙◌, ok, add64, sub64, u64_max, word, arith,
  >>=-eq-ok, add64-eq-ok, sub64-eq-ok,
}
use molt_os.Prelude.Bits.{ones, bit_and-clear, pow-add, ones-mul-pow}
use molt_os.Allocator.{align_up}

-- `r` is the first multiple of `align` at or above `addr`.
pub record IsAligned (addr align r : ℕ) : Type 0 where
  pub quotient : ℕ
  pub multiple : r ≡ quotient * align
  pub above : addr ≤ r
  pub next_below : r < addr + align

-- For an alignment `2^k` of a 64-bit word, with `d + k = 64`: where `align_up` does not panic it
-- returns the first multiple at or above the address, and it panics only if the sum leaves the word.
pub align_up-IsAligned :
    (d k addr : ℕ) {r : ℕ}
    → d + k ≡ 64
    → align_up addr (2 ^ k) ≡ ok r
    → IsAligned addr (2 ^ k) r × (addr + 2 ^ k < word)
unfolding align_up
align_up-IsAligned d k addr {r} w e =
    let (sum, e1, f1) = >>=-eq-ok (add64 addr (2 ^ k)) _ e in
    let (last, e2, f2) = >>=-eq-ok (sub64 sum 1) _ f1 in
    let (mask, e3, f3) = >>=-eq-ok (sub64 (2 ^ k) 1) _ f2 in
    let (s, fits) = add64-eq-ok addr (2 ^ k) e1 in
    let l = sub64-eq-ok sum 1 e2 in
    let m = sub64-eq-ok (2 ^ k) 1 e3 in
    let pos : 0 < 2 ^ k = one-le-pow k 2 (omega arith) in
    let q : ℕ = last / 2 ^ k in
    let full : 2 ^ (d + k) ≡ word = ap (λ x. 2 ^ x) w in
    let high : u64_max - mask ≡ ones d * 2 ^ k = omega (arith, ones-mul-pow d k) in
    let narrow : q < 2 ^ d = (div-lt_iff_lt-mul pos).1 (omega (arith, pow-add d k)) in
    let value : r ≡ q * 2 ^ k = cc f3 ∙ ap (bit_and last) high ∙ bit_and-clear k d last narrow in
    let split = div-add-mod' last (2 ^ k) in
    let rest = mod-lt last pos in
    (record { quotient = q; multiple = value; above = omega arith; next_below = omega arith }, fits)
