-- ===== src/Prelude/Words.antt =====
-- Results that may panic, and the arithmetic of `u64` and `usize` as a debug build runs it: a sum,
-- a difference or a product out of range panics. `saturating_add` and `checked_add` have the
-- meaning that their names have in Rust.
use Prim.Native.Nat.{ℕ, ◌<◌, ◌≤◌, ◌+◌, ◌-◌, ◌*◌, ◌/◌, ◌^◌, min}
use mathlib.Core.Path.{◌≡◌, refl}
use mathlib.Core.Logic.{◌≢◌}
use mathlib.Core.Option.{Option, none, some}
use mathlib.Core.List.{List}
use native.Mathlib.Omega.{arith}
use molt_os.Prelude.Tests.{ltb, leb, if◌then◌else◌}
use molt_os.Prelude.Lists.{get_elem?}

pub data Checked {ℓ} (A : Type ℓ) : Type ℓ where
  ok : A → Checked A
  panic : Checked A

-- A panic ends the computation.
infixl 5 ◌>>=◌
abbrev pub ◌>>=◌ {ℓ κ} : {A : Type ℓ} {B : Type κ} → Checked A → (A → Checked B) → Checked B
panic >>= next = panic
ok result >>= next = next result

-- The number of values of a 64-bit word.
abbrev pub word : ℕ
word = 2 ^ 64

abbrev pub u64_max : ℕ
u64_max = 2 ^ 64 - 1

abbrev pub add64 : ℕ → ℕ → Checked ℕ
add64 a b = if ltb (a + b) word then ok (a + b) else panic

abbrev pub sub64 : ℕ → ℕ → Checked ℕ
sub64 a b = if leb b a then ok (a - b) else panic

abbrev pub mul64 : ℕ → ℕ → Checked ℕ
mul64 a b = if ltb (a * b) word then ok (a * b) else panic

-- A division by zero panics.
abbrev pub div64 : ℕ → ℕ → Checked ℕ
div64 a b = if ltb 0 b then ok (a / b) else panic

abbrev pub saturating_add : ℕ → ℕ → ℕ
saturating_add a b = min (a + b) u64_max

abbrev pub checked_add : ℕ → ℕ → Option ℕ
checked_add a b = if ltb (a + b) word then some (a + b) else none

abbrev pub or_panic {ℓ} : {A : Type ℓ} → Option A → Checked A
or_panic none = panic
or_panic (some a) = ok a

-- `xs[i]`, which panics out of bounds.
abbrev pub index {ℓ} : {A : Type ℓ} → List A → ℕ → Checked A
index xs i = or_panic (get_elem? xs i)

-- Where a sequence does not panic, neither does its first part.
pub >>=-eq-ok {ℓ κ} :
    {A : Type ℓ} {B : Type κ} (first : Checked A) (next : A → Checked B) {result : B}
    → first >>= next ≡ ok result
    → (a : A) × (first ≡ ok a) × (next a ≡ ok result)
>>=-eq-ok panic next e = cc
>>=-eq-ok (ok a) next e = (a, refl, e)

pub or_panic-eq-ok {ℓ} : {A : Type ℓ} (o : Option A) {a : A} → or_panic o ≡ ok a → o ≡ some a
or_panic-eq-ok none h = cc
or_panic-eq-ok (some b) h = cc

pub Checked-cases {ℓ} : {A : Type ℓ} (m : Checked A) → m ≢ panic → (a : A) × (m ≡ ok a)
Checked-cases (ok a) h = (a, refl)
Checked-cases panic h = absurd (h refl)

pub add64-eq-ok : (a b : ℕ) {c : ℕ} → add64 a b ≡ ok c → (c ≡ a + b) × (a + b < word)
add64-eq-ok a b h = ground arith

pub sub64-eq-ok : (a b : ℕ) {c : ℕ} → sub64 a b ≡ ok c → (c ≡ a - b) × (b ≤ a)
sub64-eq-ok a b h = ground arith

pub div64-eq-ok : (a b : ℕ) {c : ℕ} → div64 a b ≡ ok c → c ≡ a / b
div64-eq-ok a b h = ground arith

pub mul64-eq-ok : (a b : ℕ) {c : ℕ} → mul64 a b ≡ ok c → c ≡ a * b
mul64-eq-ok a b h = ground arith
