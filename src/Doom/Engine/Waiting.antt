-- ===== src/Doom/Engine/Waiting.antt =====
-- `DG_SleepMs` (src/ffi/mod.rs): how long it waits.
use molt_os.Prelude.{
  ℕ, zero, suc, ◌+◌, ◌-◌, ◌*◌, ◌/◌, ◌%◌, ◌^◌, ◌≡◌, ◌≤◌, ◌<◌, inl, inr, refl, max, ltb, some, ok,
  word, Bool-cases, ◌==◌, ==_iff, true, false, arith,
}
use molt_os.Doom.Engine.{sleep_loop, dg_sleep_ms, dg_get_ticks_ms}

-- The clock of the timer: it does not go back, and among `gap` readings, some of which may come after
-- other interrupts, it ticks.
pub record IsTicking (clock : ℕ → ℕ) (gap : ℕ) : Type 0 where
  pub grows : (i : ℕ) → clock i ≤ clock (suc i)
  pub ticks : (i : ℕ) → clock i < clock (gap + i)

clock_mono : (clock : ℕ → ℕ) (gap : ℕ) → IsTicking clock gap → (i n : ℕ) → clock i ≤ clock (n + i)
clock_mono clock gap v i zero = let e : 0 + i ≡ i = omega arith in rw e (omega arith)
clock_mono clock gap v i (suc n) =
    let e : suc n + i ≡ suc (n + i) = omega arith in
    rw e (omega (arith, clock_mono clock gap v i n, v.grows (n + i)))

-- After `n` gaps at least `n` ticks have passed.
clock_grows :
    (clock : ℕ → ℕ) (gap : ℕ) → IsTicking clock gap → (n : ℕ) → clock 0 + n ≤ clock (n * gap)
clock_grows clock gap v zero = let e : 0 * gap ≡ 0 = grind arith in rw e (omega arith)
clock_grows clock gap v (suc n) =
    let e : suc n * gap ≡ gap + n * gap = grind arith in
    rw e (omega (arith, clock_grows clock gap v n, v.ticks (n * gap)))

clock-reaches :
    (clock : ℕ → ℕ) (gap : ℕ)
    → IsTicking clock gap
    → (fuel n : ℕ) → n * gap < suc fuel
    → clock 0 + n ≤ clock (fuel + 1)
clock-reaches clock gap v fuel n enough =
    let spare = fuel - n * gap in
    let there : spare + 1 + n * gap ≡ fuel + 1 = omega arith in
    rw (← there)
      (omega (arith, clock_grows clock gap v n, clock_mono clock gap v (n * gap) (spare + 1)))

sleep_loop-ends :
    (fuel : ℕ) (clock : ℕ → ℕ) (i target : ℕ)
    → target ≤ clock (fuel + i)
    → (r : ℕ) × (sleep_loop (suc fuel) clock i target ≡ some r)
      × (r ≤ fuel + i)
      × (target ≤ clock r)
      × ((j : ℕ) → i ≤ j → j < r → clock j < target)
unfolding sleep_loop
sleep_loop-ends zero clock i target h =
    let e : 0 + i ≡ i = omega arith in
    let h' : target ≤ clock i = rw e at h in
    let late : ltb (clock i) target ≡ false = ground (arith, h') in
    (i, rw (sleep_loop, late) refl, omega arith, h', λ j a b. absurd (omega arith))
sleep_loop-ends (suc fuel) clock i target h = elim (Bool-cases (ltb (clock i) target)) [
  | inl early ↦
      let e : suc fuel + i ≡ fuel + suc i = omega arith in
      let (r, ended, soon, after, before) = sleep_loop-ends fuel clock (suc i) target (rw e at h) in
      (
        r,
        rw (early, sleep_loop) ended,
        omega (arith, soon),
        after,
        λ j a b. elim (Bool-cases (j == i)) [
          | inl same ↦ let q : j ≡ i = (==_iff j i).0 same in rw q (ground (arith, early))
          | inr other ↦ before j (ground (arith, other)) b
        ],
      )
  | inr late ↦
      (i, rw (sleep_loop, late) refl, omega arith, ground arith, λ j a b. absurd (omega arith))
]

-- The difference of two readings of `DG_GetTicksMs`, as the engine takes it, in 32 bits.
abbrev pub elapsed : ℕ → ℕ → ℕ
elapsed before after = (after + 2 ^ 32 - before) % 2 ^ 32

dg_get_ticks_ms-elapsed :
    (a b : ℕ)
    → a ≤ b
    → b * 10 < word
    → (x : ℕ) × (y : ℕ) × (dg_get_ticks_ms a ≡ ok x)
      × (dg_get_ticks_ms b ≡ ok y)
      × (elapsed x y ≡ (b - a) * 10 % 2 ^ 32)
unfolding dg_get_ticks_ms
dg_get_ticks_ms-elapsed a b le room =
    let first : ltb (a * 10) word ≡ true = ground (arith, le, room) in
    let second : ltb (b * 10) word ≡ true = ground (arith, room) in
    (a * 10 % 2 ^ 32, b * 10 % 2 ^ 32, rw first refl, rw second refl, omega arith)

-- With fuel for a gap for each tick, while the milliseconds of the clock fit 64 bits, `DG_SleepMs`
-- returns: at the first reading at which `ms / 10` ticks, and at least one, have passed. To the engine,
-- which reads `DG_GetTicksMs` before and after, ten milliseconds have passed for each tick, modulo 2^32.
pub dg_sleep_ms-Waits :
    (clock : ℕ → ℕ) (gap ms fuel : ℕ)
    → IsTicking clock gap
    → clock fuel * 10 < word
    → max (ms / 10) 1 * gap < fuel
    → (r : ℕ) × (dg_sleep_ms fuel clock ms ≡ ok (some r))
      × (clock 0 + max (ms / 10) 1 ≤ clock r)
      × ((j : ℕ) → 1 ≤ j → j < r → clock j < clock 0 + max (ms / 10) 1)
      × (x : ℕ) × (y : ℕ) × (dg_get_ticks_ms (clock 0) ≡ ok x)
      × (dg_get_ticks_ms (clock r) ≡ ok y)
      × (elapsed x y ≡ (clock r - clock 0) * 10 % 2 ^ 32)
unfolding dg_sleep_ms
dg_sleep_ms-Waits clock gap ms zero v small enough = absurd (omega arith)
dg_sleep_ms-Waits clock gap ms (suc fuel) v small enough =
    let ticks = max (ms / 10) 1 in
    let reached : clock 0 + ticks ≤ clock (fuel + 1) =
      clock-reaches clock gap v fuel ticks enough in
    let one : fuel + 1 ≡ suc fuel = omega arith in
    let room : clock (fuel + 1) * 10 < word = rw one small in
    let fits : ltb (clock 0 + ticks) word ≡ true = ground (arith, room, reached) in
    let (r, ended, soon, after, before) = sleep_loop-ends fuel clock 1 (clock 0 + ticks) reached in
    let back : fuel + 1 - r + r ≡ fuel + 1 = omega (arith, soon) in
    let last : clock r ≤ clock (fuel + 1) = rw (← back) (clock_mono clock gap v r (fuel + 1 - r)) in
    let (x, y, gx, gy, diff) =
      dg_get_ticks_ms-elapsed (clock 0) (clock r) (omega (arith, after))
        (omega (arith, last, room)) in
    (r, rw (fits, ended) refl, after, before, x, y, gx, gy, diff)
