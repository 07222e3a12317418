-- ===== src/Scheduler/Eevdf/Charge.antt =====
-- The bookkeeping of `tick_prepare` in eevdf.rs: what the thread that is switched away from is
-- charged.
use native.Mathlib.Nat.{
  div-zero, le-div_iff_mul-le, div-lt_iff_lt-mul, div-mul-le_self, mul-le-mul_left,
  mul-lt-mul_of_pos_left, le_trans,
}
use molt_os.Prelude.{
  ℕ, zero, suc, ◌+◌, ◌-◌, ◌*◌, ◌/◌, ◌≤◌, ◌<◌, ◌≡◌, ◌⊎◌, inl, inr, refl, Option, none, some, List,
  [], ◌∷◌, ltb, length, get_elem?, set, ok, subst, sym, ap, All, arith, ltb→lt, >>=-eq-ok,
  Bool-cases, word, add64, mul64, index, or_panic-eq-ok, add64-eq-ok, mul64-eq-ok, div64,
  div64-eq-ok, ◌∙◌, get_elem?-set_self, get_elem?-lt-length, All-set, All-get_elem?,
}
use molt_os.Scheduler.Eevdf.{ThreadMeta, sum_weights, charge_by, charge}

-- The same entries, none with a smaller vruntime.
abbrev pub Grows : List ThreadMeta → List ThreadMeta → Type 0
Grows [] [] = Unit
Grows [] (n ∷ ns) = ⊥
Grows (m ∷ ms) [] = ⊥
Grows (m ∷ ms) (n ∷ ns) =
    (m.vruntime ≤ n.vruntime) × (n.weight ≡ m.weight) × (n.blocked ≡ m.blocked) × Grows ms ns

pub Grows-refl : (ms : List ThreadMeta) → Grows ms ms
Grows-refl [] = tt
Grows-refl (m ∷ ms) = (omega arith, refl, refl, Grows-refl ms)

Grows-set :
    (ms : List ThreadMeta) (p v : ℕ) (m : ThreadMeta)
    → get_elem? ms p ≡ some m
    → m.vruntime ≤ v
    → Grows ms (set ms p (record m { vruntime = v }))
Grows-set [] p v m e h = tt
Grows-set (n ∷ ms) zero v m e h =
    let same : n ≡ m = cc in
    (rw same h, ap (λ x. x.weight) (sym same), ap (λ x. x.blocked) (sym same), Grows-refl ms)
Grows-set (n ∷ ms) (suc p) v m e h = (omega arith, refl, refl, Grows-set ms p v m e h)

pub length-Grows : (ms ns : List ThreadMeta) → Grows ms ns → length ns ≡ length ms
length-Grows [] [] g = refl
length-Grows [] (n ∷ ns) g = absurd g
length-Grows (m ∷ ms) [] g = absurd g
length-Grows (m ∷ ms) (n ∷ ns) g = omega (arith, length-Grows ms ns g.3)

-- What thread `m` is charged.
abbrev pub delta : ℕ → ℕ → ThreadMeta → ℕ
delta time_slice sum m = time_slice * m.weight * 1024 / sum

-- Entry `p` grows by its delta, and no other changes.
pub record Charged (p : ℕ) (ms : List ThreadMeta) (time_slice sum : ℕ) (ns : List ThreadMeta)
    : Type 0 where
  pub meta : ThreadMeta
  pub found : get_elem? ms p ≡ some meta
  pub fits : meta.vruntime + delta time_slice sum meta < word
  pub grown : ns ≡ set ms p (record meta { vruntime = meta.vruntime + delta time_slice sum meta })

charge_by-eq-ok :
    (p : ℕ) (ms : List ThreadMeta) (time_slice sum : ℕ) {ns : List ThreadMeta}
    → charge_by p ms time_slice sum ≡ ok ns
    → Charged p ms time_slice sum ns
unfolding charge_by
charge_by-eq-ok p ms ts sum e =
    let (m, em, e1) = >>=-eq-ok (index ms p) _ e in
    let (a, ea, e2) = >>=-eq-ok (mul64 ts m.weight) _ e1 in
    let (b, eb, e3) = >>=-eq-ok (mul64 a 1024) _ e2 in
    let (share, es, e4) = >>=-eq-ok (div64 b sum) _ e3 in
    let (v, ev, e5) = >>=-eq-ok (add64 m.vruntime share) _ e4 in
    let sums = add64-eq-ok m.vruntime share ev in
    let product : b ≡ ts * m.weight * 1024 =
      omega (arith, mul64-eq-ok a 1024 eb, mul64-eq-ok ts m.weight ea) in
    let same : share ≡ delta ts sum m = div64-eq-ok b sum es ∙ ap (λ x. x / sum) product in
    let fits : m.vruntime + delta ts sum m < word = rw (← same) sums.1 in
    let grown : v ≡ m.vruntime + delta ts sum m = rw (← same) sums.0 in
    record {
      meta = m;
      found = or_panic-eq-ok (get_elem? ms p) em;
      fits = fits;
      grown = rw (← grown) (cc);
    }

-- What a tick charges the current thread, if it returns.
pub charge-eq-ok :
    (p : ℕ) (ms : List ThreadMeta) (time_slice sum : ℕ) {ns : List ThreadMeta}
    → sum_weights ms ≡ ok sum
    → charge (some p) ms time_slice ≡ ok ns
    → ((sum ≡ 0) × (ns ≡ ms)) ⊎ ((0 < sum) × Charged p ms time_slice sum ns)
unfolding charge
charge-eq-ok p ms ts sum {ns} es e = elim (Bool-cases (ltb 0 sum)) [
  | inl t ↦
      let e' : charge_by p ms ts sum ≡ ok ns = rw (es, t) at e in
      inr (ltb→lt 0 sum t, charge_by-eq-ok p ms ts sum e')
  | inr t ↦ let e' : ok ms ≡ ok ns = rw (es, t) at e in inl (ground arith, cc)
]

charge-none :
    (ms : List ThreadMeta) (time_slice : ℕ) {ns : List ThreadMeta}
    → charge none ms time_slice ≡ ok ns
    → ms ≡ ns
unfolding charge
charge-none ms ts e = cc

charge-sum :
    (p : ℕ) (ms : List ThreadMeta) (time_slice : ℕ) {ns : List ThreadMeta}
    → charge (some p) ms time_slice ≡ ok ns
    → (sum : ℕ) × (sum_weights ms ≡ ok sum)
unfolding charge
charge-sum p ms ts e = let (sum, es, _) = >>=-eq-ok (sum_weights ms) _ e in (sum, es)

Charged-Grows :
    (p : ℕ) (ms : List ThreadMeta) (time_slice sum : ℕ) {ns : List ThreadMeta}
    → Charged p ms time_slice sum ns
    → Grows ms ns
Charged-Grows p ms ts sum c = rw c.grown (Grows-set ms p _ c.meta c.found (omega arith))

-- No tick lowers a vruntime, changes a weight or blocks a thread.
pub charge-Grows :
    (current : Option ℕ) (ms : List ThreadMeta) (time_slice : ℕ) {ns : List ThreadMeta}
    → charge current ms time_slice ≡ ok ns
    → Grows ms ns
charge-Grows none ms ts e = subst (Grows ms) (charge-none ms ts e) (Grows-refl ms)
charge-Grows (some p) ms ts e =
    let (sum, es) = charge-sum p ms ts e in
    elim (charge-eq-ok p ms ts sum es e) [
      | inl (_, same) ↦ rw same (Grows-refl ms)
      | inr (_, c) ↦ Charged-Grows p ms ts sum c
    ]

abbrev pub MetaFits : ThreadMeta → Type 0
MetaFits m = (m.vruntime < word) × (0 < m.weight) × (m.weight < word)

pub charge-MetaFits :
    (current : Option ℕ) (ms : List ThreadMeta) (time_slice : ℕ) {ns : List ThreadMeta}
    → All MetaFits ms
    → charge current ms time_slice ≡ ok ns
    → All MetaFits ns
charge-MetaFits none ms ts a e = subst (All MetaFits) (charge-none ms ts e) a
charge-MetaFits (some p) ms ts a e =
    let (sum, es) = charge-sum p ms ts e in
    elim (charge-eq-ok p ms ts sum es e) [
      | inl (_, same) ↦ rw same a
      | inr (_, c) ↦
          let m = All-get_elem? MetaFits ms p c.meta a c.found in
          rw c.grown (All-set MetaFits ms p _ (c.fits, m.1, m.2) a)
    ]

-- What a tick adds to the current thread's vruntime is its delta, or nothing at all.
charge-growth :
    (p : ℕ) (ms : List ThreadMeta) (time_slice sum : ℕ) (m m' : ThreadMeta) {ns : List ThreadMeta}
    → sum_weights ms ≡ ok sum
    → get_elem? ms p ≡ some m
    → charge (some p) ms time_slice ≡ ok ns
    → get_elem? ns p ≡ some m'
    → m'.vruntime - m.vruntime ≡ delta time_slice sum m
charge-growth p ms ts sum m m' es em e gm = elim (charge-eq-ok p ms ts sum es e) [
  | inl (none_runs, same) ↦
      let kept : m' ≡ m = cc in
      let nothing : delta ts sum m ≡ 0 = rw none_runs (div-zero _) in
      rw kept (omega (arith, nothing))
  | inr (_, c) ↦
      let mine : c.meta ≡ m = cc (c.found) in
      let written =
        get_elem?-set_self ms p (record c.meta { vruntime = c.meta.vruntime + delta ts sum c.meta })
          (get_elem?-lt-length ms p em) in
      let now : m' ≡ record c.meta { vruntime = c.meta.vruntime + delta ts sum c.meta } =
        cc (c.grown) in
      rw (now, mine) (omega arith)
]

mul-div-le : (j a b k : ℕ) → j * a ≤ b → j * (a / k) ≤ b / k
mul-div-le j a b zero h = omega (arith, div-zero b, ap (λ x. j * x) (div-zero a))
mul-div-le j a b (suc k) h =
    let inside : j * (a / suc k) * suc k ≤ j * a =
      grind (arith, mul-le-mul_left j (div-mul-le_self a (suc k))) in
    (le-div_iff_mul-le (omega arith)).1 (le_trans inside h)

div-lt_mul : (k a b s : ℕ) → b ≤ k * a → 0 < k → b / s < k * (a / s + 1)
div-lt_mul k a b zero h pos =
    let lone : k * (a / 0 + 1) ≡ k = ap (λ x. k * (x + 1)) (div-zero a) ∙ omega arith in
    omega (arith, div-zero b, lone)
div-lt_mul k a b (suc s) h pos =
    let positive : 0 < suc s = omega arith in
    let near : a < (a / suc s + 1) * suc s = (div-lt_iff_lt-mul positive).0 (omega arith) in
    let scaled : k * a < k * ((a / suc s + 1) * suc s) = mul-lt-mul_of_pos_left near pos in
    let moved : k * ((a / suc s + 1) * suc s) ≡ k * (a / suc s + 1) * suc s = grind arith in
    (div-lt_iff_lt-mul positive).1 (omega (arith, scaled, moved, h))

-- Whichever of two threads is current for the time slice: the one of at least `j` and at most `k` times
-- the weight of the other is charged at least `j` times as much, and less than `k` times one more.
pub charge-mul_weight :
    (p q : ℕ) (ms : List ThreadMeta) (time_slice j k : ℕ) (m n m' n' : ThreadMeta)
    {after_p after_q : List ThreadMeta}
    → get_elem? ms p ≡ some m
    → get_elem? ms q ≡ some n
    → j * m.weight ≤ n.weight
    → n.weight ≤ k * m.weight
    → 0 < k
    → charge (some p) ms time_slice ≡ ok after_p
    → charge (some q) ms time_slice ≡ ok after_q
    → get_elem? after_p p ≡ some m'
    → get_elem? after_q q ≡ some n'
    → (j * (m'.vruntime - m.vruntime) ≤ n'.vruntime - n.vruntime)
      × (n'.vruntime - n.vruntime < k * (m'.vruntime - m.vruntime + 1))
charge-mul_weight p q ms ts j k m n m' n' em en low high pos ep eq gp gq =
    let (sum, es) = charge-sum p ms ts ep in
    let gm = charge-growth p ms ts sum m m' es em ep gp in
    let gn = charge-growth q ms ts sum n n' es en eq gq in
    let x : ℕ = ts * m.weight * 1024 in
    let y : ℕ = ts * n.weight * 1024 in
    let least : j * x ≤ y = grind (arith, mul-le-mul_left (ts * 1024) low) in
    let most : y ≤ k * x = grind (arith, mul-le-mul_left (ts * 1024) high) in
    let times : j * (m'.vruntime - m.vruntime) ≡ j * (x / sum) = ap (λ z. j * z) gm in
    let times_more : k * (m'.vruntime - m.vruntime + 1) ≡ k * (x / sum + 1) =
      ap (λ z. k * (z + 1)) gm in
    (
      omega (arith, times, gn, mul-div-le j x y sum least),
      omega (arith, times_more, gn, div-lt_mul k x y sum most pos),
    )
