-- ===== src/Allocator/Bump/Stacked.antt =====
-- Blocks below one another, the newest highest.
use molt_os.Prelude.{ℕ, zero, suc, ◌+◌, ◌≤◌, ◌<◌, ◌≡◌, some, List, [], ◌∷◌, arith, get_elem?}

-- The blocks lie from `low` up to `high`, the newest highest, and none overlaps the next.
abbrev pub Stacked : ℕ → ℕ → List (ℕ × ℕ) → Type 0
Stacked low high [] = low ≤ high
Stacked low high (x ∷ bs) = (x.0 + x.1 ≤ high) × Stacked low x.0 bs

pub Stacked-mono : (low a b : ℕ) (bs : List (ℕ × ℕ)) → a ≤ b → Stacked low a bs → Stacked low b bs
Stacked-mono low a b [] h s = omega arith
Stacked-mono low a b (x ∷ bs) h s = (omega arith, s.1)

Stacked-low : (low high : ℕ) (bs : List (ℕ × ℕ)) → Stacked low high bs → low ≤ high
Stacked-low low high [] s = s
Stacked-low low high (x ∷ bs) s = omega (arith, Stacked-low low x.0 bs s.1)

Stacked-below :
    (low high : ℕ) (bs : List (ℕ × ℕ)) (i : ℕ) (x : ℕ × ℕ)
    → Stacked low high bs
    → get_elem? bs i ≡ some x
    → (low ≤ x.0) × (x.0 + x.1 ≤ high)
Stacked-below low high [] i x s e = cc
Stacked-below low high (y ∷ bs) zero x s e =
    let same : y ≡ x = cc in rw (← same) (Stacked-low low y.0 bs s.1, s.0)
Stacked-below low high (y ∷ bs) (suc i) x s e = omega (arith, Stacked-below low y.0 bs i x s.1 e)

pub Stacked-disjoint :
    (low high : ℕ) (bs : List (ℕ × ℕ)) (i j : ℕ) (x y : ℕ × ℕ)
    → Stacked low high bs
    → get_elem? bs i ≡ some x
    → get_elem? bs j ≡ some y
    → i < j
    → (low ≤ y.0) × (y.0 + y.1 ≤ x.0) × (x.0 + x.1 ≤ high)
Stacked-disjoint low high [] i j x y s ex ey h = cc
Stacked-disjoint low high (z ∷ bs) i zero x y s ex ey h = absurd (omega arith)
Stacked-disjoint low high (z ∷ bs) zero (suc j) x y s ex ey h =
    let same : z ≡ x = cc in
    let below = Stacked-below low z.0 bs j y s.1 ey in
    (below.0, rw (← same) below.1, rw (← same) s.0)
Stacked-disjoint low high (z ∷ bs) (suc i) (suc j) x y s ex ey h =
    omega (arith, Stacked-disjoint low z.0 bs i j x y s.1 ex ey (omega arith))
