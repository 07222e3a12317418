-- ===== src/Task/Sleep.antt =====
-- src/task/sleep.rs: sleeping tasks. A waker is a number that stands for the task that it wakes; the
-- spin lock round `SLEEPERS` makes each call atomic. The clock is an argument.
pub mod Waking
use molt_os.Prelude.{
  ℕ, zero, suc, Bool, true, false, Option, none, some, List, [], ◌∷◌, ◌++◌, leb, if◌then◌else◌,
  length, get_elem?, saturating_add,
}

-- A target tick with the waker.
abbrev pub Sleeper : Type 0
Sleeper = ℕ × ℕ

-- `Vec::remove`, without the element.
unfoldable pub remove : List Sleeper → ℕ → List Sleeper
remove [] i = []
remove (x ∷ xs) zero = xs
remove (x ∷ xs) (suc i) = x ∷ remove xs i

-- The loop of `wake_sleepers` from index `i` on: the sleepers that are left, and the wakers that were
-- woken, in order. Each turn removes a sleeper or passes one.
unfoldable pub wake_loop : ℕ → ℕ → ℕ → List Sleeper → List ℕ → List Sleeper × List ℕ
wake_loop zero now i sleepers woken = (sleepers, woken)
wake_loop (suc fuel) now i sleepers woken = elim (get_elem? sleepers i) [
  | none ↦ (sleepers, woken)
  | some s ↦ elim (leb s.0 now) [
    | true ↦ wake_loop fuel now i (remove sleepers i) (woken ++ (s.1 ∷ []))
    | false ↦ wake_loop fuel now (suc i) sleepers woken
  ]
]

unfoldable pub wake_sleepers : ℕ → List Sleeper → List Sleeper × List ℕ
wake_sleepers now sleepers = wake_loop (length sleepers) now 0 sleepers []

pub record Sleep : Type 0 where
  pub target_tick : ℕ
  pub registered : Bool

-- `Sleep::new`.
abbrev pub new : ℕ → ℕ → Sleep
new now ticks = record { target_tick = saturating_add now ticks; registered = false }

-- `poll`: the sleep and the sleepers after it, and whether it is ready.
unfoldable pub poll : Sleep → ℕ → ℕ → List Sleeper → Sleep × List Sleeper × Bool
poll s now waker sleepers =
    if leb s.target_tick now
    then (s, sleepers, true)
    else if s.registered
    then (s, sleepers, false)
    else (record s { registered = true }, sleepers ++ ((s.target_tick, waker) ∷ []), false)
