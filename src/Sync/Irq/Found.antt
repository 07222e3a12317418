-- ===== src/Sync/Irq/Found.antt =====
-- `IrqMutex` (src/sync.rs): the interrupt flag that each thread found when it called `lock`.
use molt_os.Prelude.{ℕ, ◌≡◌, refl, Bool, true, Option, none, some, arith}
use molt_os.Sync.{update}
use molt_os.Sync.Irq.{
  Place, outside, checked, asking, holding, released, switching, Core, Ending, drop,
  release_without_irq_restore, act, Machine, start, Step, run, set_flag, switch, interrupt, handle,
  return, Reach, here, after,
}

-- What a thread outside finds of the flag when it calls `lock`; `f` is what the threads found before.
abbrev pub find : Place → Bool → (ℕ → Bool) → ℕ → ℕ → Bool
find outside irq f t = update f t irq
find (checked was) irq f t = f
find (asking was) irq f t = f
find (holding was) irq f t = f
find (released was) irq f t = f
find switching irq f t = f

abbrev pub find_in : {s s' : Machine} → Step s s' → (ℕ → Bool) → ℕ → Bool
find_in {s} (run way p c h e q) f = find (s.place s.running) s.core.irq f s.running
find_in (set_flag on h at q) f = f
find_in (switch next h at q) f = f
find_in (interrupt h on q) f = f
find_in (handle p p' c h e q) f = f
find_in (return next h q) f = f

-- The interrupt flag as each thread found it when it last called `lock`.
abbrev pub found : {s s' : Machine} → Reach s s' → ℕ → Bool
found here = λ t. true
found (after r st) = find_in st (found r)

-- The flag that a place keeps.
abbrev pub kept : Place → Option Bool
kept outside = none
kept (checked was) = some was
kept (asking was) = some was
kept (holding was) = some was
kept (released was) = some was
kept switching = none

abbrev pub Keeps : (ℕ → Place) → (ℕ → Bool) → Type 0
Keeps place f = (u : ℕ) (b : Bool) → kept (place u) ≡ some b → b ≡ f u

run-Keeps :
    (q : Place) (s : Machine) (way : Ending) (p : Place) (c : Core) (f : ℕ → Bool)
    → s.place s.running ≡ q
    → act q way s.core ≡ some (p, c)
    → Keeps s.place f
    → Keeps (update s.place s.running p) (find q s.core.irq f s.running)
unfolding act
run-Keeps outside s way p c f at e k = λ u b g. ground (arith, k u b)
run-Keeps (checked was) s way p c f at e k = λ u b g. ground (arith, k u b)
run-Keeps (asking was) s way p c f at e k = λ u b g. ground (arith, k u b)
run-Keeps (holding was) s drop p c f at e k = λ u b g. ground (arith, k u b)
run-Keeps (holding was) s release_without_irq_restore p c f at e k = λ u b g. ground (arith, k u b)
run-Keeps (released was) s way p c f at e k = λ u b g. ground (arith, k u b)
run-Keeps switching s way p c f at e k = cc

Step-Keeps :
    {s s' : Machine} (st : Step s s') (f : ℕ → Bool)
    → Keeps s.place f
    → Keeps s'.place (find_in st f)
Step-Keeps {s} (run way p c h e q) f k = rw q (run-Keeps (s.place s.running) s way p c f refl e k)
Step-Keeps (set_flag on h at q) f k = rw q k
Step-Keeps {s} (switch next h at q) f k = rw q (λ u b g. ground (arith, k u b))
Step-Keeps (interrupt h on q) f k = rw q k
Step-Keeps (handle p p' c h e q) f k = rw q k
Step-Keeps (return next h q) f k = rw q k

pub Reach-Keeps : (t : ℕ) {s : Machine} (r : Reach (start t) s) → Keeps s.place (found r)
Reach-Keeps t here = λ u b e. cc
Reach-Keeps t (after r st) = Step-Keeps st (found r) (Reach-Keeps t r)
