-- ===== src/Tests/Scheduling.antt =====
-- The schedulers at concrete inputs.
use molt_os.Prelude.{
  ℕ, zero, suc, ◌+◌, ◌-◌, ◌*◌, ◌≤◌, ◌<◌, ◌≡◌, refl, Bool, true, false, Option, none, some, [], ◌∷◌,
  ok, arith, get_elem?,
}
use molt_os.Scheduler.Thread.{Thread}
use molt_os.Scheduler.Eevdf.{
  ThreadMeta, EevdfScheduler, new, spawn, spawn_with_weight, tick_prepare, tick_threads, account,
  charge_by, sum_weights, sum_from, choose, pick, pick_from, min_vruntime_or, min_from,
  min_by_deadline, virtual_deadline, conclude, commit, from_context, switch_to, block_current,
  block_at, mark, runnable, charge, candidates, first_runnable, block_current_and_prepare_switch,
}
use molt_os.Scheduler.Eevdf.Charge.{charge-mul_weight}
use molt_os.Scheduler.Eevdf.Invariant.{
  IsValid, new-IsValid, spawn-IsValid, spawn_with_weight-IsValid,
}
use molt_os.Scheduler.Eevdf.Tick.{Outcome, limit_of, tick_prepare-Outcome}
use molt_os.Scheduler.Eevdf.Switch.{tick_prepare-IsValid}
use molt_os.Scheduler.Eevdf.Blocking.{block_current_and_prepare_switch-deadlock}
use molt_os.Scheduler.Eevdf.NoPanic.{HasRoom, tick_prepare-total}

abbrev pub shell : Thread
shell = record { id = 1; context = 1000 }

abbrev pub player : Thread
player = record { id = 2; context = 2000 }

abbrev two : EevdfScheduler
two = spawn_with_weight (spawn new shell) player 2048

abbrev meta : ℕ → ℕ → Bool → ThreadMeta
meta vruntime weight blocked = record { vruntime = vruntime; weight = weight; blocked = blocked }

abbrev scheduler : ThreadMeta → ThreadMeta → Option ℕ → ℕ → ℕ → EevdfScheduler
scheduler a b current min_vruntime last_switch_tick = record {
  threads = shell ∷ player ∷ [];
  metadata = a ∷ b ∷ [];
  current = current;
  min_vruntime = min_vruntime;
  last_switch_tick = last_switch_tick;
}

abbrev pub started : EevdfScheduler
started = scheduler (meta 0 1024 false) (meta 0 2048 false) (some 1) 0 1

two-IsValid : IsValid two
two-IsValid =
    spawn_with_weight-IsValid (spawn new shell) player 2048 (omega arith)
      (spawn-IsValid new shell new-IsValid)

pub started-IsValid : IsValid started
started-IsValid = record {
  paired = refl;
  current_in = omega arith;
  metas_fit = omega arith;
  min_fits = omega arith;
}

-- The second tick charges the player for its two ticks.
abbrev charged : EevdfScheduler
charged = scheduler (meta 0 1024 false) (meta 1365 2048 false) (some 1) 0 3

second_tick : tick_prepare started 7 3 ≡ ok (charged, some (2000, 2000))
unfolding tick_prepare tick_threads account charge sum_weights sum_from runnable charge_by choose
    pick pick_from candidates min_vruntime_or min_from min_by_deadline virtual_deadline conclude
    commit first_runnable from_context switch_to
second_tick = refl

tick_prepare-Outcome_example : Outcome started 7 3 charged (some (2000, 2000))
tick_prepare-Outcome_example = tick_prepare-Outcome started 7 3 started-IsValid second_tick

tick_prepare-IsValid_example : IsValid charged
tick_prepare-IsValid_example = tick_prepare-IsValid started 7 3 started-IsValid second_tick

started-HasRoom : HasRoom started 3
started-HasRoom = record { slice = omega arith; weights = omega arith; vruntimes = omega arith }

tick_prepare-total_example :
    (out : EevdfScheduler × Option (ℕ × ℕ)) × (tick_prepare started 7 3 ≡ ok out)
tick_prepare-total_example = tick_prepare-total started 7 3 started-IsValid started-HasRoom

-- The player waits, and the shell runs.
abbrev pub waiting : EevdfScheduler
waiting = scheduler (meta 0 1024 false) (meta 4096 2048 true) (some 0) 0 3

pub player_waits : block_current_and_prepare_switch started 7 3 ≡ ok (waiting, some (2000, 1000))
unfolding block_current_and_prepare_switch block_current block_at mark tick_prepare tick_threads
    account charge sum_weights sum_from runnable charge_by choose pick pick_from candidates
    min_vruntime_or min_from min_by_deadline virtual_deadline conclude commit first_runnable
    from_context switch_to
player_waits = refl

-- The shell waits too.
abbrev last_one : EevdfScheduler
last_one = scheduler (meta 0 1024 false) (meta 0 2048 true) (some 0) 0 1

last_one-IsValid : IsValid last_one
last_one-IsValid = record {
  paired = refl;
  current_in = omega arith;
  metas_fit = omega arith;
  min_fits = omega arith;
}

abbrev all_wait : EevdfScheduler
all_wait = scheduler (meta 0 1024 true) (meta 0 2048 true) (some 0) 0 1

last_waits : block_current_and_prepare_switch last_one 7 3 ≡ ok (all_wait, none)
unfolding block_current_and_prepare_switch block_current block_at mark tick_prepare tick_threads
    account charge sum_weights sum_from runnable charge_by choose pick pick_from candidates
    min_vruntime_or min_from min_by_deadline virtual_deadline conclude commit first_runnable
    from_context switch_to
last_waits = refl

block_current_and_prepare_switch-deadlock_example : runnable all_wait.metadata ≡ []
block_current_and_prepare_switch-deadlock_example =
    block_current_and_prepare_switch-deadlock last_one 7 3 0 last_one-IsValid refl last_waits

player_first : (j : ℕ) (u : Thread) → get_elem? last_one.threads j ≡ some u → u.id ≡ 2 → 1 ≤ j
player_first zero u e same = cc
player_first (suc j) u e same = omega arith

account-all_wait : account all_wait 2 ≡ ok all_wait
unfolding account charge sum_weights sum_from runnable min_vruntime_or
account-all_wait = refl

all_wait-IsValid : IsValid all_wait
all_wait-IsValid = record {
  paired = refl;
  current_in = omega arith;
  metas_fit = omega arith;
  min_fits = omega arith;
}

none_eligible : candidates (limit_of all_wait 0) 0 all_wait.metadata ≡ []
unfolding candidates
none_eligible = refl

-- Two ticks charge the shell 682 and the player 1365.
charge_shell :
    charge (some 0) started.metadata 2 ≡ ok (meta 682 1024 false ∷ meta 0 2048 false ∷ [])
unfolding charge sum_weights sum_from runnable charge_by
charge_shell = refl

charge_player :
    charge (some 1) started.metadata 2 ≡ ok (meta 0 1024 false ∷ meta 1365 2048 false ∷ [])
unfolding charge sum_weights sum_from runnable charge_by
charge_player = refl

charge-mul_weight_example : (2 * (682 - 0) ≤ 1365 - 0) × (1365 - 0 < 2 * (682 - 0 + 1))
charge-mul_weight_example =
    charge-mul_weight 0 1 started.metadata 2 2 2 (meta 0 1024 false) (meta 0 2048 false)
      (meta 682 1024 false) (meta 1365 2048 false) refl refl (omega arith) (omega arith)
      (omega arith) charge_shell charge_player refl refl
