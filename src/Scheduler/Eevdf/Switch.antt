-- ===== src/Scheduler/Eevdf/Switch.antt =====
-- What the callers of `tick_prepare` and `block_current_and_prepare_switch` (eevdf.rs) rely on.
use molt_os.Prelude.{
  ℕ, ◌≡◌, refl, true, false, Option, some, get_elem?, ok, arith, get_elem?-lt-length,
}
use molt_os.Scheduler.Thread.{Thread, context_ptr}
use molt_os.Scheduler.Eevdf.{ThreadMeta, EevdfScheduler, eligible, tick_prepare, time_slice_of}
use molt_os.Scheduler.Eevdf.Charge.{Grows, Grows-refl}
use molt_os.Scheduler.Eevdf.Invariant.{IsValid, Accounted-IsValid}
use molt_os.Scheduler.Eevdf.Tick.{
  Outcome, no_threads, all_blocked, keep, switch, tick_prepare-Outcome,
}

Outcome-IsValid :
    (s : EevdfScheduler) (b tick : ℕ) {s' : EevdfScheduler} {r : Option (ℕ × ℕ)}
    → IsValid s
    → Outcome s b tick s' r
    → IsValid s'
Outcome-IsValid s b tick v (no_threads _ same) = rw same v
Outcome-IsValid s b tick v (all_blocked c _) = Accounted-IsValid s (time_slice_of s tick) v c
Outcome-IsValid s b tick v (keep k c _ _ _ _) = Accounted-IsValid s (time_slice_of s tick) v c
Outcome-IsValid s b tick v (switch a k from_ctx t c _ _ found same) =
    let w = Accounted-IsValid s (time_slice_of s tick) v c in
    rw same (record {
      paired = w.paired;
      current_in = get_elem?-lt-length a.threads k {x = t} (rw c.same_threads found);
      metas_fit = w.metas_fit;
      min_fits = w.min_fits;
    })

-- A tick keeps the invariant.
pub tick_prepare-IsValid :
    (s : EevdfScheduler) (bootstrap_ctx tick : ℕ) {s' : EevdfScheduler} {r : Option (ℕ × ℕ)}
    → IsValid s
    → tick_prepare s bootstrap_ctx tick ≡ ok (s', r)
    → IsValid s'
tick_prepare-IsValid s b tick v e = Outcome-IsValid s b tick v (tick_prepare-Outcome s b tick v e)

Outcome-Grows :
    (s : EevdfScheduler) (b tick : ℕ) {s' : EevdfScheduler} {r : Option (ℕ × ℕ)}
    → Outcome s b tick s' r
    → Grows s.metadata s'.metadata
Outcome-Grows s b tick (no_threads _ same) = rw same (Grows-refl s.metadata)
Outcome-Grows s b tick (all_blocked c _) = c.grows
Outcome-Grows s b tick (keep k c _ _ _ _) = c.grows
Outcome-Grows s b tick (switch a k from_ctx t c _ _ found same) = rw same c.grows

-- No tick lowers a vruntime, changes a weight, or blocks or unblocks a thread.
pub tick_prepare-Grows :
    (s : EevdfScheduler) (bootstrap_ctx tick : ℕ) {s' : EevdfScheduler} {r : Option (ℕ × ℕ)}
    → IsValid s
    → tick_prepare s bootstrap_ctx tick ≡ ok (s', r)
    → Grows s.metadata s'.metadata
tick_prepare-Grows s b tick v e = Outcome-Grows s b tick (tick_prepare-Outcome s b tick v e)

pub eligible-not_blocked :
    (limit : ℕ) (m : ThreadMeta) → eligible limit m ≡ true → m.blocked ≡ false
eligible-not_blocked limit m h = ground arith

-- The current thread is there, it is not blocked, and its context is `to_ctx`.
pub record Runs (s : EevdfScheduler) (to_ctx : ℕ) : Type 0 where
  pub k : ℕ
  pub thread : Thread
  pub meta : ThreadMeta
  pub is_current : s.current ≡ some k
  pub thread_at : get_elem? s.threads k ≡ some thread
  pub meta_at : get_elem? s.metadata k ≡ some meta
  pub not_blocked : meta.blocked ≡ false
  pub loads : to_ctx ≡ context_ptr thread

Outcome-Runs :
    (s : EevdfScheduler) (b tick from_ctx to_ctx : ℕ) {s' : EevdfScheduler} {r : Option (ℕ × ℕ)}
    → Outcome s b tick s' r
    → r ≡ some (from_ctx, to_ctx)
    → Runs s' to_ctx
Outcome-Runs s b tick f g (no_threads _ same) e = cc
Outcome-Runs s b tick f g (all_blocked c _) e = cc
Outcome-Runs s b tick f g (keep k c _ _ _ _) e = cc
Outcome-Runs s b tick f g (switch a k from_ctx t c h _ found same) e =
    let best = h.earliest in
    rw same (record {
      k = k;
      thread = t;
      meta = best.meta;
      is_current = refl;
      thread_at = rw c.same_threads found;
      meta_at = best.found;
      not_blocked = eligible-not_blocked _ best.meta best.passes;
      loads = cc;
    })

-- Where a tick returns a switch, the thread whose context is loaded is the new current thread, and
-- it is not blocked.
pub tick_prepare-Runs :
    (s : EevdfScheduler) (bootstrap_ctx tick from_ctx to_ctx : ℕ) {s' : EevdfScheduler}
    → IsValid s
    → tick_prepare s bootstrap_ctx tick ≡ ok (s', some (from_ctx, to_ctx))
    → Runs s' to_ctx
tick_prepare-Runs s b tick f g v e =
    Outcome-Runs s b tick f g (tick_prepare-Outcome s b tick v e) refl
