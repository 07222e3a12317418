-- ===== src/Scheduler/Eevdf.antt =====
-- src/thread/schedulers/eevdf.rs: the EEVDF scheduler. A method that takes `&mut self` returns the
-- new scheduler; integer arithmetic is that of a debug build, so it may panic.
pub mod Deadline
pub mod Candidates
pub mod Pick
pub mod Charge
pub mod Invariant
pub mod Tick
pub mod Switch
pub mod Blocking
pub mod Sums
pub mod NoPanic
use molt_os.Prelude.{
  ℕ, suc, ◌-◌, ◌/◌, max, min, Bool, true, false, ◌&&◌, not, Option, none, some, List, [], ◌∷◌, ◌++◌,
  ltb, leb, ◌==◌, if◌then◌else◌, length, set, Checked, ok, ◌>>=◌, add64, mul64, div64, u64_max,
  saturating_add, index,
}
use molt_os.Scheduler.Thread.{Thread, context_ptr}

abbrev pub default_weight : ℕ
default_weight = 1024

-- In ticks.
abbrev pub min_time_slice : ℕ
min_time_slice = 1

pub record ThreadMeta : Type 0 where
  pub vruntime : ℕ
  pub weight : ℕ
  pub blocked : Bool

-- `ThreadMeta::new`.
abbrev pub fresh_meta : ThreadMeta
fresh_meta = record { vruntime = 0; weight = default_weight; blocked = false }

-- `ThreadMeta::virtual_deadline`.
unfoldable pub virtual_deadline : ThreadMeta → ℕ → ℕ → Checked ℕ
virtual_deadline m time_slice sum_weights = if m.weight == 0 then ok u64_max else (do
  a ← mul64 time_slice sum_weights
  b ← mul64 a 1024
  share ← div64 b m.weight
  add64 m.vruntime share)

pub record EevdfScheduler : Type 0 where
  pub threads : List Thread
  pub metadata : List ThreadMeta
  pub current : Option ℕ
  pub min_vruntime : ℕ
  pub last_switch_tick : ℕ

-- `EevdfScheduler::new`.
abbrev pub new : EevdfScheduler
new = record { threads = []; metadata = []; current = none; min_vruntime = 0; last_switch_tick = 0 }

unfoldable pub spawn : EevdfScheduler → Thread → EevdfScheduler
spawn s t = record s { threads = s.threads ++ (t ∷ []); metadata = s.metadata ++ (fresh_meta ∷ []) }

unfoldable pub spawn_with_weight : EevdfScheduler → Thread → ℕ → EevdfScheduler
spawn_with_weight s t weight =
    let meta : ThreadMeta = record fresh_meta { weight = max weight 1 } in
    record s { threads = s.threads ++ (t ∷ []); metadata = s.metadata ++ (meta ∷ []) }

unfoldable pub len : EevdfScheduler → ℕ
len s = length s.threads

-- `self.current.map(|idx| self.threads[idx].id)`.
unfoldable pub current_thread_id : EevdfScheduler → Checked (Option ℕ)
current_thread_id s = elim s.current [
  | none ↦ ok none
  | some idx ↦ index s.threads idx >>= λ t. ok (some t.id)
]

-- The index of the first thread with this id: the loop of `unblock_thread`.
unfoldable pub position_of : ℕ → List Thread → Option ℕ
position_of id [] = none
position_of id (t ∷ ts) =
    let rest = position_of id ts in
    if t.id == id then some 0 else elim rest [ none ↦ none | some i ↦ some (suc i) ]

abbrev pub set_blocked : Bool → ThreadMeta → ThreadMeta
set_blocked b m = record m { blocked = b }

-- `self.metadata[i].blocked = b`.
unfoldable pub mark : Bool → ℕ → EevdfScheduler → Checked EevdfScheduler
mark b i s = do
  m ← index s.metadata i
  ok (record s { metadata = set s.metadata i (set_blocked b m) })

-- `metadata.iter().filter(|m| !m.blocked)`.
unfoldable pub runnable : List ThreadMeta → List ThreadMeta
runnable [] = []
runnable (m ∷ ms) = let rest = runnable ms in if m.blocked then rest else m ∷ rest

-- `.map(|m| m.weight).sum()`, which adds to `acc` from the left.
unfoldable pub sum_from : ℕ → List ThreadMeta → Checked ℕ
sum_from acc [] = ok acc
sum_from acc (m ∷ ms) = add64 acc m.weight >>= λ acc'. sum_from acc' ms

unfoldable pub sum_weights : List ThreadMeta → Checked ℕ
sum_weights ms = sum_from 0 (runnable ms)

-- `.map(|m| m.vruntime).min()`.
unfoldable pub min_from : ℕ → List ThreadMeta → ℕ
min_from best [] = best
min_from best (m ∷ ms) = min_from (min best m.vruntime) ms

unfoldable pub min_vruntime_or : ℕ → List ThreadMeta → ℕ
min_vruntime_or d [] = d
min_vruntime_or d (m ∷ ms) = min_from m.vruntime ms

-- `self.metadata[prev_idx].vruntime += (time_slice * weight * 1024) / sum_weights`.
unfoldable pub charge_by : ℕ → List ThreadMeta → ℕ → ℕ → Checked (List ThreadMeta)
charge_by prev ms time_slice sum = do
  m ← index ms prev
  a ← mul64 time_slice m.weight
  b ← mul64 a 1024
  share ← div64 b sum
  v ← add64 m.vruntime share
  ok (set ms prev (record m { vruntime = v }))

-- The vruntime of the thread that is switched away from grows by its share of the time slice.
unfoldable pub charge : Option ℕ → List ThreadMeta → ℕ → Checked (List ThreadMeta)
charge none ms time_slice = ok ms
charge (some prev) ms time_slice = do
  sum ← sum_weights ms
  if ltb 0 sum then charge_by prev ms time_slice sum else ok ms

abbrev pub eligible : ℕ → ThreadMeta → Bool
eligible limit m = not m.blocked && leb m.vruntime limit

-- `metadata.iter().enumerate().filter(...)`, from index `i` on.
unfoldable pub candidates : ℕ → ℕ → List ThreadMeta → List (ℕ × ThreadMeta)
candidates limit i [] = []
candidates limit i (m ∷ ms) =
    let rest = candidates limit (suc i) ms in if eligible limit m then (i, m) ∷ rest else rest

-- `min_by`: the first of the candidates with the least virtual deadline.
unfoldable pub min_by_deadline :
    ℕ → ℕ → ℕ × ThreadMeta → List (ℕ × ThreadMeta) → Checked (ℕ × ThreadMeta)
min_by_deadline time_slice sum best [] = ok best
min_by_deadline time_slice sum best (c ∷ cs) = do
  a ← virtual_deadline best.1 time_slice sum
  b ← virtual_deadline c.1 time_slice sum
  min_by_deadline time_slice sum (if ltb b a then c else best) cs

-- `metadata.iter().enumerate().find(|(_, meta)| !meta.blocked)`: the fallback.
unfoldable pub first_runnable : ℕ → List ThreadMeta → Option ℕ
first_runnable i [] = none
first_runnable i (m ∷ ms) =
    let rest = first_runnable (suc i) ms in if m.blocked then rest else some i

unfoldable pub pick_from : ℕ → ℕ → List ThreadMeta → List (ℕ × ThreadMeta) → Checked (Option ℕ)
pick_from time_slice sum ms [] = ok (first_runnable 0 ms)
pick_from time_slice sum ms (c ∷ cs) = do
  best ← min_by_deadline time_slice sum c cs
  ok (some best.0)

-- The index of the thread to run next: `next_idx`.
unfoldable pub pick : ℕ → ℕ → ℕ → List ThreadMeta → Checked (Option ℕ)
pick time_slice sum limit ms = pick_from time_slice sum ms (candidates limit 0 ms)

abbrev pub is_current : Option ℕ → ℕ → Bool
is_current none i = false
is_current (some p) i = p == i

-- The switch is skipped: already on the best thread, with a timer, within one time slice.
abbrev pub skips : EevdfScheduler → ℕ → ℕ → Bool
skips s current_tick next =
    is_current s.current next
    && (not (current_tick == 0) && ltb (current_tick - s.last_switch_tick) min_time_slice)

-- `from_ctx`.
unfoldable pub from_context : EevdfScheduler → ℕ → Option ℕ → Checked ℕ
from_context s bootstrap_ctx none = ok bootstrap_ctx
from_context s bootstrap_ctx (some p) = index s.threads p >>= λ t. ok (context_ptr t)

-- Record the switch to thread `next`, and return both context pointers.
unfoldable pub switch_to : EevdfScheduler → ℕ → ℕ → ℕ → Checked (EevdfScheduler × Option (ℕ × ℕ))
switch_to s bootstrap_ctx current_tick next = do
  from_ctx ← from_context s bootstrap_ctx s.current
  t ← index s.threads next
  ok (
    record s { current = some next; last_switch_tick = current_tick },
    some (from_ctx, context_ptr t),
  )

-- The end of `tick_prepare`.
unfoldable pub commit : EevdfScheduler → ℕ → ℕ → ℕ → Checked (EevdfScheduler × Option (ℕ × ℕ))
commit s bootstrap_ctx current_tick next =
    if skips s current_tick next then ok (s, none) else switch_to s bootstrap_ctx current_tick next

abbrev pub time_slice_of : EevdfScheduler → ℕ → ℕ
time_slice_of s current_tick = elim s.current [
  | none ↦ min_time_slice
  | some p ↦ max (current_tick - s.last_switch_tick) min_time_slice
]

-- The bookkeeping before the choice: the metadata and `min_vruntime` that the choice is made by.
unfoldable pub account : EevdfScheduler → ℕ → Checked EevdfScheduler
account s time_slice = do
  ms ← charge s.current s.metadata time_slice
  ok (record s { metadata = ms; min_vruntime = min_vruntime_or s.min_vruntime (runnable ms) })

-- `None` when all threads are blocked.
unfoldable pub choose : EevdfScheduler → ℕ → Checked (Option ℕ)
choose s time_slice = do
  sum ← sum_weights s.metadata
  pick time_slice sum (saturating_add s.min_vruntime (max sum 1)) s.metadata

-- `match next_idx`, and what follows it.
unfoldable pub conclude :
    EevdfScheduler → ℕ → ℕ → Option ℕ → Checked (EevdfScheduler × Option (ℕ × ℕ))
conclude s bootstrap_ctx current_tick none = ok (s, none)
conclude s bootstrap_ctx current_tick (some next) = commit s bootstrap_ctx current_tick next

-- `tick_prepare` with at least one thread.
unfoldable pub tick_threads : EevdfScheduler → ℕ → ℕ → Checked (EevdfScheduler × Option (ℕ × ℕ))
tick_threads s bootstrap_ctx current_tick = do
  s' ← account s (time_slice_of s current_tick)
  next ← choose s' (time_slice_of s current_tick)
  conclude s' bootstrap_ctx current_tick next

unfoldable pub tick_prepare : EevdfScheduler → ℕ → ℕ → Checked (EevdfScheduler × Option (ℕ × ℕ))
tick_prepare s bootstrap_ctx current_tick =
    if length s.threads == 0 then ok (s, none) else tick_threads s bootstrap_ctx current_tick

-- `if let Some(idx) = self.current { self.metadata[idx].blocked = true; }`.
unfoldable pub block_at : Option ℕ → EevdfScheduler → Checked EevdfScheduler
block_at none s = ok s
block_at (some idx) s = mark true idx s

unfoldable pub block_current : EevdfScheduler → Checked EevdfScheduler
block_current s = block_at s.current s

-- The same for the index that the loop of `unblock_thread` finds.
unfoldable pub unblock_at : Option ℕ → EevdfScheduler → Checked EevdfScheduler
unblock_at none s = ok s
unblock_at (some i) s = mark false i s

unfoldable pub unblock_thread : EevdfScheduler → ℕ → Checked EevdfScheduler
unblock_thread s id = unblock_at (position_of id s.threads) s

unfoldable pub block_current_and_prepare_switch :
    EevdfScheduler → ℕ → ℕ → Checked (EevdfScheduler × Option (ℕ × ℕ))
block_current_and_prepare_switch s bootstrap_ctx current_tick = do
  s' ← block_current s
  tick_prepare s' bootstrap_ctx current_tick
