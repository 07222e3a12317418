-- ===== src/Task/Executor.antt =====
-- src/task/executor.rs and src/task/mod.rs: the cooperative executor. A future is a parameter: what a
-- poll does to it and to the rest of the kernel, whether it is ready, and which tasks are woken
-- meanwhile. The queue is crossbeam's.
pub mod Drained
pub mod Passes
pub mod Asleep
use molt_os.Prelude.{
  ℕ, zero, suc, ◌+◌, ◌%◌, ◌==◌, Bool, true, false, if◌then◌else◌, Option, none, some, List, [], ◌∷◌,
  Checked, ok, panic, ◌>>=◌, word,
}
use molt_os.Task.Keyboard.{ArrayQueue}
use molt_os.Task.Sleep.{Sleeper, wake_sleepers}

-- `poll` with the waker of a task; the ids are those of the tasks woken until it returns, by the
-- future or by interrupts, in order.
pub record Future (T E : Type 0) : Type 0 where
  pub poll : T → ℕ → E → T × Bool × List ℕ × E

-- `Task`: its id and its future.
abbrev pub Task : Type 0 → Type 0
Task T = ℕ × T

-- `TaskId::new`: the atomic counter is read and then advanced, wrapping.
abbrev pub new_id : ℕ → ℕ × ℕ
new_id counter = (counter, (counter + 1) % word)

-- `Task::new`.
abbrev pub new_task : {T : Type 0} → T → ℕ → Task T × ℕ
new_task future counter = (((new_id counter).0, future), (new_id counter).1)

-- The maps are lists of entries with different ids; of `waker_cache` the ids are enough.
pub record Executor (T Q : Type 0) : Type 0 where
  pub tasks : List (Task T)
  pub task_queue : Q
  pub waker_cache : List ℕ

module _ {T : Type 0} where
  unfoldable pub get : ℕ → List (Task T) → Option T
  get id [] = none
  get id (t ∷ ts) = let rest = get id ts in if t.0 == id then some t.1 else rest

  unfoldable pub remove : ℕ → List (Task T) → List (Task T)
  remove id [] = []
  remove id (t ∷ ts) = let rest = remove id ts in if t.0 == id then rest else t ∷ rest

  -- The task after a poll that was `Pending`.
  unfoldable pub update : ℕ → T → List (Task T) → List (Task T)
  update id future [] = []
  update id future (t ∷ ts) =
      let rest = update id future ts in if t.0 == id then (id, future) ∷ rest else t ∷ rest

unfoldable pub remove_id : ℕ → List ℕ → List ℕ
remove_id id [] = []
remove_id id (x ∷ xs) = let rest = remove_id id xs in if x == id then rest else x ∷ rest

-- `entry(task_id).or_insert_with(..)`.
abbrev pub with_id : ℕ → List ℕ → List ℕ
with_id id xs = id ∷ remove_id id xs

-- What the polls share: the sleepers, the clock in ticks, and anything else.
pub record World (W : Type 0) : Type 0 where
  pub sleepers : List Sleeper
  pub clock : ℕ
  pub other : W

module _ {T Q E : Type 0} (a : ArrayQueue Q) (f : Future T E) where
  abbrev pub new : Executor T Q
  new = record { tasks = []; task_queue = a.empty 100; waker_cache = [] }

  abbrev pub accepted : Option Q → Checked Q
  accepted none = panic
  accepted (some q) = ok q

  -- `TaskWaker::wake_task`; a full queue panics.
  unfoldable pub wake_task : ℕ → Q → Checked Q
  wake_task id q = accepted (a.push q id)

  unfoldable pub spawn : Executor T Q → Task T → Checked (Executor T Q)
  spawn e task = elim (get task.0 e.tasks) [
    | some old ↦ panic
    | none ↦ (do
      q ← wake_task task.0 e.task_queue
      ok (record e { tasks = task ∷ e.tasks; task_queue = q }))
  ]

  abbrev pub wake_all : List ℕ → Q → Checked Q
  wake_all [] q = ok q
  wake_all (id ∷ ids) q = wake_task id q >>= wake_all ids

  -- The end of a turn, from the outcome of the poll.
  unfoldable pub settle : ℕ → T × Bool × List ℕ × E → Executor T Q → Checked (Executor T Q × E)
  settle id (future, ready, woken, env) e = do
    q ← wake_all woken e.task_queue
    if ready
        then ok (
          record {
            tasks = remove id e.tasks;
            task_queue = q;
            waker_cache = remove_id id e.waker_cache;
          },
          env,
        )
        else ok (record e { tasks = update id future e.tasks; task_queue = q }, env)

  -- A turn of the loop of `run_ready_tasks` for a task that was popped; one that is gone is passed.
  unfoldable pub run_task : ℕ → Executor T Q → E → Checked (Executor T Q × E)
  run_task id e env = elim (get id e.tasks) [
    | none ↦ ok (e, env)
    | some future ↦
        settle id (f.poll future id env) (record e { waker_cache = with_id id e.waker_cache })
  ]

  -- The loop, for at most `fuel` turns; whether the queue was found empty.
  unfoldable pub run_ready_tasks : ℕ → Executor T Q → E → Checked (Executor T Q × E × Bool)
  run_ready_tasks zero e env = ok (e, env, false)
  run_ready_tasks (suc fuel) e env = elim (a.pop e.task_queue) [
    | none ↦ ok (e, env, true)
    | some (id, q) ↦
        run_task id (record e { task_queue = q }) env >>= λ r. run_ready_tasks fuel r.0 r.1
  ]

  -- `is_empty`: there is nothing to pop.
  unfoldable pub is_empty : Q → Bool
  is_empty q = elim (a.pop q) [ none ↦ true | some popped ↦ false ]

module _ {T Q W : Type 0} (a : ArrayQueue Q) (f : Future T (World W)) where
  -- A turn of the loop of `run`: whether the queue was found empty, and whether `sleep_if_idle` halts.
  unfoldable pub run_once :
      ℕ → Executor T Q → World W → Checked (Executor T Q × World W × Bool × Bool)
  run_once fuel e w =
      let s = wake_sleepers w.clock w.sleepers in
      do
        q ← wake_all a f s.1 e.task_queue
        r ← run_ready_tasks a f fuel (record e { task_queue = q }) (record w { sleepers = s.0 })
        ok (r.0, r.1, r.2, is_empty a f r.0.task_queue)

  -- Turns of `run` at the ticks of a list.
  unfoldable pub run_at : ℕ → List ℕ → Executor T Q → World W → Checked (Executor T Q × World W)
  run_at fuel [] e w = ok (e, w)
  run_at fuel (tick ∷ ticks) e w =
      run_once fuel e (record w { clock = tick }) >>= λ r. run_at fuel ticks r.0 r.1
