-- ===== src/Task/Executor/Drained.antt =====
-- executor.rs: the loop empties the queue.
use molt_os.Prelude.{
  ℕ, zero, suc, ◌<◌, ◌≡◌, arith, refl, ap, ◌∙◌, ◌⊎◌, inl, inr, Bool, true, false, if◌then◌else◌,
  Option, none, some, List, [], ◌∷◌, length, ok,
}
use molt_os.Task.Keyboard.{ArrayQueue, IsArrayQueue}
use molt_os.Task.Executor.{
  Future, Task, Executor, get, remove, update, remove_id, with_id, settle, run_task,
  run_ready_tasks,
}

module _ {T Q E : Type 0} (a : ArrayQueue Q) (f : Future T E) where
  -- The tasks, and what the polls share.
  abbrev pub Polled : Type 0
  Polled = List (Task T) × E

  -- After a poll of the task `id`, if it is there: one that is ready is gone.
  unfoldable pub poll_once : ℕ → Polled → Polled
  poll_once id (ts, env) = elim (get id ts) [
    | none ↦ (ts, env)
    | some future ↦
        let p = f.poll future id env in (if p.1 then remove id ts else update id p.0 ts, p.3)
  ]

  -- After each of `ids` has been polled once, in order.
  unfoldable pub polled : List ℕ → Polled → Polled
  polled [] p = p
  polled (id ∷ ids) p = polled ids (poll_once id p)

  -- Polls that wake no task.
  abbrev pub IsQuiet : Type 0
  IsQuiet = (future : T) (id : ℕ) (env : E) → (f.poll future id env).2 ≡ []

  get-cases : (o : Option T) → (o ≡ none) ⊎ ((t : T) × (o ≡ some t))
  get-cases none = inl refl
  get-cases (some t) = inr (t, refl)

  settle-polled :
      (id : ℕ) (p : T × Bool × List ℕ × E) (e : Executor T Q)
      → p.2 ≡ []
      → (e' : Executor T Q) × (settle a f id p e ≡ ok (e', p.3))
        × (e'.task_queue ≡ e.task_queue)
        × (e'.tasks ≡ (if p.1 then remove id e.tasks else update id p.0 e.tasks))
  unfolding settle
  settle-polled id (future, true, woken, env) e none_woken =
      let done : Executor T Q = record e {
        tasks = remove id e.tasks;
        waker_cache = remove_id id e.waker_cache;
      } in
      (done, rw none_woken, refl, refl)
  settle-polled id (future, false, woken, env) e none_woken =
      let kept : Executor T Q = record e { tasks = update id future e.tasks } in
      (kept, rw none_woken, refl, refl)

  run_task-polled :
      (id : ℕ) (e : Executor T Q) (env : E)
      → IsQuiet
      → (e' : Executor T Q) × (env' : E) × (run_task a f id e env ≡ ok (e', env'))
        × (e'.task_queue ≡ e.task_queue)
        × ((e'.tasks, env') ≡ poll_once id (e.tasks, env))
  unfolding run_task poll_once
  run_task-polled id e env quiet = elim (get-cases (get id e.tasks)) [
    | inl gone ↦ (e, env, rw (run_task, gone), refl, rw (poll_once, gone))
    | inr (future, there) ↦
        let cached : Executor T Q = record e { waker_cache = with_id id e.waker_cache } in
        let p = f.poll future id env in
        let (e', settled, queue, tasks) = settle-polled id p cached (quiet future id env) in
        (
          e',
          p.3,
          rw (run_task, there) settled,
          queue,
          rw (poll_once, there) (ap (λ (ts : List (Task T)). (ts, p.3)) tasks),
        )
  ]

  -- Where no poll wakes a task, the loop ends after a turn for each entry of the queue: the queue is
  -- empty, each task of an entry has been polled once, in order, and those that were ready are gone.
  pub run_ready_tasks-drains :
      (law : IsArrayQueue a) (quiet : IsQuiet) (ids : List ℕ) (fuel : ℕ) (e : Executor T Q)
      (env : E)
      → law.contents e.task_queue ≡ ids
      → length ids < fuel
      → (e' : Executor T Q) × (env' : E) × (run_ready_tasks a f fuel e env ≡ ok (e', env', true))
        × (law.contents e'.task_queue ≡ [])
        × (law.capacity e'.task_queue ≡ law.capacity e.task_queue)
        × ((e'.tasks, env') ≡ polled ids (e.tasks, env))
  unfolding run_ready_tasks polled
  run_ready_tasks-drains law quiet ids zero e env h enough = absurd (omega arith)
  run_ready_tasks-drains law quiet [] (suc fuel) e env h enough =
      (e, env, rw (run_ready_tasks, law.pop_empty e.task_queue h), h, refl, refl)
  run_ready_tasks-drains law quiet (id ∷ ids) (suc fuel) e env h enough =
      let (q, popped, rest, room) = law.pop_next e.task_queue id ids h in
      let (e1, env1, turned, queue, tasks) =
        run_task-polled id (record e { task_queue = q }) env quiet in
      let (e2, env2, ended, empty, same, left) =
        run_ready_tasks-drains law quiet ids fuel e1 env1 (ap law.contents queue ∙ rest)
          (omega arith) in
      (
        e2,
        env2,
        rw (run_ready_tasks, popped, turned) ended,
        empty,
        same ∙ ap law.capacity queue ∙ room,
        left ∙ ap (polled ids) tasks,
      )
