-- ===== src/Task/Executor/Passes.antt =====
-- executor.rs: a turn of the loop of `run`.
use molt_os.Prelude.{
  ℕ, ◌+◌, ◌≤◌, ◌<◌, ◌≡◌, refl, ap, sym, ◌∙◌, true, List, [], ◌∷◌, ◌++◌, length, length-append,
  append-nil, snoc-append, ok, arith,
}
use molt_os.Task.Keyboard.{ArrayQueue, IsArrayQueue}
use molt_os.Task.Sleep.Waking.{due, waiting, wake_sleepers-partition}
use molt_os.Task.Executor.{Future, Executor, World, wake_task, wake_all, is_empty, run_once}
use molt_os.Task.Executor.Drained.{polled, IsQuiet, run_ready_tasks-drains}

module _ {T Q E : Type 0} (a : ArrayQueue Q) (f : Future T E) (law : IsArrayQueue a) where
  -- With room for them all, the woken tasks are queued in order.
  wake_all-queued :
      (woken : List ℕ) (q : Q)
      → length (law.contents q) + length woken ≤ law.capacity q
      → (q' : Q) × (wake_all a f woken q ≡ ok q')
        × (law.contents q' ≡ law.contents q ++ woken)
        × (law.capacity q' ≡ law.capacity q)
  unfolding wake_task
  wake_all-queued [] q room = (q, refl, sym (append-nil (law.contents q)), refl)
  wake_all-queued (id ∷ ids) q room =
      let (q1, pushed, held, same) = law.push_room q id (omega arith) in
      let (q2, rest, all_held, same') =
        wake_all-queued ids q1
          (omega (arith, ap length held, length-append (law.contents q) (id ∷ []), same)) in
      (
        q2,
        rw pushed rest,
        all_held ∙ ap (λ (l : List ℕ). l ++ ids) held ∙ snoc-append (law.contents q) id ids,
        same' ∙ same,
      )

  empty-is_empty : (q : Q) → law.contents q ≡ [] → is_empty a f q ≡ true
  unfolding is_empty
  empty-is_empty q h = rw (law.pop_empty q h, is_empty) refl

module _ {T Q W : Type 0} (a : ArrayQueue Q) (f : Future T (World W)) (law : IsArrayQueue a) where
  -- Where no poll wakes a task and the queue has room for the sleepers whose tick has come, a turn of
  -- `run` polls the tasks that are queued and then those sleepers, each once and in order, leaves the
  -- queue empty, and halts until the next interrupt.
  pub run_once-polls :
      (quiet : IsQuiet a f) (ids : List ℕ) (fuel : ℕ) (e : Executor T Q) (w : World W)
      → law.contents e.task_queue ≡ ids
      → length ids + length (due w.clock w.sleepers) ≤ law.capacity e.task_queue
      → length ids + length (due w.clock w.sleepers) < fuel
      → (e' : Executor T Q) × (w' : World W) × (run_once a f fuel e w ≡ ok (e', w', true, true))
        × (law.contents e'.task_queue ≡ [])
        × (law.capacity e'.task_queue ≡ law.capacity e.task_queue)
        × ((e'.tasks, w')
            ≡ polled a f
                (ids ++ due w.clock w.sleepers)
                (e.tasks, record w { sleepers = waiting w.clock w.sleepers }))
  unfolding run_once
  run_once-polls quiet ids fuel e w h room enough =
      let now = due w.clock w.sleepers in
      let split = wake_sleepers-partition w.clock w.sleepers in
      let (q, woken, held, same) =
        wake_all-queued a f law now e.task_queue (omega (arith, ap length h)) in
      let (e', w', ran, empty, same', left) =
        run_ready_tasks-drains a f law quiet (ids ++ now) fuel (record e { task_queue = q })
          (record w { sleepers = waiting w.clock w.sleepers })
          (held ∙ ap (λ (l : List ℕ). l ++ now) h) (omega (arith, length-append ids now)) in
      (
        e',
        w',
        rw (run_once, split, woken, ran, empty-is_empty a f law e'.task_queue empty) refl,
        empty,
        same' ∙ same,
        left,
      )
