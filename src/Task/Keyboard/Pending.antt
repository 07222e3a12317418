-- ===== src/Task/Keyboard/Pending.antt =====
-- keyboard.rs: no wake-up of the stream is lost.
use molt_os.Prelude.{
  ℕ, ◌<◌, ◌≡◌, refl, ap, ◌∙◌, inl, inr, Option, none, some, Checked, panic, List, [], ◌∷◌, ◌++◌,
  length, ltb, Bool-cases, List-cases, ok, arith,
}
use molt_os.Task.Keyboard.{
  ArrayQueue, IsArrayQueue, AtomicWaker, IsAtomicWaker, Scancodes, wake, add_scancode, pop_next,
  poll_next,
}
use molt_os.Task.Keyboard.Stream.{add_all}

module _ {Q W : Type 0} (a : ArrayQueue Q) (w : AtomicWaker W) where
  -- Where there is a queue, a poll is its two steps.
  poll_present :
      (between : Scancodes Q W → Scancodes Q W) (s : Scancodes Q W) (q : Q) (id : ℕ)
      → s.queue ≡ some q
      → poll_next a w between s id
        ≡ pop_next a w (between (record s { waker = w.register s.waker id }))
  unfolding poll_next
  poll_present between s q id present = go s.queue present
    where
      go :
          {x : Checked (Scancodes Q W × Option ℕ)} (o : Option Q)
          → o ≡ some q
          → (elim o [ none ↦ panic | some q ↦ x ]) ≡ x
      go none e = cc
      go (some q) e = refl

  module _ (law : IsArrayQueue a) where
    -- A queue with `x` in front.
    record Filled (x : ℕ) (s : Scancodes Q W) : Type 0 where
      pub queue : Q
      pub rest : List ℕ
      pub present : s.queue ≡ some queue
      pub holds : law.contents queue ≡ x ∷ rest

    -- A scancode that comes to a queue that has room or is not empty leaves what is in front.
    add_scancode-Filled :
        (x v : ℕ) (s : Scancodes Q W) → Filled x s → Filled x (add_scancode a w s v)
    unfolding add_scancode wake
    add_scancode-Filled x v s h =
        elim (Bool-cases (ltb (length (law.contents h.queue)) (law.capacity h.queue))) [
          | inl room ↦
              let (q', accepted, holds, _) = law.push_room h.queue v (ground (arith, room)) in
              record {
                queue = q';
                rest = h.rest ++ (v ∷ []);
                present = rw (h.present, accepted);
                holds = holds ∙ ap (λ xs. xs ++ (v ∷ [])) h.holds;
              }
          | inr full ↦
              let refused = law.push_full h.queue v (ground (arith, full)) in
              record {
                queue = h.queue;
                rest = h.rest;
                present = rw (h.present, refused);
                holds = h.holds;
              }
        ]

    add_all-Filled :
        (x : ℕ) (vs : List ℕ) (s : Scancodes Q W) → Filled x s → Filled x (add_all a w s vs)
    unfolding add_all
    add_all-Filled x [] s h = h
    add_all-Filled x (v ∷ vs) s h = add_all-Filled x vs _ (add_scancode-Filled x v s h)

    -- The first scancode of an empty queue is in front.
    first-Filled :
        (v : ℕ) (s : Scancodes Q W) (q : Q)
        → s.queue ≡ some q
        → law.contents q ≡ []
        → 0 < law.capacity q
        → Filled v (add_scancode a w s v)
    unfolding add_scancode wake
    first-Filled v s q present empty room =
        let (q', accepted, holds, _) = law.push_room q v (omega (arith, room, ap length empty)) in
        record {
          queue = q';
          rest = [];
          present = rw (present, accepted);
          holds = holds ∙ ap (λ xs. xs ++ (v ∷ [])) empty;
        }

    pop_next-Filled :
        (x : ℕ) (s : Scancodes Q W)
        → Filled x s
        → (s' : Scancodes Q W) × (pop_next a w s ≡ ok (s', some x))
    pop_next-Filled x s h =
        let (q', popped, _, _) = law.pop_next h.queue x h.rest h.holds in
        (record s { queue = some q' }, rw (h.present, popped))

    poll-Filled :
        (x : ℕ) (s : Scancodes Q W) (id : ℕ)
        → Filled x s
        → (s' : Scancodes Q W) × (poll_next a w (λ t. t) s id ≡ ok (s', some x))
    unfolding poll_next
    poll-Filled x s id h =
        let (q', popped, _, _) = law.pop_next h.queue x h.rest h.holds in
        (record s { waker = w.register s.waker id; queue = some q' }, rw (h.present, popped))

    -- A scancode that is accepted after the registration wakes the task.
    registered-woken :
        (live : IsAtomicWaker w) (s : Scancodes Q W) (q : Q) (id v : ℕ)
        → s.queue ≡ some q
        → law.contents q ≡ []
        → 0 < law.capacity q
        → (add_scancode a w (record s { waker = w.register s.waker id }) v).woken ≡ id ∷ s.woken
    unfolding add_scancode wake
    registered-woken live s q id v present empty room =
        let (q', accepted, _, _) = law.push_room q v (omega (arith, room, ap length empty)) in
        rw (present, accepted, live.take_registered s.waker id)

    -- What a poll of task `id` leaves and yields, where the queue was `q` and the scancodes `vs` come
    -- between its two steps: the scancode in front, or nothing, if there was none and none came. Then
    -- the next scancode wakes the task, and is what the poll that follows yields.
    pub data Polled (s : Scancodes Q W) (q : Q) (id : ℕ) (vs : List ℕ) (s' : Scancodes Q W)
        : Option ℕ → Type 0 where
      ready :
          (x : ℕ) (rest : List ℕ) → law.contents q ++ vs ≡ x ∷ rest → Polled s q id vs s' (some x)
      pending :
          law.contents q ≡ []
          → vs ≡ []
          → ((v : ℕ)
              → ((add_scancode a w s' v).woken ≡ id ∷ s.woken)
                × (t : Scancodes Q W) × (poll_next a w (λ u. u) (add_scancode a w s' v) id
                    ≡ ok (t, some v)))
          → Polled s q id vs s' none

    -- No wake-up is lost, even where scancodes come between the registration of the waker and the pop.
    pub pending_woken :
        (live : IsAtomicWaker w) (s : Scancodes Q W) (q : Q) (id : ℕ) (vs : List ℕ)
        → s.queue ≡ some q
        → 0 < law.capacity q
        → (s' : Scancodes Q W) × (o : Option ℕ) × (poll_next a w (λ t. add_all a w t vs) s id
            ≡ ok (s', o))
          × Polled s q id vs s' o
    unfolding add_all
    pending_woken live s q id vs present room =
        let s1 : Scancodes Q W = record s { waker = w.register s.waker id } in
        elim (List-cases (law.contents q)) [
          | inr (x, rest, e) ↦
              let front =
                add_all-Filled x vs s1
                  record { queue = q; rest = rest; present = present; holds = e } in
              let (s', popped) = pop_next-Filled x _ front in
              (s', some x, poll_present _ s q id present ∙ popped, ready x (rest ++ vs) (rw e refl))
          | inl empty ↦ elim (List-cases vs) [
            | inr (v, ws, e) ↦
                let front = add_all-Filled v ws _ (first-Filled v s1 q present empty room) in
                let (s', popped) = pop_next-Filled v _ front in
                (
                  s',
                  some v,
                  poll_present _ s q id present ∙ rw e popped,
                  ready v ws (rw (empty, e) refl),
                )
            | inl quiet ↦ (
              s1,
              none,
              poll_present _ s q id present ∙ rw (quiet, present, law.pop_empty q empty) refl,
              pending empty quiet (λ v.
                  let (t, polled) = poll-Filled v _ id (first-Filled v s1 q present empty room) in
                  (registered-woken live s q id v present empty room, t, polled)),
            )
          ]
        ]
