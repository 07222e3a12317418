-- ===== src/Task/Keyboard/Stream.antt =====
-- keyboard.rs: the stream yields the scancodes in the order in which they came, up to a hundred of them.
use molt_os.Prelude.{
  subst, append-nil, snoc-append, ℕ, zero, suc, ◌+◌, ◌-◌, ◌<◌, ◌≤◌, ◌≡◌, refl, sym, ap, ◌∙◌, none,
  some, List, [], ◌∷◌, ◌++◌, length, length-append, Checked, ok, ◌>>=◌, arith,
}
use molt_os.Task.Keyboard.{
  ArrayQueue, IsArrayQueue, AtomicWaker, Scancodes, wake, add_scancode, poll_next,
  init_scancode_queue, scancode_capacity,
}

module _ {Q W : Type 0} (a : ArrayQueue Q) (w : AtomicWaker W) where
  unfoldable pub add_all : Scancodes Q W → List ℕ → Scancodes Q W
  add_all s [] = s
  add_all s (v ∷ vs) = add_all (add_scancode a w s v) vs

  -- The scancodes that `n` polls of task `id` yield, up to the first that is `Pending`.
  pub drain : ℕ → Scancodes Q W → ℕ → Checked (List ℕ)
  drain zero s id = ok []
  drain (suc n) s id = poll_next a w (λ t. t) s id >>= λ r. elim r.1 [
    | none ↦ ok []
    | some v ↦ drain n r.0 id >>= λ vs. ok (v ∷ vs)
  ]

  module _ (law : IsArrayQueue a) where
    -- A queue is there and holds `vs`, with room for `room` more.
    record Holds (s : Scancodes Q W) (vs : List ℕ) (room : ℕ) : Type 0 where
      pub queue : Q
      pub present : s.queue ≡ some queue
      pub holds : law.contents queue ≡ vs
      pub fits : length vs + room ≡ law.capacity queue

    add_scancode-Holds :
        (s : Scancodes Q W) (vs : List ℕ) (room v : ℕ)
        → Holds s vs (suc room)
        → Holds (add_scancode a w s v) (vs ++ (v ∷ [])) room
    unfolding add_scancode wake
    add_scancode-Holds s vs room v h =
        let (q', accepted, holds, capacity) =
          law.push_room h.queue v (omega (arith, h.fits, ap length h.holds)) in
        record {
          queue = q';
          present = rw (h.present, accepted);
          holds = holds ∙ ap (λ xs. xs ++ (v ∷ [])) h.holds;
          fits = omega (arith, length-append vs (v ∷ []), h.fits, capacity);
        }

    add_all-Holds :
        (s : Scancodes Q W) (vs ws : List ℕ) (room : ℕ)
        → Holds s vs (length ws + room)
        → Holds (add_all s ws) (vs ++ ws) room
    unfolding add_all
    add_all-Holds s vs [] room h = record {
      queue = h.queue;
      present = h.present;
      holds = h.holds ∙ sym (append-nil vs);
      fits = omega (arith, h.fits, length-append vs []);
    }
    add_all-Holds s vs (v ∷ ws) room h =
        subst (λ us. Holds (add_all (add_scancode a w s v) ws) us room) (snoc-append vs v ws)
          (add_all-Holds (add_scancode a w s v) (vs ++ (v ∷ [])) ws room (
            add_scancode-Holds s vs (length ws + room) v record {
              queue = h.queue;
              present = h.present;
              holds = h.holds;
              fits = omega (arith, h.fits);
            }))

    drain-Holds :
        (n id : ℕ) (s : Scancodes Q W) (vs : List ℕ) (room : ℕ)
        → Holds s vs room
        → length vs < n
        → drain n s id ≡ ok vs
    unfolding drain poll_next
    drain-Holds zero id s vs room h lt = absurd (omega arith)
    drain-Holds (suc n) id s [] room h lt = rw (h.present, law.pop_empty h.queue h.holds)
    drain-Holds (suc n) id s (v ∷ vs) room h lt =
        let (q', popped, holds, capacity) = law.pop_next h.queue v vs h.holds in
        let rest =
          drain-Holds n id (record s { waker = w.register s.waker id; queue = some q' }) vs
            (suc room)
            record {
              queue = q';
              present = refl;
              holds = holds;
              fits = omega (arith, h.fits, capacity);
            }
            (omega arith) in
        rw (h.present, popped, rest)

    -- Up to 100 scancodes that arrive on the new queue are yielded by the stream in their order, and
    -- then it is `Pending`.
    pub drain-add_all :
        (s : Scancodes Q W) (vs : List ℕ) (id : ℕ)
        → s.queue ≡ none
        → length vs ≤ scancode_capacity
        → drain (suc (length vs)) (add_all (init_scancode_queue a w s) vs) id ≡ ok vs
    unfolding init_scancode_queue
    drain-add_all s vs id none_yet fits =
        let start : Holds (init_scancode_queue a w s) []
            (length vs + (scancode_capacity - length vs)) =
          record {
            queue = a.empty scancode_capacity;
            present = rw none_yet;
            holds = law.empty_contents scancode_capacity;
            fits = omega (arith, law.empty_capacity scancode_capacity, fits);
          } in
        drain-Holds (suc (length vs)) id _ vs _ (add_all-Holds _ [] vs _ start) (omega arith)
