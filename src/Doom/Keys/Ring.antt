-- ===== src/Doom/Keys/Ring.antt =====
-- The key ring of src/ffi/mod.rs is a queue of at most 31 events.
use molt_os.Prelude.{
  ℕ, zero, suc, ◌+◌, ◌-◌, ◌%◌, ◌<◌, ◌≡◌, ◌≢◌, refl, ap, ap₂, ◌∙◌, true, false, Option, none, some,
  List, [], ◌∷◌, ◌++◌, ◌==◌, ltb, if◌then◌else◌, Checked, ok, ◌>>=◌, arith, lt→ltb, length,
  Bool-cases, inl, inr,
}
use molt_os.Doom.Keys.{KeyEvent, KeyRing, key_buf_size, put, succ_index, push, pop, get_key, new}

pub record IsValid (r : KeyRing) : Type 0 where
  pub head_in : r.head < key_buf_size
  pub tail_in : r.tail < key_buf_size

-- How many events are in the ring.
abbrev pub count : KeyRing → ℕ
count r = (r.tail + key_buf_size - r.head) % key_buf_size

-- The `n` events from index `i` on, going round at the end of the array.
abbrev pub events : (ℕ → KeyEvent) → ℕ → ℕ → List KeyEvent
events buf i zero = []
events buf i (suc n) = buf i ∷ events buf (succ_index i) n

-- The events in the ring, oldest first.
abbrev pub contents : KeyRing → List KeyEvent
contents r = events r.buf r.head (count r)

-- The slot after the `n` events is none of theirs, and a write there adds it at the end.
put_self : (buf : ℕ → KeyEvent) (i j : ℕ) (ev : KeyEvent) → j ≡ i → put buf i ev j ≡ ev
put_self buf i j ev h = ground arith

put_ne : (buf : ℕ → KeyEvent) (i j : ℕ) (ev : KeyEvent) → j ≢ i → put buf i ev j ≡ buf j
put_ne buf i j ev h = ground arith

events-put :
    (buf : ℕ → KeyEvent) (ev : KeyEvent) (n i slot : ℕ)
    → i < key_buf_size
    → n < key_buf_size
    → slot ≡ (i + n) % key_buf_size
    → events (put buf slot ev) i (suc n) ≡ events buf i n ++ (ev ∷ [])
events-put buf ev zero i slot h k e = ap (λ x. x ∷ []) (put_self buf slot i ev (omega arith))
events-put buf ev (suc n) i slot h k e =
    ap₂ (λ x xs. x ∷ xs) (put_ne buf slot i ev (omega arith))
      (events-put buf ev n (succ_index i) slot (omega arith) (omega arith) (omega arith))

-- The ring refines a queue of at most 31 events: the contents that a call leaves.
abbrev pub capacity : ℕ
capacity = 31

abbrev pub pushed : List KeyEvent → KeyEvent → List KeyEvent
pushed xs ev = if ltb (length xs) capacity then xs ++ (ev ∷ []) else xs

abbrev pub rest_of : List KeyEvent → List KeyEvent
rest_of [] = []
rest_of (x ∷ xs) = xs

abbrev pub first_of : List KeyEvent → Option KeyEvent
first_of [] = none
first_of (x ∷ xs) = some x

length-events : (buf : ℕ → KeyEvent) (i n : ℕ) → length (events buf i n) ≡ n
length-events buf i zero = refl
length-events buf i (suc n) = ap suc (length-events buf (succ_index i) n)

-- The contents after a write at the tail and its advance.
contents-put :
    (r : KeyRing) (ev : KeyEvent)
    → IsValid r
    → succ_index r.tail ≢ r.head
    → contents (record r { buf = put r.buf r.tail ev; tail = succ_index r.tail })
      ≡ contents r ++ (ev ∷ [])
contents-put r ev v h =
    let more : (succ_index r.tail + key_buf_size - r.head) % key_buf_size ≡ suc (count r) =
      omega (arith, v.head_in, v.tail_in) in
    ap (events (put r.buf r.tail ev) r.head) more
    ∙ events-put r.buf ev (count r) r.head r.tail v.head_in (omega arith) (omega arith)

contents-advance :
    (r : KeyRing)
    → IsValid r
    → r.head ≢ r.tail
    → contents r ≡ r.buf r.head ∷ contents (record r { head = succ_index r.head })
contents-advance r v h =
    let one : count r ≡ suc ((r.tail + key_buf_size - succ_index r.head) % key_buf_size) =
      omega (arith, v.head_in, v.tail_in) in
    ap (events r.buf r.head) one

-- What a push leaves.
pub push-queue :
    (r : KeyRing) (ev : KeyEvent)
    → IsValid r
    → (r' : KeyRing) × (push r ev ≡ ok r') × IsValid r' × (contents r' ≡ pushed (contents r) ev)
unfolding push
push-queue r ev v = elim (Bool-cases (succ_index r.tail == r.head)) [
  | inl t ↦
      let full : ltb (length (contents r)) capacity ≡ false =
        rw (length-events r.buf r.head (count r)) (ground arith) in
      rw (t, full) (r, refl, v, refl)
  | inr t ↦
      let apart : succ_index r.tail ≢ r.head = ground arith in
      let inside : ltb r.tail key_buf_size ≡ true = lt→ltb r.tail key_buf_size v.tail_in in
      let room : ltb (length (contents r)) capacity ≡ true =
        rw (length-events r.buf r.head (count r)) (lt→ltb (count r) capacity (ground arith)) in
      rw (t, inside, room)
        (
          record r { buf = put r.buf r.tail ev; tail = succ_index r.tail },
          refl,
          record { head_in = v.head_in; tail_in = omega arith },
          contents-put r ev v apart,
        )
]

pop-queue :
    (r : KeyRing)
    → IsValid r
    → (r' : KeyRing) × (pop r ≡ ok (r', first_of (contents r)))
      × IsValid r'
      × (contents r' ≡ rest_of (contents r))
unfolding pop
pop-queue r v = elim (Bool-cases (r.head == r.tail)) [
  | inl t ↦
      let none_left : contents r ≡ [] =
        let zero_left : count r ≡ 0 = ground arith in ap (events r.buf r.head) zero_left in
      rw (t, none_left) (r, refl, v, none_left)
  | inr t ↦
      let apart : r.head ≢ r.tail = ground arith in
      let inside : ltb r.head key_buf_size ≡ true = lt→ltb r.head key_buf_size v.head_in in
      rw (t, inside, contents-advance r v apart)
        (
          record r { head = succ_index r.head },
          refl,
          record { head_in = omega arith; tail_in = v.tail_in },
          refl,
        )
]

-- The two sides of the ring: the interrupt's pushes and the game's reads.
pub data Use : Type 0 where
  press : KeyEvent → Use
  read : Use

unfoldable pub use_ring : KeyRing → List Use → Checked (KeyRing × List (ℕ × Option KeyEvent))
use_ring r [] = ok (r, [])
use_ring r (press ev ∷ us) = push r ev >>= λ r'. use_ring r' us
use_ring r (read ∷ us) = do
  (r', returned, ev) ← get_key r
  (r'', outs) ← use_ring r' us
  ok (r'', (returned, ev) ∷ outs)

-- The same uses of a queue.
abbrev pub answer : Option KeyEvent → ℕ × Option KeyEvent
answer none = (0, none)
answer (some e) = (1, some e)

unfoldable pub use_queue : List KeyEvent → List Use → List KeyEvent × List (ℕ × Option KeyEvent)
use_queue q [] = (q, [])
use_queue q (press ev ∷ us) = use_queue (pushed q ev) us
use_queue q (read ∷ us) =
    let after = use_queue (rest_of q) us in (after.0, answer (first_of q) ∷ after.1)

get_key-eq-ok :
    (r r' : KeyRing) (ev : Option KeyEvent)
    → pop r ≡ ok (r', ev)
    → get_key r ≡ ok (r', (answer ev).0, (answer ev).1)
unfolding get_key
get_key-eq-ok r r' none e = rw e refl
get_key-eq-ok r r' (some x) e = rw e refl

use_ring-queue :
    (us : List Use) (r : KeyRing) (q : List KeyEvent)
    → IsValid r
    → contents r ≡ q
    → (r' : KeyRing) × (use_ring r us ≡ ok (r', (use_queue q us).1))
      × IsValid r'
      × (contents r' ≡ (use_queue q us).0)
unfolding use_ring use_queue
use_ring-queue [] r q v same = (r, refl, v, same)
use_ring-queue (press ev ∷ us) r q v same =
    let (r', e, v', now) = push-queue r ev v in
    rw e (use_ring-queue us r' (pushed q ev) v' (now ∙ ap (λ x. pushed x ev) same))
use_ring-queue (read ∷ us) r q v same =
    let (r', e, v', now) = pop-queue r v in
    let got : get_key r ≡ ok (r', (answer (first_of q)).0, (answer (first_of q)).1) =
      get_key-eq-ok r r' (first_of (contents r)) e
      ∙ ap (λ x. ok (r', (answer (first_of x)).0, (answer (first_of x)).1)) same in
    let (r'', e', v'', now') = use_ring-queue us r' (rest_of q) v' (now ∙ ap rest_of same) in
    rw (got, e') (r'', refl, v'', now')

new-IsValid : IsValid new
new-IsValid = record { head_in = omega arith; tail_in = omega arith }

-- Whatever the order of pushes and reads from the empty ring on, none panics, and the reads return
-- what they would from a queue that drops a push when it holds 31 events.
pub new-queue :
    (us : List Use)
    → (r : KeyRing) × (use_ring new us ≡ ok (r, (use_queue [] us).1))
      × (contents r ≡ (use_queue [] us).0)
new-queue us = let (r, e, _, q) = use_ring-queue us new [] new-IsValid refl in (r, e, q)
