-- ===== src/Doom/Keys/Feed.antt =====
-- feed_scancode of src/ffi/mod.rs: the bytes that the keyboard sends for a key pressed and released
-- become two events of the same key.
use Prim.Native.Nat.{bit_and}
use molt_os.Prelude.{
  ℕ, ◌+◌, ◌<◌, ◌≡◌, ◌≢◌, refl, ap, ◌∙◌, Bool, true, false, List, [], ◌∷◌, ◌==◌, Checked, ok, ◌>>=◌,
  arith,
}
use molt_os.Prelude.Bits.{bit_and-ones, bit_and-high, bit_and-ones_above}
use molt_os.Doom.Keys.{KeyEvent, Keyboard, scancode_to_doom, feed_event, feed_scancode}
use molt_os.Doom.Keys.Ring.{IsValid, contents, pushed, push-queue}

unfoldable pub feed_all : Keyboard → List ℕ → Checked Keyboard
feed_all k [] = ok k
feed_all k (sc ∷ bytes) = feed_scancode k sc >>= λ k'. feed_all k' bytes

-- The bytes of a key: a make code and its break code, each after the prefix for an extended key.
abbrev pub make_and_break : Bool → ℕ → List ℕ
make_and_break true c = 0xe0 ∷ c ∷ 0xe0 ∷ (c + 0x80) ∷ []
make_and_break false c = c ∷ (c + 0x80) ∷ []

abbrev event : ℕ → ℕ → KeyEvent
event pressed key = record { pressed = pressed; key = key }

-- Where a key is mapped, its event is in the contents, and the prefix is forgotten.
abbrev Fed : Keyboard → Checked Keyboard → List KeyEvent → Type 0
Fed k result after =
    (k' : Keyboard) × (result ≡ ok k')
    × IsValid k'.ring
    × (k'.extended ≡ false)
    × (contents k'.ring ≡ after)

feed_event-queue :
    (k : Keyboard) (key pressed : ℕ)
    → IsValid k.ring
    → key ≢ 0
    → Fed k (feed_event k key pressed) (pushed (contents k.ring) (event pressed key))
unfolding feed_event
feed_event-queue k key pressed v h =
    let mapped : (key == 0) ≡ false = ground arith in
    let (r, e, v', q) = push-queue k.ring (event pressed key) v in
    rw (mapped, e) (record { extended = false; ring = r }, refl, v', refl, q)

low_bits_of_make : (c : ℕ) → c < 0x80 → bit_and c 0x7f ≡ c
low_bits_of_make c h = bit_and-ones 7 c h

high_bit_of_make : (c : ℕ) → c < 0x80 → bit_and c 0x80 ≡ 0
high_bit_of_make c h = ap (λ x. bit_and x 0x80) (omega arith) ∙ bit_and-high 7 0 c 1 h

low_bits_of_break : (c : ℕ) → c < 0x80 → bit_and (c + 0x80) 0x7f ≡ c
low_bits_of_break c h = bit_and-ones_above 7 c h

high_bit_of_break : (c : ℕ) → c < 0x80 → bit_and (c + 0x80) 0x80 ≡ 0x80
high_bit_of_break c h = ap (λ x. bit_and x 0x80) (omega arith) ∙ bit_and-high 7 1 c 1 h

feed_make :
    (k : Keyboard) (c : ℕ)
    → IsValid k.ring
    → c < 0x80
    → scancode_to_doom c k.extended ≢ 0
    → Fed k (feed_scancode k c) (pushed (contents k.ring) (event 1 (scancode_to_doom c k.extended)))
unfolding feed_scancode
feed_make k c v h m =
    let no_prefix : (c == 0xe0) ≡ false = ground arith in
    rw (no_prefix, low_bits_of_make c h, high_bit_of_make c h)
      (feed_event-queue k (scancode_to_doom c k.extended) 1 v m)

feed_break :
    (k : Keyboard) (c : ℕ)
    → IsValid k.ring
    → c < 0x80
    → c ≢ 0x60
    → scancode_to_doom c k.extended ≢ 0
    → Fed k
        (feed_scancode k (c + 0x80))
        (pushed (contents k.ring) (event 0 (scancode_to_doom c k.extended)))
unfolding feed_scancode
feed_break k c v h p m =
    let no_prefix : (c + 0x80 == 0xe0) ≡ false = ground arith in
    rw (no_prefix, low_bits_of_break c h, high_bit_of_break c h)
      (feed_event-queue k (scancode_to_doom c k.extended) 0 v m)

feed_prefix : (k : Keyboard) → feed_scancode k 0xe0 ≡ ok (record k { extended = true })
unfolding feed_scancode
feed_prefix k = refl

-- A key that the tables map, extended or not, pressed and released while no prefix is pending: its
-- bytes leave exactly its two events in the ring, as far as there is room, and no prefix pending.
-- The code 0x60 is left out, since its break code is the prefix byte.
pub feed_all-make_and_break :
    (k : Keyboard) (ext : Bool) (c : ℕ)
    → IsValid k.ring
    → k.extended ≡ false
    → c < 0x80
    → c ≢ 0x60
    → scancode_to_doom c ext ≢ 0
    → (k' : Keyboard) × (feed_all k (make_and_break ext c) ≡ ok k')
      × IsValid k'.ring
      × (k'.extended ≡ false)
      × (contents k'.ring
          ≡ pushed
              (pushed (contents k.ring) (record { pressed = 1; key = scancode_to_doom c ext }))
              (record { pressed = 0; key = scancode_to_doom c ext }))
unfolding feed_all
feed_all-make_and_break k true c v none_pending h p m =
    let (k₁, e, v₁, _, q) = feed_make (record k { extended = true }) c v h m in
    let (k₂, e', v₂, x, q') = feed_break (record k₁ { extended = true }) c v₁ h p m in
    rw (feed_prefix k, e, feed_prefix k₁, e')
      (k₂, refl, v₂, x, q' ∙ ap (λ xs. pushed xs (event 0 (scancode_to_doom c true))) q)
feed_all-make_and_break k false c v none_pending h p m =
    let (k₁, e, v₁, x₁, q) = feed_make k c v h (rw none_pending m) in
    let (k₂, e', v₂, x, q') = feed_break k₁ c v₁ h p (rw x₁ m) in
    let first : contents k₁.ring ≡ pushed (contents k.ring) (event 1 (scancode_to_doom c false)) =
      q ∙ ap (λ b. pushed (contents k.ring) (event 1 (scancode_to_doom c b))) none_pending in
    let second : contents k₂.ring ≡ pushed (contents k₁.ring) (event 0 (scancode_to_doom c false)) =
      q' ∙ ap (λ b. pushed (contents k₁.ring) (event 0 (scancode_to_doom c b))) x₁ in
    rw (e, e')
      (k₂, refl, v₂, x, second ∙ ap (λ xs. pushed xs (event 0 (scancode_to_doom c false))) first)
