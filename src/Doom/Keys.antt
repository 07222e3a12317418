-- ===== src/Doom/Keys.antt =====
-- src/ffi/mod.rs: the ring of key events between the keyboard interrupt and `DG_GetKey`, and the
-- translation of scancodes. The spin lock round the ring, taken with interrupts disabled, makes each
-- call atomic.
pub mod Ring
pub mod Feed
use Prim.Native.Nat.{bit_and}
use molt_os.Prelude.{
  ℕ, ◌+◌, ◌%◌, Bool, true, false, not, Option, none, some, List, [], ◌∷◌, ◌==◌, ltb, if◌then◌else◌,
  Checked, ok, panic, ◌>>=◌,
}

abbrev pub key_buf_size : ℕ
key_buf_size = 32

pub record KeyEvent : Type 0 where
  pub pressed : ℕ
  pub key : ℕ

-- The array `buf` is a function; an access out of its bounds panics.
pub record KeyRing : Type 0 where
  pub buf : ℕ → KeyEvent
  pub head : ℕ
  pub tail : ℕ

-- `KeyRing::new`.
abbrev pub new : KeyRing
new = record { buf = λ i. record { pressed = 0; key = 0 }; head = 0; tail = 0 }

abbrev pub put : (ℕ → KeyEvent) → ℕ → KeyEvent → ℕ → KeyEvent
put buf i ev = λ j. if j == i then ev else buf j

abbrev pub succ_index : ℕ → ℕ
succ_index i = (i + 1) % key_buf_size

-- An event that finds the ring full is dropped.
unfoldable pub push : KeyRing → KeyEvent → Checked KeyRing
push r ev =
    if succ_index r.tail == r.head
    then ok r
    else if ltb r.tail key_buf_size
    then ok (record r { buf = put r.buf r.tail ev; tail = succ_index r.tail })
    else panic

unfoldable pub pop : KeyRing → Checked (KeyRing × Option KeyEvent)
pop r =
    if r.head == r.tail
    then ok (r, none)
    else if ltb r.head key_buf_size
    then ok (record r { head = succ_index r.head }, some (r.buf r.head))
    else panic

-- A `match` on a scancode: the key of its arm, and 0 where there is none.
unfoldable pub key_of : ℕ → List (ℕ × ℕ) → ℕ
key_of sc [] = 0
key_of sc ((code, key) ∷ arms) = let rest = key_of sc arms in if sc == code then key else rest

abbrev pub extended_keys : List (ℕ × ℕ)
extended_keys =
    (0x48, 0xad) ∷ (0x50, 0xaf) ∷ (0x4b, 0xac) ∷ (0x4d, 0xae) ∷ (0x1d, 0x9d) ∷ (0x38, 0xb8) ∷ []

abbrev pub plain_keys : List (ℕ × ℕ)
plain_keys =
    (0x01, 27)
    ∷ (0x0e, 0x7f)
    ∷ (0x0f, 9)
    ∷ (0x1c, 13)
    ∷ (0x39, b' ')
    ∷ (0x1d, 0x9d)
    ∷ (0x2a, 0xb6)
    ∷ (0x36, 0xb6)
    ∷ (0x38, 0xb8)
    ∷ (0x3b, 0xbb)
    ∷ (0x3c, 0xbc)
    ∷ (0x3d, 0xbd)
    ∷ (0x3e, 0xbe)
    ∷ (0x3f, 0xbf)
    ∷ (0x40, 0xc0)
    ∷ (0x41, 0xc1)
    ∷ (0x42, 0xc2)
    ∷ (0x43, 0xc3)
    ∷ (0x44, 0xc4)
    ∷ (0x57, 0xd7)
    ∷ (0x58, 0xd8)
    ∷ (0x02, b'1')
    ∷ (0x03, b'2')
    ∷ (0x04, b'3')
    ∷ (0x05, b'4')
    ∷ (0x06, b'5')
    ∷ (0x07, b'6')
    ∷ (0x08, b'7')
    ∷ (0x09, b'8')
    ∷ (0x0a, b'9')
    ∷ (0x0b, b'0')
    ∷ (0x0c, b'-')
    ∷ (0x0d, b'=')
    ∷ (0x10, b'q')
    ∷ (0x11, b'w')
    ∷ (0x12, b'e')
    ∷ (0x13, b'r')
    ∷ (0x14, b't')
    ∷ (0x15, b'y')
    ∷ (0x16, b'u')
    ∷ (0x17, b'i')
    ∷ (0x18, b'o')
    ∷ (0x19, b'p')
    ∷ (0x1e, b'a')
    ∷ (0x1f, b's')
    ∷ (0x20, b'd')
    ∷ (0x21, b'f')
    ∷ (0x22, b'g')
    ∷ (0x23, b'h')
    ∷ (0x24, b'j')
    ∷ (0x25, b'k')
    ∷ (0x26, b'l')
    ∷ (0x2c, b'z')
    ∷ (0x2d, b'x')
    ∷ (0x2e, b'c')
    ∷ (0x2f, b'v')
    ∷ (0x30, b'b')
    ∷ (0x31, b'n')
    ∷ (0x32, b'm')
    ∷ (0x33, b',')
    ∷ (0x34, b'.')
    ∷ (0x35, b'/')
    ∷ []

unfoldable pub scancode_to_doom : ℕ → Bool → ℕ
scancode_to_doom sc extended = if extended then key_of sc extended_keys else key_of sc plain_keys

-- `EXTENDED` and `KEY_RING`.
pub record Keyboard : Type 0 where
  pub extended : Bool
  pub ring : KeyRing

abbrev pub flag : Bool → ℕ
flag true = 1
flag false = 0

-- The event of a byte that is no prefix, and the push of it if the key is mapped.
unfoldable pub feed_event : Keyboard → ℕ → ℕ → Checked Keyboard
feed_event k key pressed = if key == 0 then ok (record k { extended = false }) else (do
  ring ← push k.ring (record { pressed = pressed; key = key })
  ok (record { extended = false; ring = ring }))

unfoldable pub feed_scancode : Keyboard → ℕ → Checked Keyboard
feed_scancode k sc =
    if sc == 0xe0
    then ok (record k { extended = true })
    else feed_event k (scancode_to_doom (bit_and sc 0x7f) k.extended) (flag (bit_and sc 0x80 == 0))

-- `DG_GetKey`: the new ring, the returned flag, and what is written through `pressed` and `key`.
unfoldable pub get_key : KeyRing → Checked (KeyRing × ℕ × Option KeyEvent)
get_key r = do (r', ev) ← pop r; ok (r', elim ev [ none ↦ 0 | some e ↦ 1 ], ev)
