-- ===== src/Syscall/Answers.antt =====
-- syscall.rs: what a call answers.
use molt_os.Prelude.{
  ℕ, ◌+◌, ◌/◌, ◌%◌, ◌≤◌, ◌<◌, ltb, ◌≡◌, ◌≢◌, inl, inr, refl, ap, ◌==◌, ==_iff, Bool-cases, List, [],
  ◌∷◌, Checked, ok, ◌>>=◌, >>=-eq-ok, u64_max, arith,
}
use molt_os.Vga.Text.{Writer, write_string}
use molt_os.Vga.Text.Writing.{IsValid, write_string-total}
use molt_os.Syscall.{System, newline, char_bytes, put_char_of, dispatch, syscall_handler, invoke}

-- A call that is answered: the result, and the bytes that are printed before it.
pub data Answered (number arg1 : ℕ) (s : System) : ℕ → List ℕ → Type 0 where
  uptime_answer : number ≡ 0 → Answered number arg1 s s.ticks []
  newline_printed : number ≡ 1 → arg1 % 256 ≡ newline → Answered number arg1 s 0 (newline ∷ [])
  ascii_printed :
      (c : ℕ)
      → number ≡ 1
      → arg1 % 256 ≡ c
      → c ≢ newline
      → c < 0x80
      → Answered number arg1 s 0 (c ∷ [])
  -- The `char` of a byte from 0x80 up has two bytes in UTF-8, and each is printed.
  two_printed :
      (c : ℕ)
      → number ≡ 1
      → arg1 % 256 ≡ c
      → 0x80 ≤ c
      → Answered number arg1 s 0 ((0xc0 + c / 64) ∷ (0x80 + c % 64) ∷ [])
  exit_ignored : number ≡ 2 → Answered number arg1 s 0 []
  unknown : 3 ≤ number → Answered number arg1 s u64_max []

char_answer :
    (number arg1 : ℕ) (s : System)
    → number ≡ 1
    → arg1 % 256 ≢ newline
    → Answered number arg1 s 0 (char_bytes (arg1 % 256))
char_answer number arg1 s e other = elim (Bool-cases (ltb (arg1 % 256) 0x80)) [
  | inl t ↦ rw t (ascii_printed (arg1 % 256) e refl other (ground (arith, t)))
  | inr f ↦ rw f (two_printed (arg1 % 256) e refl (ground (arith, f)))
]

-- The state after the answer.
pub record Replied (number arg1 : ℕ) (s : System) (m : Checked (ℕ × System)) : Type 0 where
  pub result : ℕ
  pub printed : List ℕ
  pub writer : Writer
  pub answer : Answered number arg1 s result printed
  pub shown : write_string s.writer printed ≡ ok writer
  pub reply : m ≡ ok (result, record s { writer = writer })

none_shown : (w : Writer) → write_string w [] ≡ ok w
unfolding write_string
none_shown w = refl

pub dispatch-Replied :
    (number arg1 arg2 arg3 : ℕ) (s : System)
    → IsValid s.writer
    → Replied number arg1 s (dispatch number arg1 arg2 arg3 s)
unfolding dispatch put_char_of
dispatch-Replied number arg1 arg2 arg3 s v = elim (Bool-cases (number == 0)) [
  | inl a ↦ record {
    result = s.ticks;
    printed = [];
    writer = s.writer;
    answer = uptime_answer ((==_iff number 0).0 a);
    shown = none_shown s.writer;
    reply = rw a;
  }
  | inr a ↦ elim (Bool-cases (number == 1)) [
    | inl b ↦ elim (Bool-cases (arg1 % 256 == newline)) [
      | inl c ↦
          let (w, e, _) = write_string-total (newline ∷ []) s.writer v in
          record {
            result = 0;
            printed = newline ∷ [];
            writer = w;
            answer = newline_printed ((==_iff number 1).0 b) ((==_iff (arg1 % 256) newline).0 c);
            shown = e;
            reply = rw (a, b, c, e);
          }
      | inr c ↦
          let (w, e, _) = write_string-total (char_bytes (arg1 % 256)) s.writer v in
          record {
            result = 0;
            printed = char_bytes (arg1 % 256);
            writer = w;
            answer = char_answer number arg1 s ((==_iff number 1).0 b) (ground (arith, c));
            shown = e;
            reply = rw (a, b, c, e);
          }
    ]
    | inr b ↦ elim (Bool-cases (number == 2)) [
      | inl c ↦ record {
        result = 0;
        printed = [];
        writer = s.writer;
        answer = exit_ignored ((==_iff number 2).0 c);
        shown = none_shown s.writer;
        reply = rw (a, b, c);
      }
      | inr c ↦ record {
        result = u64_max;
        printed = [];
        writer = s.writer;
        answer = unknown (ground (arith, a, b, c));
        shown = none_shown s.writer;
        reply = rw (a, b, c);
      }
    ]
  ]
]

-- A call with no other call before its result is loaded from the static ends without a panic, with the
-- code's answer: 0 returns the ticks, 1 prints the low byte of its argument and returns 0, 2 does
-- nothing and returns 0, and any other number returns `u64::MAX` and leaves the screen as it was. A low
-- byte below 0x80 is printed as it is, and one from there up as the two bytes of its UTF-8.
pub invoke-Answered :
    (number arg1 arg2 arg3 : ℕ) (s : System)
    → IsValid s.writer
    → (result : ℕ) × (printed : List ℕ) × (w : Writer) × Answered number arg1 s result printed
      × (write_string s.writer printed ≡ ok w)
      × (invoke number arg1 arg2 arg3 (λ t. ok t) s
          ≡ ok (result, record s { writer = w; syscall_return = result }))
unfolding invoke syscall_handler
invoke-Answered number arg1 arg2 arg3 s v =
    let r = dispatch-Replied number arg1 arg2 arg3 s v in
    (r.result, r.printed, r.writer, r.answer, r.shown, rw r.reply)

abbrev returned : Checked System → Checked ℕ
returned m = m >>= λ t. ok t.syscall_return

-- The result is in a static that all threads share. Where another thread's call comes between the
-- handler of a call and the load of its result, the caller gets the result of that other call.
pub invoke-overwritten :
    (number arg1 arg2 arg3 other other1 other2 other3 : ℕ) (s s1 s2 : System)
    → syscall_handler number arg1 arg2 arg3 s ≡ ok s1
    → syscall_handler other other1 other2 other3 s1 ≡ ok s2
    → (invoke number arg1 arg2 arg3 (syscall_handler other other1 other2 other3) s
        ≡ ok (s2.syscall_return, s2))
      × (dispatch other other1 other2 other3 s1 >>= (λ r. ok r.0) ≡ ok s2.syscall_return)
unfolding invoke syscall_handler
invoke-overwritten number arg1 arg2 arg3 other other1 other2 other3 s s1 s2 e f =
    let (r, d, g) = >>=-eq-ok (dispatch other other1 other2 other3 s1) _ f in
    (rw (e, f), rw d (ap returned g))
