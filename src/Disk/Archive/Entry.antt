-- ===== src/Disk/Archive/Entry.antt =====
-- fs.rs: what is read of one entry of an archive.
use molt_os.Prelude.{
  ℕ, zero, suc, ◌+◌, ◌-◌, ◌^◌, ◌≤◌, ◌<◌, ◌≡◌, refl, sym, ap, ◌∙◌, ◌==◌, true, false, ltb, leb, some,
  List, [], ◌∷◌, ◌++◌, All, append_assoc, length, length-append, take, drop, replicate, ok, arith,
}
use molt_os.Disk.Archive.{name_len, slice, from_le_bytes, utf8_from, until_zero, number_at}
use molt_os.Disk.Archive.Packed.{File, le32, padded, entry, IsNameByte, IsFile}

module _ {A : Type 0} where
  drop-append : (xs ys : List A) → drop (length xs) (xs ++ ys) ≡ ys
  drop-append [] ys = refl
  drop-append (x ∷ xs) ys = drop-append xs ys

  take-append : (xs ys : List A) → take (length xs) (xs ++ ys) ≡ xs
  take-append [] ys = refl
  take-append (x ∷ xs) ys = ap (λ l. x ∷ l) (take-append xs ys)

  length-replicate : (n : ℕ) (a : A) → length (replicate n a) ≡ n
  length-replicate zero a = refl
  length-replicate (suc n) a = ap suc (length-replicate n a)

-- The middle of three parts.
pub slice-middle :
    (xs ys zs : List ℕ) (a b : ℕ)
    → a ≡ length xs
    → b ≡ length xs + length ys
    → slice (xs ++ (ys ++ zs)) a b ≡ ok ys
slice-middle xs ys zs a b e f =
    let total : length (xs ++ (ys ++ zs)) ≡ length xs + (length ys + length zs) =
      length-append xs (ys ++ zs) ∙ ap (λ n. length xs + n) (length-append ys zs) in
    let ordered : leb (length xs) (length xs + length ys) ≡ true = ground arith in
    let inside : leb (length xs + length ys) (length (xs ++ (ys ++ zs))) ≡ true =
      ground (arith, total) in
    let size : length xs + length ys - length xs ≡ length ys = omega arith in
    rw (e, f, ordered, inside, size, drop-append xs (ys ++ zs), take-append ys zs)

pub le32-from : (n : ℕ) → n < 2 ^ 32 → from_le_bytes (le32 n) ≡ some n
le32-from n h = ap some (omega (arith, h))

length-padded : (name : List ℕ) → length name ≤ 32 → length (padded name) ≡ 32
length-padded name h = omega (
  arith,
  h,
  length-append name (replicate (32 - length name) 0),
  length-replicate {A = ℕ} (32 - length name) 0,
)

until_zero-padded :
    (name : List ℕ) (n : ℕ) → All IsNameByte name → until_zero (name ++ replicate n 0) ≡ name
until_zero-padded [] zero h = refl
until_zero-padded [] (suc n) h = refl
until_zero-padded (c ∷ name) n h =
    let not_zero : (c == 0) ≡ false = ground (arith, h.0.0) in
    rw not_zero (ap (λ l. c ∷ l) (until_zero-padded name n h.1))

pub utf8-ascii : (name : List ℕ) → All IsNameByte name → utf8_from [] name ≡ true
unfolding utf8_from
utf8-ascii [] h = refl
utf8-ascii (c ∷ name) h =
    let ascii : ltb c 0x80 ≡ true = ground (arith, h.0.1) in
    rw (utf8_from, ascii) (utf8-ascii name h.1)

pub length-entry : (f : File) (offset : ℕ) → IsFile f → length (entry f offset) ≡ 40
length-entry f offset h =
    length-append (padded f.name) (le32 offset ++ (le32 (length f.bytes) ++ []))
    ∙ ap (λ n. n + 8) (length-padded f.name h.short)

pub entry-name :
    (f : File) (offset : ℕ) → IsFile f → until_zero (take name_len (entry f offset)) ≡ f.name
entry-name f offset h =
    let rest : List ℕ = le32 offset ++ (le32 (length f.bytes) ++ []) in
    ap (λ n. until_zero (take n (padded f.name ++ rest))) (sym (length-padded f.name h.short))
    ∙ ap until_zero (take-append (padded f.name) rest)
    ∙ until_zero-padded f.name (32 - length f.name) h.name_bytes

pub entry-offset :
    (f : File) (offset : ℕ)
    → IsFile f
    → offset < 2 ^ 32
    → number_at (entry f offset) 32 36 ≡ ok (some offset)
entry-offset f offset h lt =
    let n : length (padded f.name) ≡ 32 = length-padded f.name h.short in
    rw (
      slice-middle (padded f.name) (le32 offset) (le32 (length f.bytes) ++ []) 32 36 (sym n)
          (omega (arith, n)),
      le32-from offset lt,
    )

pub entry-size :
    (f : File) (offset : ℕ)
    → IsFile f
    → length f.bytes < 2 ^ 32
    → number_at (entry f offset) 36 40 ≡ ok (some (length f.bytes))
entry-size f offset h lt =
    let n : length (padded f.name) ≡ 32 = length-padded f.name h.short in
    let m : length (padded f.name ++ le32 offset) ≡ 36 =
      length-append (padded f.name) (le32 offset) ∙ ap (λ k. k + 4) n in
    ap (λ e. number_at e 36 40)
      (sym (append_assoc (padded f.name) (le32 offset) (le32 (length f.bytes) ++ [])))
    ∙ rw (
      slice-middle (padded f.name ++ le32 offset) (le32 (length f.bytes)) [] 36 40 (sym m)
          (omega (arith, m)),
      le32-from (length f.bytes) lt,
    )
