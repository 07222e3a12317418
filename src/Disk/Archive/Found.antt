-- ===== src/Disk/Archive/Found.antt =====
-- fs.rs: the search for a name in an archive.
use molt_os.Prelude.{
  ℕ, suc, ◌+◌, ◌*◌, ◌^◌, ◌<◌, ◌≡◌, inl, inr, refl, sym, ap, ◌∙◌, true, Bool-cases, ltb, Option,
  some, List, [], ◌∷◌, ◌++◌, All, append_assoc, length, length-append, take, Checked, ok, word,
  arith,
}
use molt_os.Disk.Archive.{
  magic, name_len, slice, eq_ignore_ascii_case, until_zero, number_at, file_of, contents,
  open_named, open_entry, open_loop, open_in,
}
use molt_os.Disk.Archive.Packed.{
  File, le32, entry, entries, bodies, pack, lookup, IsNameByte, IsFile,
}
use molt_os.Disk.Archive.Entry.{
  slice-middle, entry-name, entry-offset, entry-size, length-entry, utf8-ascii, le32-from,
}

-- The archive with `front` before the entries of `fs` and `passed` between them and their contents.
laid : List ℕ → List File → ℕ → List ℕ → List ℕ
laid front fs offset passed = front ++ (entries fs offset ++ (passed ++ bodies fs))

laid-step :
    (front : List ℕ) (f : File) (fs : List File) (offset : ℕ) (passed : List ℕ)
    → laid front (f ∷ fs) offset passed
      ≡ laid (front ++ entry f offset) fs (offset + length f.bytes) (passed ++ f.bytes)
unfolding laid entries bodies
laid-step front f fs offset passed =
    let es : List ℕ = entries fs (offset + length f.bytes) in
    ap (λ l. front ++ l) (append_assoc (entry f offset) es (passed ++ (f.bytes ++ bodies fs)))
    ∙ sym (append_assoc front (entry f offset) (es ++ (passed ++ (f.bytes ++ bodies fs))))
    ∙ ap (λ l. (front ++ entry f offset) ++ (es ++ l))
        (sym (append_assoc passed f.bytes (bodies fs)))

length-entries :
    (fs : List File) (offset : ℕ) → All IsFile fs → length (entries fs offset) ≡ length fs * 40
unfolding entries
length-entries [] offset h = refl
length-entries (f ∷ fs) offset h = omega (
  arith,
  length-append (entry f offset) (entries fs (offset + length f.bytes)),
  length-entry f offset h.0,
  length-entries fs (offset + length f.bytes) h.1,
)

-- The contents of the first file of those laid out.
laid-contents :
    (front : List ℕ) (f : File) (fs : List File) (offset : ℕ) (passed : List ℕ)
    → All IsFile (f ∷ fs)
    → offset ≡ length front + length (f ∷ fs) * 40 + length passed
    → offset + length f.bytes < word
    → contents (laid front (f ∷ fs) offset passed) (some offset) (some (length f.bytes))
      ≡ ok (some f.bytes)
unfolding laid bodies
laid-contents front f fs offset passed h at fits =
    let es : List ℕ = entries (f ∷ fs) offset in
    let before : List ℕ = (front ++ es) ++ passed in
    let regroup : front ++ (es ++ (passed ++ (f.bytes ++ bodies fs)))
        ≡ before ++ (f.bytes ++ bodies fs) =
      sym (append_assoc front es (passed ++ (f.bytes ++ bodies fs)))
      ∙ sym (append_assoc (front ++ es) passed (f.bytes ++ bodies fs)) in
    let size : length before ≡ offset = omega (
      arith,
      length-append (front ++ es) passed,
      length-append front es,
      length-entries (f ∷ fs) offset h,
      at,
    ) in
    let in_word : ltb (offset + length f.bytes) word ≡ true = ground (arith, fits) in
    rw (
      in_word,
      regroup,
      slice-middle before f.bytes (bodies fs) offset (offset + length f.bytes) (sym size)
          (omega (arith, size)),
    )

laid-slice :
    (front : List ℕ) (f : File) (fs : List File) (i offset : ℕ) (passed : List ℕ)
    → IsFile f
    → length front ≡ 8 + i * 40
    → slice (laid front (f ∷ fs) offset passed) (8 + i * 40) (8 + i * 40 + 40) ≡ ok (entry f offset)
unfolding laid entries
laid-slice front f fs i offset passed h size =
    let es : List ℕ = entries fs (offset + length f.bytes) in
    let after : List ℕ = passed ++ bodies (f ∷ fs) in
    ap (λ l. slice (front ++ l) (8 + i * 40) (8 + i * 40 + 40))
      (append_assoc (entry f offset) es after)
    ∙ slice-middle front (entry f offset) (es ++ after) (8 + i * 40) (8 + i * 40 + 40) (sym size)
        (omega (arith, size, length-entry f offset h))

file_of-entry :
    (bytes : List ℕ) (f : File) (offset : ℕ)
    → IsFile f
    → offset < 2 ^ 32
    → length f.bytes < 2 ^ 32
    → file_of bytes (entry f offset) ≡ contents bytes (some offset) (some (length f.bytes))
unfolding file_of
file_of-entry bytes f offset h a b = rw (entry-offset f offset h a, entry-size f offset h b)

length-bodies :
    (f : File) (fs : List File) → length (bodies (f ∷ fs)) ≡ length f.bytes + length (bodies fs)
unfolding bodies
length-bodies f fs = length-append f.bytes (bodies fs)

-- The body of the loop at an entry of `f`, of which `file_of` gives the contents.
open_loop-entry :
    (bytes name e : List ℕ) (f : File) (fs : List File) (rest : Checked (Option (List ℕ)))
    → All IsNameByte f.name
    → until_zero (take name_len e) ≡ f.name
    → file_of bytes e ≡ ok (some f.bytes)
    → rest ≡ ok (lookup fs name)
    → open_entry bytes name rest e ≡ ok (lookup (f ∷ fs) name)
unfolding open_entry open_named lookup
open_loop-entry bytes name e f fs rest h named file next =
    ap (open_named bytes name rest e) named
    ∙ rw (open_named, utf8-ascii f.name h)
        (elim (Bool-cases (eq_ignore_ascii_case f.name name)) [
          | inl same ↦ rw same file
          | inr other ↦ rw other next
        ])

open_loop-laid :
    (fs : List File) (front : List ℕ) (i offset : ℕ) (passed name : List ℕ)
    → All IsFile fs
    → length front ≡ 8 + i * 40
    → offset ≡ length front + length fs * 40 + length passed
    → offset + length (bodies fs) < 2 ^ 32
    → open_loop (laid front fs offset passed) name (length fs) i ≡ ok (lookup fs name)
unfolding open_loop lookup open_entry
open_loop-laid [] front i offset passed name h size at fits = refl
open_loop-laid (f ∷ fs) front i offset passed name h size at fits =
    let total = length-bodies f fs in
    let file =
      file_of-entry (laid front (f ∷ fs) offset passed) f offset h.0 (omega (arith, fits))
        (omega (arith, fits, total))
      ∙ laid-contents front f fs offset passed h at (omega (arith, fits, total)) in
    let rest =
      open_loop-laid fs (front ++ entry f offset) (suc i) (offset + length f.bytes)
        (passed ++ f.bytes) name h.1
        (omega (arith, length-append front (entry f offset), length-entry f offset h.0, size))
        (omega (
          arith,
          length-append front (entry f offset),
          length-entry f offset h.0,
          length-append passed f.bytes,
          at,
        ))
        (omega (arith, fits, total)) in
    let next =
      ap (λ l. open_loop l name (length fs) (suc i)) (laid-step front f fs offset passed) ∙ rest in
    rw (laid-slice front f fs i offset passed h.0 size) (
      open_loop-entry (laid front (f ∷ fs) offset passed) name (entry f offset) f fs
        (open_loop (laid front (f ∷ fs) offset passed) name (length fs) (suc i)) h.0.name_bytes
        (entry-name f offset h.0) file next)

-- `open` of an archive of the documented format finds the first file whose name is the given one,
-- whatever the case of its letters, and returns its contents; of another name it finds nothing. The
-- names are of up to 32 ASCII characters, and the archive is shorter than 4 GiB.
pub open_in-pack :
    (fs : List File) (name : List ℕ)
    → All IsFile fs
    → length (pack fs) < 2 ^ 32
    → open_in (pack fs) name ≡ ok (lookup fs name)
unfolding open_in laid
open_in-pack fs name h fits =
    let start : ℕ = 8 + length fs * 40 in
    let size = length-append (entries fs start) (bodies fs) in
    let n : length (entries fs start) ≡ length fs * 40 = length-entries fs start h in
    let counted : number_at (pack fs) 4 8 ≡ ok (some (length fs)) = rw (
      slice-middle magic (le32 (length fs)) (entries fs start ++ bodies fs) 4 8 refl refl,
      le32-from (length fs) (omega (arith, fits, size, n)),
    ) in
    rw counted (
      open_loop-laid fs (magic ++ le32 (length fs)) 0 start [] name h refl (omega arith)
        (omega (arith, fits, size, n)))
