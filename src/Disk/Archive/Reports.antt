-- ===== src/Disk/Archive/Reports.antt =====
-- fs.rs: what `init` reports.
use molt_os.Prelude.{
  ℕ, zero, suc, ◌+◌, ◌-◌, ◌*◌, ◌≤◌, ◌≡◌, inl, inr, refl, ap, true, Bool-cases, ltb, leb, Option,
  some, List, [], ◌∷◌, length, take, drop, Checked, ok, arith,
}
use molt_os.Disk.Ata.{
  Ports, slave, status, decide, Result, done, err, no_drive, wait_loop, wait_ready, read_chunks,
  command, read, read_blocks, read_all,
}
use molt_os.Disk.Ata.Reads.{all_read, broken, read_all-Outcome}
use molt_os.Disk.Archive.{
  FsError, fs_disk_error, bad_magic, magic, same_bytes, from_le_bytes, accept, keep_first,
  init_with, max_bytes, init,
}

-- The bytes begin as an archive of `count` files does.
pub record IsArchive (bytes : List ℕ) (count : ℕ) : Type 0 where
  pub long : 8 ≤ length bytes
  pub starts : same_bytes (take 4 bytes) magic ≡ true
  pub counted : from_le_bytes (take 4 (drop 4 bytes)) ≡ some count

-- What `accept` decides; it does not panic.
data AcceptOutcome (bytes : List ℕ) : Type 0 where
  accepted :
      (count : ℕ) → accept bytes ≡ ok (done count) → IsArchive bytes count → AcceptOutcome bytes
  refused : accept bytes ≡ ok (err bad_magic) → AcceptOutcome bytes

four : (bytes : List ℕ) → 4 ≤ length bytes → (n : ℕ) × (from_le_bytes (take 4 bytes) ≡ some n)
four [] h = absurd (omega arith)
four (a ∷ []) h = absurd (omega arith)
four (a ∷ b ∷ []) h = absurd (omega arith)
four (a ∷ b ∷ c ∷ []) h = absurd (omega arith)
four (a ∷ b ∷ c ∷ d ∷ rest) h = (a + b * 256 + c * 65536 + d * 16777216, refl)

length-drop : (n : ℕ) (xs : List ℕ) → length (drop n xs) ≡ length xs - n
length-drop zero xs = omega arith
length-drop (suc n) [] = omega arith
length-drop (suc n) (x ∷ xs) = omega (arith, length-drop n xs)

accept-Outcome : (bytes : List ℕ) → AcceptOutcome bytes
unfolding accept
accept-Outcome bytes = elim (Bool-cases (ltb (length bytes) 8)) [
  | inl short ↦ refused (rw short)
  | inr enough ↦
      let long : 8 ≤ length bytes = ground (arith, enough) in
      let l4 : leb 4 (length bytes) ≡ true = ground (arith, long) in
      let l8 : leb 8 (length bytes) ≡ true = ground (arith, long) in
      let (n, e) = four (drop 4 bytes) (omega (arith, length-drop 4 bytes, long)) in
      elim (Bool-cases (same_bytes (take 4 bytes) magic)) [
        | inl same ↦
            accepted n (rw (enough, l4, same, l8, e))
              record { long = long; starts = same; counted = e }
        | inr other ↦ refused (rw (enough, l4, other))
      ]
]

-- `init` loads an archive, refuses what is none, or reports a disk error.
pub data InitOutcome {D : Type 0} (archive : Option (List ℕ))
    (m : Checked (Result FsError ℕ × Option (List ℕ) × D)) : Type 0 where
  loaded :
      (bytes : List ℕ) (count : ℕ) (d : D)
      → m ≡ ok (done count, keep_first archive bytes, d)
      → IsArchive bytes count
      → InitOutcome archive m
  refused_archive : (d : D) → m ≡ ok (err bad_magic, archive, d) → InitOutcome archive m
  disk_failed : (d : D) → m ≡ ok (err fs_disk_error, archive, d) → InitOutcome archive m

-- Whatever the drive does, `init` ends without a panic: it loads bytes that begin as an archive does
-- and returns their count, or the archive stays as it was and the error is `BadMagic` or `DiskError`.
-- `FsError::NoDrive` is never returned.
pub init-Outcome :
    {D : Type 0} (ports : Ports D) (archive : Option (List ℕ)) (d : D)
    → InitOutcome archive (init ports archive d)
unfolding init init_with
init-Outcome ports archive d = elim (read_all-Outcome ports slave max_bytes d (omega arith)) [
  | all_read bytes d' e k ↦ elim (accept-Outcome bytes) [
    | accepted count f starts ↦ loaded bytes count d' (rw (e, f)) starts
    | refused f ↦ refused_archive d' (rw (e, f))
  ]
  | broken d' e ↦ disk_failed d' (rw e)
]

module _ {D : Type 0} (ports : Ports D) (absent : (d : D) → (ports.read status d).0 ≡ 0xff) where
  absent_loop :
      (n : ℕ) (d : D) → wait_loop ports (suc n) d ≡ (err no_drive, (ports.read status d).1)
  unfolding wait_loop decide
  absent_loop n d = rw (wait_loop, decide, absent d)

  absent_wait : (d : D) → wait_ready ports d ≡ (err no_drive, (ports.read status d).1)
  unfolding wait_ready
  absent_wait d = absent_loop 1000000 d

  absent_chunks :
      (n : ℕ) (d : D)
      → (bytes : List ℕ) × (d' : D) × (read_chunks ports (suc n) d ≡ (err no_drive, bytes, d'))
  unfolding read_chunks
  absent_chunks n d = (
    [],
    (ports.read status d).1,
    rw (read_chunks, absent_wait d) (ap (λ w. (err no_drive, [], w.1)) (absent_wait d)),
  )

  -- Where there is no drive, so that every status is 0xFF, `init` reports `BadMagic`.
  init-absent :
      (archive : Option (List ℕ)) (d : D)
      → (d' : D) × (init ports archive d ≡ ok (err bad_magic, archive, d'))
  unfolding init init_with read_all read_blocks read accept
  init-absent archive d =
      let (bytes, d', e) = absent_chunks 127 (command ports slave 0 128 d) in (d', rw e)
