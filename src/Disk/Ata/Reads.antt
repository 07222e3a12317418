-- ===== src/Disk/Ata/Reads.antt =====
-- ata.rs: a read ends, and with what.
use molt_os.Prelude.{
  ℕ, zero, suc, ◌+◌, ◌-◌, ◌*◌, ◌/◌, ◌%◌, ◌^◌, ◌≤◌, ◌<◌, ◌≡◌, ◌⊎◌, inl, inr, refl, ap, min, ◌==◌,
  ==_iff, true, false, Bool-cases, ltb, List, [], ◌++◌, length, length-append, Checked, ok, ◌>>=◌,
  word, arith,
}
use molt_os.Disk.Ata.{
  Ports, Drive, AtaError, no_drive, disk_error, overflow, Result, done, err, sector_words,
  wait_ready, read_words, read_chunks, command, read, read_singles, fallback, read_blocks, read_all,
}

module _ {D : Type 0} (ports : Ports D) where
  length-read_words : (n : ℕ) (d : D) → length (read_words ports n d).0 ≡ n * 2
  unfolding read_words
  length-read_words zero d = refl
  length-read_words (suc n) d = omega (arith, length-read_words n (ports.read 0x1f0 d).1)

  -- A read of `n` sectors does not panic: it stores all of them, or an error ends it.
  pub data ReadOutcome (n : ℕ) (m : Checked (Result AtaError Unit × List ℕ × D)) : Type 0 where
    completed :
        (bytes : List ℕ) (d : D)
        → m ≡ ok (done tt, bytes, d)
        → length bytes ≡ n * 512
        → ReadOutcome n m
    failed : (e : AtaError) (bytes : List ℕ) (d : D) → m ≡ ok (err e, bytes, d) → ReadOutcome n m

  Result-cases :
      {A : Type 0} (r : Result AtaError A)
      → ((a : A) × (r ≡ done a)) ⊎ ((e : AtaError) × (r ≡ err e))
  Result-cases (done a) = inl (a, refl)
  Result-cases (err e) = inr (e, refl)

  read_chunks-Outcome : (n : ℕ) (d : D) → ReadOutcome n (ok (read_chunks ports n d))
  unfolding read_chunks
  read_chunks-Outcome zero d = completed [] d refl refl
  read_chunks-Outcome (suc n) d =
      let waited = wait_ready ports d in
      let chunk = read_words ports sector_words waited.1 in
      elim (Result-cases waited.0) [
        | inl (u, e) ↦ elim (read_chunks-Outcome n chunk.1) [
          | completed bytes d' f size ↦
              completed (chunk.0 ++ bytes) d'
                (rw (read_chunks, e) (ap (λ m. m >>= λ r. ok (r.0, chunk.0 ++ r.1, r.2)) f))
                (omega (
                  arith,
                  length-append chunk.0 bytes,
                  length-read_words sector_words waited.1,
                  size,
                ))
          | failed x bytes d' f ↦
              failed x (chunk.0 ++ bytes) d'
                (rw (read_chunks, e) (ap (λ m. m >>= λ r. ok (r.0, chunk.0 ++ r.1, r.2)) f))
        ]
        | inr (x, e) ↦ failed x [] waited.1 (rw (read_chunks, e))
      ]

  pub read-Outcome :
      (drive : Drive) (lba count : ℕ) (d : D)
      → count ≤ 256
      → ReadOutcome count (read ports drive lba (count * 512) d)
  unfolding read
  read-Outcome drive lba count d h =
      let whole : (count * 512 % 512 == 0) ≡ true = ground arith in
      let sectors : count * 512 / 512 % 2 ^ 32 ≡ count = omega (arith, h) in
      elim (Bool-cases (count == 0)) [
        | inl z ↦ completed [] d (rw (whole, sectors, z)) (omega (arith, (==_iff count 0).0 z))
        | inr p ↦
            let few : ltb 256 count ≡ false = ground (arith, h) in
            rw (whole, sectors, p, few)
              (read_chunks-Outcome count (command ports drive lba count d))
      ]

  -- A list of whole sectors, at most `most` of them.
  pub record AreSectors (bytes : List ℕ) (most : ℕ) : Type 0 where
    pub whole : length bytes % 512 ≡ 0
    pub bounded : length bytes ≤ most * 512

  read_singles-AreSectors :
      (drive : Drive) (sector count most : ℕ) (buf : List ℕ) (d : D)
      → AreSectors buf most
      → (bytes : List ℕ) × (d' : D) × (read_singles ports drive sector count buf d ≡ ok (bytes, d'))
        × AreSectors bytes (most + count)
  unfolding read_singles
  read_singles-AreSectors drive sector zero most buf d h =
      (buf, d, refl, record { whole = h.whole; bounded = omega (arith, h.bounded) })
  read_singles-AreSectors drive sector (suc count) most buf d h =
      elim (read-Outcome drive (sector % 2 ^ 32) 1 d (omega arith)) [
        | completed bytes d' e size ↦
            let (all, d'', f, k) =
              read_singles-AreSectors drive (suc sector) count (most + 1) (buf ++ bytes) d' record {
                whole = omega (arith, length-append buf bytes, size, h.whole);
                bounded = omega (arith, length-append buf bytes, size, h.bounded);
              } in
            (all, d'', rw e f, record { whole = k.whole; bounded = omega (arith, k.bounded) })
        | failed x bytes d' e ↦
            (buf, d', rw e, record { whole = h.whole; bounded = omega (arith, h.bounded) })
      ]

  -- The end of `read_all`: the sectors that were read, or `DiskError`.
  pub data AllOutcome (most : ℕ) (m : Checked (Result AtaError (List ℕ) × D)) : Type 0 where
    all_read :
        (bytes : List ℕ) (d : D)
        → m ≡ ok (done bytes, d)
        → AreSectors bytes most
        → AllOutcome most m
    broken : (d : D) → m ≡ ok (err disk_error, d) → AllOutcome most m

  fallback-Outcome :
      (drive : Drive) (sector count most : ℕ) (buf : List ℕ) (d : D)
      → AreSectors buf most
      → AllOutcome (most + count) (fallback ports drive sector count buf d)
  unfolding fallback
  fallback-Outcome drive sector count most buf d h = elim (Bool-cases (length buf == 0)) [
    | inl z ↦ broken d (rw z)
    | inr p ↦
        let (bytes, d', e, k) = read_singles-AreSectors drive sector count most buf d h in
        all_read bytes d' (rw (p, e)) k
  ]

  wider :
      {m : Checked (Result AtaError (List ℕ) × D)} (a b : ℕ)
      → a ≤ b
      → AllOutcome a m
      → AllOutcome b m
  wider a b h (all_read bytes d e k) =
      all_read bytes d e record { whole = k.whole; bounded = omega (arith, k.bounded, h) }
  wider a b h (broken d e) = broken d e

  read_blocks-Outcome :
      (drive : Drive) (total n i : ℕ) (buf : List ℕ) (d : D)
      → AreSectors buf (min i total)
      → AllOutcome total (read_blocks ports drive total n i buf d)
  unfolding read_blocks
  read_blocks-Outcome drive total zero i buf d h =
      all_read buf d refl record { whole = h.whole; bounded = omega (arith, h.bounded) }
  read_blocks-Outcome drive total (suc n) i buf d h =
      let count : ℕ = min (total - i) 128 in
      let fits : min i total + count ≤ total = omega arith in
      elim (read-Outcome drive (i % 2 ^ 32) count d (omega arith)) [
        | completed bytes d' e size ↦ rw e (
            read_blocks-Outcome drive total n (i + 128) (buf ++ bytes) d' record {
              whole = omega (arith, length-append buf bytes, size, h.whole);
              bounded = omega (arith, length-append buf bytes, size, h.bounded);
            })
        | failed no_drive bytes d' e ↦
            rw e
              (all_read buf d' refl record { whole = h.whole; bounded = omega (arith, h.bounded) })
        | failed disk_error bytes d' e ↦ rw e (
            wider (min i total + count) total fits
              (fallback-Outcome drive i count (min i total) buf d' h))
        | failed overflow bytes d' e ↦ rw e (
            wider (min i total + count) total fits
              (fallback-Outcome drive i count (min i total) buf d' h))
      ]

  -- `read_all` ends without a panic, whatever the drive does: with whole sectors, no more than hold
  -- `max_bytes` and a part of one sector more, or with `DiskError`. It never reports `NoDrive` or
  -- `Overflow`.
  pub read_all-Outcome :
      (drive : Drive) (max_bytes : ℕ) (d : D)
      → max_bytes + 511 < word
      → AllOutcome ((max_bytes + 511) / 512) (read_all ports drive max_bytes d)
  unfolding read_all
  read_all-Outcome drive max_bytes d h =
      let fits : ltb (max_bytes + 511) word ≡ true = ground (arith, h) in
      rw fits (read_blocks-Outcome drive _ _ 0 [] d record { whole = refl; bounded = omega arith })
