-- ===== src/Disk/Ata.antt =====
-- src/ata.rs: sector reads from the primary channel. The drive behind the ports is a parameter: a state
-- that every access to a port changes.
pub mod Reads
use molt_os.Prelude.{
  ℕ, zero, suc, ◌+◌, ◌-◌, ◌*◌, ◌/◌, ◌%◌, ◌^◌, min, ◌==◌, Bool, true, false, not, ◌&&◌, ltb, leb,
  if◌then◌else◌, List, [], ◌∷◌, ◌++◌, length, Checked, ok, panic, ◌>>=◌, add64,
}

pub record Ports (D : Type 0) : Type 0 where
  pub read : ℕ → D → ℕ × D
  pub write : ℕ → ℕ → D → D

pub data Drive : Type 0 where
  master slave : Drive

pub data AtaError : Type 0 where
  no_drive disk_error overflow : AtaError

pub data Result (E A : Type 0) : Type 0 where
  done : A → Result E A
  err : E → Result E A

abbrev pub base : ℕ
base = 0x1f0

abbrev pub ctrl : ℕ
ctrl = 0x3f6

-- `SECCNT`, `LBA0`, `LBA1`, `LBA2`, `DRVSEL`, and `STATUS`, which `CMD` shares.
abbrev pub sector_count : ℕ
sector_count = base + 2

abbrev pub lba0 : ℕ
lba0 = base + 3

abbrev pub lba1 : ℕ
lba1 = base + 4

abbrev pub lba2 : ℕ
lba2 = base + 5

abbrev pub drive_select : ℕ
drive_select = base + 6

abbrev pub status : ℕ
status = base + 7

abbrev pub cmd_read : ℕ
cmd_read = 0x20

abbrev pub bsy : ℕ → Bool
bsy s = s / 128 % 2 == 1

abbrev pub drq : ℕ → Bool
drq s = s / 8 % 2 == 1

abbrev pub err_bit : ℕ → Bool
err_bit s = s % 2 == 1

abbrev pub drive_bit : Drive → ℕ
drive_bit master = 0
drive_bit slave = 1

-- What a status byte decides: the result of the wait, or to go on.
pub data Poll : Type 0 where
  decided : Result AtaError Unit → Poll
  busy : Poll

unfoldable pub decide : ℕ → Poll
decide s =
    if s == 0xff
    then decided (err no_drive)
    else if err_bit s
    then decided (err disk_error)
    else if bsy s
    then busy
    else if drq s
    then decided (done tt)
    else decided (err no_drive)

-- A sector's worth of words, and the most polls of a wait.
abbrev pub sector_words : ℕ
sector_words = 256

abbrev pub max_polls : ℕ
max_polls = 1000001

abbrev pub max_sectors : ℕ
max_sectors = 0x100

module _ {D : Type 0} (ports : Ports D) where
  unfoldable pub delay400ns : D → D
  delay400ns d = let read : D → D = λ e. (ports.read ctrl e).1 in read (read (read (read d)))

  -- The loop of `wait_ready` with `n` polls left.
  unfoldable pub wait_loop : ℕ → D → Result AtaError Unit × D
  wait_loop zero d = (err no_drive, d)
  wait_loop (suc n) d = elim (decide (ports.read status d).0) [
    | decided r ↦ (r, (ports.read status d).1)
    | busy ↦ wait_loop n (ports.read status d).1
  ]

  unfoldable pub wait_ready : D → Result AtaError Unit × D
  wait_ready d = wait_loop max_polls d

  -- The bytes of `n` words from the data port.
  unfoldable pub read_words : ℕ → D → List ℕ × D
  read_words zero d = ([], d)
  read_words (suc n) d =
      let v : ℕ = (ports.read base d).0 in
      let rest = read_words n (ports.read base d).1 in (v % 256 ∷ v / 256 % 256 ∷ rest.0, rest.1)

  -- The loop of `read` over the chunks of the buffer: what it stored, and the error that ended it.
  unfoldable pub read_chunks : ℕ → D → Result AtaError Unit × List ℕ × D
  read_chunks zero d = (done tt, [], d)
  read_chunks (suc n) d =
      let waited = wait_ready d in
      elim waited.0 [
        | err e ↦ (err e, [], waited.1)
        | done _ ↦
            let chunk = read_words sector_words waited.1 in
            let rest = read_chunks n chunk.1 in (rest.0, chunk.0 ++ rest.1, rest.2)
      ]

  -- The drive, the address and the count go to the ports, and then the command.
  unfoldable pub command : Drive → ℕ → ℕ → D → D
  command drive lba sectors d =
      let selected : D =
        delay400ns (ports.write drive_select (0xe0 + drive_bit drive * 16 + lba / 2 ^ 24 % 16) d) in
      let counted : D =
        ports.write sector_count (if sectors == 256 then 0 else sectors % 256) selected in
      let low : D = ports.write lba0 (lba % 256) counted in
      let middle : D = ports.write lba1 (lba / 2 ^ 8 % 256) low in
      let high : D = ports.write lba2 (lba / 2 ^ 16 % 256) middle in
      ports.write status cmd_read high

  -- `read` into a buffer of `len` bytes: the bytes stored are the beginning of the buffer.
  unfoldable pub read : Drive → ℕ → ℕ → D → Checked (Result AtaError Unit × List ℕ × D)
  read drive lba len d =
      let sectors : ℕ = len / 512 % 2 ^ 32 in
      if not (len % 512 == 0)
      then panic
      else if sectors == 0
      then ok (done tt, [], d)
      else if ltb max_sectors sectors
      then ok (err overflow, [], d)
      else ok (read_chunks sectors (command drive lba sectors d))

  -- The loop over the `count` single sectors of the fallback, from `sector` on; `buf` is the buffer up to `end`.
  unfoldable pub read_singles : Drive → ℕ → ℕ → List ℕ → D → Checked (List ℕ × D)
  read_singles drive sector zero buf d = ok (buf, d)
  read_singles drive sector (suc count) buf d = read drive (sector % 2 ^ 32) 512 d >>= λ r.
      elim r.0 [
        | done _ ↦ read_singles drive (suc sector) count (buf ++ r.1) r.2
        | err _ ↦ ok (buf, r.2)
      ]

  -- An error of a read that is not `NoDrive`: the single sectors are tried, unless nothing was read.
  unfoldable pub fallback : Drive → ℕ → ℕ → List ℕ → D → Checked (Result AtaError (List ℕ) × D)
  fallback drive i count buf d =
      if length buf == 0
      then ok (err disk_error, d)
      else (do (all, d') ← read_singles drive i count buf d; ok (done all, d'))

  -- The loop of `read_all` over `n` more blocks of 128 sectors, from sector `i` on; `buf` is the
  -- buffer up to `end`, where it is truncated afterwards.
  unfoldable pub read_blocks :
      Drive → ℕ → ℕ → ℕ → List ℕ → D → Checked (Result AtaError (List ℕ) × D)
  read_blocks drive total zero i buf d = ok (done buf, d)
  read_blocks drive total (suc n) i buf d =
      let count : ℕ = min (total - i) 128 in
      read drive (i % 2 ^ 32) (count * 512) d >>= λ r. elim r.0 [
        | done _ ↦ read_blocks drive total n (i + 128) (buf ++ r.1) r.2
        | err e ↦ elim e [
          | no_drive ↦ ok (done buf, r.2)
          | disk_error ↦ fallback drive i count buf r.2
          | overflow ↦ fallback drive i count buf r.2
        ]
      ]

  unfoldable pub read_all : Drive → ℕ → D → Checked (Result AtaError (List ℕ) × D)
  read_all drive max_bytes d = do
    padded ← add64 max_bytes 511
    let total : ℕ = padded / 512
    read_blocks drive total ((total + 127) / 128) 0 [] d
