-- ===== src/Snapshot/Restore.antt =====
-- `emu86_snapshot_restore` on what `emu86_snapshot_save` wrote, and on damaged buffers.
use huxley.Base.{ℕ, ◌+◌, ◌-◌, ◌≤◌, ◌≡◌, refl, ◌∙◌, ap, arith, length, u32, sub32}
use huxley.Base.{some, List, [], Option-cases, inl, inr}
use huxley.State.{Emu86State}
use huxley.State.Words.{IsWords}
use huxley.Snapshot.Crc.{crc32_compute, crc32_compute-lt}
use huxley.Snapshot.Bytes.{Parsed, read_u32, write_u32, read_u32-write_u32}
use huxley.Snapshot.Format.{
  write_header, write_state, read_state, snapshot_body, emu86_snapshot_save,
}
use huxley.Snapshot.Format.{emu86_snapshot_restore, emu86_snapshot_size, data_size, header_size}
use huxley.Snapshot.Format.{restored, take, drop, restore_fields, restore_version}
use huxley.Snapshot.Format.{restore_magic, emu86_snapshot_magic, emu86_snapshot_version, crc_size}
use huxley.Snapshot.RoundTrip.{parsed, merged, read_state-write_state, SameState, merged-SameState}
use huxley.Snapshot.Size.{length-snapshot_body, snapshot_body-append, take-append, drop-append}

-- The checksum of a snapshot, and its bytes.
abbrev checksum : Emu86State → ℕ
checksum s = crc32_compute (snapshot_body s [])

abbrev saved : Emu86State → List ℕ
saved s = snapshot_body s (write_u32 (checksum s) [])

length-saved : (s : Emu86State) → length (saved s) ≡ emu86_snapshot_size
length-saved s = length-snapshot_body s (write_u32 (checksum s) []) ∙ omega (arith, tail)
  where
    tail : length (write_u32 (checksum s) []) ≡ 4
    tail = unfold write_u32 in refl

body_before :
    (s : Emu86State) → take (emu86_snapshot_size - crc_size) (saved s) ≡ snapshot_body s []
body_before s = rw (snapshot_body-append s [] (write_u32 (checksum s) [])) (
    take-append (emu86_snapshot_size - crc_size) (snapshot_body s []) (write_u32 (checksum s) [])
      (omega (arith, length-snapshot_body s [])))

checksum_behind :
    (s : Emu86State) → drop (emu86_snapshot_size - crc_size) (saved s) ≡ write_u32 (checksum s) []
checksum_behind s = rw (snapshot_body-append s [] (write_u32 (checksum s) [])) (
    drop-append (emu86_snapshot_size - crc_size) (snapshot_body s []) (write_u32 (checksum s) [])
      (omega (arith, length-snapshot_body s [])))

-- The tests of `emu86_snapshot_restore`, one function at a time, on a buffer that passes them.
restore_fields_accepts :
    (s0 s' : Emu86State) (buf rest more left : List ℕ) (ds crc : ℕ)
    → u32 (header_size + ds + crc_size) ≤ length buf
    → read_u32 (drop (sub32 (u32 (header_size + ds + crc_size)) crc_size) buf) ≡ parsed crc more
    → crc32_compute (take (sub32 (u32 (header_size + ds + crc_size)) crc_size) buf) ≡ crc
    → read_state s0 rest ≡ parsed s' left
    → restore_fields s0 buf (record { value = ds; rest = rest }) ≡ restored s'
unfolding restore_fields
restore_fields_accepts s0 s' buf rest more left ds crc h1 h2 h3 h4 = ground arith

restore_header_accepts :
    (s0 : Emu86State) (buf rest1 rest2 : List ℕ) (ds : Parsed ℕ)
    → header_size + crc_size ≤ length buf
    → read_u32 buf ≡ parsed emu86_snapshot_magic rest1
    → read_u32 rest1 ≡ parsed emu86_snapshot_version rest2
    → read_u32 rest2 ≡ some ds
    → emu86_snapshot_restore s0 buf ≡ restore_fields s0 buf ds
unfolding emu86_snapshot_restore restore_magic restore_version
restore_header_accepts s0 buf rest1 rest2 ds h1 h2 h3 h4 = ground arith

restore-saved :
    (s0 s : Emu86State) → IsWords s → emu86_snapshot_restore s0 (saved s) ≡ restored (merged s0 s)
restore-saved s0 s v =
    let crc = write_u32 (checksum s) [] in
    let fields = write_state s crc in
    restore_header_accepts s0 (saved s) (write_u32 1 (write_u32 data_size fields))
      (write_u32 data_size fields) (record { value = data_size; rest = fields })
      (omega (arith, length-saved s))
      (unfold snapshot_body write_header in read_u32-write_u32 emu86_snapshot_magic _ (omega arith))
      (read_u32-write_u32 1 _ (omega arith)) (read_u32-write_u32 data_size _ (omega arith))
    ∙ restore_fields_accepts s0 (merged s0 s) (saved s) fields [] crc data_size (checksum s)
        (omega (arith, length-saved s))
        (rw (checksum_behind s) (read_u32-write_u32 (checksum s) [] (crc32_compute-lt _)))
        (ap crc32_compute (body_before s)) (read_state-write_state s0 s crc v)

-- What a buffer has shown when its restoring succeeds: the right magic number and version, as
-- many bytes as the 32-bit total for the size that it states, and the checksum of the bytes in front of it.
pub record IsAccepted (buf : List ℕ) : Type 0 where
  pub body : List ℕ
  pub fields : List ℕ
  pub behind : List ℕ
  pub size : ℕ
  pub crc : ℕ
  pub magic : read_u32 buf ≡ parsed emu86_snapshot_magic body
  pub version :
      (rest : List ℕ) × (read_u32 body ≡ parsed emu86_snapshot_version rest)
      × (read_u32 rest ≡ parsed size fields)
  pub fits : u32 (header_size + size + crc_size) ≤ length buf
  pub stored :
      read_u32 (drop (sub32 (u32 (header_size + size + crc_size)) crc_size) buf) ≡ parsed crc behind
  pub checked :
      crc32_compute (take (sub32 (u32 (header_size + size + crc_size)) crc_size) buf) ≡ crc

fields_accepted :
    (s0 s' : Emu86State) (buf : List ℕ) (ds : Parsed ℕ)
    → restore_fields s0 buf ds ≡ restored s'
    → (r : Parsed ℕ) × (u32 (header_size + ds.value + crc_size) ≤ length buf)
      × (read_u32 (drop (sub32 (u32 (header_size + ds.value + crc_size)) crc_size) buf) ≡ some r)
      × (crc32_compute (take (sub32 (u32 (header_size + ds.value + crc_size)) crc_size) buf)
          ≡ r.value)
unfolding restore_fields
fields_accepted s0 s' buf ds h =
    elim (Option-cases
      (read_u32 (drop (sub32 (u32 (header_size + ds.value + crc_size)) crc_size) buf))) [
        | inl e ↦ absurd (ground arith)
        | inr (r, e) ↦ (r, ground arith, e, ground arith)
      ]

pub version_accepted :
    (s0 s' : Emu86State) (buf : List ℕ) (version : Parsed ℕ)
    → restore_version s0 buf version ≡ restored s'
    → (ds : Parsed ℕ) × (version.value ≡ emu86_snapshot_version)
      × (read_u32 version.rest ≡ some ds)
      × (restore_fields s0 buf ds ≡ restored s')
unfolding restore_version
version_accepted s0 s' buf version h = elim (Option-cases (read_u32 version.rest)) [
  | inl e ↦ absurd (ground arith)
  | inr (r, e) ↦ (r, ground arith, e, ground arith)
]

pub magic_accepted :
    (s0 s' : Emu86State) (buf : List ℕ)
    → emu86_snapshot_restore s0 buf ≡ restored s'
    → (magic version : Parsed ℕ) × (read_u32 buf ≡ some magic)
      × (magic.value ≡ emu86_snapshot_magic)
      × (read_u32 magic.rest ≡ some version)
      × (restore_version s0 buf version ≡ restored s')
unfolding emu86_snapshot_restore restore_magic
magic_accepted s0 s' buf h = elim (Option-cases (read_u32 buf)) [
  | inl e ↦ absurd (ground arith)
  | inr (magic, e) ↦ elim (Option-cases (read_u32 magic.rest)) [
    | inl e2 ↦ absurd (ground arith)
    | inr (version, e2) ↦ (magic, version, e, ground arith, e2, ground arith)
  ]
]

-- A restore that succeeds was given a buffer with the right magic number and version, at least as
-- long as the total that `uint32_t` gives for the size in its header; the checksum stored in the
-- last four bytes of that total, read within the buffer, is the CRC32 of the bytes in front of it.
pub restored-IsAccepted :
    (s0 s' : Emu86State) (buf : List ℕ)
    → emu86_snapshot_restore s0 buf ≡ restored s'
    → IsAccepted buf
restored-IsAccepted s0 s' buf h =
    let (magic, version, e1, is_magic, e2, h2) = magic_accepted s0 s' buf h in
    let (ds, is_version, e3, h3) = version_accepted s0 s' buf version h2 in
    let (crc, fits, e4, checked) = fields_accepted s0 s' buf ds h3 in
    record {
      body = magic.rest;
      fields = ds.rest;
      behind = crc.rest;
      size = ds.value;
      crc = crc.value;
      magic = ground arith;
      version = (version.rest, ground arith, e3);
      fits = fits;
      stored = e4;
      checked = checked;
    }

-- Saving a state into a buffer that is large enough, and restoring the bytes into any state, gives
-- the saved state back: the snapshot has exactly `emu86_snapshot_size` bytes, restoring it
-- succeeds, and every field and every array cell has the value that was saved.
pub restore-save :
    (s0 s : Emu86State) (buf_size : ℕ)
    → IsWords s
    → emu86_snapshot_size ≤ buf_size
    → (bytes : List ℕ) × (s' : Emu86State) × (emu86_snapshot_save s buf_size ≡ some bytes)
      × (length bytes ≡ emu86_snapshot_size)
      × (emu86_snapshot_restore s0 bytes ≡ restored s')
      × SameState s' s
restore-save s0 s buf_size v h =
    (saved s, merged s0 s, saves, length-saved s, restore-saved s0 s v, merged-SameState s0 s)
  where
    saves : emu86_snapshot_save s buf_size ≡ some (saved s)
    saves = unfold emu86_snapshot_save in ground arith
