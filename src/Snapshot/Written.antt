-- ===== src/Snapshot/Written.antt =====
-- What the writers of snapshot.c write is bytes.
use huxley.Base.{ℕ, zero, suc, ◌+◌, ◌≡◌, arith, ltb}
use huxley.Base.{some, Bool-cases, inl, inr, List, []}
use mathlib.Core.Path.{subst}
use huxley.State.{Emu86State, Disk, Pit}
use huxley.Snapshot.Crc.{crc32_compute}
use huxley.Snapshot.Bytes.{write_u8, write_u16, write_u32, write_u64, write_each}
use huxley.Snapshot.Format.{
  write_disk, write_pit, write_cpu, write_arrays, write_devices, write_header, write_state,
  snapshot_body, emu86_snapshot_save, emu86_snapshot_size,
}
use huxley.Snapshot.Reads.{AllBytes, done, byte}

write_u8-AllBytes : (v : ℕ) {rest : List ℕ} → AllBytes rest → AllBytes (write_u8 v rest)
unfolding write_u8
write_u8-AllBytes v h = byte (omega arith) h

write_u16-AllBytes : (v : ℕ) {rest : List ℕ} → AllBytes rest → AllBytes (write_u16 v rest)
unfolding write_u16
write_u16-AllBytes v h = byte (omega arith) (byte (omega arith) h)

write_u32-AllBytes : (v : ℕ) {rest : List ℕ} → AllBytes rest → AllBytes (write_u32 v rest)
unfolding write_u32
write_u32-AllBytes v h =
    byte (omega arith) (byte (omega arith) (byte (omega arith) (byte (omega arith) h)))

write_u64-AllBytes : (v : ℕ) {rest : List ℕ} → AllBytes rest → AllBytes (write_u64 v rest)
unfolding write_u64
write_u64-AllBytes v h = write_u32-AllBytes _ (write_u32-AllBytes _ h)

write_disk-AllBytes : (d : Disk) {rest : List ℕ} → AllBytes rest → AllBytes (write_disk d rest)
unfolding write_disk
write_disk-AllBytes d h =
    write_u32-AllBytes _
      (write_u16-AllBytes _ (write_u8-AllBytes _ (write_u8-AllBytes _ (write_u32-AllBytes _ h))))

write_pit-AllBytes : (t : Pit) {rest : List ℕ} → AllBytes rest → AllBytes (write_pit t rest)
unfolding write_pit
write_pit-AllBytes t h = write_u16-AllBytes _ (write_u16-AllBytes _ (write_u8-AllBytes _ h))

write_each-AllBytes :
    {A : Type 0} (write : A → List ℕ → List ℕ) (src : ℕ → A) (i n : ℕ) {rest : List ℕ}
    → ((a : A) (r : List ℕ) → AllBytes r → AllBytes (write a r))
    → AllBytes rest
    → AllBytes (write_each write src i n rest)
unfolding write_each
write_each-AllBytes write src i zero k h = h
write_each-AllBytes write src i (suc n) k h = k _ _ (write_each-AllBytes write src (i + 1) n k h)

each_u8-AllBytes :
    (src : ℕ → ℕ) (i n : ℕ) {rest : List ℕ}
    → AllBytes rest
    → AllBytes (write_each write_u8 src i n rest)
each_u8-AllBytes src i n h = write_each-AllBytes write_u8 src i n (λ a r v. write_u8-AllBytes a v) h

each_u16-AllBytes :
    (src : ℕ → ℕ) (i n : ℕ) {rest : List ℕ}
    → AllBytes rest
    → AllBytes (write_each write_u16 src i n rest)
each_u16-AllBytes src i n h =
    write_each-AllBytes write_u16 src i n (λ a r v. write_u16-AllBytes a v) h

each_disk-AllBytes :
    (src : ℕ → Disk) (i n : ℕ) {rest : List ℕ}
    → AllBytes rest
    → AllBytes (write_each write_disk src i n rest)
each_disk-AllBytes src i n h =
    write_each-AllBytes write_disk src i n (λ a r v. write_disk-AllBytes a v) h

each_pit-AllBytes :
    (src : ℕ → Pit) (i n : ℕ) {rest : List ℕ}
    → AllBytes rest
    → AllBytes (write_each write_pit src i n rest)
each_pit-AllBytes src i n h =
    write_each-AllBytes write_pit src i n (λ a r v. write_pit-AllBytes a v) h

ruleset written_bytes = (
  write_u8-AllBytes, write_u16-AllBytes, write_u32-AllBytes, write_u64-AllBytes, each_u8-AllBytes,
  each_u16-AllBytes, each_disk-AllBytes, each_pit-AllBytes,
)

module _ (s : Emu86State) {rest : List ℕ} (h : AllBytes rest) where
  write_cpu-AllBytes : AllBytes (write_cpu s rest)
  unfolding write_cpu
  write_cpu-AllBytes = search (written_bytes) depth 20

  write_arrays-AllBytes : AllBytes (write_arrays s rest)
  unfolding write_arrays
  write_arrays-AllBytes = search (written_bytes) depth 20

  write_devices-AllBytes : AllBytes (write_devices s rest)
  unfolding write_devices
  write_devices-AllBytes = search (written_bytes) depth 20

snapshot_body-AllBytes :
    (s : Emu86State) {rest : List ℕ} → AllBytes rest → AllBytes (snapshot_body s rest)
unfolding snapshot_body write_header write_state
snapshot_body-AllBytes s h = write_u32-AllBytes _ (
    write_u32-AllBytes _ (
      write_u32-AllBytes _
        (write_cpu-AllBytes s (write_arrays-AllBytes s (write_devices-AllBytes s h)))))

-- A snapshot is bytes.
pub emu86_snapshot_save-AllBytes :
    (s : Emu86State) (buf_size : ℕ) (bytes : List ℕ)
    → emu86_snapshot_save s buf_size ≡ some bytes
    → AllBytes bytes
unfolding emu86_snapshot_save
emu86_snapshot_save-AllBytes s buf_size bytes e =
    elim (Bool-cases (ltb buf_size emu86_snapshot_size)) [
      | inl b ↦ absurd (cc (rw (emu86_snapshot_save, b) at e))
      | inr b ↦
          let same = rw (emu86_snapshot_save, b) at e in
          subst AllBytes (cc same) (
            snapshot_body-AllBytes s (write_u32-AllBytes (crc32_compute (snapshot_body s [])) done))
    ]
