-- ===== src/Snapshot/Bounds.antt =====
-- `emu86_snapshot_restore` on a buffer of any content: the fields keep their ranges.
use huxley.Base.{ℕ, ◌+◌, ◌≡◌, arith, u32, sub32}
use huxley.Base.{Option, none, some, Option-cases, inl, inr, List}
use huxley.State.{Emu86State}
use huxley.State.Words.{IsWords, DiskIsWords, PitIsWords}
use huxley.State.Updates.{parts-IsWords}
use huxley.Snapshot.Reads.{
  AllBytes, Good, Reads, pure-Reads, bind-Reads, read_u8-Reads, read_u16-Reads, read_u32-Reads,
  read_u64-Reads, read_each-Reads,
}
use huxley.Snapshot.Bytes.{Parsed, read_u32}
use huxley.Snapshot.Format.{
  read_disk, read_pit, read_cpu, read_arrays, read_devices, read_state, restored, restore_fields,
  emu86_snapshot_restore, of_reader, drop, header_size, crc_size,
}
use huxley.Snapshot.Restore.{magic_accepted, version_accepted}

read_disk-Reads : Reads DiskIsWords read_disk
unfolding read_disk
read_disk-Reads = bind-Reads read_u32-Reads (λ size a. bind-Reads read_u16-Reads (λ cylinders b.
    bind-Reads read_u8-Reads (λ heads c. bind-Reads read_u8-Reads (λ sectors e.
      bind-Reads read_u32-Reads (λ position f.
        pure-Reads (record { size = a; cylinders = b; heads = c; sectors = e; position = f }))))))

read_pit-Reads : Reads PitIsWords read_pit
unfolding read_pit
read_pit-Reads = bind-Reads read_u16-Reads (λ reload a. bind-Reads read_u16-Reads (λ counter b.
    bind-Reads read_u8-Reads (λ mode c. pure-Reads (record { reload = a; counter = b; mode = c }))))

module _ {s : Emu86State} (v : IsWords s) where
  read_cpu-Reads : Reads IsWords (read_cpu s)
  unfolding read_cpu
  read_cpu-Reads = bind-Reads (read_each-Reads s.regs 0 8 read_u16-Reads v.regs) (λ regs a0.
      bind-Reads (read_each-Reads s.sregs 0 4 read_u16-Reads v.sregs) (λ sregs a1.
        bind-Reads read_u16-Reads (λ ip b0. bind-Reads read_u16-Reads (λ flags b1.
          bind-Reads read_u8-Reads (λ halted c0. bind-Reads read_u8-Reads (λ trap_flag c1.
            bind-Reads read_u8-Reads (λ int_pending c2. bind-Reads read_u8-Reads (λ int_vector c3.
              bind-Reads read_u8-Reads (λ seg_override_en c4.
                bind-Reads read_u8-Reads (λ seg_override c5.
                  bind-Reads read_u8-Reads (λ rep_override_en c6.
                    bind-Reads read_u8-Reads (λ rep_mode c7.
                      pure-Reads
                        (parts-IsWords a0 a1 v.mem v.io_ports (omega arith) v.devices)))))))))))))

  read_arrays-Reads : Reads IsWords (read_arrays s)
  unfolding read_arrays
  read_arrays-Reads = bind-Reads (read_each-Reads s.mem 0 _ read_u8-Reads v.mem) (λ mem a.
      bind-Reads (read_each-Reads s.io_ports 0 _ read_u8-Reads v.io_ports) (λ io_ports b.
        bind-Reads (read_each-Reads s.disk 0 _ read_disk-Reads v.devices.0) (λ disk c.
          bind-Reads (read_each-Reads s.pit 0 _ read_pit-Reads v.devices.1) (λ pit d.
            bind-Reads read_u8-Reads (λ pit_lobyte_pending e.
              bind-Reads (read_each-Reads s.kb_buffer 0 _ read_u8-Reads v.devices.2) (λ kb_buffer f.
                pure-Reads (
                  parts-IsWords v.regs v.sregs a b (omega arith) (
                    c, d, f, v.devices.3, v.devices.4, v.devices.5, v.devices.6, v.devices.7,
                    v.devices.8, v.devices.9, v.devices.10,
                  ))))))))

  read_devices-Reads : Reads IsWords (read_devices s)
  unfolding read_devices
  read_devices-Reads = bind-Reads read_u8-Reads (λ kb_head a. bind-Reads read_u8-Reads (λ kb_tail b.
      bind-Reads read_u8-Reads (λ video_mode c. bind-Reads read_u16-Reads (λ cursor_row d.
        bind-Reads read_u16-Reads (λ cursor_col e. bind-Reads read_u8-Reads (λ spkr_en f.
          bind-Reads read_u16-Reads (λ wave_counter g. bind-Reads read_u16-Reads (λ graphics_x h.
            bind-Reads read_u16-Reads (λ graphics_y i. bind-Reads read_u64-Reads (λ inst_count j.
              bind-Reads read_u8-Reads (λ int8_asap k. pure-Reads (
                parts-IsWords v.regs v.sregs v.mem v.io_ports (omega arith)
                  (v.devices.0, v.devices.1, v.devices.2, a, b, c, d, e, g, h, i)))))))))))))

read_state-Reads : {s : Emu86State} → IsWords s → Reads IsWords (read_state s)
unfolding read_state
read_state-Reads v =
    bind-Reads (read_cpu-Reads v)
      (λ s1 w. bind-Reads (read_arrays-Reads w) (λ s2 u. read_devices-Reads u))

-- What is left behind a number.
rest_AllBytes :
    (bytes : List ℕ) (r : Parsed ℕ) → AllBytes bytes → read_u32 bytes ≡ some r → AllBytes r.rest
rest_AllBytes bytes r v e = (rw e at (read_u32-Reads.good bytes v)).1

fields-IsWords :
    (o : Option (Parsed Emu86State)) (s : Emu86State)
    → Good IsWords o
    → of_reader o ≡ restored s
    → IsWords s
fields-IsWords none s v e = absurd (cc e)
fields-IsWords (some r) s (w, v) e = let same : r.value ≡ s = cc e in rw same at w

restore_fields-read :
    (s0 s' : Emu86State) (buf : List ℕ) (ds : Parsed ℕ)
    → restore_fields s0 buf ds ≡ restored s'
    → of_reader (read_state s0 ds.rest) ≡ restored s'
unfolding restore_fields
restore_fields-read s0 s' buf ds h =
    elim (Option-cases
      (read_u32 (drop (sub32 (u32 (header_size + ds.value + crc_size)) crc_size) buf))) [
        | inl e ↦ absurd (ground arith)
        | inr (r, e) ↦ ground arith
      ]

-- Whatever a buffer of bytes holds, a restore that accepts it leaves every field in the range of its
-- type, if the state before was so: a snapshot from outside cannot break the machine's invariant.
pub emu86_snapshot_restore-IsWords :
    (s0 s' : Emu86State) (buf : List ℕ)
    → IsWords s0
    → AllBytes buf
    → emu86_snapshot_restore s0 buf ≡ restored s'
    → IsWords s'
emu86_snapshot_restore-IsWords s0 s' buf v all h =
    let (magic, version, e1, is_magic, e2, h2) = magic_accepted s0 s' buf h in
    let (ds, is_version, e3, h3) = version_accepted s0 s' buf version h2 in
    let behind =
      rest_AllBytes version.rest ds
        (rest_AllBytes magic.rest version (rest_AllBytes buf magic all e1) e2) e3 in
    fields-IsWords (read_state s0 ds.rest) s' ((read_state-Reads v).good ds.rest behind)
      (restore_fields-read s0 s' buf ds h3)
