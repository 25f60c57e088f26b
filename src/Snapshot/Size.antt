-- ===== src/Snapshot/Size.antt =====
-- The size of a snapshot, and that what follows a writer's bytes is left as it is.
use huxley.Base.{ℕ, zero, suc, ◌+◌, ◌*◌, ◌≡◌, refl, ap, ◌∙◌, arith, length, List, [], ◌∷◌, ◌++◌}
use huxley.State.{Emu86State, Disk, Pit}
use huxley.Snapshot.Bytes.{write_u8, write_u16, write_u32, write_u64, write_each}
use huxley.Snapshot.Format.{write_disk, write_pit, write_cpu, write_arrays, write_devices}
use huxley.Snapshot.Format.{write_header, write_state, snapshot_body, data_size, header_size, take}
use huxley.Snapshot.Format.{drop}

length-write_u8 : (v : ℕ) (rest : List ℕ) → length (write_u8 v rest) ≡ 1 + length rest
unfolding write_u8
length-write_u8 v rest = omega arith

length-write_u16 : (v : ℕ) (rest : List ℕ) → length (write_u16 v rest) ≡ 2 + length rest
unfolding write_u16
length-write_u16 v rest = omega arith

length-write_u32 : (v : ℕ) (rest : List ℕ) → length (write_u32 v rest) ≡ 4 + length rest
unfolding write_u32
length-write_u32 v rest = omega arith

length-write_u64 : (v : ℕ) (rest : List ℕ) → length (write_u64 v rest) ≡ 8 + length rest
unfolding write_u64 write_u32
length-write_u64 v rest = omega arith

length-write_each :
    {A : Type 0} (write : A → List ℕ → List ℕ) (k : ℕ) (src : ℕ → A) (i n : ℕ) (rest : List ℕ)
    → ((a : A) (more : List ℕ) → length (write a more) ≡ k + length more)
    → length (write_each write src i n rest) ≡ n * k + length rest
unfolding write_each
length-write_each write k src i zero rest h = omega arith
length-write_each write k src i (suc n) rest h =
    h (src i) (write_each write src (i + 1) n rest)
    ∙ omega (arith, length-write_each write k src (i + 1) n rest h)

length-write_disk : (d : Disk) (rest : List ℕ) → length (write_disk d rest) ≡ 12 + length rest
unfolding write_disk
length-write_disk d rest = simp (length-write_u32, length-write_u16, length-write_u8) (omega arith)

length-write_pit : (t : Pit) (rest : List ℕ) → length (write_pit t rest) ≡ 5 + length rest
unfolding write_pit
length-write_pit t rest = simp (length-write_u16, length-write_u8) (omega arith)

length-write_cpu : (s : Emu86State) (rest : List ℕ) → length (write_cpu s rest) ≡ 36 + length rest
unfolding write_cpu
length-write_cpu s rest =
    simp
      (
        length-write_u16,
        length-write_u8,
        λ (src : ℕ → ℕ) (i n : ℕ) (more : List ℕ).
            length-write_each write_u16 2 src i n more length-write_u16,
      )
      (omega arith)

length-write_arrays :
    (s : Emu86State) (rest : List ℕ)
    → length (write_arrays s rest) ≡ 0x11_0000 + 0x1_0000 + 36 + 15 + 1 + 16 + length rest
unfolding write_arrays
length-write_arrays s rest =
    simp
      (
        length-write_u8,
        λ (src : ℕ → ℕ) (i n : ℕ) (more : List ℕ).
            length-write_each write_u8 1 src i n more length-write_u8,
        λ (src : ℕ → Disk) (i n : ℕ) (more : List ℕ).
            length-write_each write_disk 12 src i n more length-write_disk,
        λ (src : ℕ → Pit) (i n : ℕ) (more : List ℕ).
            length-write_each write_pit 5 src i n more length-write_pit,
      )
      (omega arith)

length-write_devices :
    (s : Emu86State) (rest : List ℕ) → length (write_devices s rest) ≡ 23 + length rest
unfolding write_devices
length-write_devices s rest =
    simp (length-write_u64, length-write_u16, length-write_u8) (omega arith)

-- The header and the fields take the header's size and `data_size` bytes.
pub length-snapshot_body :
    (s : Emu86State) (rest : List ℕ)
    → length (snapshot_body s rest) ≡ header_size + data_size + length rest
unfolding snapshot_body write_header write_state
length-snapshot_body s rest =
    simp (length-write_u32, length-write_cpu, length-write_arrays, length-write_devices)
      (omega arith)

write_each-append :
    {A : Type 0} (write : A → List ℕ → List ℕ) (src : ℕ → A) (i n : ℕ) (xs ys : List ℕ)
    → ((a : A) (more : List ℕ) → write a (more ++ ys) ≡ write a more ++ ys)
    → write_each write src i n (xs ++ ys) ≡ write_each write src i n xs ++ ys
unfolding write_each
write_each-append write src i zero xs ys h = refl
write_each-append write src i (suc n) xs ys h =
    ap (write (src i)) (write_each-append write src (i + 1) n xs ys h)
    ∙ h (src i) (write_each write src (i + 1) n xs)

write_u8-append : (v : ℕ) (xs ys : List ℕ) → write_u8 v (xs ++ ys) ≡ write_u8 v xs ++ ys
unfolding write_u8
write_u8-append v xs ys = refl

write_u16-append : (v : ℕ) (xs ys : List ℕ) → write_u16 v (xs ++ ys) ≡ write_u16 v xs ++ ys
unfolding write_u16
write_u16-append v xs ys = refl

write_u32-append : (v : ℕ) (xs ys : List ℕ) → write_u32 v (xs ++ ys) ≡ write_u32 v xs ++ ys
unfolding write_u32
write_u32-append v xs ys = refl

write_u64-append : (v : ℕ) (xs ys : List ℕ) → write_u64 v (xs ++ ys) ≡ write_u64 v xs ++ ys
unfolding write_u64 write_u32
write_u64-append v xs ys = refl

write_disk-append : (d : Disk) (xs ys : List ℕ) → write_disk d (xs ++ ys) ≡ write_disk d xs ++ ys
unfolding write_disk write_u8 write_u16 write_u32
write_disk-append d xs ys = refl

write_pit-append : (t : Pit) (xs ys : List ℕ) → write_pit t (xs ++ ys) ≡ write_pit t xs ++ ys
unfolding write_pit write_u8 write_u16
write_pit-append t xs ys = refl

write_u8s-append :
    (src : ℕ → ℕ) (i n : ℕ) (xs ys : List ℕ)
    → write_each write_u8 src i n (xs ++ ys) ≡ write_each write_u8 src i n xs ++ ys
write_u8s-append src i n xs ys =
    write_each-append write_u8 src i n xs ys (λ a m. write_u8-append a m ys)

write_u16s-append :
    (src : ℕ → ℕ) (i n : ℕ) (xs ys : List ℕ)
    → write_each write_u16 src i n (xs ++ ys) ≡ write_each write_u16 src i n xs ++ ys
write_u16s-append src i n xs ys =
    write_each-append write_u16 src i n xs ys (λ a m. write_u16-append a m ys)

write_disks-append :
    (src : ℕ → Disk) (i n : ℕ) (xs ys : List ℕ)
    → write_each write_disk src i n (xs ++ ys) ≡ write_each write_disk src i n xs ++ ys
write_disks-append src i n xs ys =
    write_each-append write_disk src i n xs ys (λ a m. write_disk-append a m ys)

write_pits-append :
    (src : ℕ → Pit) (i n : ℕ) (xs ys : List ℕ)
    → write_each write_pit src i n (xs ++ ys) ≡ write_each write_pit src i n xs ++ ys
write_pits-append src i n xs ys =
    write_each-append write_pit src i n xs ys (λ a m. write_pit-append a m ys)

ruleset append_laws = (
  write_u8-append, write_u16-append, write_u32-append, write_u64-append, write_u8s-append,
  write_u16s-append, write_disks-append, write_pits-append,
)

-- What is written behind a snapshot's body stands behind it.
pub snapshot_body-append :
    (s : Emu86State) (xs ys : List ℕ) → snapshot_body s (xs ++ ys) ≡ snapshot_body s xs ++ ys
unfolding snapshot_body write_header write_state write_cpu write_arrays write_devices
snapshot_body-append s xs ys = simp append_laws

pub take-append : (n : ℕ) (xs ys : List ℕ) → n ≡ length xs → take n (xs ++ ys) ≡ xs
unfolding take
take-append zero [] ys h = refl
take-append zero (x ∷ xs) ys h = absurd (omega arith)
take-append (suc n) [] ys h = absurd (omega arith)
take-append (suc n) (x ∷ xs) ys h = ap (λ (t : List ℕ). x ∷ t) (take-append n xs ys (omega arith))

pub drop-append : (n : ℕ) (xs ys : List ℕ) → n ≡ length xs → drop n (xs ++ ys) ≡ ys
unfolding drop
drop-append zero [] ys h = refl
drop-append zero (x ∷ xs) ys h = absurd (omega arith)
drop-append (suc n) [] ys h = absurd (omega arith)
drop-append (suc n) (x ∷ xs) ys h = drop-append n xs ys (omega arith)
