-- ===== src/Fat32/Read/Sectors.antt =====
-- The inner loop of `fat32_read`: it copies the bytes asked for out of the sectors of one cluster.
use kernel_team_project.Base.{
  zero, suc, ◌⊎◌, ◌*◌, ◌/◌, ◌%◌, ◌≤◌, inl, inr, some, ltb, Bool-cases, u32_mod, add32, sub32,
  not-ltb→le, tests, le→leb, lt→not-leb,
}
use kernel_team_project.Fat32.Types.{Bytes, Fs, Run, done}
use kernel_team_project.Fat32.Read.{stopped, take_bytes, read_sectors, sector_round, Inner, chunk}
use kernel_team_project.Base.{
  ℕ, ◌+◌, ◌-◌, ◌<◌, ◌≡◌, ap, ap₂, refl, sym, ◌∙◌, ◌++◌, arith, tabulate, tabulate-ext, tabulate-add,
}
use mathlib.Core.List.{append-nil, append_assoc}
use kernel_team_project.Fat32.Read.{Reading}

-- The reading after `n` more bytes, given by their number in the run.
abbrev pub advance : Reading → (n : ℕ) → (ℕ → ℕ) → Reading
advance s n byte = record {
  file = record s.file { file_offset = s.file.file_offset + n };
  bytes_read = s.bytes_read + n;
  remaining = s.remaining - n;
  buffer = s.buffer ++ tabulate n byte;
}

-- Two advances make one.
advance-advance :
    (s : Reading) (m n t : ℕ) (f g h : ℕ → ℕ)
    → m + n ≡ t
    → ((k : ℕ) → k < m → f k ≡ h k)
    → ((k : ℕ) → k < n → g k ≡ h (m + k))
    → advance (advance s m f) n g ≡ advance s t h
advance-advance s m n t f g h e p q = λ i. record {
  file = record (s.file) { file_offset = offset i };
  bytes_read = count i;
  remaining = left i;
  buffer = bytes i;
}
  where
    offset : s.file.file_offset + m + n ≡ s.file.file_offset + t
    offset = omega arith

    count : s.bytes_read + m + n ≡ s.bytes_read + t
    count = omega arith

    left : s.remaining - m - n ≡ s.remaining - t
    left = omega arith

    bytes : (s.buffer ++ tabulate m f) ++ tabulate n g ≡ s.buffer ++ tabulate t h
    bytes =
        append_assoc s.buffer (tabulate m f) (tabulate n g)
        ∙ ap (λ l. s.buffer ++ l)
            (ap₂ ◌++◌ (tabulate-ext m f h p) (tabulate-ext n g (λ k. h (m + k)) q)
              ∙ sym (tabulate-add m n h)
              ∙ ap (λ k. tabulate k h) e)

advance-ext :
    (s : Reading) (n : ℕ) (f g : ℕ → ℕ)
    → ((k : ℕ) → k < n → f k ≡ g k)
    → advance s n f ≡ advance s n g
advance-ext s n f g h =
    ap (λ l. record (advance s n f) { buffer = s.buffer ++ l }) (tabulate-ext n f g h)

advance-zero : (s : Reading) (n : ℕ) (byte : ℕ → ℕ) → n ≡ 0 → s ≡ advance s n byte
advance-zero s n byte e = λ i. record {
  file = record (s.file) { file_offset = offset i };
  bytes_read = count i;
  remaining = left i;
  buffer = bytes i;
}
  where
    offset : s.file.file_offset ≡ s.file.file_offset + n
    offset = omega arith

    count : s.bytes_read ≡ s.bytes_read + n
    count = omega arith

    left : s.remaining ≡ s.remaining - n
    left = omega arith

    bytes : s.buffer ≡ s.buffer ++ tabulate n byte
    bytes = sym (ap (λ k. s.buffer ++ tabulate k byte) e ∙ append-nil s.buffer)

-- The 32-bit sums of a reading that has room for `n` more bytes.
pub record HasRoom (s : Reading) (n : ℕ) : Type 0 where
  pub offset : s.file.file_offset + n < u32_mod
  pub count : s.bytes_read + n < u32_mod
  pub left : n ≤ s.remaining
  pub small : s.remaining < u32_mod

take_bytes-advance :
    (s : Reading) (src : Bytes) (at n : ℕ)
    → HasRoom s n
    → take_bytes s src at n ≡ advance s n (λ i. src (at + i))
take_bytes-advance s src at n r = λ i. record {
  file = record (s.file) { file_offset = offset i };
  bytes_read = count i;
  remaining = left i;
  buffer = s.buffer ++ tabulate n (λ k. src (at + k));
}
  where
    offset : add32 s.file.file_offset n ≡ s.file.file_offset + n
    offset = omega (arith, r.offset)

    count : add32 s.bytes_read n ≡ s.bytes_read + n
    count = omega (arith, r.count)

    left : sub32 s.remaining n ≡ s.remaining - n
    left = omega (arith, r.left, r.small)

-- The byte at a position within a cluster, given its sectors.
abbrev pub cluster_byte : (ℕ → Bytes) → ℕ → ℕ
cluster_byte sector x = sector (x / 512) (x % 512)

module _ (fs : Fs) (start : ℕ) (sector : ℕ → Bytes) (bps : fs.bytes_per_sector ≡ 512)
    (room : start + fs.sectors_per_cluster < u32_mod)
    (disk : (j : ℕ) → j < fs.sectors_per_cluster → fs.disk (start + j) ≡ some (sector j)) where
  chunk_lem :
      (offset n : ℕ)
      → offset < 512
      → (chunk fs offset n ≤ n)
        × (chunk fs offset n + offset ≤ 512)
        × ((chunk fs offset n ≡ n) ⊎ (chunk fs offset n + offset ≡ 512))
  chunk_lem offset n small = rw bps (ground arith)

  -- What a round does: all that is asked for in the last sector, else a chunk and then the rest.
  module _ (j offset x n : ℕ) (s : Reading) (pos : x ≡ 512 * j + offset) (small : offset < 512)
      (low : j < fs.sectors_per_cluster) (fits : x + n ≤ 512 * fs.sectors_per_cluster)
      (r : HasRoom s n) (next : ℕ → Reading → Run Inner) where
    copied :
        {m : ℕ}
        → m ≤ n
        → m + offset ≤ 512
        → take_bytes s (sector j) offset m ≡ advance s m (λ i. cluster_byte sector (x + i))
    copied {m} le inside =
        take_bytes-advance s (sector j) offset m (omega (arith, r.offset, r.count, r.left, r.small))
        ∙ advance-ext s m (λ i. sector j (offset + i)) (λ i. cluster_byte sector (x + i))
            (λ i hi. ap₂ sector (omega arith) (omega arith))

    last_round :
        suc j ≡ fs.sectors_per_cluster
        → sector_round fs start (start + j) offset n s next (some (sector j))
          ≡ done (stopped 0 (advance s n (λ i. cluster_byte sector (x + i))))
    unfolding sector_round
    last_round e =
        let all : chunk fs offset n ≡ n = ground (arith, chunk_lem offset n small) in
        rw (le→leb fs.sectors_per_cluster (sub32 (add32 (start + j) 1) start) (omega arith)) (
          ap₂ (λ b t. done (stopped b t)) (omega (arith, all))
            (copied (chunk_lem offset n small).0 (chunk_lem offset n small).1
              ∙ ap (λ m. advance s m (λ i. cluster_byte sector (x + i))) all))

    inner_round :
        suc j < fs.sectors_per_cluster
        → sector_round fs start (start + j) offset n s next (some (sector j))
          ≡ next
              (n - chunk fs offset n)
              (advance s (chunk fs offset n) (λ i. cluster_byte sector (x + i)))
    unfolding sector_round
    inner_round more =
        rw (lt→not-leb fs.sectors_per_cluster (sub32 (add32 (start + j) 1) start) (omega arith)) (
          ap (next (n - chunk fs offset n))
            (copied (chunk_lem offset n small).0 (chunk_lem offset n small).1))

    round_then :
        suc j < fs.sectors_per_cluster
        → ((b : ℕ) (t : Reading)
            → 512 * suc j + b ≤ 512 * fs.sectors_per_cluster
            → HasRoom t b
            → next b t
              ≡ done (stopped 0 (advance t b (λ i. cluster_byte sector (512 * suc j + i)))))
        → sector_round fs start (start + j) offset n s next (some (sector j))
          ≡ done (stopped 0 (advance s n (λ i. cluster_byte sector (x + i))))
    round_then more then_all =
        let m = chunk fs offset n in
        let c = chunk_lem offset n small in
        let fit : 512 * suc j + (n - m) ≤ 512 * fs.sectors_per_cluster = ground (arith, c) in
        let room' : HasRoom (advance s m (λ i. cluster_byte sector (x + i))) (n - m) =
          omega (arith, c.0, r.offset, r.count, r.left, r.small) in
        inner_round more
        ∙ then_all (n - m) (advance s m (λ i. cluster_byte sector (x + i))) fit room'
        ∙ ap (λ t. done (stopped 0 t))
            (advance-advance s m (n - m) n (λ i. cluster_byte sector (x + i))
              (λ i. cluster_byte sector (512 * suc j + i)) (λ i. cluster_byte sector (x + i))
              (omega (arith, c.0)) (λ k hk. refl)
              (λ k hk. ap (cluster_byte sector) (ground (arith, c))))

  -- From any position within the cluster the loop copies the `n` bytes asked for, if the cluster
  -- holds as many, and stops with none left to copy.
  pub read_sectors-advance :
      (fuel j current offset x n : ℕ) (s : Reading)
      → current ≡ start + j
      → x ≡ 512 * j + offset
      → offset < 512
      → j ≤ fs.sectors_per_cluster
      → x + n ≤ 512 * fs.sectors_per_cluster
      → fs.sectors_per_cluster < j + fuel
      → HasRoom s n
      → read_sectors fs fuel start current offset n s
        ≡ done (stopped 0 (advance s n (λ i. cluster_byte sector (x + i))))
  unfolding read_sectors
  read_sectors-advance zero j current offset x n s at pos small low fits fuel r =
      absurd (omega arith)
  read_sectors-advance (suc fuel) j current offset x n s at pos small low fits enough r =
      elim (Bool-cases (ltb 0 n)) [
        | inl some_left ↦
            rw (some_left, at, disk j (omega (tests, some_left)))
              (elim (Bool-cases (ltb (suc j) fs.sectors_per_cluster)) [
                | inl more ↦
                    round_then j offset x n s pos small (omega (tests, some_left)) fits r _
                      (omega (tests, more))
                      (λ b t fit r'.
                        read_sectors-advance fuel (suc j) (add32 (start + j) 1) 0 (512 * suc j) b t
                          (omega (tests, more)) (omega arith) (omega arith) (omega (tests, more))
                          fit (omega arith) r')
                | inr last ↦
                    last_round j offset x n s pos small (omega (tests, some_left)) fits r _
                      (omega (tests, some_left, not-ltb→le (suc j) fs.sectors_per_cluster last))
              ])
        | inr none_left ↦ rw none_left (
            ap (λ t. done (stopped 0 t))
              (advance-zero s n (λ i. cluster_byte sector (x + i))
                (omega (tests, not-ltb→le 0 n none_left))))
      ]
