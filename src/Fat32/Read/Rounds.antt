-- ===== src/Fat32/Read/Rounds.antt =====
-- The outer loop of `fat32_read` on a file that the disk holds: each round copies some bytes.
use kernel_team_project.Base.{
  ℕ, zero, suc, ◌+◌, ◌-◌, ◌*◌, ◌/◌, ◌%◌, ◌^◌, ◌≤◌, ◌<◌, ◌≡◌, refl, ap, ap₂, sym, ◌∙◌, inl, inr,
  some, ◌++◌, arith, ltb, if◌then◌else◌, add32, tabulate, tabulate-ext, tabulate-add, Bool-cases,
  u32_mod, not-ltb→le, pos, to_i32, tests,
}
use mathlib.Core.Path.{subst}
use native.Mathlib.Nat.{
  div-add-mod, mod-lt, mul-add-div, div-eq_of_lt, mul-add-mod_self_left, mod-eq_of_lt,
  div-mul-le_self,
}
use mathlib.Core.List.{append-nil, append_assoc}
use kernel_team_project.Fat32.Types.{Bytes, Fs, done, success, ◌>>=◌}
use kernel_team_project.Fat32.Chain.{get_cluster_at_index, cluster_to_sector}
use kernel_team_project.Fat32.Read.{
  Reading, continue, after_sectors, read_from, read_round, read_loop,
}
use kernel_team_project.Fat32.Read.Sectors.{advance, cluster_byte, read_sectors-advance}

-- The bytes of a cluster.
abbrev pub bytes_per_cluster : Fs → ℕ
bytes_per_cluster fs = 512 * fs.sectors_per_cluster

-- Each cluster of the file is found, has its sectors on the disk, and holds the bytes `sector`.
pub record IsStored (fs : Fs) (start_cluster file_size : ℕ) (chain first : ℕ → ℕ)
    (sector : ℕ → ℕ → Bytes) : Type 0 where
  pub bps : fs.bytes_per_sector ≡ 512
  pub not_empty : 0 < fs.sectors_per_cluster
  pub small : file_size < 2 ^ 31
  pub found :
      (k : ℕ)
      → k * bytes_per_cluster fs < file_size
      → get_cluster_at_index fs start_cluster k ≡ (success, chain k)
  pub located :
      (k : ℕ)
      → k * bytes_per_cluster fs < file_size
      → (cluster_to_sector fs (chain k) ≡ pos (first k))
        × (first k + fs.sectors_per_cluster < u32_mod)
  pub stored :
      (k j : ℕ)
      → k * bytes_per_cluster fs < file_size
      → j < fs.sectors_per_cluster
      → fs.disk (first k + j) ≡ some (sector k j)

-- The byte at a position of the file.
abbrev pub file_byte : Fs → (sector : ℕ → ℕ → Bytes) → ℕ → ℕ
file_byte fs sector p = cluster_byte (sector (p / bytes_per_cluster fs)) (p % bytes_per_cluster fs)

-- A step that stays within the cluster of `o`.
within : (c o i : ℕ) → 0 < c → i < c - o % c → ((o + i) / c ≡ o / c) × ((o + i) % c ≡ o % c + i)
within c o i positive h =
    let parts : o + i ≡ c * (o / c) + (o % c + i) = omega (arith, div-add-mod o c) in
    let small : o % c + i < c = omega arith in
    (
      ap (λ t. t / c) parts
          ∙ mul-add-div positive (o / c) (o % c + i)
          ∙ ap (λ t. o / c + t) (div-eq_of_lt small)
          ∙ omega arith,
      ap (λ t. t % c) parts ∙ mul-add-mod_self_left c (o / c) (o % c + i) ∙ mod-eq_of_lt small,
    )

module _ (fs : Fs) (start_cluster file_size : ℕ) (chain first : ℕ → ℕ) (sector : ℕ → ℕ → Bytes)
    (stored : IsStored fs start_cluster file_size chain first sector) where
  -- What one round, and what the whole loop, make of a reading: `n` more bytes.
  pub record Progress (s : Reading) (n : ℕ) (t : Reading) : Type 0 where
    pub count : t.bytes_read ≡ s.bytes_read + n
    pub left : t.remaining ≡ s.remaining - n
    pub buffer :
        t.buffer ≡ s.buffer ++ tabulate n (λ i. file_byte fs sector (s.file.file_offset + i))
    pub offset : t.file.file_offset ≡ s.file.file_offset + n
    pub start : t.file.start_cluster ≡ s.file.start_cluster
    pub size : t.file.file_size ≡ s.file.file_size
    pub same_fs : t.file.fs ≡ s.file.fs

  Progress-trans :
      {s t u : Reading} {m n : ℕ} → Progress s m t → Progress t n u → Progress s (m + n) u
  Progress-trans {s} {t} {u} {m} {n} p q = record {
    count = omega (arith, p.count, q.count);
    left = omega (arith, p.left, q.left);
    buffer = p_then_q;
    offset = omega (arith, p.offset, q.offset);
    start = q.start ∙ p.start;
    size = q.size ∙ p.size;
    same_fs = q.same_fs ∙ p.same_fs;
  }
    where
      byte : ℕ → ℕ
      byte i = file_byte fs sector (s.file.file_offset + i)

      p_then_q : u.buffer ≡ s.buffer ++ tabulate (m + n) byte
      p_then_q =
          q.buffer
          ∙ ap₂ ◌++◌ p.buffer (
              tabulate-ext n (λ i. file_byte fs sector (t.file.file_offset + i)) (λ i. byte (m + i))
                (λ k hk. ap (file_byte fs sector) (omega (arith, p.offset))))
          ∙ append_assoc s.buffer (tabulate m byte) (tabulate n (λ i. byte (m + i)))
          ∙ ap (λ l. s.buffer ++ l) (sym (tabulate-add m n byte))

  Progress-none : (s : Reading) {n : ℕ} → n ≡ 0 → Progress s n s
  Progress-none s {n} e = record {
    count = omega arith;
    left = omega arith;
    buffer = sym (
        ap (λ m. s.buffer ++ tabulate m (λ i. file_byte fs sector (s.file.file_offset + i))) e
        ∙ append-nil s.buffer);
    offset = omega arith;
    start = refl;
    size = refl;
    same_fs = refl;
  }

  -- A reading that has something left, at a position of the file.
  pub record IsReading (s : Reading) : Type 0 where
    pub start : s.file.start_cluster ≡ start_cluster
    pub inside : s.file.file_offset + s.remaining ≤ file_size
    pub counted : s.bytes_read ≤ s.file.file_offset

  -- The number of bytes that a round copies.
  abbrev round_bytes : Reading → ℕ
  round_bytes s =
      if ltb s.remaining (bytes_per_cluster fs - s.file.file_offset % bytes_per_cluster fs)
      then s.remaining
      else bytes_per_cluster fs - s.file.file_offset % bytes_per_cluster fs

  -- The reading after a round.
  abbrev after_round : Reading → Reading
  after_round s =
      let k = s.file.file_offset / bytes_per_cluster fs in
      let t =
        advance s (round_bytes s)
          (λ i. cluster_byte (sector k) (s.file.file_offset % bytes_per_cluster fs + i)) in
      record t { file = record (t.file) { current_cluster = chain k } }

  module _ (s : Reading) (r : IsReading s) (some_left : 0 < s.remaining) where
    in_file : s.file.file_offset / bytes_per_cluster fs * bytes_per_cluster fs < file_size
    in_file = omega (arith, r.inside, div-mul-le_self s.file.file_offset (bytes_per_cluster fs))

    cluster_room : s.file.file_offset % bytes_per_cluster fs < bytes_per_cluster fs
    cluster_room = mod-lt s.file.file_offset (omega (arith, stored.not_empty))

    round_bytes_lem :
        (0 < round_bytes s)
        × (round_bytes s ≤ s.remaining)
        × (round_bytes s ≤ bytes_per_cluster fs - s.file.file_offset % bytes_per_cluster fs)
    round_bytes_lem = ground (arith, cluster_room)

    read_from_lem :
        read_from fs
          (bytes_per_cluster fs)
          (chain (s.file.file_offset / bytes_per_cluster fs))
          (first (s.file.file_offset / bytes_per_cluster fs))
          (s.file.file_offset % bytes_per_cluster fs)
          s
        ≡ done (continue (after_round s))
    unfolding read_from after_sectors
    read_from_lem =
        ap (λ inner. inner >>= (λ t. done (after_sectors fs (chain k) t)))
          (read_sectors-advance fs (first k) (sector k) stored.bps (stored.located k in_file).1
            (λ j hj. stored.stored k j in_file hj) (fs.sectors_per_cluster + 1)
            (within_cluster / fs.bytes_per_sector)
            (add32 (first k) (within_cluster / fs.bytes_per_sector))
            (within_cluster % fs.bytes_per_sector) within_cluster (round_bytes s) s
            (rw stored.bps (omega (arith, cluster_room, (stored.located k in_file).1)))
            (rw stored.bps (omega arith)) (rw stored.bps (omega arith))
            (rw stored.bps (omega (arith, cluster_room)))
            (omega (arith, cluster_room, round_bytes_lem)) (omega arith)
            (omega (arith, round_bytes_lem, r.inside, r.counted, stored.small)))
      where
        k : ℕ
        k = s.file.file_offset / bytes_per_cluster fs

        within_cluster : ℕ
        within_cluster = s.file.file_offset % bytes_per_cluster fs

    round_continues : read_round fs (bytes_per_cluster fs) s ≡ done (continue (after_round s))
    unfolding read_round
    round_continues =
        let k = s.file.file_offset / bytes_per_cluster fs in
        let found : get_cluster_at_index fs s.file.start_cluster k ≡ (success, chain k) =
          ap (λ a. get_cluster_at_index fs a k) r.start ∙ stored.found k in_file in
        let word : first k % u32_mod ≡ first k = omega (arith, (stored.located k in_file).1) in
        rw (found, (stored.located k in_file).0, word) read_from_lem

    round-Progress : Progress s (round_bytes s) (after_round s)
    round-Progress = record {
      count = refl;
      left = refl;
      buffer = ap (λ l. s.buffer ++ l) (tabulate-ext (round_bytes s) _ _ same);
      offset = refl;
      start = refl;
      size = refl;
      same_fs = refl;
    }
      where
        k : ℕ
        k = s.file.file_offset / bytes_per_cluster fs

        same :
            (i : ℕ)
            → i < round_bytes s
            → cluster_byte (sector k) (s.file.file_offset % bytes_per_cluster fs + i)
              ≡ file_byte fs sector (s.file.file_offset + i)
        same i hi =
            let w =
              within (bytes_per_cluster fs) s.file.file_offset i (omega (arith, cluster_room))
                (omega (arith, round_bytes_lem)) in
            ap₂ (λ c x. cluster_byte (sector c) x) (sym w.0) (sym w.1)

  -- The loop copies all that is left, on fuel above what is left.
  pub read_loop-Progress :
      (fuel : ℕ) (s : Reading)
      → IsReading s
      → s.remaining < fuel
      → (t : Reading) × (read_loop fs fuel (bytes_per_cluster fs) s ≡ done (to_i32 t.bytes_read, t))
        × Progress s s.remaining t
  unfolding read_loop
  read_loop-Progress zero s r enough = absurd (omega arith)
  read_loop-Progress (suc fuel) s r enough = elim (Bool-cases (ltb 0 s.remaining)) [
    | inr none_left ↦
        (s, rw none_left, Progress-none s (omega (arith, not-ltb→le 0 s.remaining none_left)))
    | inl some_left ↦
        let positive : 0 < s.remaining = omega (tests, some_left) in
        let p = round-Progress s r positive in
        let n = round_bytes_lem s r positive in
        let r' : IsReading (after_round s) = record {
          start = r.start;
          inside = omega (arith, r.inside, n.1);
          counted = omega (arith, r.counted);
        } in
        let rest = read_loop-Progress fuel (after_round s) r' (omega (arith, n)) in
        (
          rest.0,
          rw (some_left, round_continues s r positive) rest.1,
          subst (λ m. Progress s m rest.0) (omega (arith, n)) (Progress-trans p rest.2),
        )
  ]
