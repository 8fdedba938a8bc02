-- ===== src/Fat32/Read/Whole.antt =====
-- `fat32_read` on a file that the disk holds: what is returned, what is written to the buffer, and
-- where the file stands afterwards.
use kernel_team_project.Base.{
  ℕ, ◌+◌, ◌-◌, ◌*◌, ◌^◌, ◌≤◌, ◌<◌, ◌≡◌, refl, ap, ap₂, sym, ◌∙◌, inl, inr, true, false, some, [],
  arith, ◌==◌, ltb, leb, if◌then◌else◌, tabulate, Bool-cases, min, pos, to_i32, ℤ, ◌||◌, ne→not-==,
}
use kernel_team_project.Fat32.Types.{Bytes, File, done}
use kernel_team_project.Fat32.Read.{Reading, read_loop, fat32_read}
use kernel_team_project.Fat32.Read.Rounds.{
  IsStored, bytes_per_cluster, file_byte, read_loop-Progress,
}

-- What a read returns, writes and leaves behind, `n` bytes after `file`.
pub record Reads (file : File) (size : ℕ) (sector : ℕ → ℕ → Bytes) (n : ℕ) : Type 0 where
  pub after : File
  pub returned :
      fat32_read (some file) true size
      ≡ done (pos n, some after, tabulate n (λ i. file_byte file.fs sector (file.file_offset + i)))
  pub offset : after.file_offset ≡ file.file_offset + n
  pub start : after.start_cluster ≡ file.start_cluster
  pub size_kept : after.file_size ≡ file.file_size
  pub same_fs : after.fs ≡ file.fs

-- `remaining` in front of the loop, and the reading that the loop starts with.
abbrev to_read : File → ℕ → ℕ
to_read file size =
    if ltb (file.file_size - file.file_offset) size then file.file_size - file.file_offset else size

abbrev first_reading : File → ℕ → Reading
first_reading file n = record { file = file; bytes_read = 0; remaining = n; buffer = [] }

module _ (file : File) (size : ℕ) (chain first : ℕ → ℕ) (sector : ℕ → ℕ → Bytes)
    (stored : IsStored file.fs file.start_cluster file.file_size chain first sector) where
  -- Behind the two guards the function is its loop.
  read_by_loop :
      (leb file.file_size file.file_offset || (size == 0)) ≡ false
      → {v : ℤ} {t : Reading}
      → read_loop file.fs
          (to_read file size + 1)
          (bytes_per_cluster file.fs)
          (first_reading file (to_read file size))
        ≡ done (v, t)
      → fat32_read (some file) true size ≡ done (v, some t.file, t.buffer)
  unfolding fat32_read
  read_by_loop some_left e =
      let bytes : file.fs.bytes_per_sector * file.fs.sectors_per_cluster
          ≡ bytes_per_cluster file.fs =
        ap (λ b. b * file.fs.sectors_per_cluster) stored.bps in
      rw (
        some_left,
        bytes,
        ne→not-== (bytes_per_cluster file.fs) 0 (omega (arith, stored.not_empty)),
        e,
      )

  Reads-none :
      (leb file.file_size file.file_offset || (size == 0)) ≡ true
      → (n : ℕ) → n ≡ 0
      → Reads file size sector n
  unfolding fat32_read
  Reads-none test n e = record {
    after = file;
    returned = rw test (
        ap
          (λ (m : ℕ).
            done
              (pos m, some file, tabulate m (λ i. file_byte file.fs sector (file.file_offset + i))))
          (sym e));
    offset = omega arith;
    start = refl;
    size_kept = refl;
    same_fs = refl;
  }

  Reads-some :
      (leb file.file_size file.file_offset || (size == 0)) ≡ false
      → (n : ℕ) → to_read file size ≡ n
      → n < 2 ^ 31
      → file.file_offset + n ≤ file.file_size
      → Reads file size sector n
  Reads-some test n e small inside =
      let loop =
        read_loop-Progress file.fs file.start_cluster file.file_size chain first sector stored
          (to_read file size + 1) (first_reading file (to_read file size))
          (record { start = refl; inside = omega (arith, e); counted = omega arith })
          (omega arith) in
      let t = loop.0 in
      let p = loop.2 in
      let bytes : ℕ → ℕ = λ i. file_byte file.fs sector (file.file_offset + i) in
      let signed : to_i32 t.bytes_read ≡ pos n = ground (arith, p.count, e) in
      record {
        after = t.file;
        returned =
            read_by_loop test loop.1
            ∙ ap₂ (λ v l. done (v, some t.file, l)) signed
                (p.buffer ∙ ap (λ m. tabulate m bytes) e);
        offset = omega (arith, p.offset, e);
        start = p.start;
        size_kept = p.size;
        same_fs = p.same_fs;
      }

-- A read on a file that the disk holds returns the number of bytes asked for, or of those that are
-- left in the file if they are fewer. It writes exactly these bytes of the file to the buffer, in
-- order, moves the offset behind them, and leaves the start, the size and the file system alone.
pub fat32_read_lem :
    (file : File) (size : ℕ) (chain first : ℕ → ℕ) (sector : ℕ → ℕ → Bytes)
    → IsStored file.fs file.start_cluster file.file_size chain first sector
    → Reads file size sector (min size (file.file_size - file.file_offset))
fat32_read_lem file size chain first sector stored =
    let n = min size (file.file_size - file.file_offset) in
    elim (Bool-cases (leb file.file_size file.file_offset || (size == 0))) [
      | inl test ↦ Reads-none file size chain first sector stored test n (ground (arith, test))
      | inr test ↦
          Reads-some file size chain first sector stored test n (ground arith)
            (omega (arith, stored.small)) (ground (arith, test))
    ]
