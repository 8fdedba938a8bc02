-- ===== src/Fat32/Read.antt =====
-- `fat32_read` of os/fs/fat32.c: the loop over the clusters of a file, and the one over the sectors of a
-- cluster.
pub mod Sectors
pub mod Rounds
pub mod Whole
use kernel_team_project.Base.{
  ℕ, zero, suc, ◌+◌, ◌-◌, ◌*◌, ◌/◌, ◌%◌, ◌^◌, Bool, true, false, Option, none, some, List, [], ◌++◌,
  ◌&&◌, ◌||◌, ◌==◌, ltb, leb, if◌then◌else◌, ℤ, pos, negsuc, is_neg, is_zero, to_u32, to_i32, add32,
  sub32, tabulate, not,
}
use kernel_team_project.Fat32.Types.{
  Bytes, Disk, Fs, File, Run, done, fault, out_of_fuel, ◌>>=◌, eoc_marker, last_marker, error_io,
  error_bad_parameter, success,
}
use kernel_team_project.Fat32.Chain.{get_next_cluster, get_cluster_at_index, cluster_to_sector}

-- The variables that the loops of `fat32_read` change. `buffer` is filled in order, so what has been
-- written to it is a list of bytes.
pub record Reading : Type 0 where
  pub file : File
  pub bytes_read : ℕ
  pub remaining : ℕ
  pub buffer : List ℕ

-- What `n` bytes of a sector, from `sector_offset` on, change.
abbrev pub take_bytes : Reading → Bytes → (sector_offset n : ℕ) → Reading
take_bytes s src sector_offset n = record {
  file = record s.file { file_offset = add32 s.file.file_offset n };
  bytes_read = add32 s.bytes_read n;
  remaining = sub32 s.remaining n;
  buffer = s.buffer ++ tabulate n (λ i. src (sector_offset + i));
}

-- How the inner loop ends: a sector that cannot be read, or `bytes_to_read` when it stops.
pub data Inner : Type 0 where
  io_error : Reading → Inner
  stopped : (bytes_to_read : ℕ) → Reading → Inner

-- `bytes_from_sector`
abbrev pub chunk : Fs → (offset bytes_to_read : ℕ) → ℕ
chunk fs offset bytes_to_read =
    if ltb bytes_to_read (sub32 fs.bytes_per_sector offset)
    then bytes_to_read
    else sub32 fs.bytes_per_sector offset

-- One round of the inner loop, once the sector has been read; `next` is the loop behind it.
unfoldable pub sector_round :
    Fs
    → (start current offset bytes_to_read : ℕ) → Reading
    → (next : ℕ → Reading → Run Inner) → Option Bytes
    → Run Inner
sector_round fs start current offset bytes_to_read s next none = done (io_error s)
sector_round fs start current offset bytes_to_read s next (some src) =
    let n = chunk fs offset bytes_to_read in
    if leb fs.sectors_per_cluster (sub32 (add32 current 1) start)
    then done (stopped (bytes_to_read - n) (take_bytes s src offset n))
    else next (bytes_to_read - n) (take_bytes s src offset n)

-- The inner loop, over the sectors of one cluster from `start` on. It stops at the end of the
-- cluster, so a round for each sector and one more is fuel enough.
unfoldable pub read_sectors :
    Fs → (fuel start current offset bytes_to_read : ℕ) → Reading → Run Inner
read_sectors fs zero start current offset bytes_to_read s = out_of_fuel
read_sectors fs (suc fuel) start current offset bytes_to_read s =
    let round =
      sector_round fs start current offset bytes_to_read s
        (λ b s'. read_sectors fs fuel start (add32 current 1) 0 b s') (fs.disk current) in
    if ltb 0 bytes_to_read then round else done (stopped 0 s)

abbrev pub read_so_far : ℕ → ℤ → ℤ
read_so_far bytes_read error = if ltb 0 bytes_read then to_i32 bytes_read else error

-- How a round of the outer loop ends: it returns, or goes on.
pub data Round : Type 0 where
  return : ℤ → Reading → Round
  continue : Reading → Round

-- The end of a round, behind the inner loop.
unfoldable pub after_sectors : Fs → ℕ → Inner → Round
after_sectors fs target (io_error s) = return (read_so_far s.bytes_read error_io) s
after_sectors fs target (stopped bytes_to_read s) =
    let s' = record s { file = record (s.file) { current_cluster = target } } in
    let next_cluster = get_next_cluster fs target in
    if ltb 0 bytes_to_read && (leb last_marker next_cluster || (next_cluster == eoc_marker))
    then return (to_i32 s.bytes_read) s'
    else continue s'

-- The middle of a round, once the target cluster and its first sector are known.
unfoldable pub read_from : Fs → (cluster_size target start cluster_offset : ℕ) → Reading → Run Round
read_from fs cluster_size target start cluster_offset s =
    let bytes_in_cluster = cluster_size - cluster_offset in
    let bytes_to_read : ℕ =
      if ltb s.remaining bytes_in_cluster then s.remaining else bytes_in_cluster in
    do
      inner ←
          read_sectors fs (fs.sectors_per_cluster + 1) start
            (add32 start (cluster_offset / fs.bytes_per_sector))
            (cluster_offset % fs.bytes_per_sector) bytes_to_read s
      done (after_sectors fs target inner)

unfoldable pub read_round : Fs → (cluster_size : ℕ) → Reading → Run Round
read_round fs cluster_size s =
    let offset = s.file.file_offset in
    let (result, target) = get_cluster_at_index fs s.file.start_cluster (offset / cluster_size) in
    let sector = cluster_to_sector fs target in
    if not (is_zero result)
    then done (return (read_so_far s.bytes_read result) s)
    else if is_neg sector
    then done (return sector s)
    else read_from fs cluster_size target (to_u32 sector) (offset % cluster_size) s

-- The outer loop. Every round that goes on has read a byte, so `remaining + 1` is fuel enough.
unfoldable pub read_loop : Fs → (fuel cluster_size : ℕ) → Reading → Run (ℤ × Reading)
read_loop fs zero cluster_size s = out_of_fuel
read_loop fs (suc fuel) cluster_size s =
    let rounds : Run (ℤ × Reading) = do
      r ← read_round fs cluster_size s
      elim r [ return v s' ↦ done (v, s') | continue s' ↦ read_loop fs fuel cluster_size s' ]
    in if ltb 0 s.remaining then rounds else done (to_i32 s.bytes_read, s)

-- `fat32_read(file, buffer, size)`: the result, the file afterwards and the bytes written to the
-- buffer. NULL for `file` is `none`, and `has_buffer` says that `buffer` is not NULL. `size` is an
-- `int` as its bit pattern, as the code reads it. A cluster of no bytes makes the code divide by 0.
unfoldable pub fat32_read :
    Option File → (has_buffer : Bool) → (size : ℕ) → Run (ℤ × Option File × List ℕ)
fat32_read none has_buffer size = done (error_bad_parameter, none, [])
fat32_read (some file) false size = done (error_bad_parameter, some file, [])
fat32_read (some file) true size =
    let cluster_size = file.fs.bytes_per_sector * file.fs.sectors_per_cluster in
    let max_readable = file.file_size - file.file_offset in
    let remaining : ℕ = if ltb max_readable size then max_readable else size in
    let start : Reading = record {
      file = file;
      bytes_read = 0;
      remaining = remaining;
      buffer = [];
    } in
    let loop : Run (ℤ × Option File × List ℕ) = do
      (v, s) ← read_loop file.fs (remaining + 1) cluster_size start
      done (v, some s.file, s.buffer)
    in if leb file.file_size file.file_offset || (size == 0)
      then done (pos 0, some file, [])
      else if cluster_size == 0
      then fault
      else loop
