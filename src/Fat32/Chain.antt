-- ===== src/Fat32/Chain.antt =====
-- The cluster chain of os/fs/fat32.c: `fat32_read_fat_entry`, `fat32_get_next_cluster`,
-- `get_cluster_at_index` and `cluster_to_sector`. The file system is a value here, so the tests for a
-- NULL `fs` in these static helpers have no case.
pub mod Entries
pub mod Follow
use kernel_team_project.Base.{
  ℕ, zero, suc, ◌+◌, ◌-◌, ◌*◌, ◌/◌, ◌%◌, Bool, true, false, Option, none, some, ◌&&◌, ◌||◌, ◌==◌,
  ltb, leb, if◌then◌else◌, ℤ, pos, negsuc, to_u32, to_i32, add32, sub32, mul32, bit_and, bit_or,
  ◌<<◌, u32_mod,
}
use kernel_team_project.Fat32.Types.{
  Bytes, Disk, Fs, sector_size, eoc_marker, error_io, error_corrupted_fs, error_bad_parameter,
  error_invalid_cluster, success,
}

-- Where the FAT holds the entry of a cluster.
abbrev pub fat_offset : ℕ → ℕ
fat_offset cluster = mul32 cluster 4

abbrev pub entry_offset : ℕ → ℕ
entry_offset cluster = fat_offset cluster % sector_size

abbrev pub fat_sector : Fs → ℕ → ℕ
fat_sector fs cluster = add32 (fat_offset cluster / sector_size) fs.fat_start_sector

-- The four bytes of an entry, in the order in which the code puts them together.
unfoldable pub entry_word : Bytes → ℕ → ℕ
entry_word buffer at =
    bit_or (bit_or (bit_or (bit_or 0 (buffer at)) (buffer (at + 1) << 8)) (buffer (at + 2) << 16))
      (buffer (at + 3) << 24)

-- The special values of an entry: end of chain, bad cluster, reserved clusters.
unfoldable pub classify : ℕ → ℕ
classify value =
    if leb 0x0FFFFFF8 value
    then eoc_marker
    else if value == 0x0FFFFFF7
    then to_u32 error_io
    else if ltb value 2
    then to_u32 error_corrupted_fs
    else value

-- Returns a `uint32_t`, so that an error code comes out as a large number.
unfoldable pub get_next_cluster : Fs → ℕ → ℕ
get_next_cluster fs curr = elim (fs.disk (fat_sector fs curr)) [
  | none ↦ to_u32 error_io
  | some buffer ↦ classify (bit_and (entry_word buffer (entry_offset curr)) 0x0FFFFFFF)
]

-- The loop of `get_cluster_at_index` from round `i` on: the result, and what is stored through
-- `target_cluster` on success.
unfoldable pub follow_chain : Fs → (rounds i index current : ℕ) → ℤ × ℕ
follow_chain fs zero i index current = (success, current)
follow_chain fs (suc rounds) i index current =
    let next = get_next_cluster fs current in
    let rest = follow_chain fs rounds (i + 1) index next in
    if (next == eoc_marker) && ltb i (sub32 index 1) then (error_corrupted_fs, 0) else rest

unfoldable pub get_cluster_at_index : Fs → (start_cluster index : ℕ) → ℤ × ℕ
get_cluster_at_index fs start_cluster index =
    if leb start_cluster 2
    then (error_bad_parameter, 0)
    else follow_chain fs index 0 index start_cluster

-- The other reader of the FAT, used to walk directories: it takes one byte of the entry.
unfoldable pub read_fat_entry : Fs → ℕ → ℤ
read_fat_entry fs cluster = elim (fs.disk (fat_sector fs cluster)) [
  | none ↦ error_io
  | some buffer ↦
      let next_cluster = bit_and (buffer (entry_offset cluster)) 0x0FFFFFFF in
      if leb 0x0FFFFFF8 next_cluster
      then to_i32 eoc_marker
      else if next_cluster == 0x0FFFFFF7
      then error_io
      else to_i32 next_cluster
]

unfoldable pub cluster_to_sector : Fs → ℕ → ℤ
cluster_to_sector fs cluster =
    if ltb cluster 2 || leb (add32 2 fs.total_clusters) cluster
    then error_invalid_cluster
    else to_i32 (add32 (mul32 (sub32 cluster 2) fs.sectors_per_cluster) fs.first_data_sector)
