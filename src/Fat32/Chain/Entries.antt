-- ===== src/Fat32/Chain/Entries.antt =====
-- What the two readers of the FAT make of an entry, for `fat32_get_next_cluster`,
-- `get_cluster_at_index` and `fat32_read_fat_entry` of os/fs/fat32.c.
use kernel_team_project.Base.{
  ℕ, ◌+◌, ◌%◌, ◌^◌, ◌≡◌, ap, ◌∙◌, some, arith, pos, bit_or, ◌<<◌, bit_and_low, bit_or_none,
}
use kernel_team_project.Fat32.Types.{Bytes, Fs}
use kernel_team_project.Fat32.Memory.{
  little_endian, AreBytes, read_unaligned_uint32, read_unaligned_lem,
}
use kernel_team_project.Fat32.Chain.{
  entry_word, entry_offset, fat_sector, classify, get_next_cluster, read_fat_entry,
}

entry_word_lem : (p : Bytes) (i : ℕ) → AreBytes p → entry_word p i ≡ little_endian 4 p i
unfolding entry_word read_unaligned_uint32
entry_word_lem p i h =
    ap (λ t. bit_or (bit_or (bit_or t (p (i + 1) << 8)) (p (i + 2) << 16)) (p (i + 3) << 24))
      (bit_or_none (p i))
    ∙ (read_unaligned_lem p i h).0

-- What the FAT says of a cluster: the low 28 bits of the little-endian entry.
abbrev pub fat_value : Bytes → ℕ → ℕ
fat_value p cluster = little_endian 4 p (entry_offset cluster) % 2 ^ 28

module _ (fs : Fs) (curr : ℕ) {p : Bytes} (read : fs.disk (fat_sector fs curr) ≡ some p)
    (bytes : AreBytes p) where
  -- The shifts, the `|`s and the mask of `fat32_get_next_cluster` read the low 28 bits of the
  -- little-endian number in the four bytes of the entry.
  pub get_next_cluster_lem : get_next_cluster fs curr ≡ classify (fat_value p curr)
  unfolding get_next_cluster
  get_next_cluster_lem =
      rw (read, get_next_cluster)
        (ap classify (
          bit_and_low 28 (entry_word p (entry_offset curr))
          ∙ ap (λ t. t % 2 ^ 28) (entry_word_lem p (entry_offset curr) bytes)))

  low_byte : p (entry_offset curr) ≡ fat_value p curr % 256
  unfolding little_endian
  low_byte = omega (arith, bytes (entry_offset curr))

  -- `fat32_read_fat_entry` returns the lowest byte of the entry alone, whatever the others hold.
  pub read_fat_entry_lem : read_fat_entry fs curr ≡ pos (fat_value p curr % 256)
  unfolding read_fat_entry
  read_fat_entry_lem =
      rw (read, read_fat_entry, bit_and_low 28 (p (entry_offset curr)))
        (ground (arith, low_byte, bytes (entry_offset curr)))
