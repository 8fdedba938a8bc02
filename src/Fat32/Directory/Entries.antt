-- ===== src/Fat32/Directory/Entries.antt =====
-- What `read_dir_entry` returns for a name that the first cluster of a directory holds, and where it
-- goes from a cluster that does not.
use kernel_team_project.Base.{
  ℕ, zero, suc, true, ◌+◌, ◌*◌, ◌%◌, ◌^◌, ◌<◌, ◌≡◌, ◌≢◌, ◌∙◌, refl, ap, some, arith, bit_or_comm,
  bit_or, bit_or_add, ne→not-==, u32_mod, ◌<<◌,
}
use kernel_team_project.Fat32.Types.{Bytes, Fs, DirEntry, done, out_of_fuel, eoc_marker, success}
use kernel_team_project.Fat32.Memory.{
  AreBytes, little_endian, read_unaligned_lem, read_unaligned_uint16,
}
use kernel_team_project.Fat32.Strings.{Text}
use kernel_team_project.Fat32.Name.{format_name_to_fat32}
use kernel_team_project.Fat32.Chain.{fat_sector}
use kernel_team_project.Fat32.Chain.Entries.{fat_value, read_fat_entry_lem}
use kernel_team_project.Fat32.Directory.{
  entry_bytes, copied_entry, after_search, search_clusters, sector_target, searched, first_cluster,
  read_dir_entry,
}
use kernel_team_project.Fat32.Directory.Lookup.{
  IsNamed, IsPassed, AreRead, ArePassed, sectors-hit, sectors-exhausted,
}

-- The first cluster of the directory at `cluster` holds the entry `e` for a name: entry `index` of
-- sector `within`, with no end of the directory and no entry for the name in front of it.
pub record Holds (fs : Fs) (cluster : ℕ) (name : Text) (e : Bytes) : Type 0 where
  pub within : ℕ
  pub index : ℕ
  pub sector : ℕ → Bytes
  pub is_data : cluster ≢ eoc_marker
  pub fits : sector_target fs cluster + fs.sectors_per_cluster < u32_mod
  pub within_in : within < fs.sectors_per_cluster
  pub index_in : index < 16
  pub read :
      AreRead fs (format_name_to_fat32 name) (sector_target fs cluster) sector fits (suc within)
  pub passed :
      ArePassed fs (format_name_to_fat32 name) (sector_target fs cluster) sector fits within
  pub before :
      (m : ℕ) → m < index → IsPassed (format_name_to_fat32 name) (entry_bytes (sector within) m)
  pub named : IsNamed (format_name_to_fat32 name) (entry_bytes (sector within) index)
  pub here : entry_bytes (sector within) index ≡ e
  pub entry_bytes_small : AreBytes e

-- What the 32 bytes of an entry say: the attributes at 11, the start cluster in two halves at 26 and 20,
-- and the size at 28.
abbrev pub described : Bytes → DirEntry
described e = record {
  attributes = e 11;
  start_cluster = little_endian 2 e 26 + little_endian 2 e 20 * 2 ^ 16;
  file_size = little_endian 4 e 28;
  is_initialized = true;
}

-- The fields that are copied are what the entry says.
pub copied_entry_lem : (e : Bytes) → AreBytes e → copied_entry e ≡ described e
unfolding copied_entry little_endian
copied_entry_lem e h =
    let low : read_unaligned_uint16 e 26 ≡ little_endian 2 e 26 = (read_unaligned_lem e 26 h).1 in
    let high : read_unaligned_uint16 e 20 ≡ little_endian 2 e 20 = (read_unaligned_lem e 20 h).1 in
    let start : bit_or (read_unaligned_uint16 e 20 << 16) (read_unaligned_uint16 e 26)
        ≡ little_endian 2 e 26 + little_endian 2 e 20 * 2 ^ 16 =
      bit_or_comm (read_unaligned_uint16 e 20 << 16) (read_unaligned_uint16 e 26)
      ∙ bit_or_add 16 (read_unaligned_uint16 e 26) (read_unaligned_uint16 e 20)
          (omega (arith, low, h 26, h 27))
      ∙ omega (arith, low, high) in
    rw (start, (read_unaligned_lem e 28 h).0)

-- A name that the first cluster of the directory holds is found, and the directory that the caller gave
-- becomes what the entry's bytes say: its attributes are byte 11, its start cluster the little-endian
-- numbers at 26 and 20, its size that at 28.
pub read_dir_entry_found :
    (fuel : ℕ) (fs : Fs) (dir : DirEntry) (name : Text) (e : Bytes)
    → Holds fs (first_cluster fs (some dir)) name e
    → read_dir_entry (suc fuel) (some fs) (some dir) (some name)
      ≡ done (success, some (described e))
unfolding read_dir_entry search_clusters after_search searched
read_dir_entry_found fuel fs dir name e held = rw (
  ne→not-== (first_cluster fs (some dir)) eoc_marker held.is_data,
  sectors-hit fs (format_name_to_fat32 name) (sector_target fs (first_cluster fs (some dir)))
      held.sector held.fits fs.sectors_per_cluster 0 held.within held.index (omega arith)
      (omega (arith, held.within_in)) held.within_in held.index_in held.read held.passed held.before
      held.named,
  held.here,
  copied_entry_lem e held.entry_bytes_small,
)

module _ (fs : Fs) (cluster : ℕ) (name : Text) (sector : ℕ → Bytes) {p : Bytes}
    (is_data : cluster ≢ eoc_marker)
    (fits : sector_target fs cluster + fs.sectors_per_cluster < u32_mod)
    (read : AreRead fs
      (format_name_to_fat32 name)
      (sector_target fs cluster)
      sector
      fits
      fs.sectors_per_cluster)
    (passed : ArePassed fs
      (format_name_to_fat32 name)
      (sector_target fs cluster)
      sector
      fits
      fs.sectors_per_cluster)
    (fat : fs.disk (fat_sector fs cluster) ≡ some p) (bytes : AreBytes p) where
  -- From a full cluster that does not hold the name the search goes on in the cluster whose number
  -- is the lowest byte of the FAT's entry, also where that entry marks the end of the directory.
  pub search_beyond :
      (fuel : ℕ)
      → search_clusters fs (format_name_to_fat32 name) (suc fuel) cluster
        ≡ search_clusters fs (format_name_to_fat32 name) fuel (fat_value p cluster % 256)
  unfolding search_clusters after_search
  search_beyond fuel =
      rw
        (
          ne→not-== cluster eoc_marker is_data,
          sectors-exhausted fs (format_name_to_fat32 name) (sector_target fs cluster) sector fits
              fs.sectors_per_cluster 0 (omega arith) read passed,
          read_fat_entry_lem fs cluster fat bytes,
        )
        (ap (search_clusters fs (format_name_to_fat32 name) fuel) (
          let e : fat_value p cluster % 256 % u32_mod ≡ fat_value p cluster % 256 = omega arith in
          e))

  -- In a cluster of a directory that is full, can be read and does not hold the name, and whose own
  -- number is the lowest byte of its entry in the FAT, the search for the name does not end on any fuel.
  pub search_endless :
      (fuel : ℕ)
      → fat_value p cluster % 256 ≡ cluster
      → search_clusters fs (format_name_to_fat32 name) fuel cluster ≡ out_of_fuel
  unfolding search_clusters
  search_endless zero loop = refl
  search_endless (suc fuel) loop =
      search_beyond fuel
      ∙ ap (search_clusters fs (format_name_to_fat32 name) fuel) loop
      ∙ search_endless fuel loop
