-- ===== src/Fat32/Tests.antt =====
-- The theorems about the FAT32 driver at concrete names, paths and disks.
use kernel_team_project.Base.{
  ℕ, zero, suc, ◌+◌, ◌*◌, ◌%◌, ◌<◌, ◌≡◌, refl, some, List, [], ◌∷◌, ◌++◌, arith, ◌==◌,
  if◌then◌else◌, update, take, inl, pos, u32_mod,
}
use kernel_team_project.Fat32.{
  Bytes, Disk, Fs, done, success, max_components, fat32_magic, AreBytes, little_endian,
}
use kernel_team_project.Fat32.Types.{File}
use kernel_team_project.Fat32.Name.{format_name_to_fat32, field, dot, format_fields}
use kernel_team_project.Fat32.Path.{parse_fat32_path, split, keep, skip_dot, parse-split}
use kernel_team_project.Fat32.Chain.{
  get_next_cluster, get_cluster_at_index, read_fat_entry, cluster_to_sector, classify, follow_chain,
  entry_word,
}
use kernel_team_project.Fat32.Chain.Entries.{read_fat_entry_lem}
use kernel_team_project.Fat32.Chain.Follow.{Link, get_cluster_at_index_lem}
use kernel_team_project.Fat32.Read.Rounds.{IsStored}
use kernel_team_project.Fat32.Read.Whole.{Reads, fat32_read_lem}
use kernel_team_project.Fat32.Mount.{fat32_mount}
use kernel_team_project.Fat32.Mount.Volume.{IsPartitioned, Describes, mount-Describes}

-- A FAT in which cluster 3 is followed by cluster 5, and cluster 6 by cluster 0x12C.
abbrev fat : Bytes
fat = update (update (update (λ _. 0) 12 5) 24 0x2C) 25 1

fat-AreBytes : AreBytes fat
fat-AreBytes i = ground arith

-- A disk with that FAT in sector 1.
abbrev disk : Disk
disk n = if n == 1 then some fat else some (λ i. (n + i) % 256)

abbrev fs : Fs
fs = record {
  disk = disk;
  bytes_per_sector = 512;
  sectors_per_cluster = 1;
  reserved_sector_count = 1;
  num_fats = 1;
  sectors_per_fat = 1;
  root_cluster = 2;
  cluster_size = 512;
  total_clusters = 100;
  total_sectors = 102;
  fsinfo_sector = 0;
  first_data_sector = 2;
  fat_start_sector = 1;
  magic = fat32_magic;
}

-- "a.txt"
abbrev txt : List ℕ
txt = b't' ∷ b'x' ∷ b't' ∷ []

format_fields_example :
    (format_name_to_fat32 (b'a' ∷ [] ++ dot ∷ txt) ≡ field 8 (b'a' ∷ []) ++ field 3 txt)
    × (format_name_to_fat32 (b'a' ∷ []) ≡ field 8 (b'a' ∷ []) ++ field 3 [])
format_fields_example =
    format_fields (b'a' ∷ []) txt ((ground arith), (ground arith)) ((ground arith), (ground arith))
      (ground arith)

-- "/a//txt"
abbrev path : List ℕ
path = b'/' ∷ b'a' ∷ b'/' ∷ b'/' ∷ txt

parse-split_example : parse_fat32_path path ≡ take max_components (keep (split [] (skip_dot path)))
parse-split_example = parse-split path (ground arith)

read_fat_entry_lem_example : read_fat_entry fs 6 ≡ pos 0x2C
unfolding little_endian
read_fat_entry_lem_example = read_fat_entry_lem fs 6 refl fat-AreBytes

-- The chain of clusters 3, 5.
abbrev chain : ℕ → ℕ
chain zero = 3
chain (suc k) = 5

chain-Link : (j : ℕ) → j < 1 → Link fs (chain j) (chain (suc j))
unfolding little_endian
chain-Link zero h = record {
  sector = fat;
  read = refl;
  bytes = fat-AreBytes;
  value = refl;
  low = omega arith;
  high = omega arith;
}
chain-Link (suc j) h = absurd (omega arith)

get_cluster_at_index_lem_example : get_cluster_at_index fs 3 1 ≡ (success, 5)
get_cluster_at_index_lem_example = get_cluster_at_index_lem fs chain 1 (omega arith) chain-Link

-- A file of 600 bytes in the clusters 3 and 5.
abbrev file : File
file = record {
  fs = fs;
  formatted_name = [];
  start_cluster = 3;
  current_cluster = 3;
  current_cluster_index = 0;
  file_size = 600;
  file_offset = 510;
  parent_dir_cluster = 2;
}

abbrev sectors : ℕ → ℕ → Bytes
sectors k j i = (chain k + j + i) % 256

file-IsStored : IsStored fs 3 600 chain chain sectors
unfolding get_cluster_at_index follow_chain get_next_cluster classify entry_word cluster_to_sector
file-IsStored = record {
  bps = refl;
  not_empty = omega arith;
  small = omega arith;
  found = found;
  located = located;
  stored = stored;
}
  where
    found : (k : ℕ) → k * 512 < 600 → get_cluster_at_index fs 3 k ≡ (success, chain k)
    found zero h = refl
    found (suc zero) h = refl
    found (suc (suc k)) h = absurd (omega arith)

    located :
        (k : ℕ)
        → k * 512 < 600
        → (cluster_to_sector fs (chain k) ≡ pos (chain k)) × (chain k + 1 < u32_mod)
    located zero h = (refl, omega arith)
    located (suc k) h = (refl, omega arith)

    stored : (k j : ℕ) → k * 512 < 600 → j < 1 → disk (chain k + j) ≡ some (sectors k j)
    stored zero zero h hj = refl
    stored (suc k) zero h hj = refl
    stored zero (suc j) h hj = absurd (omega arith)
    stored (suc k) (suc j) h hj = absurd (omega arith)

fat32_read_lem_example : Reads file 100 sectors 90
fat32_read_lem_example = fat32_read_lem file 100 chain chain sectors file-IsStored

-- A disk whose MBR names a FAT32 partition at sector 1, which has 8 sectors in a cluster.
abbrev mbr : Bytes
mbr = update (update (update (update (λ _. 0) 450 0x0B) 454 1) 510 0x55) 511 0xAA

abbrev boot : Bytes
boot =
    update (update (update (update (update (update (λ _. 0) 13 8) 14 32) 16 2) 36 1) 510 0x55) 511
      0xAA

abbrev volume : Disk
volume n = if n == 0 then some mbr else some boot

volume-IsPartitioned : IsPartitioned volume mbr boot 0 1
unfolding little_endian
volume-IsPartitioned = record {
  sector0 = refl;
  mbr_bytes = λ i. ground arith;
  mbr_signed = refl;
  index_in = omega arith;
  kind = inl refl;
  first = λ j h. absurd (omega arith);
  starts = refl;
  sector = refl;
  boot_bytes = λ i. ground arith;
  boot_signed = refl;
  clusters = ground arith;
}

abbrev clean : Bytes
clean = λ _. 0

mount-Describes_example :
    (fs' : Fs) × (fat32_mount (some fs) (some (some volume)) clean ≡ done (success, some fs'))
    × Describes volume boot 1 fs'
mount-Describes_example =
    mount-Describes volume mbr boot clean 0 1 volume-IsPartitioned (λ i. omega arith) fs refl refl
