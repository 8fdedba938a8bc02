-- ===== src/Fat32/Open/Tests.antt =====
-- The theorems about directories and about opening a file, at concrete disks.
use mathlib.Core.Path.{subst, sym}
use kernel_team_project.Base.{
  ℕ, zero, suc, ◌+◌, ◌-◌, ◌*◌, ◌<◌, ◌≡◌, refl, some, List, [], ◌∷◌, arith, inl, ◌==◌, ltb,
  if◌then◌else◌, update, get_or, ne→not-==, false, true,
}
use kernel_team_project.Fat32.Types.{
  Bytes, Disk, Fs, File, DirEntry, done, out_of_fuel, fat32_magic, success,
}
use kernel_team_project.Fat32.Memory.{little_endian, memcmp, memcmp-zero}
use kernel_team_project.Fat32.Strings.{Text, strchr, strlen, toupper}
use kernel_team_project.Fat32.Name.{
  space, format_name_to_fat32, name_len, ext_len, ext_char, write_fields,
}
use kernel_team_project.Fat32.Path.{parse_fat32_path, split, keep, skip_dot, parse-split}
use kernel_team_project.Fat32.Directory.{search_clusters, read_dir_entry, first_cluster}
use kernel_team_project.Fat32.Directory.Lookup.{IsPassed}
use kernel_team_project.Fat32.Directory.Entries.{Holds, read_dir_entry_found, search_endless}
use kernel_team_project.Fat32.Chain.{get_cluster_at_index, follow_chain, cluster_to_sector}
use kernel_team_project.Fat32.Read.Rounds.{IsStored}
use kernel_team_project.Fat32.Read.Whole.{Reads}
use kernel_team_project.Fat32.Load.{open-read}
use kernel_team_project.Fat32.Open.{fat32_open}
use kernel_team_project.Fat32.Open.Walk.{Leads, last, through, fat32_open_file}

-- The entry of a name of one letter.
abbrev entry_of : (letter attributes start size : ℕ) → Bytes
entry_of letter attributes start size i =
    if i == 0
    then letter
    else if ltb i 11
    then space
    else if i == 11
    then attributes
    else if i == 26
    then start
    else if i == 28
    then size
    else 0

-- The root directory: a deleted entry, then the directory "A" in cluster 3.
abbrev root_sector : Bytes
root_sector i = if ltb i 32 then 0xE5 else entry_of b'A' 0x10 3 0 (i - 32)

-- The directory "A": the file "B" of 200 bytes in cluster 5.
abbrev a_sector : Bytes
a_sector = entry_of b'B' 0x20 5 200

abbrev disk : Disk
disk n = if n == 2 then some root_sector else some a_sector

abbrev fs : Fs
fs = record {
  disk = disk;
  bytes_per_sector = 512;
  sectors_per_cluster = 1;
  reserved_sector_count = 1;
  num_fats = 1;
  sectors_per_fat = 1;
  root_cluster = 2;
  cluster_size = 512;
  total_clusters = 100;
  total_sectors = 102;
  fsinfo_sector = 0;
  first_data_sector = 2;
  fat_start_sector = 1;
  magic = fat32_magic;
}

abbrev a : Text
a = b'a' ∷ []

abbrev b : Text
b = b'b' ∷ []

abbrev a_entry : Bytes
a_entry i = root_sector (32 + i)

abbrev b_entry : Bytes
b_entry i = a_sector (0 + i)

root-Holds : Holds fs 2 a a_entry
unfolding format_name_to_fat32 write_fields name_len ext_len ext_char strchr strlen toupper memcmp
root-Holds = record {
  within = 0;
  index = 1;
  sector = λ _. root_sector;
  is_data = ground arith;
  fits = omega arith;
  within_in = omega arith;
  index_in = omega arith;
  read = read;
  passed = λ j m h hm. absurd (omega arith);
  before = before;
  named = record {
    used = ground arith;
    kept = ground arith;
    same = memcmp-zero 11 (λ i. get_or (format_name_to_fat32 a) i 0) a_entry refl;
  };
  here = refl;
  entry_bytes_small = λ i. ground arith;
}
  where
    read : (j : ℕ) → j < 1 → disk (2 + j) ≡ some root_sector
    read zero h = refl
    read (suc j) h = absurd (omega arith)

    before : (m : ℕ) → m < 1 → IsPassed (format_name_to_fat32 a) (λ i. root_sector (32 * m + i))
    before zero h = record { used = ground arith; other = inl refl }
    before (suc m) h = absurd (omega arith)

a-Holds : Holds fs 3 b b_entry
unfolding format_name_to_fat32 write_fields name_len ext_len ext_char strchr strlen toupper memcmp
a-Holds = record {
  within = 0;
  index = 0;
  sector = λ _. a_sector;
  is_data = ground arith;
  fits = omega arith;
  within_in = omega arith;
  index_in = omega arith;
  read = read;
  passed = λ j m h hm. absurd (omega arith);
  before = λ m h. absurd (omega arith);
  named = record {
    used = ground arith;
    kept = ground arith;
    same = memcmp-zero 11 (λ i. get_or (format_name_to_fat32 b) i 0) b_entry refl;
  };
  here = refl;
  entry_bytes_small = λ i. ground arith;
}
  where
    read : (j : ℕ) → j < 1 → disk (3 + j) ≡ some a_sector
    read zero h = refl
    read (suc j) h = absurd (omega arith)

-- "/a/b"
abbrev path : Text
path = b'/' ∷ b'a' ∷ b'/' ∷ b'b' ∷ []

path_parsed : parse_fat32_path path ≡ a ∷ b ∷ []
unfolding split keep skip_dot
path_parsed = parse-split path (ground arith)

path-Leads : Leads fs 2 (parse_fat32_path path) 3 b b_entry
unfolding little_endian
path-Leads =
    subst (λ l. Leads fs 2 l 3 b b_entry) (sym path_parsed) (through root-Holds (last a-Holds))

abbrev closed_file : File
closed_file = record {
  fs = fs;
  formatted_name = [];
  start_cluster = 0;
  current_cluster = 0;
  current_cluster_index = 0;
  file_size = 0;
  file_offset = 9;
  parent_dir_cluster = 0;
}

fat32_open_file_example :
    fat32_open 1 (some fs) (some path) (some closed_file)
    ≡ done (
      success,
      some (record closed_file {
        formatted_name = format_name_to_fat32 b;
        start_cluster = 5;
        current_cluster = 5;
        file_size = 200;
        file_offset = 0;
        parent_dir_cluster = 3;
      }),
    )
unfolding little_endian
fat32_open_file_example = fat32_open_file 0 fs closed_file path refl path-Leads (ground arith)

b-IsStored : IsStored fs 5 200 (λ _. 5) (λ _. 5) (λ _ _. a_sector)
unfolding get_cluster_at_index follow_chain cluster_to_sector
b-IsStored = record {
  bps = refl;
  not_empty = omega arith;
  small = omega arith;
  found = found;
  located = λ k h. (refl, omega arith);
  stored = stored;
}
  where
    found : (k : ℕ) → k * 512 < 200 → get_cluster_at_index fs 5 k ≡ (success, 5)
    found zero h = refl
    found (suc k) h = absurd (omega arith)

    stored : (k j : ℕ) → k * 512 < 200 → j < 1 → disk (5 + j) ≡ some a_sector
    stored k zero h hj = refl
    stored k (suc j) h hj = absurd (omega arith)

open-read_example :
    (opened : File) × (fat32_open 1 (some fs) (some path) (some closed_file)
      ≡ done (success, some opened))
    × Reads opened 1000 (λ _ _. a_sector) 200
unfolding little_endian
open-read_example =
    open-read 0 fs closed_file path 1000 (λ _. 5) (λ _. 5) (λ _ _. a_sector) refl path-Leads
      (ground arith) b-IsStored

abbrev at_root : DirEntry
at_root = record { attributes = 0; file_size = 0; start_cluster = 0; is_initialized = false }

read_dir_entry_found_example :
    read_dir_entry 1 (some fs) (some at_root) (some a)
    ≡ done (
      success,
      some (record { attributes = 0x10; start_cluster = 3; file_size = 0; is_initialized = true }),
    )
unfolding first_cluster little_endian
read_dir_entry_found_example = read_dir_entry_found 0 fs at_root a a_entry root-Holds

-- A disk of deleted entries, whose FAT says that the directory ends with cluster 2, and leads from
-- cluster 3 to cluster 0x103.
abbrev full_fat : Bytes
full_fat =
    update (update (update (update (update (update (λ _. 0) 8 0xFF) 9 0xFF) 10 0xFF) 11 0x0F) 12 3)
      13 1

abbrev full : Fs
full = record fs { disk = λ n. if n == 1 then some full_fat else some (λ _. 0xE5) }

deleted-IsPassed : (formatted : List ℕ) → IsPassed formatted (λ _. 0xE5)
deleted-IsPassed formatted = record { used = ground arith; other = inl refl }

search_endless_example : search_clusters full (format_name_to_fat32 a) 100 3 ≡ out_of_fuel
unfolding little_endian
search_endless_example =
    search_endless full 3 a (λ _ _. 0xE5) (ground arith) (omega arith)
      (λ j h. rw (ne→not-== (3 + j) 1 (omega arith)))
      (λ j m h hm. deleted-IsPassed (format_name_to_fat32 a)) refl (λ i. ground arith) 100 refl
