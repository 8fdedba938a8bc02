-- ===== src/Fat32/Directory.antt =====
-- `read_dir_entry` of os/fs/fat32.c: the search of a directory for a name.
pub mod Lookup
pub mod Entries
use kernel_team_project.Base.{
  ℕ, zero, suc, ◌+◌, ◌*◌, ◌/◌, Bool, true, false, Option, none, some, List, ◌==◌, if◌then◌else◌, ℤ,
  pos, negsuc, is_neg, is_zero, to_u32, add32, sub32, mul32, bit_or, ◌<<◌, get_or,
}
use kernel_team_project.Fat32.Types.{
  Bytes, Fs, DirEntry, Run, done, fault, out_of_fuel, eoc_marker, entry_empty, entry_deleted,
  error_io, error_no_file, error_bad_parameter, success,
}
use kernel_team_project.Fat32.Memory.{read_unaligned_uint32, read_unaligned_uint16, memcmp}
use kernel_team_project.Fat32.Strings.{Text}
use kernel_team_project.Fat32.Name.{format_name_to_fat32}
use kernel_team_project.Fat32.Chain.{read_fat_entry}

-- `sizeof(Fat32DirectoryEntry)`
abbrev pub entry_size : ℕ
entry_size = 32

-- The bytes of the entry at an index of a sector.
abbrev pub entry_bytes : Bytes → ℕ → Bytes
entry_bytes buffer entry i = buffer (entry_size * entry + i)

-- The fields of the packed entry that are copied to `current_dir`, by their offsets.
unfoldable pub copied_entry : Bytes → DirEntry
copied_entry e = record {
  is_initialized = true;
  start_cluster = bit_or (read_unaligned_uint16 e 20 << 16) (read_unaligned_uint16 e 26);
  file_size = read_unaligned_uint32 e 28;
  attributes = e 11;
}

-- `memcmp(formatted_name, filename, 11) == 0`
abbrev pub names : List ℕ → Bytes → Bool
names formatted e = is_zero (memcmp (λ i. get_or formatted i 0) e 11)

-- How the loop over the entries of a sector ends.
pub data Scan : Type 0 where
  matched : Bytes → Scan
  ended : Scan
  exhausted : Scan

-- The loop over the entries of a sector, from `entry` on.
unfoldable pub scan_entries : (formatted : List ℕ) → Bytes → (rounds entry : ℕ) → Scan
scan_entries formatted buffer zero entry = exhausted
scan_entries formatted buffer (suc rounds) entry =
    let rest = scan_entries formatted buffer rounds (entry + 1) in
    let e = entry_bytes buffer entry in
    if e 0 == entry_empty
    then ended
    else if e 0 == entry_deleted
    then rest
    else if names formatted e
    then matched e
    else rest

-- How the search of a cluster ends: an entry, the result that is returned, or neither.
pub data Search : Type 0 where
  hit : Bytes → Search
  stop : ℤ → Search
  not_here : Search

-- What follows from the scan of a sector; `next` is the loop behind it.
unfoldable pub after_scan : Scan → (next : Search) → Search
after_scan (matched e) next = hit e
after_scan ended next = stop (negsuc 0)
after_scan exhausted next = next

-- One round of the loop over the sectors, once the sector has been read or not.
unfoldable pub search_sector : (formatted : List ℕ) → Option Bytes → (next : Search) → Search
search_sector formatted none next = stop error_io
search_sector formatted (some buffer) next =
    after_scan (scan_entries formatted buffer (512 / entry_size) 0) next

-- The loop over the sectors of a cluster, from `sector` on.
unfoldable pub search_sectors :
    Fs → (formatted : List ℕ) → (sector_target rounds sector : ℕ) → Search
search_sectors fs formatted sector_target zero sector = not_here
search_sectors fs formatted sector_target (suc rounds) sector =
    search_sector formatted (fs.disk (add32 sector_target sector))
      (search_sectors fs formatted sector_target rounds (sector + 1))

abbrev pub sector_target : Fs → ℕ → ℕ
sector_target fs cluster =
    add32 fs.first_data_sector (mul32 (sub32 cluster 2) fs.sectors_per_cluster)

-- What follows from the search of a cluster; `next` goes on in the cluster that the FAT names.
unfoldable pub after_search : (next_cluster : ℤ) → (next : Run Search) → Search → Run Search
after_search next_cluster next (hit e) = done (hit e)
after_search next_cluster next (stop result) = done (stop result)
after_search next_cluster next not_here =
    if is_neg next_cluster then done (stop next_cluster) else next

-- The loop over the clusters. The source has no bound for it.
unfoldable pub search_clusters : Fs → (formatted : List ℕ) → (fuel cluster : ℕ) → Run Search
search_clusters fs formatted zero cluster = out_of_fuel
search_clusters fs formatted (suc fuel) cluster =
    let next_cluster = read_fat_entry fs cluster in
    let rounds =
      after_search next_cluster (search_clusters fs formatted fuel (to_u32 next_cluster))
        (search_sectors fs formatted (sector_target fs cluster) fs.sectors_per_cluster 0) in
    if cluster == eoc_marker then done (stop error_no_file) else rounds

-- The result, and `*current_dir` afterwards.
unfoldable pub searched : Option DirEntry → Run Search → Run (ℤ × Option DirEntry)
searched dir (done (hit e)) =
    done (success, elim dir [ none ↦ none | some d ↦ some (copied_entry e) ])
searched dir (done (stop result)) = done (result, dir)
searched dir (done not_here) = done (error_no_file, dir)
searched dir fault = fault
searched dir out_of_fuel = out_of_fuel

-- Where the search starts: the root directory if there is no directory yet.
unfoldable pub first_cluster : Fs → Option DirEntry → ℕ
first_cluster fs none = fs.root_cluster
first_cluster fs (some d) = if d.is_initialized then d.start_cluster else fs.root_cluster

-- `read_dir_entry(fs, current_dir, name)`. NULL is `none`.
unfoldable pub read_dir_entry :
    (fuel : ℕ) → Option Fs → Option DirEntry → Option Text → Run (ℤ × Option DirEntry)
read_dir_entry fuel none dir name = done (error_bad_parameter, dir)
read_dir_entry fuel (some fs) dir none = done (error_bad_parameter, dir)
read_dir_entry fuel (some fs) dir (some name) =
    searched dir (search_clusters fs (format_name_to_fat32 name) fuel (first_cluster fs dir))
