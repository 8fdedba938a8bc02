-- ===== src/Fat32/Mount.antt =====
-- `fat32_mount` of os/fs/fat32.c and its helpers, over the memory at `sector_buffer`. A sector fills
-- the first 512 bytes of that memory and leaves what lies behind as it was.
pub mod Volume
use kernel_team_project.Base.{
  ℕ, zero, suc, ◌+◌, ◌-◌, ◌*◌, ◌/◌, ◌%◌, Bool, true, false, Option, none, some, ◌&&◌, ◌||◌, ◌==◌,
  ◌!=◌, ltb, if◌then◌else◌, ℤ, pos, add32, sub32, mul32, is_zero, not,
}
use kernel_team_project.Fat32.Types.{
  Bytes, Disk, Fs, Run, done, fault, ◌>>=◌, sector_size, boot_signature, part_type_1, part_type_2,
  fat32_magic, error_io, error_bad_parameter, error_invalid_boot_sector, success,
}
use kernel_team_project.Fat32.Memory.{read_unaligned_uint32, read_unaligned_uint16}

-- `read_sector(sector, sector_buffer)`: the memory afterwards.
unfoldable pub load_sector : Bytes → Bytes → Bytes
load_sector memory sector i = if ltb i sector_size then sector i else memory i

-- The fields of the packed `MBR`: four entries of 16 bytes from 446 on, then the signature.
abbrev pub partition_type : Bytes → ℕ → ℕ
partition_type mbr i = mbr (446 + 16 * i + 4)

abbrev pub partition_start : Bytes → ℕ → ℕ
partition_start mbr i = read_unaligned_uint32 mbr (446 + 16 * i + 8)

abbrev pub mbr_signature : Bytes → ℕ
mbr_signature mbr = read_unaligned_uint16 mbr 510

-- The fields of the packed `Fat32BootSector`, by their offsets.
abbrev pub sectors_per_cluster_field : Bytes → ℕ
sectors_per_cluster_field bs = bs 13

abbrev pub reserved_sectors_field : Bytes → ℕ
reserved_sectors_field bs = read_unaligned_uint16 bs 14

abbrev pub num_fats_field : Bytes → ℕ
num_fats_field bs = bs 16

abbrev pub total_sectors_16_field : Bytes → ℕ
total_sectors_16_field bs = read_unaligned_uint16 bs 19

abbrev pub total_sectors_32_field : Bytes → ℕ
total_sectors_32_field bs = read_unaligned_uint32 bs 32

abbrev pub sectors_per_fat_field : Bytes → ℕ
sectors_per_fat_field bs = read_unaligned_uint32 bs 36

abbrev pub root_cluster_field : Bytes → ℕ
root_cluster_field bs = read_unaligned_uint32 bs 44

abbrev pub boot_signature_field : Bytes → ℕ
boot_signature_field bs = read_unaligned_uint16 bs 510

-- The loop over the partitions from `i` on: the start of the first FAT32 partition.
unfoldable pub find_partition : Bytes → (rounds i : ℕ) → Option ℕ
find_partition mbr zero i = none
find_partition mbr (suc rounds) i =
    let rest = find_partition mbr rounds (i + 1) in
    if (partition_type mbr i == part_type_1) || (partition_type mbr i == part_type_2)
    then some (partition_start mbr i)
    else rest

unfoldable pub check_sector0_for_fat32 : Bytes → Bool
check_sector0_for_fat32 bs =
    (boot_signature_field bs == boot_signature) && (sectors_per_fat_field bs != 0)

-- The signature is read as four bytes, two of which lie behind the sector.
unfoldable pub validate_fat32_boot_sector : Bytes → ℤ
validate_fat32_boot_sector bs =
    if read_unaligned_uint32 bs 510 != boot_signature then error_invalid_boot_sector else success

-- The assignments of `initialize_fat32_fs`, the division apart.
unfoldable pub filled_fs : Fs → Disk → Bytes → (start : ℕ) → Fs
filled_fs fs io bs start =
    let fat_start = add32 start (reserved_sectors_field bs) in
    let first_data = add32 fat_start (mul32 (num_fats_field bs) (sectors_per_fat_field bs)) in
    let total : ℕ =
      if total_sectors_16_field bs != 0
      then total_sectors_16_field bs
      else total_sectors_32_field bs in
    record fs {
      disk = io;
      bytes_per_sector = sector_size;
      sectors_per_cluster = sectors_per_cluster_field bs;
      reserved_sector_count = reserved_sectors_field bs;
      num_fats = num_fats_field bs;
      sectors_per_fat = sectors_per_fat_field bs;
      fat_start_sector = fat_start;
      first_data_sector = first_data;
      root_cluster = root_cluster_field bs;
      cluster_size = sectors_per_cluster_field bs * sector_size;
      total_sectors = total;
      total_clusters = sub32 total (sub32 first_data start) / sectors_per_cluster_field bs;
      magic = fat32_magic;
    }

-- A boot sector with clusters of no sectors makes the code divide by 0.
unfoldable pub initialize_fat32_fs : Fs → Disk → Bytes → (start : ℕ) → Run Fs
initialize_fat32_fs fs io bs start =
    if sectors_per_cluster_field bs == 0 then fault else done (filled_fs fs io bs start)

-- The end of `fat32_mount`, with the boot sector in memory.
unfoldable pub mount_boot_sector : Fs → Disk → Bytes → (start : ℕ) → Run (ℤ × Fs)
mount_boot_sector fs io memory start =
    let filled : Run (ℤ × Fs) = do fs' ← initialize_fat32_fs fs io memory start; done (success, fs')
    in if not (is_zero (validate_fat32_boot_sector memory))
      then done (error_invalid_boot_sector, fs)
      else filled

-- A partition found in the MBR: its first sector is read over sector 0.
unfoldable pub mount_partition : Fs → Disk → Bytes → (start : ℕ) → Option Bytes → Run (ℤ × Fs)
mount_partition fs io memory start none = done (error_io, fs)
mount_partition fs io memory start (some boot) =
    mount_boot_sector fs io (load_sector memory boot) start

-- The search of sector 0, and what follows from it.
unfoldable pub mount_found : Fs → Disk → Bytes → Option ℕ → Run (ℤ × Fs)
mount_found fs io memory (some start) = mount_partition fs io memory start (io start)
mount_found fs io memory none =
    let sector0 = mount_boot_sector fs io memory 0 in
    if check_sector0_for_fat32 memory then sector0 else done (error_invalid_boot_sector, fs)

unfoldable pub mount_sector0 : Fs → Disk → Bytes → Option Bytes → Run (ℤ × Fs)
mount_sector0 fs io memory none = done (error_io, fs)
mount_sector0 fs io memory (some sector0) =
    let buffer = load_sector memory sector0 in
    mount_found fs io buffer
      (if mbr_signature buffer == boot_signature then find_partition buffer 4 0 else none)

-- `fat32_mount(fs, io)`, with the memory at `sector_buffer`: the result and the file system
-- afterwards. NULL is `none`, for `fs`, for `io` and for `io->read_sector`.
unfoldable pub fat32_mount : Option Fs → Option (Option Disk) → Bytes → Run (ℤ × Option Fs)
fat32_mount none io memory = done (error_bad_parameter, none)
fat32_mount (some fs) none memory = done (error_bad_parameter, some fs)
fat32_mount (some fs) (some none) memory = done (error_bad_parameter, some fs)
fat32_mount (some fs) (some (some io)) memory = do
  (result, fs') ← mount_sector0 fs io memory (io 0)
  done (result, some fs')
