-- ===== src/Fat32/Mount/Volume.antt =====
-- What `fat32_mount` makes of a volume in a partition: the file system that it fills in, and the
-- part that the memory behind the sector buffer plays.
use mathlib.Core.Path.{subst}
use kernel_team_project.Base.{
  zero, suc, ◌*◌, ◌-◌, ◌/◌, sub32, add32, ◌≤◌, ◌%◌, sym, ==→eq, not-==→ne, ◌⊎◌, ◌≢◌, inl, inr, true,
  false, some, ◌||◌, ap, ne→not-==, Bool-cases, refl, u32_mod,
}
use kernel_team_project.Fat32.Types.{Disk, Fs, done, part_type_1, part_type_2, fat32_magic}
use kernel_team_project.Fat32.Mount.{
  partition_type, partition_start, mbr_signature, sectors_per_cluster_field, find_partition,
  initialize_fat32_fs, mount_boot_sector, mount_partition, mount_found, mount_sector0, fat32_mount,
  filled_fs,
}
use kernel_team_project.Base.{ℕ, ◌+◌, ◌<◌, ◌≡◌, ◌∙◌, arith, ◌&&◌, ◌==◌, if◌then◌else◌, lt→ltb}
use kernel_team_project.Fat32.Types.{Bytes, boot_signature, error_invalid_boot_sector, success}
use kernel_team_project.Fat32.Memory.{
  read_unaligned_uint32, read_unaligned_uint16, little_endian, AreBytes, read_unaligned_lem,
}
use kernel_team_project.Fat32.Mount.{load_sector, validate_fat32_boot_sector}

load_front : (memory sector : Bytes) (i : ℕ) → i < 512 → load_sector memory sector i ≡ sector i
unfolding load_sector
load_front memory sector i h = rw (lt→ltb i 512 h)

load-AreBytes :
    (memory sector : Bytes)
    → AreBytes memory
    → AreBytes sector
    → AreBytes (load_sector memory sector)
unfolding load_sector
load-AreBytes memory sector hm hs i = ground (arith, hm i, hs i)

read32_front :
    (memory sector : Bytes) (i : ℕ)
    → i + 3 < 512
    → AreBytes memory
    → AreBytes sector
    → read_unaligned_uint32 (load_sector memory sector) i ≡ little_endian 4 sector i
unfolding little_endian
read32_front memory sector i h hm hs =
    (read_unaligned_lem (load_sector memory sector) i (load-AreBytes memory sector hm hs)).0
    ∙ rw (
      load_front memory sector i (omega arith),
      load_front memory sector (i + 1) (omega arith),
      load_front memory sector (i + 1 + 1) (omega arith),
      load_front memory sector (i + 1 + 1 + 1) (omega arith),
    )

read16_front :
    (memory sector : Bytes) (i : ℕ)
    → i + 1 < 512
    → AreBytes memory
    → AreBytes sector
    → read_unaligned_uint16 (load_sector memory sector) i ≡ little_endian 2 sector i
unfolding little_endian
read16_front memory sector i h hm hs =
    (read_unaligned_lem (load_sector memory sector) i (load-AreBytes memory sector hm hs)).1
    ∙ rw (load_front memory sector i (omega arith), load_front memory sector (i + 1) (omega arith))

-- A sector that ends in the bytes 0x55, 0xAA passes for a boot sector exactly if the two bytes
-- behind the buffer are 0.
pub validate_lem :
    (memory sector : Bytes)
    → AreBytes memory
    → AreBytes sector
    → little_endian 2 sector 510 ≡ boot_signature
    → validate_fat32_boot_sector (load_sector memory sector)
      ≡ (if (memory 512 == 0) && (memory 513 == 0) then success else error_invalid_boot_sector)
unfolding validate_fat32_boot_sector little_endian load_sector
validate_lem memory sector hm hs sig =
    rw ((read_unaligned_lem (load_sector memory sector) 510 (load-AreBytes memory sector hm hs)).0)
      (ground (arith, hm 512, hm 513))

-- The partition has a FAT32 type.
abbrev pub IsFat32Type : ℕ → Type 0
IsFat32Type t = (t ≡ part_type_1) ⊎ (t ≡ part_type_2)

fat32_true : (t : ℕ) → IsFat32Type t → ((t == part_type_1) || (t == part_type_2)) ≡ true
fat32_true t h = ground arith

fat32_false : (t : ℕ) → ¬ (IsFat32Type t) → ((t == part_type_1) || (t == part_type_2)) ≡ false
fat32_false t h =
    rw (ne→not-== t part_type_1 (λ e. h (inl e)), ne→not-== t part_type_2 (λ e. h (inr e)))

-- The first FAT32 partition of an MBR, counting from `i` on.
find_first :
    (mbr : Bytes) (rounds i n : ℕ)
    → i ≤ n
    → n < i + rounds
    → IsFat32Type (partition_type mbr n)
    → ((j : ℕ) → j < n → ¬ (IsFat32Type (partition_type mbr j)))
    → find_partition mbr rounds i ≡ some (partition_start mbr n)
unfolding find_partition
find_first mbr zero i n low high kind others = absurd (omega arith)
find_first mbr (suc rounds) i n low high kind others = elim (Bool-cases (i == n)) [
  | inl here ↦
      let e : i ≡ n = ==→eq i n here in
      rw
        (fat32_true (partition_type mbr i)
          (subst (λ j. IsFat32Type (partition_type mbr j)) (sym e) kind))
        (ap (λ j. some (partition_start mbr j)) e)
  | inr later ↦
      let ne = not-==→ne i n later in
      rw (fat32_false (partition_type mbr i) (others i (omega arith)))
        (find_first mbr rounds (i + 1) n (omega arith) (omega arith) kind others)
]

-- A FAT32 volume in a partition of the disk `io`: sector 0 is an MBR whose first FAT32 partition,
-- the one at `index`, starts at `start` with the boot sector `boot`.
pub record IsPartitioned (io : Disk) (mbr boot : Bytes) (index start : ℕ) : Type 0 where
  pub sector0 : io 0 ≡ some mbr
  pub mbr_bytes : AreBytes mbr
  pub mbr_signed : little_endian 2 mbr 510 ≡ boot_signature
  pub index_in : index < 4
  pub kind : IsFat32Type (mbr (446 + 16 * index + 4))
  pub first : (j : ℕ) → j < index → ¬ (IsFat32Type (mbr (446 + 16 * j + 4)))
  pub starts : little_endian 4 mbr (446 + 16 * index + 8) ≡ start
  pub sector : io start ≡ some boot
  pub boot_bytes : AreBytes boot
  pub boot_signed : little_endian 2 boot 510 ≡ boot_signature
  pub clusters : boot 13 ≢ 0

-- The sectors that a boot sector counts: in its field of 16 bits, or in that of 32 where this is 0.
abbrev pub counted_sectors : (boot : Bytes) → ℕ
counted_sectors boot =
    if little_endian 2 boot 19 == 0 then little_endian 4 boot 32 else little_endian 2 boot 19

-- The sectors in front of the data: the reserved ones and the FATs.
abbrev pub overhead : (boot : Bytes) → ℕ
overhead boot = little_endian 2 boot 14 + boot 16 * little_endian 4 boot 36

-- The file system that the boot sector `boot` at `start` describes.
pub record Describes (io : Disk) (boot : Bytes) (start : ℕ) (fs : Fs) : Type 0 where
  pub disk : fs.disk ≡ io
  pub magic : fs.magic ≡ fat32_magic
  pub sector_bytes : fs.bytes_per_sector ≡ 512
  pub cluster_sectors : fs.sectors_per_cluster ≡ boot 13
  pub root : fs.root_cluster ≡ little_endian 4 boot 44
  pub fat : fs.fat_start_sector ≡ (start + little_endian 2 boot 14) % u32_mod
  pub first_data :
      fs.first_data_sector
      ≡ (start + little_endian 2 boot 14 + boot 16 * little_endian 4 boot 36) % u32_mod
  pub reserved : fs.reserved_sector_count ≡ little_endian 2 boot 14
  pub fats : fs.num_fats ≡ boot 16
  pub fat_sectors : fs.sectors_per_fat ≡ little_endian 4 boot 36
  pub cluster_bytes : fs.cluster_size ≡ 512 * boot 13
  pub sectors : fs.total_sectors ≡ counted_sectors boot
  pub clusters :
      fs.total_clusters
      ≡ (counted_sectors boot + u32_mod - overhead boot % u32_mod) % u32_mod / boot 13

-- The count of the clusters, where each step wraps around.
wrapped :
    (start reserved fats total : ℕ)
    → start < u32_mod
    → sub32 total (sub32 (add32 (add32 start reserved) (fats % u32_mod)) start)
      ≡ (total + u32_mod - (reserved + fats) % u32_mod) % u32_mod
wrapped start reserved fats total small = omega (arith, small)

module _ (io : Disk) (mbr boot memory : Bytes) (index start : ℕ)
    (disk : IsPartitioned io mbr boot index start) (bytes : AreBytes memory) where
  mount_reaches :
      (fs : Fs)
      → mount_sector0 fs io memory (io 0)
        ≡ mount_boot_sector fs io (load_sector (load_sector memory mbr) boot) start
  unfolding mount_sector0 mount_found mount_partition
  mount_reaches fs = rw (disk.sector0, signed, found, disk.sector)
    where
      buffer : Bytes
      buffer = load_sector memory mbr

      signed : (mbr_signature buffer == boot_signature) ≡ true
      signed = rw (read16_front memory mbr 510 (omega arith) bytes disk.mbr_bytes, disk.mbr_signed)

      same_type : (j : ℕ) → j < 4 → partition_type buffer j ≡ partition_type mbr j
      same_type j h = load_front memory mbr (446 + 16 * j + 4) (omega arith)

      found : find_partition buffer 4 0 ≡ some start
      found =
          find_first buffer 4 0 index (omega arith) (omega (arith, disk.index_in))
            (rw (same_type index disk.index_in) disk.kind)
            (λ j hj. rw (same_type j (omega (arith, disk.index_in))) (disk.first j hj))
          ∙ ap some (
              read32_front memory mbr (446 + 16 * index + 8) (omega (arith, disk.index_in)) bytes
                disk.mbr_bytes
              ∙ disk.starts)

  abbrev memory' : Bytes
  memory' = load_sector memory mbr

  -- The memory with the boot sector read into it.
  abbrev buffer : Bytes
  buffer = load_sector memory' boot

  memory'-AreBytes : AreBytes memory'
  memory'-AreBytes = load-AreBytes memory mbr bytes disk.mbr_bytes

  behind : (i : ℕ) → 512 ≤ i → load_sector memory mbr i ≡ memory i
  unfolding load_sector
  behind i h = ground arith

  validated :
      validate_fat32_boot_sector buffer
      ≡ (if (memory 512 == 0) && (memory 513 == 0) then success else error_invalid_boot_sector)
  validated = rw (
    validate_lem memory' boot memory'-AreBytes disk.boot_bytes disk.boot_signed,
    behind 512 (omega arith),
    behind 513 (omega arith),
  )

  field32 : (i : ℕ) → i + 3 < 512 → read_unaligned_uint32 buffer i ≡ little_endian 4 boot i
  field32 i h = read32_front memory' boot i h memory'-AreBytes disk.boot_bytes

  field16 : (i : ℕ) → i + 1 < 512 → read_unaligned_uint16 buffer i ≡ little_endian 2 boot i
  field16 i h = read16_front memory' boot i h memory'-AreBytes disk.boot_bytes

  front : (i : ℕ) → i < 512 → buffer i ≡ boot i
  front i h = load_front memory' boot i h

  total_of : (fs : Fs) → (filled_fs fs io buffer start).total_sectors ≡ counted_sectors boot
  unfolding filled_fs
  total_of fs = rw (field16 19 (omega arith), field32 32 (omega arith)) (ground arith)

  start_small : start < u32_mod
  unfolding little_endian
  start_small =
      let at = 446 + 16 * index + 8 in
      omega (
        arith,
        disk.starts,
        disk.mbr_bytes at,
        disk.mbr_bytes (at + 1),
        disk.mbr_bytes (at + 1 + 1),
        disk.mbr_bytes (at + 1 + 1 + 1),
      )

  described : (fs : Fs) → Describes io boot start (filled_fs fs io buffer start)
  unfolding filled_fs
  described fs = record {
    disk = refl;
    magic = refl;
    sector_bytes = refl;
    cluster_sectors = load_front memory' boot 13 (omega arith);
    root = field32 44 (omega arith);
    fat = rw (field16 14 (omega arith));
    first_data =
        rw
          (
            field16 14 (omega arith),
            field32 36 (omega arith),
            load_front memory' boot 16 (omega arith),
          )
          (omega arith);
    reserved = field16 14 (omega arith);
    fats = front 16 (omega arith);
    fat_sectors = field32 36 (omega arith);
    cluster_bytes = ap (λ n. n * 512) (front 13 (omega arith)) ∙ omega arith;
    sectors = total_of fs;
    clusters =
        rw
          (
            total_of fs,
            field16 14 (omega arith),
            field32 36 (omega arith),
            front 16 (omega arith),
            front 13 (omega arith),
          )
          (ap (λ n. n / boot 13)
            (wrapped start (little_endian 2 boot 14) (boot 16 * little_endian 4 boot 36)
              (counted_sectors boot) start_small));
  }

  -- A volume in a partition, its boot sector signed and its clusters not empty, is mounted if the two
  -- bytes of memory behind the sector buffer are 0 before the call. The file system has the counts and
  -- the places of the fields of the boot sector: its count of sectors is the field of 16 bits, or that
  -- of 32 if this is 0, and its count of clusters that of the sectors less the reserved ones and the FATs,
  -- computed in 32 bits, divided by the sectors of a cluster.
  pub mount-Describes :
      (fs : Fs)
      → memory 512 ≡ 0
      → memory 513 ≡ 0
      → (fs' : Fs) × (fat32_mount (some fs) (some (some io)) memory ≡ done (success, some fs'))
        × Describes io boot start fs'
  unfolding fat32_mount mount_boot_sector initialize_fat32_fs
  mount-Describes fs low high =
      let accepted : ((memory 512 == 0) && (memory 513 == 0)) ≡ true = ground arith in
      let clusters : sectors_per_cluster_field buffer ≡ boot 13 =
        load_front memory' boot 13 (omega arith) in
      (
        filled_fs fs io buffer start,
        rw (mount_reaches fs, validated, accepted, clusters, ne→not-== (boot 13) 0 disk.clusters),
        described fs,
      )

  -- The same volume is refused as no boot sector if one of those two bytes is not 0.
  pub mount_refused :
      (fs : Fs)
      → (memory 512 ≢ 0) ⊎ (memory 513 ≢ 0)
      → fat32_mount (some fs) (some (some io)) memory ≡ done (error_invalid_boot_sector, some fs)
  unfolding fat32_mount mount_boot_sector
  mount_refused fs dirty =
      let refused : ((memory 512 == 0) && (memory 513 == 0)) ≡ false = ground arith in
      rw (mount_reaches fs, validated, refused)
