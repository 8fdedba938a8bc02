-- ===== src/PageTable.antt =====
-- The first-level page table of os/mmu/mmu.c: sections of 1 MB. A table is a function from an index to
-- an entry. Caches, the translation table base and the assembly are left out.
pub mod Entry
pub mod Hardware
mod Tests
use kernel_team_project.Base.{
  ℕ, zero, suc, ◌+◌, ◌*◌, ◌/◌, ◌<◌, ◌^◌, ◌%◌, Bool, true, false, ◌||◌, ◌==◌, ◌!=◌, ltb, Option,
  none, some, if◌then◌else◌, bit_and, bit_or, ◌<<◌, ◌>>>◌, update, add32, mul32,
}

abbrev pub section_mask : ℕ
section_mask = 0xFFF00000

-- ~L1_SECTION_MASK
abbrev pub offset_mask : ℕ
offset_mask = 0xFFFFF

abbrev pub section_descriptor : ℕ
section_descriptor = 2

-- L1_ACCESS_RW_NO | L1_CACHEABLE | L1_SHAREABLE
abbrev pub memory_flags : ℕ
memory_flags = bit_or (bit_or (1 << 10) (1 << 3)) (1 << 16)

-- L1_KERNEL_DEVICE_FLAGS
abbrev pub device_flags : ℕ
device_flags = bit_or (bit_or (bit_or (1 << 10) (1 << 4)) (1 << 16)) 4

abbrev pub dram_flags : ℕ
dram_flags = 0x50C0E

abbrev pub Table : Type 0
Table = ℕ → ℕ

-- The entries `i` and up, for the rounds of the loop of `clear_boot_tables` that are left.
unfoldable pub clear_entries : Table → (rounds i : ℕ) → Table
clear_entries l1_base zero i = l1_base
clear_entries l1_base (suc rounds) i = clear_entries (update l1_base i 0) rounds (i + 1)

unfoldable pub clear_boot_tables : Table → Table
clear_boot_tables l1_base = clear_entries l1_base 4096 0

-- `mmu_copy_bootloader_entries`, for the rounds of its loop that are left.
unfoldable pub copy_entries : (boot_l1_base l1_base : Table) → (rounds i : ℕ) → Table
copy_entries boot_l1_base l1_base zero i = l1_base
copy_entries boot_l1_base l1_base (suc rounds) i =
    copy_entries boot_l1_base (update l1_base i (boot_l1_base i)) rounds (i + 1)

unfoldable pub mmu_copy_bootloader_entries : (boot_l1_base l1_base : Table) → Table
mmu_copy_bootloader_entries boot_l1_base l1_base = copy_entries boot_l1_base l1_base 4096 0

unfoldable pub map_section : Table → (vaddr paddr flags : ℕ) → Table
map_section l1_base vaddr paddr flags =
    if (bit_and vaddr offset_mask != 0) || (bit_and paddr offset_mask != 0)
    then l1_base
    else update l1_base (vaddr >>> 20)
        (bit_or (bit_or (bit_and paddr section_mask) section_descriptor) flags)

-- A loop that maps sections one to one, from round `i` on.
unfoldable pub map_sections : Table → (start flags : ℕ) → (rounds i : ℕ) → Table
map_sections l1 start flags zero i = l1
map_sections l1 start flags (suc rounds) i =
    let addr = add32 start (mul32 i 0x100000) in
    map_sections (map_section l1 addr addr flags) start flags rounds (i + 1)

-- One section mapped one to one.
abbrev map_one : Table → (addr flags : ℕ) → Table
map_one l1 addr flags = map_section l1 addr addr flags

-- The sections that are mapped one by one.
unfoldable pub map_fixed : Table → Table
map_fixed l1 =
    let l1 = map_one l1 0x40200000 memory_flags in
    let l1 = map_one l1 0x40300000 memory_flags in
    let l1 = map_one l1 0x44C00000 device_flags in
    let l1 = map_one l1 0x44D00000 device_flags in
    let l1 = map_one l1 0x44E00000 device_flags in map_one l1 0x44F00000 device_flags

-- The four loops over windows of 16 MB.
unfoldable pub map_windows : Table → Table
map_windows l1 =
    let l1 = map_sections l1 0x48000000 device_flags 16 0 in
    let l1 = map_sections l1 0x4A000000 device_flags 16 0 in
    let l1 = map_sections l1 0x4C000000 device_flags 16 0 in
    map_sections l1 0x50000000 device_flags 16 0

-- `mmu_map_hardware_pages`, without what it prints.
unfoldable pub map_hardware_pages : Table → Table
map_hardware_pages l1 = map_sections (map_windows (map_fixed l1)) 0x80000000 dram_flags 512 0

-- What `log_l1_pte` prints.
pub record LoggedEntry : Type 0 where
  pub section_base : ℕ
  pub b : ℕ
  pub c : ℕ
  pub ap : ℕ
  pub ap2 : ℕ
  pub tex : ℕ
  pub domain : ℕ
  pub n_g : ℕ
  pub s : ℕ
  pub xn : ℕ
  pub ns : ℕ
  pub section_type : ℕ

-- `none` is the message that supersections are not supported.
unfoldable pub log_l1_pte : ℕ → Option LoggedEntry
log_l1_pte value =
    if bit_and (value >>> 18) 1 != 0
    then none
    else some (record {
      section_base = bit_and value 0xFFF00000;
      b = bit_and (value >>> 2) 1;
      c = bit_and (value >>> 3) 1;
      ap = bit_and (value >>> 10) 3;
      ap2 = bit_and (value >>> 15) 1;
      tex = bit_and (value >>> 12) 7;
      domain = bit_and (value >>> 5) 0xF;
      n_g = bit_and (value >>> 17) 1;
      s = bit_and (value >>> 16) 1;
      xn = bit_and (value >>> 4) 1;
      ns = bit_and (value >>> 19) 1;
      section_type = bit_and value 3;
    })
