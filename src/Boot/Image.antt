-- ===== src/Boot/Image.antt =====
-- What boot/bootloader.c makes of a kernel on the disk.
use kernel_team_project.Base.{
  ℕ, zero, suc, ◌+◌, ◌-◌, ◌*◌, ◌/◌, ◌^◌, ◌≤◌, ◌<◌, ◌≡◌, ◌≢◌, refl, ap, ap₂, ◌∙◌, ◌&&◌, ◌==◌, leb,
  ltb, lt→ltb, if◌then◌else◌, Bool-cases, ==→eq, eq→==, inl, inr, ◌⊎◌, arith, add32, mul32, sub32,
  update, true,
}
use kernel_team_project.Fat32.Memory.{AreBytes, little_endian}
use kernel_team_project.Fat32.Mount.Volume.{IsPartitioned, mount_refused}
use kernel_team_project.Fat32.Types.{Disk, Bytes, Fs, File, done}
use kernel_team_project.PageTable.{Table, map_section}
use kernel_team_project.PageTable.Entry.{entry, map_section_lem}
use kernel_team_project.Boot.Kernel.{
  kernel_magic, bootloader_magic, mem_phys_base, mem_boot_page_table_base, kernel_data_exec_flags,
  header_at, is_apart, jump, mount_panic, boot, fat32_geterror, bss_section_size, kernel_sections,
  bss_section_paddr, mmu_init, map_kernel, word_rounds, clear_word, clear_words, start_kernel,
}

-- The entries that the loop over the kernel's sections writes.
map_kernel_lem :
    (table : Table) (rounds i k : ℕ)
    → i + rounds ≤ 512
    → map_kernel table rounds i k ≡ (
        if leb (0xA00 + i) k && ltb k (0xA00 + i + rounds)
        then entry (k - 0x200) kernel_data_exec_flags
        else table k)
unfolding map_kernel
map_kernel_lem table zero i k h = ground arith
map_kernel_lem table (suc rounds) i k h =
    let offset = mul32 i 0x100000 in
    let virtual : add32 0xA0000000 offset ≡ (0xA00 + i) * 2 ^ 20 = omega arith in
    let physical : add32 0x80000000 offset ≡ (0x800 + i) * 2 ^ 20 = omega arith in
    let one =
      map_section_lem table (0xA00 + i) (0x800 + i) kernel_data_exec_flags (omega arith)
        (omega arith) in
    ap₂ (λ v p. map_kernel (map_section table v p kernel_data_exec_flags) rounds (i + 1) k) virtual
      physical
    ∙ ap (λ t. map_kernel t rounds (i + 1) k) one
    ∙ map_kernel_lem (update table (0xA00 + i) (entry (0x800 + i) kernel_data_exec_flags)) rounds
        (i + 1) k (omega arith)
    ∙ elim (Bool-cases (k == 0xA00 + i)) [
      | inl same ↦
          let e : k ≡ 0xA00 + i = ==→eq k (0xA00 + i) same in
          let q : 0xA00 + i - 0x200 ≡ 0x800 + i = omega arith in rw (e, q) (ground arith)
      | inr other ↦ rw other (ground arith)
    ]

clear_words_lem :
    (memory : Bytes) (rounds addr a : ℕ)
    → clear_words memory rounds addr a
      ≡ (if leb addr a && ltb a (addr + rounds * 4) then 0 else memory a)
unfolding clear_words
clear_words_lem memory zero addr a = ground arith
clear_words_lem memory (suc rounds) addr a =
    clear_words_lem (clear_word memory addr) rounds (addr + 4) a ∙ ground arith

-- Clearing from byte 28 of the kernel on leaves its header, of 7 words, as it is.
header_kept :
    (memory : Bytes) (rounds bss i : ℕ)
    → 28 ≤ bss
    → i + 4 ≤ 28
    → little_endian 4 (clear_words memory rounds (mem_phys_base + bss)) (mem_phys_base + i)
      ≡ little_endian 4 memory (mem_phys_base + i)
unfolding little_endian
header_kept memory rounds bss i low inside = rw (
  kept (mem_phys_base + i) (omega arith),
  kept (mem_phys_base + i + 1) (omega arith),
  kept (mem_phys_base + i + 1 + 1) (omega arith),
  kept (mem_phys_base + i + 1 + 1 + 1) (omega arith),
)
  where
    kept :
        (a : ℕ)
        → a < mem_phys_base + 28
        → clear_words memory rounds (mem_phys_base + bss) a ≡ memory a
    kept a h = clear_words_lem memory rounds (mem_phys_base + bss) a ∙ ground arith

-- A kernel of up to 256 MB with the magic number in its header, whose bss starts behind the header and is
-- cleared within the first 256 MB of the memory, is started. The entry point of its header is called
-- with the number of its sections of 1 MB; these are mapped from 0xA0000000 on to the memory at
-- 0x80000000, and all other entries are those of the hardware. From the start of its bss on, as many
-- bytes are cleared, in whole words, as the kernel has outside its data section, and no others change.
pub start_kernel_lem :
    (memory : Bytes) (table : Table) (size data_size bss : ℕ)
    → let h = header_at memory mem_phys_base in
      h.magic ≡ kernel_magic
      → h.kernel_size ≡ size
      → size ≤ 2 ^ 28
      → h.bss_start ≡ h.data_start + data_size
      → data_size ≤ size
      → h.bss_start ≡ 0xA0000000 + bss
      → 28 ≤ bss
      → bss + (size - data_size + 3) / 4 * 4 ≤ 2 ^ 28
      → (memory' : Bytes) × (table' : Table) × (start_kernel memory table
          ≡ jump h.kernel_entry
              (record {
                magic = bootloader_magic;
                boot_table_entry_addr = mem_boot_page_table_base;
                mapped_sections = (size + 0xFFFFF) / 2 ^ 20;
              })
              memory'
              table')
        × ((k : ℕ)
            → table' k ≡ (
                if leb 0xA00 k && ltb k (0xA00 + (size + 0xFFFFF) / 2 ^ 20)
                then entry (k - 0x200) kernel_data_exec_flags
                else mmu_init table k))
        × ((a : ℕ)
            → memory' a ≡ (
                if leb (mem_phys_base + bss) a
                  && ltb a (mem_phys_base + bss + (size - data_size + 3) / 4 * 4)
                then 0
                else memory a))
unfolding start_kernel
start_kernel_lem memory table size data_size bss magic sized small data_sized inside placed behind
      low =
    let h = header_at memory mem_phys_base in
    let sections : kernel_sections h ≡ (size + 0xFFFFF) / 2 ^ 20 = omega (arith, sized) in
    let value : sub32 h.kernel_size (sub32 h.bss_start h.data_start) ≡ size - data_size =
      omega arith in
    let below : size - data_size < 2 ^ 31 = omega arith in
    let words = (size - data_size + 3) / 4 in
    let rounds : word_rounds (bss_section_size h) ≡ words =
      rw (value, lt→ltb (size - data_size) (2 ^ 31) below) in
    let from : bss_section_paddr h ≡ mem_phys_base + bss = omega arith in
    let apart : is_apart words (mem_phys_base + bss) ≡ true = ground arith in
    let n = (size + 0xFFFFF) / 2 ^ 20 in
    (
      clear_words memory words (mem_phys_base + bss),
      map_kernel (mmu_init table) n 0,
      rw
          (
            eq→== h.magic kernel_magic magic,
            sections,
            rounds,
            from,
            apart,
            header_kept memory words bss 20 behind (omega arith),
          )
          refl,
      λ k. map_kernel_lem (mmu_init table) n 0 k (omega arith),
      clear_words_lem memory words (mem_phys_base + bss),
    )

-- A byte that is not 0 in the two bytes of memory behind the sector of the sector buffer, which stands at
-- the fixed address 0x91000000, stops the boot: a volume with a FAT32 partition and a boot sector that
-- is signed is then reported as one with an invalid boot sector.
pub boot_refused :
    (fuel : ℕ) (fs : Fs) (file : File) (memory : Bytes) (table : Table) (io : Disk)
    (mbr bs buffer : Bytes) (index start : ℕ)
    → IsPartitioned io mbr bs index start
    → AreBytes buffer
    → (buffer 512 ≢ 0) ⊎ (buffer 513 ≢ 0)
    → boot fuel fs io buffer file memory table ≡ done (mount_panic "Invalid boot sector")
unfolding boot fat32_geterror
boot_refused fuel fs file memory table io mbr bs buffer index start disk bytes dirty =
    rw (mount_refused io mbr bs buffer index start disk bytes fs dirty)
