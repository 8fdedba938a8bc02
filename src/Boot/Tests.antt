-- ===== src/Boot/Tests.antt =====
-- The theorems about boot/bootloader.c at concrete disks and kernels.
use kernel_team_project.Base.{
  ℕ, ◌+◌, ◌-◌, ◌*◌, ◌/◌, ◌^◌, ◌≡◌, refl, ◌&&◌, ◌==◌, leb, ltb, if◌then◌else◌, some, List, [], ◌∷◌,
  get_or, ◌++◌, ◌%◌, arith, inl, inr, update,
}
use kernel_team_project.Fat32.Types.{Bytes, Disk, Fs, File, done, fat32_magic}
use kernel_team_project.Fat32.Memory.{little_endian, AreBytes}
use kernel_team_project.Fat32.Strings.{Text}
use kernel_team_project.Fat32.Mount.Volume.{IsPartitioned}
use kernel_team_project.PageTable.{Table}
use kernel_team_project.PageTable.Entry.{entry}
use kernel_team_project.Regs.{Bus}
use kernel_team_project.Ring.{CharBuffer}
use kernel_team_project.Uart.Init.{Ports}
use kernel_team_project.Intc.Handler.{uart0_irq, other_irq}
use kernel_team_project.Intc.{num_interrupts}
use kernel_team_project.Regs.Ends.{Returns}
use kernel_team_project.Ring.Chars
use kernel_team_project.Boot.Devices.{boot_devices}
use kernel_team_project.Boot.Starting.{IsPrompt, boot_devices_ends}
use kernel_team_project.Boot.Kernel.{
  jump, mount_panic, kernel_magic, bootloader_magic, mem_phys_base, mem_boot_page_table_base,
  kernel_data_exec_flags, mmu_init, start_kernel, boot,
}
use kernel_team_project.Boot.Image.{start_kernel_lem, boot_refused}

-- An entry of a directory.
abbrev entry_of : (name : List ℕ) → (attributes start size : ℕ) → Bytes
entry_of name attributes start size i =
    if ltb i 11
    then get_or name i b' '
    else if i == 11
    then attributes
    else if i == 26
    then start
    else if i == 28
    then size
    else 0

-- The root directory with the directory "boot" in cluster 3, and that with "kernel.bin" in cluster 5.
abbrev root_sector : Bytes
root_sector = entry_of (b'B' ∷ b'O' ∷ b'O' ∷ b'T' ∷ []) 0x10 3 0

abbrev boot_sector : Bytes
boot_sector =
    entry_of (b'K' ∷ b'E' ∷ b'R' ∷ b'N' ∷ b'E' ∷ b'L' ∷ b' ' ∷ b' ' ∷ b'B' ∷ b'I' ∷ b'N' ∷ []) 0x20
      5 200

abbrev disk : Disk
disk n = if n == 2 then some root_sector else some boot_sector

abbrev fs : Fs
fs = record {
  disk = disk;
  bytes_per_sector = 512;
  sectors_per_cluster = 1;
  reserved_sector_count = 1;
  num_fats = 1;
  sectors_per_fat = 1;
  root_cluster = 2;
  cluster_size = 512;
  total_clusters = 100;
  total_sectors = 102;
  fsinfo_sector = 0;
  first_data_sector = 2;
  fat_start_sector = 1;
  magic = fat32_magic;
}

abbrev file : File
file = record {
  fs = fs;
  formatted_name = [];
  start_cluster = 0;
  current_cluster = 0;
  current_cluster_index = 0;
  file_size = 0;
  file_offset = 0;
  parent_dir_cluster = 0;
}

abbrev boot_name : Text
boot_name = b'b' ∷ b'o' ∷ b'o' ∷ b't' ∷ []

abbrev kernel_name : Text
kernel_name = b'k' ∷ b'e' ∷ b'r' ∷ b'n' ∷ b'e' ∷ b'l' ∷ b'.' ∷ b'b' ∷ b'i' ∷ b'n' ∷ []

abbrev boot_entry : Bytes
boot_entry i = root_sector (0 + i)

abbrev kernel_entry : Bytes
kernel_entry i = boot_sector (0 + i)

abbrev no_table : Table
no_table = λ _. 0

-- The four bytes of a word.
abbrev word_bytes : ℕ → List ℕ
word_bytes w = w % 256 ∷ w / 2 ^ 8 % 256 ∷ w / 2 ^ 16 % 256 ∷ w / 2 ^ 24 ∷ []

-- The header of a kernel of 0x180000 bytes: its text at 0xA0000040, 0x40 bytes of data at 0xA0100000, and its bss
-- at 0xA0100040.
abbrev image : Bytes
image a =
    get_or
      (word_bytes kernel_magic
        ++ word_bytes 0xA0000040
        ++ word_bytes 0xA0100000
        ++ word_bytes 0xA0100040
        ++ word_bytes 0x180000
        ++ word_bytes 0xA0000040
        ++ [])
      (a - mem_phys_base) 0

start_kernel_lem_example :
    (memory' : Bytes) × (table' : Table) × (start_kernel image no_table
      ≡ jump 0xA0000040
          (record {
            magic = bootloader_magic;
            boot_table_entry_addr = mem_boot_page_table_base;
            mapped_sections = 2;
          })
          memory'
          table')
    × ((k : ℕ)
        → table' k ≡ (
            if leb 0xA00 k && ltb k (0xA00 + 2)
            then entry (k - 0x200) kernel_data_exec_flags
            else mmu_init no_table k))
    × ((a : ℕ)
        → memory' a ≡ (
            if leb (mem_phys_base + 0x100040) a
              && ltb a (mem_phys_base + 0x100040 + (0x180000 - 0x40 + 3) / 4 * 4)
            then 0
            else image a))
unfolding little_endian
start_kernel_lem_example =
    start_kernel_lem image no_table 0x180000 0x40 0x100040 refl refl (omega arith) refl
      (omega arith) refl (omega arith) (omega arith)

-- A volume whose only partition starts at sector 1.
abbrev mbr : Bytes
mbr = update (update (update (update (λ _. 0) 450 0x0C) 454 1) 510 0x55) 511 0xAA

abbrev volume_sector : Bytes
volume_sector = update (update (update (λ _. 0) 13 8) 510 0x55) 511 0xAA

abbrev volume : Disk
volume n = if n == 0 then some mbr else some volume_sector

volume-IsPartitioned : IsPartitioned volume mbr volume_sector 0 1
unfolding little_endian
volume-IsPartitioned = record {
  sector0 = refl;
  mbr_bytes = λ i. ground arith;
  mbr_signed = refl;
  index_in = omega arith;
  kind = inr refl;
  first = λ j h. absurd (omega arith);
  starts = refl;
  sector = refl;
  boot_bytes = λ i. ground arith;
  boot_signed = refl;
  clusters = ground arith;
}

abbrev dirty : Bytes
dirty = update (λ _. 0) 512 1

dirty-AreBytes : AreBytes dirty
dirty-AreBytes i = ground arith

boot_refused_example :
    boot 1 fs volume dirty file (λ _. 0) no_table ≡ done (mount_panic "Invalid boot sector")
boot_refused_example =
    boot_refused 1 fs file (λ _. 0) no_table volume mbr volume_sector dirty 0 1 volume-IsPartitioned
      dirty-AreBytes (inl (ground arith))

-- A device whose registers all read as 0x21: resets are done, and the sender is empty.
abbrev ready_bus : Bus (Unit {0})
ready_bus = record { load = λ addr d. (0x21, d); store = λ addr value d. d }

ready-IsPrompt : IsPrompt ready_bus 1
ready-IsPrompt = record {
  gpio_clock = λ d. (0, omega arith, record { goes_on = λ i h. absurd (omega arith); ends = refl });
  intc_reset = λ d. (0, omega arith, record { goes_on = λ i h. absurd (omega arith); ends = refl });
  uart_clock = λ d. (0, omega arith, record { goes_on = λ i h. absurd (omega arith); ends = refl });
  wakeup_clock =
      λ d. (0, omega arith, record { goes_on = λ i h. absurd (omega arith); ends = refl });
  uart_reset = λ d. (0, omega arith, record { goes_on = λ i h. absurd (omega arith); ends = refl });
  sender = λ d. (0, omega arith, record { goes_on = λ i h. absurd (omega arith); ends = refl });
}

abbrev ring : CharBuffer
ring = record { buffer = λ _. 0; head = 0; tail = 0; size = 0; lines = 0 }

abbrev ports_at_start : Ports
ports_at_start = record {
  handlers = λ _. other_irq;
  uart = record { rx0 = ring; rx1 = ring; sent = [] };
}

boot_devices_ends_example :
    (ports' : Ports) × Returns (boot_devices ready_bus 1 (0xE59FF018 ∷ []) ports_at_start) ports'
    × ((k : ℕ)
        → ports'.handlers k
          ≡ (if k == 72 then uart0_irq else if ltb k num_interrupts then other_irq else other_irq))
    × (Chars.contents ports'.uart.rx0 ≡ [])
boot_devices_ends_example =
    boot_devices_ends ready_bus 1 ready-IsPrompt (0xE59FF018 ∷ []) ports_at_start
