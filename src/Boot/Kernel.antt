-- ===== src/Boot/Kernel.antt =====
-- The part of `__BootloaderEntry` of boot/bootloader.c that reads the kernel, maps it and jumps to it, with
-- `fat32_geterror` of os/fs/fat32.c. The memory is the function from an address to a byte, and the page
-- table at MEM_BOOT_PAGE_TABLE_BASE is kept apart from it: a kernel that reaches the loader's own memory,
-- which is the table and the sector buffer behind it, is an outcome of its own, and so is a bss outside
-- the memory in front of them. What is printed on the way, and the instructions that switch the unit on,
-- are left out.
use Prim.Native.String.{String}
use kernel_team_project.Base.{
  ℕ, zero, suc, ◌+◌, ◌-◌, ◌*◌, ◌/◌, Bool, true, false, ◌&&◌, ◌||◌, ◌==◌, leb, ltb, if◌then◌else◌,
  List, [], ◌∷◌, length, get_or, Option, some, ℤ, pos, negsuc, to_u32, to_i32, is_zero, add32,
  sub32, mul32,
}
use kernel_team_project.Fat32.Types.{Bytes, Disk, Fs, File, Run, done, ◌>>=◌}
use kernel_team_project.Fat32.Memory.{little_endian}
use kernel_team_project.Fat32.Strings.{Text}
use kernel_team_project.Fat32.Mount.{fat32_mount}
use kernel_team_project.Fat32.Open.{fat32_open}
use kernel_team_project.Fat32.File.{fat32_size}
use kernel_team_project.Fat32.Read.{fat32_read}
use kernel_team_project.PageTable.{
  Table, memory_flags, clear_boot_tables, map_hardware_pages, map_section,
}

abbrev pub kernel_magic : ℕ
kernel_magic = 0x1B1B1B1B

abbrev pub bootloader_magic : ℕ
bootloader_magic = 0x2B2B2B2B

abbrev pub mem_phys_base : ℕ
mem_phys_base = 0x80000000

abbrev pub mem_kernel_base : ℕ
mem_kernel_base = 0xA0000000

abbrev pub mem_boot_page_table_base : ℕ
mem_boot_page_table_base = 0x90000000

abbrev pub mem_section_size : ℕ
mem_section_size = 0x100000

-- L1_KERNEL_DATA_EXEC_FLAGS, the flags of the memory in the map of the hardware
abbrev pub kernel_data_exec_flags : ℕ
kernel_data_exec_flags = memory_flags

-- "/boot/kernel.bin"
abbrev pub kernel_path : Text
kernel_path =
    b'/' ∷ b'b' ∷ b'o' ∷ b'o' ∷ b't' ∷ b'/' ∷ b'k' ∷ b'e' ∷ b'r' ∷ b'n' ∷ b'e' ∷ b'l' ∷ b'.' ∷ b'b'
    ∷ b'i' ∷ b'n' ∷ []

unfoldable pub fat32_geterror : ℤ → String
fat32_geterror (pos zero) = "Success"
fat32_geterror (pos (suc n)) = "Unknown error"
fat32_geterror (negsuc n) =
    if n == 3
    then "Bad parameter"
    else if n == 0
    then "I/O error"
    else if n == 7
    then "Path not found"
    else if n == 2
    then "File not found"
    else if n == 8
    then "Path is a directory"
    else if n == 4
    then "Corrupted filesystem"
    else if n == 1
    then "Invalid boot sector"
    else if n == 11
    then "No volume label found"
    else "Unknown error"

-- `kernel_header_t`, as it stands at the start of the kernel.
pub record KernelHeader : Type 0 where
  pub magic : ℕ
  pub text_start : ℕ
  pub data_start : ℕ
  pub bss_start : ℕ
  pub kernel_size : ℕ
  pub kernel_entry : ℕ
  pub kernel_end : ℕ

-- `bootloader_header_t`
pub record BootHeader : Type 0 where
  pub magic : ℕ
  pub boot_table_entry_addr : ℕ
  pub mapped_sections : ℕ

abbrev pub header_at : Bytes → (addr : ℕ) → KernelHeader
header_at memory addr = record {
  magic = little_endian 4 memory addr;
  text_start = little_endian 4 memory (addr + 4);
  data_start = little_endian 4 memory (addr + 8);
  bss_start = little_endian 4 memory (addr + 12);
  kernel_size = little_endian 4 memory (addr + 16);
  kernel_entry = little_endian 4 memory (addr + 20);
  kernel_end = little_endian 4 memory (addr + 24);
}

-- The bytes that a read writes to a buffer at an address.
abbrev pub store_bytes : Bytes → (base : ℕ) → List ℕ → Bytes
store_bytes memory base bytes a =
    if leb base a && ltb a (base + length bytes) then get_or bytes (a - base) 0 else memory a

-- The calls of `panic`, the jump to the kernel with what it finds, and a kernel that is read over the
-- page table or whose bss is cleared over it or below the memory, which is not followed further.
pub data Boot : Type 0 where
  mount_panic : (text : String) → Boot
  open_panic : (text : String) → Boot
  read_panic : (text : String) (res : ℤ) → Boot
  magic_panic : (magic : ℕ) → Boot
  overlaps : Boot
  jump : (kernel_entry : ℕ) → BootHeader → (memory : Bytes) → Table → Boot

-- The sizes that are computed from the header: `bss_section_size`, `kernel_sections` and
-- `bss_section_paddr`.
abbrev pub bss_section_size : KernelHeader → ℤ
bss_section_size h = to_i32 (sub32 h.kernel_size (sub32 h.bss_start h.data_start))

abbrev pub kernel_sections : KernelHeader → ℕ
kernel_sections h = sub32 (add32 h.kernel_size mem_section_size) 1 / mem_section_size

abbrev pub bss_section_paddr : KernelHeader → ℕ
bss_section_paddr h = add32 mem_phys_base (sub32 h.bss_start mem_kernel_base)

-- `MMU_init`, in memory.
unfoldable pub mmu_init : Table → Table
mmu_init table = map_hardware_pages (clear_boot_tables table)

-- The loop that maps the kernel, for the sections that are left from `current_frame` on.
unfoldable pub map_kernel : Table → (rounds current_frame : ℕ) → Table
map_kernel table zero current_frame = table
map_kernel table (suc rounds) current_frame =
    let offset = mul32 current_frame mem_section_size in
    map_kernel
      (map_section table (add32 mem_kernel_base offset) (add32 mem_phys_base offset)
        kernel_data_exec_flags)
      rounds (current_frame + 1)

-- The number of rounds of `for (i = 0; i < size; i += 4)`.
abbrev pub word_rounds : ℤ → ℕ
word_rounds (pos n) = (n + 3) / 4
word_rounds (negsuc n) = 0

-- `*(uint32_t*) addr = 0`
abbrev pub clear_word : Bytes → (addr : ℕ) → Bytes
clear_word memory addr a = if leb addr a && ltb a (addr + 4) then 0 else memory a

-- The loop that clears the memory from `addr` on, for the rounds that are left.
unfoldable pub clear_words : Bytes → (rounds addr : ℕ) → Bytes
clear_words memory zero addr = memory
clear_words memory (suc rounds) addr = clear_words (clear_word memory addr) rounds (addr + 4)

-- The words from `addr` on are in the memory in front of the page table.
abbrev pub is_apart : (rounds addr : ℕ) → Bool
is_apart rounds addr =
    rounds == 0 || (leb mem_phys_base addr && leb (addr + rounds * 4) mem_boot_page_table_base)

-- From the header on. The entry point is read again after the bss has been cleared.
unfoldable pub start_kernel : (memory : Bytes) → Table → Boot
start_kernel memory table =
    let header = header_at memory mem_phys_base in
    let table' = map_kernel (mmu_init table) (kernel_sections header) 0 in
    let rounds = word_rounds (bss_section_size header) in
    let memory' = clear_words memory rounds (bss_section_paddr header) in
    let boot_header : BootHeader = record {
      magic = bootloader_magic;
      boot_table_entry_addr = mem_boot_page_table_base;
      mapped_sections = kernel_sections header;
    } in
    if header.magic == kernel_magic
    then if is_apart rounds (bss_section_paddr header)
      then jump (header_at memory' mem_phys_base).kernel_entry boot_header memory' table'
      else overlaps
    else magic_panic header.magic

-- `==` on C's `int`.
abbrev pub int_eq : ℤ → ℤ → Bool
int_eq (pos a) (pos b) = a == b
int_eq (negsuc a) (negsuc b) = a == b
int_eq _ _ = false

-- The read of the kernel, and what follows it.
unfoldable pub read_kernel : Option File → (memory : Bytes) → Table → Run Boot
read_kernel file memory table = do
  let kernel_size = fat32_size file
  (if ltb (mem_boot_page_table_base - mem_phys_base) (to_u32 kernel_size)
      then done overlaps
      else (do
        (res, file', bytes) ← fat32_read file true (to_u32 kernel_size)
        done (
            if int_eq res kernel_size
            then start_kernel (store_bytes memory mem_phys_base bytes) table
            else read_panic (fat32_geterror res) res)))

unfoldable pub open_kernel : (fuel : ℕ) → Option Fs → File → (memory : Bytes) → Table → Run Boot
open_kernel fuel fs file memory table = do
  (res, file') ← fat32_open fuel fs (some kernel_path) (some file)
  (if is_zero res then read_kernel file' memory table else done (open_panic (fat32_geterror res)))

-- From the mount on, with the memory at the sector buffer of `fat32_mount`.
unfoldable pub boot :
    (fuel : ℕ) → Fs → Disk → (sector_buffer : Bytes) → File → (memory : Bytes) → Table → Run Boot
boot fuel fs disk sector_buffer file memory table = do
  (res, fs') ← fat32_mount (some fs) (some (some disk)) sector_buffer
  (if is_zero res
      then open_kernel fuel fs' file memory table
      else done (mount_panic (fat32_geterror res)))
