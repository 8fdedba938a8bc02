-- ===== src/Frames.antt =====
-- The allocator of frames of os/mmu/mmu.c: the array `frames` and the list of the free ones that runs
-- through it. A pointer to a frame is its index in the array; a frame is a section of 1 MB.
pub mod Chain
pub mod Length
pub mod Refine
pub mod Init
mod Tests
use kernel_team_project.Base.{
  ℕ, zero, suc, ◌+◌, ◌-◌, ◌*◌, ◌/◌, ◌%◌, Bool, true, false, Option, none, some, ◌||◌, ◌==◌, ◌!=◌,
  ltb, leb, if◌then◌else◌, update, add32, sub32, mul32, ◌>>=◌,
}

-- MEM_PHYS_BASE, MEM_PHYS_SIZE, MEM_SECTION_SIZE and MEM_BOOT_PAGE_TABLE_BASE of common/mem.h
abbrev pub phys_base : ℕ
phys_base = 0x80000000

abbrev pub phys_size : ℕ
phys_size = 0x20000000

abbrev pub section_size : ℕ
section_size = 0x100000

abbrev pub boot_page_table_base : ℕ
boot_page_table_base = 0x90000000

-- `frames` and `frame_list`
pub record Frames : Type 0 where
  pub addr : ℕ → ℕ
  pub next : ℕ → Option ℕ
  pub frame_list : Option ℕ

-- A frame put in front of the list.
abbrev pub link : Frames → (i paddr : ℕ) → Frames
link f i paddr = record {
  addr = update f.addr i paddr;
  next = update f.next i f.frame_list;
  frame_list = some i;
}

-- One round of the loop of `init_frame_allocator`.
unfoldable pub init_frame : Frames → ℕ → Frames
init_frame f i =
    let paddr = add32 phys_base (mul32 i section_size) in
    if paddr == boot_page_table_base then f else link f i paddr

-- The rounds of that loop from `i` on.
unfoldable pub init_frames : Frames → (rounds i : ℕ) → Frames
init_frames f zero i = f
init_frames f (suc rounds) i = init_frames (init_frame f i) rounds (i + 1)

-- `init_frame_allocator(header)`, for `header->mapped_sections`.
unfoldable pub init_frame_allocator : Frames → (mapped_sections : ℕ) → Frames
init_frame_allocator f mapped_sections =
    init_frames f (phys_size / section_size - mapped_sections) mapped_sections

-- The head of the list is the argument.
unfoldable pub alloc_from : Frames → Option ℕ → ℕ × Frames
alloc_from f none = (0, f)
alloc_from f (some i) = (f.addr i, record f { frame_list = f.next i })

-- The address of the frame, or 0, and the allocator afterwards.
unfoldable pub alloc_frame : Frames → ℕ × Frames
alloc_frame f = alloc_from f f.frame_list

-- The loop of `free_frame` that looks for the address in the list; `none` is no more fuel.
unfoldable pub is_free : Frames → (fuel : ℕ) → (current : Option ℕ) → (addr : ℕ) → Option Bool
is_free f fuel none addr = some false
is_free f zero (some i) addr = none
is_free f (suc fuel) (some i) addr =
    let rest = is_free f fuel (f.next i) addr in if f.addr i == addr then some true else rest

-- `free_frame(addr)`, on fuel for the 512 frames of the array.
unfoldable pub free_frame : Frames → (addr : ℕ) → Option Frames
free_frame f addr =
    let searched : Option Frames = do
      found ← is_free f (phys_size / section_size) f.frame_list addr
      elim found [
        | true ↦ some f
        | false ↦ some (link f (sub32 addr phys_base / section_size) addr)
      ]
    in if addr % section_size != 0
      then some f
      else if ltb addr phys_base || leb (phys_base + phys_size) addr
      then some f
      else searched
