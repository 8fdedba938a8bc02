-- ===== src/PageTable/Hardware.antt =====
-- The map of the memory that `mmu_map_hardware_pages` of os/mmu/mmu.c writes.
use kernel_team_project.Base.{
  ℕ, zero, suc, ◌+◌, ◌*◌, ◌^◌, ◌≡◌, ◌≤◌, ◌<◌, ◌∙◌, ◌⊎◌, refl, ap, none, arith, update, add32, mul32,
  ltb, leb, ◌&&◌, if◌then◌else◌, bit_and_low, ◌>>>◌, Bool-cases, ==→eq, inl, inr, ◌==◌,
}
use kernel_team_project.PageTable.{
  Table, map_section, map_sections, map_fixed, map_windows, map_hardware_pages, device_flags,
  dram_flags, log_l1_pte,
}
use kernel_team_project.PageTable.Entry.{entry, map_section_lem}

-- A loop that maps sections one to one writes the entries of its range, and leaves the others.
map_sections_lem :
    (l1 : Table) (v flags rounds i k : ℕ)
    → v + i + rounds ≤ 4096
    → flags < 2 ^ 20
    → map_sections l1 (v * 2 ^ 20) flags rounds i k
      ≡ (if leb (v + i) k && ltb k (v + i + rounds) then entry k flags else l1 k)
unfolding map_sections
map_sections_lem l1 v flags zero i k h hf = ground arith
map_sections_lem l1 v flags (suc rounds) i k h hf =
    let addr : add32 (v * 2 ^ 20) (mul32 i 0x100000) ≡ (v + i) * 2 ^ 20 = omega arith in
    let one = map_section_lem l1 (v + i) (v + i) flags (omega arith) hf in
    ap (λ a. map_sections (map_section l1 a a flags) (v * 2 ^ 20) flags rounds (i + 1) k) addr
    ∙ ap (λ t. map_sections t (v * 2 ^ 20) flags rounds (i + 1) k) one
    ∙ map_sections_lem (update l1 (v + i) (entry (v + i) flags)) v flags rounds (i + 1) k
        (omega arith) hf
    ∙ elim (Bool-cases (k == v + i)) [
      | inl same ↦ let e : k ≡ v + i = ==→eq k (v + i) same in rw e (ground arith)
      | inr other ↦ rw other (ground arith)
    ]

-- Every section of the 512 MB of memory at 0x80000000 is mapped one to one.
pub map_hardware_pages_dram :
    (l1 : Table) (k : ℕ) → 0x800 ≤ k → k < 0xA00 → map_hardware_pages l1 k ≡ entry k dram_flags
unfolding map_hardware_pages
map_hardware_pages_dram l1 k low high =
    map_sections_lem (map_windows (map_fixed l1)) 0x800 dram_flags 512 0 k (omega arith)
      (omega arith)
    ∙ ground arith

windows :
    (t : Table) (k : ℕ)
    → map_windows t k ≡ (
        if leb 0x500 k && ltb k 0x510
        then entry k device_flags
        else if leb 0x4C0 k && ltb k 0x4D0
        then entry k device_flags
        else if leb 0x4A0 k && ltb k 0x4B0
        then entry k device_flags
        else if leb 0x480 k && ltb k 0x490
        then entry k device_flags
        else t k)
unfolding map_windows
windows t k =
    let range : (l1 : Table) (v : ℕ)
        → v < 4000
        → map_sections l1 (v * 2 ^ 20) device_flags 16 0 k
          ≡ (if leb (v + 0) k && ltb k (v + 0 + 16) then entry k device_flags else l1 k) =
      λ l1 v h. map_sections_lem l1 v device_flags 16 0 k (omega arith) (omega arith) in
    let t1 = map_sections t 0x48000000 device_flags 16 0 in
    let t2 = map_sections t1 0x4A000000 device_flags 16 0 in
    let t3 = map_sections t2 0x4C000000 device_flags 16 0 in
    range t3 0x500 (omega arith)
    ∙ rw (range t2 0x4C0 (omega arith), range t1 0x4A0 (omega arith), range t 0x480 (omega arith))
        refl

-- The four windows of 16 MB of the peripherals are mapped one to one as device memory.
pub map_hardware_pages_devices :
    (l1 : Table) (window i : ℕ)
    → (window ≡ 0x480) ⊎ ((window ≡ 0x4A0) ⊎ ((window ≡ 0x4C0) ⊎ (window ≡ 0x500)))
    → i < 16
    → map_hardware_pages l1 (window + i) ≡ entry (window + i) device_flags
unfolding map_hardware_pages
map_hardware_pages_devices l1 window i which h =
    map_sections_lem (map_windows (map_fixed l1)) 0x800 dram_flags 512 0 (window + i) (omega arith)
      (omega arith)
    ∙ rw (windows (map_fixed l1) (window + i)) (ground arith)

-- The flags of the entries of the memory have the bit for a supersection set, which `log_l1_pte`
-- reports as an error of every one of them.
pub dram_supersection :
    (l1 : Table) (k : ℕ) → 0x800 ≤ k → k < 0xA00 → log_l1_pte (map_hardware_pages l1 k) ≡ none
unfolding log_l1_pte
dram_supersection l1 k low high =
    rw (map_hardware_pages_dram l1 k low high, bit_and_low 1 (entry k dram_flags >>> 18))
      (ground arith)
