-- ===== src/PageTable/Entry.antt =====
-- What `MMU_map_section` of os/mmu/mmu.c writes.
use kernel_team_project.Base.{
  ℕ, ◌+◌, ◌*◌, ◌%◌, ◌^◌, ◌≡◌, ◌≢◌, ◌<◌, ◌∙◌, ◌⊎◌, ap, arith, update, bit_and, bit_or, bit_and_low,
  bit_and_high, bit_or_low, bit_or_comm, bit_or_add, ◌>>>◌, ◌!=◌, false,
}
use kernel_team_project.PageTable.{
  Table, section_mask, offset_mask, section_descriptor, map_section,
}

-- The entry of a section that starts at section `q` of the memory.
abbrev pub entry : (q flags : ℕ) → ℕ
entry q flags = bit_or section_descriptor flags + q * 2 ^ 20

aligned : (q : ℕ) → (bit_and (q * 2 ^ 20) offset_mask != 0) ≡ false
aligned q = rw (bit_and_low 20 (q * 2 ^ 20)) (ground arith)

base_kept : (q : ℕ) → q < 2 ^ 12 → bit_and (q * 2 ^ 20) section_mask ≡ q * 2 ^ 20
base_kept q h = bit_and_high 20 q 0xFFF ∙ ap (λ t. t * 2 ^ 20) (bit_and_low 12 q ∙ omega arith)

entry_lem :
    (q flags : ℕ)
    → flags < 2 ^ 20
    → bit_or (bit_or (q * 2 ^ 20) section_descriptor) flags ≡ entry q flags
entry_lem q flags h =
    ap (λ t. bit_or t flags) (bit_or_comm (q * 2 ^ 20) 2 ∙ bit_or_add 20 2 q (omega arith))
    ∙ bit_or_low 20 2 flags q (omega arith) h

-- An aligned section is mapped by one entry: that of the virtual section, with the physical section in
-- the top twelve bits and the flags and the mark of a section in the others.
pub map_section_lem :
    (l1 : Table) (v q flags : ℕ)
    → q < 2 ^ 12
    → flags < 2 ^ 20
    → map_section l1 (v * 2 ^ 20) (q * 2 ^ 20) flags ≡ update l1 v (entry q flags)
unfolding map_section
map_section_lem l1 v q flags hq hf =
    rw (aligned v, aligned q, base_kept q hq, entry_lem q flags hf)
      (ap (λ (i : ℕ). update l1 i (entry q flags))
        (let e : v * 2 ^ 20 >>> 20 ≡ v = omega arith in e))

-- An address that is not aligned to 1 MB maps nothing.
pub map_section_unaligned :
    (l1 : Table) (vaddr paddr flags : ℕ)
    → (vaddr % 2 ^ 20 ≢ 0) ⊎ (paddr % 2 ^ 20 ≢ 0)
    → map_section l1 vaddr paddr flags ≡ l1
unfolding map_section
map_section_unaligned l1 vaddr paddr flags odd =
    rw (bit_and_low 20 vaddr, bit_and_low 20 paddr) (ground arith)
