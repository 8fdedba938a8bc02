-- ===== src/Intc/Masks.antt =====
-- The mask registers of the interrupt controller, as os/interrupts/interrupt.c uses them.
use kernel_team_project.Base.{
  ℕ, ◌+◌, ◌*◌, ◌/◌, ◌%◌, ◌<◌, ◌≡◌, refl, ◌∙◌, Bool, true, false, ◌&&◌, not, ◌==◌, ==→eq, some,
  arith, if◌then◌else◌, all_below, all_below-lt, lt→not-leb, ◌<<◌, bit, add32,
}
use kernel_team_project.Regs.{Bus, Machine, masked}
use kernel_team_project.Intc.{
  intc_base_addr, irq_reg_bit, intc_enable_irq, intc_disable_irq, num_interrupts,
}

-- The registers number `n` that clear and that set bits of the mask.
abbrev pub mir_clr : (n : ℕ) → ℕ
mir_clr n = add32 intc_base_addr (0x88 + 8 * n * 4)

abbrev pub mir_set : (n : ℕ) → ℕ
mir_set n = add32 intc_base_addr (0x8c + 8 * n * 4)

-- Whether a write of `value` to the registers `n` is about an interrupt.
abbrev pub concerns : (n value irq : ℕ) → Bool
concerns n value irq = irq / 32 == n && bit value (irq % 32)

-- A controller with a mask for each interrupt: the ones of a word that is written to a register clear or
-- set the masks of its 32 interrupts, and the registers read as 0.
pub record Controller {D : Type 0} (bus : Bus D) : Type 0 where
  pub is_masked : D → (irq : ℕ) → Bool
  pub clears :
      (d : D) (n value irq : ℕ)
      → n < 4
      → is_masked (bus.store (mir_clr n) value d) irq
        ≡ (if concerns n value irq then false else is_masked d irq)
  pub sets :
      (d : D) (n value irq : ℕ)
      → n < 4
      → is_masked (bus.store (mir_set n) value d) irq
        ≡ (if concerns n value irq then true else is_masked d irq)
  pub clr_reads :
      (d : D) (n irq : ℕ)
      → n < 4
      → let (v, d') = bus.load (mir_clr n) d in (v ≡ 0) × (is_masked d' irq ≡ is_masked d irq)
  pub set_reads :
      (d : D) (n irq : ℕ)
      → n < 4
      → let (v, d') = bus.load (mir_set n) d in (v ≡ 0) × (is_masked d' irq ≡ is_masked d irq)

-- A word of one bit: written under its own mask over 0, and tested.
written_table : all_below 32 (λ k. masked 0 (1 << k) (1 << k) == 1 << k) ≡ true
written_table = refl

abbrev same : Bool → Bool → Bool
same a b = if a then b else not b

same→eq : (a b : Bool) → same a b ≡ true → a ≡ b
same→eq true true h = refl
same→eq true false h = cc
same→eq false true h = cc
same→eq false false h = refl

bit_table : all_below 32 (λ k. all_below 32 (λ j. same (bit (1 << k) j) (j == k))) ≡ true
bit_table = refl

written : (irq : ℕ) → masked 0 (irq_reg_bit irq) (irq_reg_bit irq) ≡ irq_reg_bit irq
written irq = ==→eq _ _ (
    all_below-lt 32 (λ k. masked 0 (1 << k) (1 << k) == 1 << k) (irq % 32) written_table
      (omega arith))

bit_of : (k j : ℕ) → k < 32 → j < 32 → bit (1 << k) j ≡ (j == k)
bit_of k j hk hj =
    let p = λ (k : ℕ) (j : ℕ). same (bit (1 << k) j) (j == k) in
    same→eq (bit (1 << k) j) (j == k)
      (all_below-lt 32 (p k) j (all_below-lt 32 (λ k. all_below 32 (p k)) k bit_table hk) hj)

-- The bit of an interrupt in its own register is about that interrupt alone.
concerns_self : (irq other : ℕ) → concerns (irq / 32) (irq_reg_bit irq) other ≡ (other == irq)
concerns_self irq other =
    rw (bit_of (irq % 32) (other % 32) (omega arith) (omega arith)) (ground arith)

module _ {D : Type 0} (bus : Bus D) (intc : Controller bus) where
  open intc use {is_masked}

  -- Enabling an interrupt of the table succeeds, and clears its mask and no other; nothing is printed.
  pub intc_enable_irq_lem :
      (irq : ℕ) (m : Machine D)
      → irq < num_interrupts
      → (d : D) × (intc_enable_irq bus irq m ≡ some (true, record m { dev = d }))
        × ((k : ℕ) → is_masked d k ≡ (if k == irq then false else is_masked m.dev k))
  unfolding intc_enable_irq
  intc_enable_irq_lem irq m lt =
      let n = irq / 32 in
      let b = irq_reg_bit irq in
      let d1 = (bus.load (mir_clr n) m.dev).1 in
      let small : n < 4 = omega arith in
      (
        bus.store (mir_clr n) b d1,
        rw (lt→not-leb num_interrupts irq lt, (intc.clr_reads m.dev n 0 small).0, written irq),
        λ k.
            intc.clears d1 n b k small
            ∙ rw (concerns_self irq k, (intc.clr_reads m.dev n k small).1),
      )

  pub intc_disable_irq_lem :
      (irq : ℕ) (m : Machine D)
      → irq < num_interrupts
      → (d : D) × (intc_disable_irq bus irq m ≡ some (true, record m { dev = d }))
        × ((k : ℕ) → is_masked d k ≡ (if k == irq then true else is_masked m.dev k))
  unfolding intc_disable_irq
  intc_disable_irq_lem irq m lt =
      let n = irq / 32 in
      let b = irq_reg_bit irq in
      let d1 = (bus.load (mir_set n) m.dev).1 in
      let small : n < 4 = omega arith in
      (
        bus.store (mir_set n) b d1,
        rw (lt→not-leb num_interrupts irq lt, (intc.set_reads m.dev n 0 small).0, written irq),
        λ k.
            intc.sets d1 n b k small ∙ rw (concerns_self irq k, (intc.set_reads m.dev n k small).1),
      )
