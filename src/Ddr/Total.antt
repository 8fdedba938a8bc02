-- ===== src/Ddr/Total.antt =====
-- The set-up of the memory and its test in boot/ddr.c return, on every device.
use kernel_team_project.Base.{ℕ, zero, suc, ◌+◌, refl, ltb, List, [], ◌∷◌}
use kernel_team_project.Regs.{Bus, Io, ◌>>◌, wait_for_reg32, log_message, uart_printf}
use kernel_team_project.Regs.Poll.{wait_for_reg32_ends}
use kernel_team_project.Regs.Ends.{Ends, bind-Ends, then-Ends, if-Ends}
use kernel_team_project.Ddr.{
  timeout, or_into, enable_core_pll, enable_ddr_pll, enable_emif_clocks, init_emif,
  configure_ddr_phy, configure_ddr_phy_cmd_data, configure_ddr_io, init_ddr3, setup_memory,
  test_words, test_patterns, report, test_ddr3_memory, ddr_words, ddr_start_addr,
}

abbrev patterns : List ℕ
patterns = 0xAAAAAAAA ∷ 0x55555555 ∷ 0x00000000 ∷ 0xFFFFFFFF ∷ []

module _ {D : Type 0} (bus : Bus D) where
  wait_for_reg32-Ends :
      (base offset mask expected t : ℕ) → Ends (wait_for_reg32 bus base offset mask expected t)
  wait_for_reg32-Ends base offset mask expected t m =
      let (_, _, e) = wait_for_reg32_ends bus base offset mask expected t m in (_, e)

  or_into-Ends : (addr value : ℕ) → Ends (or_into bus addr value)
  or_into-Ends addr value m = (_, refl)

  -- A wait with a bound, and what follows it.
  wait-Ends :
      (base offset mask expected : ℕ) {k : Io D (Unit {0})}
      → Ends k
      → Ends (wait_for_reg32 bus base offset mask expected timeout >> k)
  wait-Ends base offset mask expected {k} h =
      bind-Ends (wait_for_reg32 bus base offset mask expected timeout) (λ _. k)
        (wait_for_reg32-Ends base offset mask expected timeout) (λ _. h)

  enable_emif_clocks-Ends : Ends (enable_emif_clocks bus)
  unfolding enable_emif_clocks
  enable_emif_clocks-Ends m =
      wait-Ends _ _ _ _
        (wait-Ends _ _ _ _ (
          wait-Ends _ _ _ _
            (wait-Ends _ _ _ _ (wait-Ends _ _ _ _ (wait_for_reg32-Ends _ _ _ _ _)))))
        _

  enable_core_pll-Ends : Ends (enable_core_pll bus)
  unfolding enable_core_pll
  enable_core_pll-Ends m = wait-Ends _ _ _ _ (λ m. wait_for_reg32-Ends _ _ _ _ _ _) _

  enable_ddr_pll-Ends : Ends (enable_ddr_pll bus)
  unfolding enable_ddr_pll
  enable_ddr_pll-Ends m = wait-Ends _ _ _ _ (λ m. wait_for_reg32-Ends _ _ _ _ _ _) _

  init_emif-Ends : Ends (init_emif bus)
  unfolding init_emif
  init_emif-Ends m = wait_for_reg32-Ends _ _ _ _ _ _

  configure_ddr_phy-Ends : Ends (configure_ddr_phy bus)
  unfolding configure_ddr_phy
  configure_ddr_phy-Ends m = wait_for_reg32-Ends _ _ _ _ _ _

  init_ddr3-Ends : Ends (init_ddr3 bus)
  unfolding init_ddr3 configure_ddr_phy_cmd_data configure_ddr_io log_message uart_printf
  init_ddr3-Ends m = then-Ends {c = configure_ddr_phy bus} configure_ddr_phy-Ends (λ m. (_, refl)) _

  pub setup_memory-Ends : Ends (setup_memory bus)
  unfolding setup_memory
  setup_memory-Ends = then-Ends enable_core_pll-Ends (
      then-Ends enable_ddr_pll-Ends
        (then-Ends enable_emif_clocks-Ends (then-Ends init_emif-Ends init_ddr3-Ends)))

  test_words-Ends : (rounds addr p errors : ℕ) → Ends (test_words bus rounds addr p errors)
  unfolding test_words
  test_words-Ends zero addr p errors m = (_, refl)
  test_words-Ends (suc rounds) addr p errors m = test_words-Ends rounds (addr + 4) p _ _

  test_patterns-Ends : (ps : List ℕ) (errors : ℕ) → Ends (test_patterns bus ps errors)
  unfolding test_patterns
  test_patterns-Ends [] errors m = (_, refl)
  test_patterns-Ends (p ∷ ps) errors m =
      bind-Ends (test_words bus ddr_words ddr_start_addr p errors) (test_patterns bus ps)
        (test_words-Ends ddr_words ddr_start_addr p errors) (test_patterns-Ends ps) m

  report-Ends : (errors : ℕ) → Ends (report bus errors)
  unfolding report log_message uart_printf
  report-Ends errors = if-Ends (ltb 0 errors) (λ m. (_, refl)) (λ m. (_, refl))

  pub test_ddr3_memory-Ends : Ends (test_ddr3_memory bus)
  unfolding test_ddr3_memory log_message
  test_ddr3_memory-Ends =
      bind-Ends (test_patterns bus patterns 0) (report bus) (test_patterns-Ends patterns 0)
        report-Ends
