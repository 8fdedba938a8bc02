-- ===== src/Ddr.antt =====
-- boot/ddr.c: the set-up of the memory and its test, on any device.
pub mod MemoryTest
mod Tests
pub mod Total
use kernel_team_project.Base.{
  ℕ, zero, suc, ◌+◌, Bool, ◌==◌, ◌!=◌, ltb, if◌then◌else◌, List, [], ◌∷◌, bit_and, bit_or, ◌<<◌,
  add32,
}
use kernel_team_project.Regs.{
  Bus, Io, pure, ◌>>=◌, ◌>>◌, log_message, log_level_error, log_level_info, log_level_debug,
  read_at, write_at, reg32_write, reg32_write_masked, wait_for_reg32,
}

abbrev pub timeout : ℕ
timeout = 1000000

abbrev pub control_module_base : ℕ
control_module_base = 0x44E10000

abbrev pub ddr_cm_per_base : ℕ
ddr_cm_per_base = 0x44E00000

abbrev pub ddr_cm_wkup_base : ℕ
ddr_cm_wkup_base = 0x44E00400

abbrev pub soc_emif_0_regs : ℕ
soc_emif_0_regs = 0x4C000000

abbrev pub ddr_phy_ctrl_base : ℕ
ddr_phy_ctrl_base = 0x44E12000

abbrev pub dpll_lock : ℕ
dpll_lock = 0x07

abbrev pub ddr_start_addr : ℕ
ddr_start_addr = 0x80000000

-- DDR_SIZE, in words of four bytes.
abbrev pub ddr_words : ℕ
ddr_words = 0x40000

module _ {D : Type 0} (bus : Bus D) where
  -- `*reg |= value` and `*reg &= value`
  abbrev pub or_into : (addr value : ℕ) → Io D (Unit {0})
  or_into addr value = do reg ← read_at bus addr; write_at bus addr (bit_or reg value)

  abbrev pub and_into : (addr value : ℕ) → Io D (Unit {0})
  and_into addr value = do reg ← read_at bus addr; write_at bus addr (bit_and reg value)

  unfoldable pub enable_core_pll : Io D (Unit {0})
  enable_core_pll = do
    reg32_write_masked bus ddr_cm_wkup_base 0x90 0x7 0x4
    wait_for_reg32 bus ddr_cm_wkup_base 0x5c 0x100 0x100 timeout
    write_at bus (ddr_cm_wkup_base + 0x68) (bit_or (1000 << 8) 23)
    reg32_write_masked bus ddr_cm_wkup_base 0x80 0x0000001F 10
    reg32_write_masked bus ddr_cm_wkup_base 0x84 0x0000001F 8
    reg32_write_masked bus ddr_cm_wkup_base 0xd8 0x0000001F 4
    or_into (ddr_cm_wkup_base + 0x90) dpll_lock
    wait_for_reg32 bus ddr_cm_wkup_base 0x5c 0x1 0x1 timeout

  unfoldable pub enable_ddr_pll : Io D (Unit {0})
  enable_ddr_pll = do
    reg32_write_masked bus ddr_cm_wkup_base 0x94 0x7 0x4
    wait_for_reg32 bus ddr_cm_wkup_base 0x34 0x100 0x100 timeout
    reg32_write_masked bus ddr_cm_wkup_base 0x40 0x0007FF00 (303 << 8)
    reg32_write_masked bus ddr_cm_wkup_base 0x40 0x0000007F 23
    or_into (ddr_cm_wkup_base + 0x94) dpll_lock
    wait_for_reg32 bus ddr_cm_wkup_base 0x34 0x1 0x1 timeout

  unfoldable pub enable_emif_clocks : Io D (Unit {0})
  enable_emif_clocks = do
    or_into (ddr_cm_per_base + 0xe0) 0x2
    or_into (ddr_cm_per_base + 0x60) 0x2
    or_into (ddr_cm_per_base + 0x64) 0x2
    or_into (ddr_cm_per_base + 0xdc) 0x2
    or_into (ddr_cm_per_base + 0x120) 0x2
    or_into (ddr_cm_wkup_base + 0xc) 0x2
    wait_for_reg32 bus ddr_cm_per_base 0xe0 0x3 0x2 timeout
    wait_for_reg32 bus ddr_cm_per_base 0x60 0x3 0x2 timeout
    wait_for_reg32 bus ddr_cm_per_base 0x64 0x3 0x2 timeout
    wait_for_reg32 bus ddr_cm_per_base 0xdc 0x3 0x2 timeout
    wait_for_reg32 bus ddr_cm_per_base 0x120 0x3 0x2 timeout
    wait_for_reg32 bus ddr_cm_wkup_base 0xc 0x3 0x2 timeout

  unfoldable pub init_emif : Io D (Unit {0})
  init_emif = do
    reg32_write_masked bus ddr_cm_per_base 0x28 0x3 0x2
    let expected = bit_or 0x00000004 0x00000010
    wait_for_reg32 bus ddr_cm_per_base 0x0C expected expected timeout

  unfoldable pub configure_ddr_phy : Io D (Unit {0})
  configure_ddr_phy = do
    or_into (control_module_base + 0xe0c) 0x40
    or_into (control_module_base + 0xe0c) 0x01
    wait_for_reg32 bus control_module_base 0xe0c 0x20 0x20 timeout

  unfoldable pub configure_ddr_phy_cmd_data : Io D (Unit {0})
  configure_ddr_phy_cmd_data = do
    write_at bus (ddr_phy_ctrl_base + 0x1C) 0x80
    write_at bus (ddr_phy_ctrl_base + 0x2C) 0x00
    write_at bus (ddr_phy_ctrl_base + 0x50) 0x80
    write_at bus (ddr_phy_ctrl_base + 0x60) 0x00
    write_at bus (ddr_phy_ctrl_base + 0x84) 0x80
    write_at bus (ddr_phy_ctrl_base + 0x94) 0x00
    write_at bus (ddr_phy_ctrl_base + 0xC8) 0x38
    write_at bus (ddr_phy_ctrl_base + 0xDC) 0x44
    write_at bus (ddr_phy_ctrl_base + 0x108) 0x94
    write_at bus (ddr_phy_ctrl_base + 0x120) 0x7D
    write_at bus (ddr_phy_ctrl_base + 0x170) 0x38
    write_at bus (ddr_phy_ctrl_base + 0x184) 0x44
    write_at bus (ddr_phy_ctrl_base + 0x1B0) 0x94
    write_at bus (ddr_phy_ctrl_base + 0x1C8) 0x7D

  unfoldable pub configure_ddr_io : Io D (Unit {0})
  unfolding log_message
  configure_ddr_io = do
    log_message log_level_debug "Configuring DDR IO...\n" []
    write_at bus (control_module_base + 0x1404) 0x16B
    write_at bus (control_module_base + 0x1408) 0x16B
    write_at bus (control_module_base + 0x140C) 0x16B
    write_at bus (control_module_base + 0x1440) 0x16B
    write_at bus (control_module_base + 0x1444) 0x16B
    and_into (control_module_base + 0xE04) 0xEFFFFFFF
    or_into (control_module_base + 0x131C) 0x00000001
    write_at bus (soc_emif_0_regs + 0xE4) 0x06
    or_into (soc_emif_0_regs + 0xE4) 0x00100000
    write_at bus (soc_emif_0_regs + 0xE8) 0x06
    or_into (soc_emif_0_regs + 0xE8) 0x00100000
    log_message log_level_debug "DDR IO Configuration Complete!\n" []

  unfoldable pub init_ddr3 : Io D (Unit {0})
  unfolding log_message
  init_ddr3 = do
    log_message log_level_debug "Initializing DDR...\n" []
    configure_ddr_phy
    configure_ddr_phy_cmd_data
    configure_ddr_io
    log_message log_level_debug "PHY Config successfull.\n" []
    write_at bus 0x4C000018 0x0AAAD4DB
    write_at bus 0x4C00001C 0x0AAAD4DB
    write_at bus 0x4C000020 0x266B7FDA
    write_at bus 0x4C000024 0x266B7FDA
    write_at bus 0x4C000028 0x50074BE4
    write_at bus 0x4C00002C 0x50074BE4
    write_at bus 0x4C000010 0x00000C30
    write_at bus 0x4C000014 0x00000C30
    log_message log_level_debug "SDRAM Config successfull.\n" []
    reg32_write bus soc_emif_0_regs 0x08 0x61C04BB2
    reg32_write bus control_module_base 0x110 0x61C00BB2
    log_message log_level_debug "DDR Initialization Complete.\n" []

  unfoldable pub setup_memory : Io D (Unit {0})
  setup_memory = do enable_core_pll; enable_ddr_pll; enable_emif_clocks; init_emif; init_ddr3

  -- The inner loop of `test_ddr3_memory`, for the words that are left from `mem_addr` on.
  unfoldable pub test_words : (rounds mem_addr test_pattern errors : ℕ) → Io D ℕ
  test_words zero mem_addr test_pattern errors = pure errors
  test_words (suc rounds) mem_addr test_pattern errors = do
    write_at bus mem_addr test_pattern
    read_back ← read_at bus mem_addr
    test_words rounds (mem_addr + 4) test_pattern
        (if read_back != test_pattern then errors + 1 else errors)

  -- The outer loop, for the patterns that are left.
  unfoldable pub test_patterns : (patterns : List ℕ) → (errors : ℕ) → Io D ℕ
  test_patterns [] errors = pure errors
  test_patterns (test_pattern ∷ patterns) errors = do
    errors ← test_words ddr_words ddr_start_addr test_pattern errors
    test_patterns patterns errors

  -- What follows the loops.
  unfoldable pub report : (errors : ℕ) → Io D ℕ
  unfolding log_message
  report errors =
      if ltb 0 errors
      then (do
        log_message log_level_error "Memory Test Failed! Errors: %d \n" (errors ∷ [])
        pure errors)
      else (do log_message log_level_info "Memory Test Passed!\n" []; pure errors)

  unfoldable pub test_ddr3_memory : Io D ℕ
  unfolding log_message
  test_ddr3_memory = do
    log_message log_level_debug "DDR3 Memory Test Start\n" []
    errors ← test_patterns (0xAAAAAAAA ∷ 0x55555555 ∷ 0x00000000 ∷ 0xFFFFFFFF ∷ []) 0
    report errors
