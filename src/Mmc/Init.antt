-- ===== src/Mmc/Init.antt =====
-- `mmc_controller_init` of boot/mmc.c, and the five functions that it calls. Each loop there has a bound:
-- `poll` takes the timeout of the source, less one.
use kernel_team_project.Base.{
  ℕ, Bool, true, false, ◌==◌, ◌!=◌, [], bit_and, bit_or, ◌<<◌, ℤ, is_zero, pos, u32_mod, ◌%◌,
}
use kernel_team_project.Regs.{
  Bus, Io, pure, ◌>>=◌, ◌>>◌, skip, uart_puts, puts_if, log_message, log_level_info,
  log_level_debug, reg32_write, reg32_write_masked, reg32_read, reg32_read_masked, poll,
}
use kernel_team_project.Clock.{cm_per_base, cm_per_mmc0_clkctrl}
use kernel_team_project.Mmc.Sd
use kernel_team_project.Mmc.{mmchs0_base, stat_clear, failure}

-- The fields of the registers.
abbrev pub sysctl_ice : ℕ
sysctl_ice = 0x1

abbrev pub sysctl_ics : ℕ
sysctl_ics = 0x1 << 1

abbrev pub sysctl_cen : ℕ
sysctl_cen = 0x1 << 2

abbrev pub sysctl_dto : ℕ
sysctl_dto = 0x000F0000

abbrev pub sysctl_src : ℕ
sysctl_src = 25

abbrev pub sysctl_srd : ℕ
sysctl_srd = 26

abbrev pub capa_vs : ℕ
capa_vs = 0x7 << 24

abbrev pub capa_vs_1p8 : ℕ
capa_vs_1p8 = 0x4 << 24

abbrev pub hctl_sdvs : ℕ
hctl_sdvs = 0x7 << 9

abbrev pub hctl_sdbp : ℕ
hctl_sdbp = 0x1 << 8

abbrev pub hctl_sdbv_1p8 : ℕ
hctl_sdbv_1p8 = 0x5

-- SD_CON_DDR, a mask without bits, and SD_CON_DDR_DISABLE
abbrev pub con_ddr : ℕ
con_ddr = 0 << 19

abbrev pub con_ddr_disable : ℕ
con_ddr_disable = 0

module _ {D : Type 0} where
  -- `return 0` if a loop saw its bits, and a message and `return -1` if not.
  abbrev pub or_timeout : (message : Io D (Unit {0})) → (seen : Bool) → Io D ℤ
  or_timeout message true = pure (pos 0)
  or_timeout message false = do message; pure failure

  -- `if (!ok) { message; return; }` before what follows.
  abbrev pub or_return : (ok : Bool) → (message rest : Io D (Unit {0})) → Io D (Unit {0})
  or_return true message rest = rest
  or_return false message rest = message

module _ {D : Type 0} (bus : Bus D) where
  unfoldable pub enable_clocks : Io D ℤ
  unfolding uart_puts
  enable_clocks = do
    reg32_write_masked bus cm_per_base cm_per_mmc0_clkctrl 0x3 0x2
    enabled ← poll bus cm_per_base cm_per_mmc0_clkctrl (0x3 << 16) 0x0 99_999
    or_timeout (uart_puts "Timeout waiting for MMC module clock\n") enabled

  unfoldable pub lines_reset : (line_shift : ℕ) → Io D ℤ
  unfolding uart_puts
  lines_reset line_shift = do
    uart_puts "waiting for lines reset\n"
    reg32_write_masked bus mmchs0_base Sd.sysctl (0x1 << line_shift) (0x1 << line_shift)
    reset ← poll bus mmchs0_base Sd.sysctl (0x1 << line_shift) 0 99_999
    or_timeout (uart_puts "Timeout waiting for lines reset\n") reset

  unfoldable pub set_bus_supported_voltage : Io D (Unit {0})
  set_bus_supported_voltage = reg32_write_masked bus mmchs0_base Sd.capa capa_vs capa_vs_1p8

  unfoldable pub set_bus_voltage : (voltage : ℕ) → Io D (Unit {0})
  set_bus_voltage voltage =
      reg32_write_masked bus mmchs0_base Sd.hctl hctl_sdvs ((voltage << 9) % u32_mod)

  unfoldable pub set_bus_power_on : Io D ℤ
  unfolding uart_puts
  set_bus_power_on = do
    reg32_write_masked bus mmchs0_base Sd.hctl hctl_sdbp hctl_sdbp
    powered ← poll bus mmchs0_base Sd.hctl hctl_sdbp hctl_sdbp 99_999_999
    or_timeout (uart_puts "Timeout waiting for SD bus power on\n") powered

  unfoldable pub enable_internal_clock : Io D ℤ
  unfolding uart_puts
  enable_internal_clock = do
    reg32_write_masked bus mmchs0_base Sd.sysctl sysctl_ice sysctl_ice
    stable ← poll bus mmchs0_base Sd.sysctl sysctl_ics sysctl_ics 99_999
    or_timeout (uart_puts "Timeout waiting for MMC clock to be stable\n") stable

  -- The parts of `mmc_controller_init`, each up to the next return, the last one first.
  unfoldable pub init_transfer : Io D (Unit {0})
  unfolding uart_puts log_message
  init_transfer = do
    log_message log_level_debug "checking MMC0 clocks\n" []
    cen ← reg32_read_masked bus mmchs0_base Sd.sysctl sysctl_cen
    or_return (cen == sysctl_cen) (uart_puts "MMC clocks not on\n") (do
      log_message log_level_debug "clearing all status flags\n" []
      reg32_write bus mmchs0_base Sd.stat stat_clear
      log_message log_level_debug "setting block size to 512 bytes and 1 block transfer mode\n" []
      reg32_write bus mmchs0_base Sd.blk (bit_or (1 << 16) 0x200)
      log_message log_level_info "MMC init successful\n" [])

  unfoldable pub init_cmd_line : Io D (Unit {0})
  unfolding log_message
  init_cmd_line = do
    log_message log_level_debug "resetting MMC_CMD line\n" []
    cmd ← lines_reset sysctl_src
    or_return (is_zero cmd) skip init_transfer

  unfoldable pub init_dat_line : Io D (Unit {0})
  unfolding log_message
  init_dat_line = do
    log_message log_level_debug "disabling DDR\n" []
    reg32_write_masked bus mmchs0_base Sd.con con_ddr con_ddr_disable
    log_message log_level_debug "setting functional mode\n" []
    reg32_write_masked bus mmchs0_base Sd.hctl 0 0
    log_message log_level_debug "resetting MMC_DAT line\n" []
    dat ← lines_reset sysctl_srd
    or_return (is_zero dat) skip init_cmd_line

  unfoldable pub init_power : Io D (Unit {0})
  unfolding log_message
  init_power = do
    log_message log_level_debug "setting supported voltage\n" []
    set_bus_supported_voltage
    set_bus_voltage hctl_sdbv_1p8
    log_message log_level_debug "setting and checking bus power\n" []
    power ← set_bus_power_on
    or_return (is_zero power) skip init_dat_line

  unfoldable pub init_settings : Io D (Unit {0})
  unfolding log_message
  init_settings = do
    log_message log_level_debug "setting interface and functional clocks to remain on\n" []
    reg32_write_masked bus mmchs0_base Sd.sysctl sysctl_ice sysctl_ice
    log_message log_level_debug "setting power and clocks to remain on\n" []
    reg32_write_masked bus mmchs0_base Sd.sysctl sysctl_cen sysctl_cen
    log_message log_level_debug "setting MMC to never enter low power mode\n" []
    reg32_write_masked bus mmchs0_base Sd.sysctl sysctl_dto sysctl_dto
    log_message log_level_debug "check to make sure settings applied\n" []
    reg ← reg32_read bus mmchs0_base Sd.sysctl
    puts_if (bit_and reg sysctl_ice != sysctl_ice) "Failed to set internal clock"
    puts_if (bit_and reg sysctl_cen != sysctl_cen) "Failed to set clock always on"
    puts_if (bit_and reg sysctl_dto != sysctl_dto) "Failed to set MMC to never enter low-power mode"
    init_power

  unfoldable pub init_config : Io D (Unit {0})
  unfolding uart_puts log_message
  init_config = do
    log_message log_level_debug "setting system config\n" []
    reg32_write_masked bus mmchs0_base Sd.sysconfig 0x1 0x0
    applied ← poll bus mmchs0_base Sd.sysconfig 0x1 0x0 99_999
    or_return applied (uart_puts "Timeout waiting to disable autoidle\n") init_settings

  unfoldable pub init_internal : Io D (Unit {0})
  unfolding uart_puts log_message
  init_internal = do
    log_message log_level_debug "Enabling internal clocks\n" []
    internal ← enable_internal_clock
    or_return (is_zero internal) (uart_puts "Failed to enable internal clocks\n") init_config

  unfoldable pub mmc_controller_init : Io D (Unit {0})
  unfolding uart_puts log_message
  mmc_controller_init = do
    log_message log_level_info "init mmc controller\n" []
    log_message log_level_debug "Enabling module clocks\n" []
    clocks ← enable_clocks
    or_return (is_zero clocks) (uart_puts "Failed to enable clocks\n") init_internal
