-- ===== src/Mmc/Total.antt =====
-- The functions of boot/mmc.c that have a bound on each of their loops return, whatever the device does.
use Prim.Native.String.{String}
use kernel_team_project.Base.{ℕ, ◌≡◌, refl, Bool, true, false, ℤ, is_zero, some, ◌<<◌}
use kernel_team_project.Regs.{
  Bus, Io, Machine, skip, uart_puts, uart_printf, log_message, poll, ◌>>=◌,
}
use kernel_team_project.Regs.Poll.{poll_ends}
use kernel_team_project.Regs.Ends.{Ends, bind-Ends}
use kernel_team_project.Clock.{cm_per_base, cm_per_mmc0_clkctrl}
use kernel_team_project.Mmc.Sd
use kernel_team_project.Mmc.{mmchs0_base}
use kernel_team_project.Mmc.Init.{
  or_timeout, or_return, enable_clocks, lines_reset, set_bus_supported_voltage, set_bus_voltage,
  set_bus_power_on, enable_internal_clock, init_transfer, init_cmd_line, init_dat_line, init_power,
  init_settings, init_config, init_internal, mmc_controller_init, hctl_sdbp, sysctl_ics, sysctl_src,
  sysctl_srd,
}

module _ {D : Type 0} where
  puts-Ends : (text : String) → Ends {D = D} (uart_puts text)
  unfolding uart_puts
  puts-Ends text m = (_, refl)

  skip-Ends : Ends {D = D} skip
  skip-Ends m = (_, refl)

  or_timeout-Ends : (text : String) (seen : Bool) → Ends {D = D} (or_timeout (uart_puts text) seen)
  unfolding uart_puts
  or_timeout-Ends text true m = (_, refl)
  or_timeout-Ends text false m = (_, refl)

  or_return-Ends :
      (message rest : Io D (Unit {0}))
      → Ends message
      → Ends rest
      → (ok : Bool) → Ends (or_return ok message rest)
  or_return-Ends message rest hm hr true = hr
  or_return-Ends message rest hm hr false = hm

module _ {D : Type 0} (bus : Bus D) where
  poll-Ends : (base offset mask expected t : ℕ) → Ends (poll bus base offset mask expected t)
  poll-Ends base offset mask expected t m =
      let (_, _, _, e) = poll_ends bus base offset mask expected t m in (_, e)

  -- A loop with its message, and a call with its early return.
  timed-Ends :
      (base offset mask expected t : ℕ) (text : String)
      → Ends (poll bus base offset mask expected t >>= or_timeout (uart_puts text))
  timed-Ends base offset mask expected t text =
      bind-Ends (poll bus base offset mask expected t) (or_timeout (uart_puts text))
        (poll-Ends base offset mask expected t) (or_timeout-Ends text)

  checked-Ends :
      (call : Io D ℤ) (message rest : Io D (Unit {0}))
      → Ends call
      → Ends message
      → Ends rest
      → Ends (call >>= λ z. or_return (is_zero z) message rest)
  checked-Ends call message rest hc hm hr =
      bind-Ends call (λ z. or_return (is_zero z) message rest) hc
        (λ z. or_return-Ends message rest hm hr (is_zero z))

  enable_clocks-Ends : Ends (enable_clocks bus)
  unfolding enable_clocks
  enable_clocks-Ends m =
      timed-Ends cm_per_base cm_per_mmc0_clkctrl (0x3 << 16) 0x0 99_999
        "Timeout waiting for MMC module clock\n" _

  enable_internal_clock-Ends : Ends (enable_internal_clock bus)
  unfolding enable_internal_clock
  enable_internal_clock-Ends m =
      timed-Ends mmchs0_base Sd.sysctl sysctl_ics sysctl_ics 99_999
        "Timeout waiting for MMC clock to be stable\n" _

  set_bus_power_on-Ends : Ends (set_bus_power_on bus)
  unfolding set_bus_power_on
  set_bus_power_on-Ends m =
      timed-Ends mmchs0_base Sd.hctl hctl_sdbp hctl_sdbp 99_999_999
        "Timeout waiting for SD bus power on\n" _

  lines_reset-Ends : (line_shift : ℕ) → Ends (lines_reset bus line_shift)
  unfolding lines_reset uart_puts
  lines_reset-Ends line_shift m =
      timed-Ends mmchs0_base Sd.sysctl (0x1 << line_shift) 0 99_999
        "Timeout waiting for lines reset\n" _

  init_transfer-Ends : Ends (init_transfer bus)
  unfolding init_transfer log_message
  init_transfer-Ends m =
      or_return-Ends (uart_puts "MMC clocks not on\n") _ (puts-Ends _) (λ m. (_, refl)) _ _

  init_cmd_line-Ends : Ends (init_cmd_line bus)
  unfolding init_cmd_line log_message
  init_cmd_line-Ends m =
      checked-Ends (lines_reset bus sysctl_src) skip (init_transfer bus) (lines_reset-Ends _)
        skip-Ends init_transfer-Ends _

  init_dat_line-Ends : Ends (init_dat_line bus)
  unfolding init_dat_line log_message
  init_dat_line-Ends m =
      checked-Ends (lines_reset bus sysctl_srd) skip (init_cmd_line bus) (lines_reset-Ends _)
        skip-Ends init_cmd_line-Ends _

  init_power-Ends : Ends (init_power bus)
  unfolding init_power log_message set_bus_supported_voltage set_bus_voltage
  init_power-Ends m =
      checked-Ends (set_bus_power_on bus) skip (init_dat_line bus) set_bus_power_on-Ends skip-Ends
        init_dat_line-Ends _

  init_settings-Ends : Ends (init_settings bus)
  unfolding init_settings log_message
  init_settings-Ends m = init_power-Ends _

  init_config-Ends : Ends (init_config bus)
  unfolding init_config log_message
  init_config-Ends m =
      bind-Ends (poll bus mmchs0_base Sd.sysconfig 0x1 0x0 99_999)
        (λ ok. or_return ok (uart_puts "Timeout waiting to disable autoidle\n") (init_settings bus))
        (poll-Ends _ _ _ _ _)
        (or_return-Ends (uart_puts "Timeout waiting to disable autoidle\n") (init_settings bus)
          (puts-Ends _) init_settings-Ends)
        _

  init_internal-Ends : Ends (init_internal bus)
  unfolding init_internal log_message
  init_internal-Ends m =
      checked-Ends (enable_internal_clock bus) (uart_puts "Failed to enable internal clocks\n")
        (init_config bus) enable_internal_clock-Ends (puts-Ends _) init_config-Ends _

  -- The initialisation returns, whatever the registers hold and whenever they change: each of its loops
  -- gives up after its timeout.
  pub mmc_controller_init_ends :
      (m : Machine D) → (r : Unit {0} × Machine D) × (mmc_controller_init bus m ≡ some r)
  unfolding mmc_controller_init log_message uart_printf
  mmc_controller_init_ends m =
      checked-Ends (enable_clocks bus) (uart_puts "Failed to enable clocks\n") (init_internal bus)
        enable_clocks-Ends (puts-Ends _) init_internal-Ends _
