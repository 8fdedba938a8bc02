-- ===== src/Boot/Devices.antt =====
-- The part of `__BootloaderEntry` of boot/bootloader.c that sets the devices up, on any device, with
-- `system_interrupt_init` of os/interrupts/interrupt.c. The instruction that lets interrupts through is left
-- out, and the addresses in the vector table are a parameter. The messages are sent over the port; those of the
-- memory test and of the card's driver are entries of the console.
use kernel_team_project.Base.{ℕ, ◌==◌, if◌then◌else◌, List, [], ◌<<◌}
use kernel_team_project.Regs.{Bus, Io, pure, ◌>>=◌, ◌>>◌, log_level_info, log_level_warn}
use kernel_team_project.Gpio.{gpio1_base, gpio_init, gpio_set_pin_mode, pin_out, write_set}
use kernel_team_project.Intc.Handler.{other_irq}
use kernel_team_project.Intc.{Handlers, setup_vector_table, intc_init}
use kernel_team_project.Uart.Init.{Ports, uart_init}
use kernel_team_project.Uart.Print.{port_log}
use kernel_team_project.Ddr.{setup_memory, test_ddr3_memory}
use kernel_team_project.Mmc.Init.{mmc_controller_init}

module _ {D : Type 0} (bus : Bus D) (fuel : ℕ) where
  unfoldable pub system_interrupt_init :
      {H : Type 0} (vector_table : List ℕ) (default_handler : H) → Handlers H → Io D (Handlers H)
  system_interrupt_init vector_table default_handler handlers = do
    setup_vector_table bus vector_table 0
    intc_init bus fuel default_handler handlers

  -- What is logged of the memory test: a failure does not stop the start.
  unfoldable pub after_test : (result : ℕ) → Io D (Unit {0})
  after_test result =
      if result == 0
      then port_log bus fuel log_level_info "DDR Memory test SUCCESS\n" []
      else port_log bus fuel log_level_warn "DDR Memory test FAILED\n" []

  -- The pins, up to the LED that shows that the start has begun.
  unfoldable pub set_pins : Io D (Unit {0})
  set_pins = do
    gpio_init bus fuel
    gpio_set_pin_mode bus gpio1_base (0xf << 21) pin_out
    write_set bus gpio1_base (1 << 21)

  -- From the card on.
  unfoldable pub from_card : Ports → Io D Ports
  from_card ports = do
    port_log bus fuel log_level_info "Init ddr end\n" []
    port_log bus fuel log_level_info "MMC Init\n" []
    mmc_controller_init bus
    port_log bus fuel log_level_info "FAT32 Init\n" []
    pure ports

  -- From the memory on.
  unfoldable pub from_memory : Ports → Io D Ports
  from_memory ports = do
    port_log bus fuel log_level_info "Bootloader started\n" []
    port_log bus fuel log_level_info "Init DRAM\n" []
    setup_memory bus
    port_log bus fuel log_level_info "Done DRAM!\n" []
    result ← test_ddr3_memory bus
    after_test result
    from_card ports

  -- From the serial port on.
  unfoldable pub from_uart : Ports → Io D Ports
  from_uart ports = do ports ← uart_init bus fuel ports 0 115200 1 0 0 0 8; from_memory ports

  unfoldable pub boot_devices : (vector_table : List ℕ) → Ports → Io D Ports
  boot_devices vector_table ports = do
    set_pins
    handlers ← system_interrupt_init vector_table other_irq ports.handlers
    from_uart (record ports { handlers = handlers })
