-- ===== src/Boot/Starting.antt =====
-- The set-up of the devices by boot/bootloader.c returns.
use kernel_team_project.Base.{
  update, if◌then◌else◌, ltb, arith, ℕ, ◌+◌, ◌≡◌, refl, ◌==◌, ◌!=◌, bit_and, ◌<<◌, List, [], ◌∷◌,
}
use kernel_team_project.Clock.{
  cm_per_base, cm_wkup_base, cm_per_gpio1_clkctrl, cm_wkup_uart0_clkctrl, cm_wkup_l4wkup_clkctrl,
}
use kernel_team_project.Regs.{Bus, Io, ◌>>◌, wait_while, log_level_info, log_level_warn}
use kernel_team_project.Regs.Ends.{
  Ends, EndsInTime, wait_while-Ends, then-Ends, if-Ends, Returns, bind-Returns, unit-Returns,
  ends-Returns,
}
use kernel_team_project.Uart.Print.{CanSend, port_log, port_log-Ends}
use Prim.Native.String.{String}
use kernel_team_project.Gpio.{gpio_init, gpio_set_pin_mode}
use kernel_team_project.Intc.{
  Handlers, default_handlers, num_interrupts, intc_base_addr, intc_status_off, intc_init,
  setup_vector_table, intc_register_irq, intc_set_priority, intc_enable_irq,
}
use kernel_team_project.Uart.Port.{
  uart0_base, syss_off, reset_port, set_fifos, set_protocol, uart_port_init,
}
use kernel_team_project.Intc.Handler.{uart0_irq, other_irq}
use kernel_team_project.Intc.Table.{default_handlers_lem}
use kernel_team_project.Ring.{char_init}
use kernel_team_project.Ring.Chars
use kernel_team_project.Uart.Init.{Ports, connect_port0, uart_interrupt_init, uart_init}
use kernel_team_project.Ddr.{setup_memory, test_ddr3_memory}
use kernel_team_project.Ddr.Total.{setup_memory-Ends, test_ddr3_memory-Ends}
use kernel_team_project.Mmc.Init.{mmc_controller_init}
use kernel_team_project.Mmc.Total.{mmc_controller_init_ends}
use kernel_team_project.Boot.Devices.{
  set_pins, system_interrupt_init, after_test, from_card, from_memory, from_uart, boot_devices,
}

-- The ports when the first one has been set up.
abbrev pub with_port0 : Ports → Ports
with_port0 p = record {
  handlers = update p.handlers 72 uart0_irq;
  uart = record p.uart { rx0 = char_init p.uart.rx0 };
}

module _ {D : Type 0} (bus : Bus D) (fuel : ℕ) (sender : CanSend bus fuel) where
  logged :
      {A : Type 0} (level : ℕ) (fmt : String) {k : Io D A} {a : A}
      → Returns k a
      → Returns (port_log bus fuel level fmt [] >> k) a
  logged level fmt {k} h =
      ends-Returns (port_log bus fuel level fmt []) (λ _. k)
        (port_log-Ends bus fuel sender level fmt []) (λ _. h)

  after_test-Ends : (result : ℕ) → Ends (after_test bus fuel result)
  unfolding after_test
  after_test-Ends result =
      if-Ends (result == 0)
        (port_log-Ends bus fuel sender log_level_info "DDR Memory test SUCCESS\n" [])
        (port_log-Ends bus fuel sender log_level_warn "DDR Memory test FAILED\n" [])

  from_card-Returns : (ports : Ports) → Returns (from_card bus fuel ports) ports
  unfolding from_card
  from_card-Returns ports = logged _ _ (
      logged _ _ (
        ends-Returns (mmc_controller_init bus) _ (mmc_controller_init_ends bus)
          (λ _. logged _ _ (λ m. (m, refl)))))

  from_memory-Returns : (ports : Ports) → Returns (from_memory bus fuel ports) ports
  unfolding from_memory
  from_memory-Returns ports = logged _ _ (
      logged _ _ (
        ends-Returns (setup_memory bus) _ (setup_memory-Ends bus) (λ _. logged _ _ (
          ends-Returns (test_ddr3_memory bus)
            (λ result. after_test bus fuel result >> from_card bus fuel ports)
            (test_ddr3_memory-Ends bus)
            (λ result.
              ends-Returns (after_test bus fuel result) (λ _. from_card bus fuel ports)
                (after_test-Ends result) (λ _. from_card-Returns ports))))))

module _ {D : Type 0} (bus : Bus D) (fuel : ℕ) where
  -- The waits without a bound of the start: two clocks and the pins' clock, the reset of the interrupt
  -- controller and that of the serial port, and its sender for each character of a message.
  pub record IsPrompt : Type 0 where
    pub gpio_clock :
        EndsInTime bus fuel cm_per_base cm_per_gpio1_clkctrl (λ v. bit_and v (0x3 << 16) != 0x0)
    pub intc_reset : EndsInTime bus fuel intc_base_addr intc_status_off (λ v. bit_and v 0x1 != 0x1)
    pub uart_clock :
        EndsInTime bus fuel cm_wkup_base cm_wkup_uart0_clkctrl (λ v. bit_and v (0x3 << 16) != 0)
    pub wakeup_clock :
        EndsInTime bus fuel cm_wkup_base cm_wkup_l4wkup_clkctrl (λ v. bit_and v (0x3 << 16) != 0)
    pub uart_reset : EndsInTime bus fuel uart0_base syss_off (λ v. bit_and v 0x1 == 0)
    pub sender : CanSend bus fuel

  pub uart_port_init-Ends :
      (base_addr : ℕ)
      → EndsInTime bus fuel base_addr syss_off (λ v. bit_and v 0x1 == 0)
      → (baud_rate stop_bit_en num_stop_bits parity_en parity_type char_length : ℕ)
      → Ends (
          uart_port_init bus fuel base_addr baud_rate stop_bit_en num_stop_bits parity_en
            parity_type char_length)
  unfolding uart_port_init reset_port set_fifos set_protocol
  uart_port_init-Ends base_addr reset _ _ _ _ _ _ m =
      then-Ends (wait_while-Ends bus fuel _ _ _ reset) (λ m. (_, refl)) _

  module _ (prompt : IsPrompt) where
    open prompt use {gpio_clock, intc_reset, uart_clock, wakeup_clock, uart_reset, sender}

    gpio_init-Ends : Ends (gpio_init bus fuel)
    unfolding gpio_init
    gpio_init-Ends m = then-Ends (wait_while-Ends bus fuel _ _ _ gpio_clock) (λ m. (_, refl)) _

    set_pins-Ends : Ends (set_pins bus fuel)
    unfolding set_pins gpio_set_pin_mode
    set_pins-Ends = then-Ends gpio_init-Ends (λ m. (_, refl))

    setup_vector_table-Ends : (words : List ℕ) (i : ℕ) → Ends (setup_vector_table bus words i)
    unfolding setup_vector_table
    setup_vector_table-Ends [] i m = (_, refl)
    setup_vector_table-Ends (word ∷ words) i m = setup_vector_table-Ends words (i + 1) _

    pub system_interrupt_init-Returns :
        {H : Type 0} (words : List ℕ) (handler : H) (handlers : Handlers H)
        → Returns
            (system_interrupt_init bus fuel words handler handlers)
            (default_handlers handler num_interrupts 0 handlers)
    unfolding system_interrupt_init intc_init
    system_interrupt_init-Returns words handler handlers =
        bind-Returns (setup_vector_table bus words 0) _
          (unit-Returns (setup_vector_table bus words 0) (setup_vector_table-Ends words 0))
          (λ m.
            bind-Returns (wait_while bus fuel intc_base_addr intc_status_off _) _
              (unit-Returns _ (wait_while-Ends bus fuel _ _ _ intc_reset)) (λ m. (_, refl)) _)

    pub connect_port0-Ends : Ends (connect_port0 bus fuel)
    unfolding connect_port0
    connect_port0-Ends m =
        then-Ends (wait_while-Ends bus fuel _ _ _ uart_clock)
          (λ m. then-Ends (wait_while-Ends bus fuel _ _ _ wakeup_clock) (λ m. (_, refl)) _) _

    pub uart_init-with_port0 :
        (p : Ports) → Returns (uart_init bus fuel p 0 115200 1 0 0 0 8) (with_port0 p)
    unfolding uart_init uart_interrupt_init intc_register_irq intc_set_priority intc_enable_irq
    uart_init-with_port0 p =
        bind-Returns _ _ (unit-Returns (connect_port0 bus fuel) connect_port0-Ends) (
          bind-Returns _ _
            (unit-Returns (uart_port_init bus fuel uart0_base 115200 1 0 0 0 8)
              (uart_port_init-Ends uart0_base uart_reset 115200 1 0 0 0 8))
            (λ m. (_, refl)))

    from_uart-Returns : (ports : Ports) → Returns (from_uart bus fuel ports) (with_port0 ports)
    unfolding from_uart
    from_uart-Returns ports =
        bind-Returns (uart_init bus fuel ports 0 115200 1 0 0 0 8) (from_memory bus fuel)
          (uart_init-with_port0 ports) (from_memory-Returns bus fuel sender (with_port0 ports))

    -- The set-up of the devices by the boot loader returns on every device on which, from each of its
    -- states, the five waits without a bound for clocks and resets end, and that for the sender of the
    -- serial port, whatever all other registers read as: no memory test and no card can stop it. Of
    -- the interrupts of the table, 72 then leads to the handler of the serial port and all others to
    -- the default one, and the port's buffer is empty.
    pub boot_devices_ends :
        (vector_table : List ℕ) (ports : Ports)
        → (ports' : Ports) × Returns (boot_devices bus fuel vector_table ports) ports'
          × ((k : ℕ)
              → ports'.handlers k ≡ (
                  if k == 72
                  then uart0_irq
                  else if ltb k num_interrupts
                  then other_irq
                  else ports.handlers k))
          × (Chars.contents ports'.uart.rx0 ≡ [])
    unfolding boot_devices char_init
    boot_devices_ends vector_table ports =
        let handlers = default_handlers other_irq num_interrupts 0 ports.handlers in
        (
          with_port0 (record ports { handlers = handlers }),
          ends-Returns (set_pins bus fuel) _ set_pins-Ends (λ _.
              bind-Returns (system_interrupt_init bus fuel vector_table other_irq ports.handlers)
                (λ handlers. from_uart bus fuel (record ports { handlers = handlers }))
                (system_interrupt_init-Returns vector_table other_irq ports.handlers)
                (from_uart-Returns (record ports { handlers = handlers }))),
          λ k. rw (default_handlers_lem other_irq num_interrupts 0 ports.handlers k) (ground arith),
          refl,
        )
