-- ===== src/Uart/Init.antt =====
-- `uart_init` of os/drivers/uart.c, with the interrupt controller and the rings of the ports.
use kernel_team_project.Base.{ℕ, zero, suc, ◌!=◌, bit_and, ◌<<◌}
use kernel_team_project.Clock.{
  cm_per_base, cm_wkup_base, cm_per_uart1_clkctrl, cm_wkup_l4wkup_clkctrl, cm_wkup_uart0_clkctrl,
}
use kernel_team_project.Regs.{
  Bus, Io, pure, ◌>>=◌, ◌>>◌, reg32_write, reg32_write_masked, wait_while,
}
use kernel_team_project.Intc.Handler.{Handler, uart0_irq, uart1_irq}
use kernel_team_project.Intc.{Handlers, intc_register_irq, intc_set_priority, intc_enable_irq}
use kernel_team_project.Ring.{char_init}
use kernel_team_project.Uart.{Uart}
use kernel_team_project.Uart.Port.{uart0_base, uart1_base, uart_port_init}

abbrev pub uart0_int_num : ℕ
uart0_int_num = 72

abbrev pub uart1_int_num : ℕ
uart1_int_num = 73

abbrev pub uart_control_module_base : ℕ
uart_control_module_base = 0x44E10000

-- The memory that the set-up changes: the table of handlers and the rings.
pub record Ports : Type 0 where
  pub handlers : Handlers Handler
  pub uart : Uart

module _ {D : Type 0} (bus : Bus D) where
  -- `uart0_interrupt_init` and `uart1_interrupt_init`
  unfoldable pub uart_interrupt_init :
      Handlers Handler → (int_num : ℕ) → Handler → Io D (Handlers Handler)
  uart_interrupt_init handlers int_num handler = do
    let (registered, handlers') = intc_register_irq handlers int_num handler
    intc_set_priority bus int_num 1
    enabled ← intc_enable_irq bus int_num
    pure handlers'

  -- `while (REG32_read(base, offset) & (0x3 << 16));`
  abbrev pub wait_enabled : (fuel base offset : ℕ) → Io D (Unit {0})
  wait_enabled fuel base offset = wait_while bus fuel base offset (λ v. bit_and v (0x3 << 16) != 0)

  -- The clocks and the pins of a port, for the two cases.
  unfoldable pub connect_port0 : (fuel : ℕ) → Io D (Unit {0})
  connect_port0 fuel = do
    reg32_write_masked bus cm_wkup_base cm_wkup_uart0_clkctrl 0x3 0x2
    wait_enabled fuel cm_wkup_base cm_wkup_uart0_clkctrl
    reg32_write_masked bus cm_wkup_base cm_wkup_l4wkup_clkctrl 0x3 0x2
    wait_enabled fuel cm_wkup_base cm_wkup_l4wkup_clkctrl
    reg32_write bus uart_control_module_base 0x970 0x30
    reg32_write bus uart_control_module_base 0x974 0x10

  unfoldable pub connect_port1 : (fuel : ℕ) → Io D (Unit {0})
  connect_port1 fuel = do
    reg32_write_masked bus cm_per_base cm_per_uart1_clkctrl 0x3 0x2
    wait_enabled fuel cm_per_base cm_per_uart1_clkctrl
    wait_enabled fuel cm_wkup_base cm_wkup_l4wkup_clkctrl
    reg32_write bus uart_control_module_base 0x980 0x30
    reg32_write bus uart_control_module_base 0x984 0x10

  unfoldable pub uart_init :
      (fuel : ℕ)
      → Ports
      → (uart_index baud_rate stop_bit_en num_stop_bits parity_en parity_type char_length : ℕ)
      → Io D Ports
  uart_init fuel ports zero baud_rate stop_bit_en num_stop_bits parity_en parity_type char_length =
      do
        connect_port0 fuel
        uart_port_init bus fuel uart0_base baud_rate stop_bit_en num_stop_bits parity_en parity_type
            char_length
        handlers ← uart_interrupt_init ports.handlers uart0_int_num uart0_irq
        let uart = ports.uart
        pure (record { handlers = handlers; uart = record uart { rx0 = char_init uart.rx0 } })
  uart_init fuel ports (suc zero) baud_rate stop_bit_en num_stop_bits parity_en parity_type
        char_length =
      do
        connect_port1 fuel
        uart_port_init bus fuel uart1_base baud_rate stop_bit_en num_stop_bits parity_en parity_type
            char_length
        handlers ← uart_interrupt_init ports.handlers uart1_int_num uart1_irq
        let uart = ports.uart
        pure (record { handlers = handlers; uart = record uart { rx1 = char_init uart.rx1 } })
  uart_init fuel ports (suc (suc n)) baud_rate stop_bit_en num_stop_bits parity_en parity_type
        char_length =
      pure ports
