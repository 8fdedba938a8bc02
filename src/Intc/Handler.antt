-- ===== src/Intc/Handler.antt =====
-- The handlers that os/drivers/uart.c and timer.c register with the interrupt controller.
use kernel_team_project.Base.{ℕ}

-- What stands in the table of handlers: `handle_uart0_irq`, `handle_uart1_irq`, `handle_timer2_irq` to
-- `handle_timer7_irq`, each by the index that it passes on, and anything else.
pub data Handler : Type 0 where
  uart0_irq : Handler
  uart1_irq : Handler
  handle_timer_n_irq : (timer_index : ℕ) → Handler
  other_irq : Handler
