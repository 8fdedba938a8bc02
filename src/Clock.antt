-- ===== src/Clock.antt =====
-- os/drivers/clock_module.h: the base addresses of the clock module, and the offsets of the clocks' registers.
use Prim.Native.Nat.{ℕ}

abbrev pub cm_per_base : ℕ
cm_per_base = 0x44E00000

abbrev pub cm_wkup_base : ℕ
cm_wkup_base = 0x44E00400

abbrev pub cm_dpll_base : ℕ
cm_dpll_base = 0x44E00500

abbrev pub cm_per_mmc0_clkctrl : ℕ
cm_per_mmc0_clkctrl = 0x3C

abbrev pub cm_per_uart1_clkctrl : ℕ
cm_per_uart1_clkctrl = 0x6C

abbrev pub cm_per_gpio1_clkctrl : ℕ
cm_per_gpio1_clkctrl = 0xAC

abbrev pub cm_wkup_l4wkup_clkctrl : ℕ
cm_wkup_l4wkup_clkctrl = 0x0C

abbrev pub cm_wkup_uart0_clkctrl : ℕ
cm_wkup_uart0_clkctrl = 0xB4
