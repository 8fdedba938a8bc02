-- ===== src/Gpio.antt =====
-- os/drivers/gpio.c and gpio.h, on any device.
mod Pins
use kernel_team_project.Base.{ℕ, ◌/◌, ◌^◌, ◌!=◌, bit_and, ◌<<◌, if◌then◌else◌}
use kernel_team_project.Clock.{cm_per_base, cm_per_gpio1_clkctrl}
use kernel_team_project.Regs.{
  Bus, Io, pure, ◌>>=◌, ◌>>◌, reg32_write, reg32_write_masked, reg32_read, wait_while,
}

abbrev pub gpio1_base : ℕ
gpio1_base = 0x4804c000

abbrev pub led2 : ℕ
led2 = 0x4 << 21

abbrev pub led3 : ℕ
led3 = 0x8 << 21

abbrev pub gpio_ctrl_off : ℕ
gpio_ctrl_off = 0x130

abbrev pub gpio_oe_off : ℕ
gpio_oe_off = 0x134

abbrev pub gpio_datain_off : ℕ
gpio_datain_off = 0x138

abbrev pub gpio_cleardataout_off : ℕ
gpio_cleardataout_off = 0x190

abbrev pub gpio_setdataout_off : ℕ
gpio_setdataout_off = 0x194

-- `enum GpioPinDirection`, and its values.
pub data PinDirection : Type 0 where
  pin_out : PinDirection
  pin_in : PinDirection

abbrev pub direction_value : PinDirection → ℕ
direction_value pin_out = 0
direction_value pin_in = 1

module _ {D : Type 0} (bus : Bus D) where
  unfoldable pub gpio_init : (fuel : ℕ) → Io D (Unit {0})
  gpio_init fuel = do
    reg32_write bus cm_per_base cm_per_gpio1_clkctrl 0x2
    wait_while bus fuel cm_per_base cm_per_gpio1_clkctrl (λ v. bit_and v (0x3 << 16) != 0x0)
    reg32_write bus gpio1_base gpio_ctrl_off 0x0

  unfoldable pub gpio_set_pin_mode : (gpio pin_mask : ℕ) → PinDirection → Io D (Unit {0})
  gpio_set_pin_mode gpio pin_mask dir =
      reg32_write_masked bus gpio gpio_oe_off pin_mask (direction_value dir)

  abbrev pub write_set : (gpio_base pins : ℕ) → Io D (Unit {0})
  write_set gpio_base pins = reg32_write bus gpio_base gpio_setdataout_off pins

  abbrev pub write_clear : (gpio_base pins : ℕ) → Io D (Unit {0})
  write_clear gpio_base pins = reg32_write bus gpio_base gpio_cleardataout_off pins

  -- `GPIO_get`, for a pin below 32: the shift of a negative `int` keeps its bits.
  unfoldable pub gpio_get : (gpio_base pin : ℕ) → Io D ℕ
  gpio_get gpio_base pin = do
    bank ← reg32_read bus gpio_base gpio_datain_off
    pure (bit_and (bank / 2 ^ pin) 0x1)
