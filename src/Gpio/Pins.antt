-- ===== src/Gpio/Pins.antt =====
-- What `GpioSetPinMode` of os/drivers/gpio.c does with the direction.
use Prim.Native.Nat.{bit_and-bitwise}
use kernel_team_project.Base.{ℕ, ◌/◌, ◌%◌, ◌≡◌, arith, bit_and}
use kernel_team_project.Regs.{Bus, Machine}
use kernel_team_project.Gpio.{pin_in, pin_out, gpio_set_pin_mode}

no_direction : (mask : ℕ) → mask % 2 ≡ 0 → bit_and 1 mask ≡ bit_and 0 mask
no_direction mask h =
    omega (arith, bit_and-bitwise 1 mask, bit_and-bitwise 0 mask, bit_and-bitwise 0 (mask / 2))

-- For pins above pin 0, the mode "input" does what the mode "output" does, on every device: it clears
-- their bits in the register of the directions, and the pins drive their levels.
pub input_is_output :
    {D : Type 0} (bus : Bus D) (gpio mask : ℕ) (m : Machine D)
    → mask % 2 ≡ 0
    → gpio_set_pin_mode bus gpio mask pin_in m ≡ gpio_set_pin_mode bus gpio mask pin_out m
unfolding gpio_set_pin_mode
input_is_output bus gpio mask m h = rw (no_direction mask h)
