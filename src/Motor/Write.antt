-- ===== src/Motor/Write.antt =====
-- What `motor_write` of os/drivers/motor.c does to the pins.
use kernel_team_project.Base.{ℕ, zero, suc, ◌≡◌, refl, Bool, ℤ, pos, negsuc}
use kernel_team_project.Motor.{
  MotorState, motor_stop, motor_forward, motor_backward, Motors, returned, beyond, write_motor,
  motor_write,
}
use kernel_team_project.Motor.Drive.{wired, levels, left_levels, right_levels}

-- The state that a value asks for.
abbrev pub asked : (v : ℤ) → MotorState
asked (pos zero) = motor_stop
asked (pos (suc n)) = motor_forward
asked (negsuc n) = motor_backward

-- The levels of pins 1 and 2 of a state, with an enable pin that is as it was.
abbrev pub driven : MotorState → (enabled : Bool) → Bool × Bool × Bool
driven state enabled = let (p1, p2, _) = levels state in (p1, p2, enabled)

module _ (l r : MotorState) (out : ℕ → Bool) where
  -- A write to the left motor sets its two direction pins as a start in the state that the sign of the
  -- value asks for, and leaves its enable pin and all pins of the other motor alone.
  pub motor_write_left :
      (v : ℤ)
      → (m : Motors) × (motor_write (wired l r out) (pos 0) v ≡ returned (pos 0) m)
        × (left_levels m ≡ driven (asked v) (out 7))
        × (right_levels m ≡ right_levels (wired l r out))
  unfolding motor_write write_motor levels
  motor_write_left (pos zero) = (_, refl, refl, refl)
  motor_write_left (pos (suc n)) = (_, refl, refl, refl)
  motor_write_left (negsuc n) = (_, refl, refl, refl)

  -- The number 2 is let through, though there are two motors: the call reads behind the array.
  pub motor_write_beyond : (v : ℤ) → motor_write (wired l r out) (pos 2) v ≡ beyond (pos 2)
  unfolding motor_write
  motor_write_beyond v = refl
