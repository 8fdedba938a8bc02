-- ===== src/Motor/Stick.antt =====
-- What the position of a joystick makes the two motors do, by `motor_task` of os/scheduler/scheduler.c. The
-- two characters of a frame are its position from left to right and from the back to the front, 128
-- being the middle.
use kernel_team_project.Base.{
  ℕ, ◌<◌, ◌≡◌, refl, Bool, true, false, ◌&&◌, ◌!=◌, not, ltb, if◌then◌else◌, all_below,
  all_below-lt, ℤ, pos, to_i32, sub32, arith,
}
use kernel_team_project.Motor.{
  MotorState, motor_stop, motor_forward, motor_backward, int_lt, minus_5, joystick, motor_dir_left,
  motor_dir_right,
}
use kernel_team_project.Motor.Drive.{commanded}

-- The direction: forward from 134 on, backward up to 122.
abbrev pub along : ℕ → MotorState
along b = if ltb 133 b then motor_forward else if ltb b 123 then motor_backward else motor_stop

-- The left motor runs unless the stick is at 123 or to the left of it, or exactly at 133.
abbrev pub left_driven : (a b : ℕ) → MotorState
left_driven a b = if ltb 123 a && (a != 133) then along b else motor_stop

-- The right one runs unless the stick is at 133 or to the right of it, or exactly at 123.
abbrev pub right_driven : (a b : ℕ) → MotorState
right_driven a b = if ltb a 133 && (a != 123) then along b else motor_stop

-- `(int) c - 128`
abbrev pub centred : ℕ → ℤ
centred c = to_i32 (sub32 c 128)

abbrev agree : Bool → Bool → Bool
agree a b = if a then b else not b

agree→eq : (a b : Bool) → agree a b ≡ true → a ≡ b
agree→eq true true h = refl
agree→eq true false h = cc
agree→eq false true h = cc
agree→eq false false h = refl

abbrev above_minus : ℕ → Bool
above_minus c = agree (int_lt minus_5 (centred c)) (ltb 123 c)

abbrev below_minus : ℕ → Bool
below_minus c = agree (int_lt (centred c) minus_5) (ltb c 123)

abbrev above_plus : ℕ → Bool
above_plus c = agree (int_lt (pos 5) (centred c)) (ltb 133 c)

abbrev below_plus : ℕ → Bool
below_plus c = agree (int_lt (centred c) (pos 5)) (ltb c 133)

above_minus_table : all_below 256 above_minus ≡ true
above_minus_table = refl

below_minus_table : all_below 256 below_minus ≡ true
below_minus_table = refl

above_plus_table : all_below 256 above_plus ≡ true
above_plus_table = refl

below_plus_table : all_below 256 below_plus ≡ true
below_plus_table = refl

module _ (c : ℕ) (h : c < 256) where
  above_minus_5 : int_lt minus_5 (centred c) ≡ ltb 123 c
  above_minus_5 = agree→eq _ _ (all_below-lt 256 above_minus c above_minus_table h)

  below_minus_5 : int_lt (centred c) minus_5 ≡ ltb c 123
  below_minus_5 = agree→eq _ _ (all_below-lt 256 below_minus c below_minus_table h)

  above_plus_5 : int_lt (pos 5) (centred c) ≡ ltb 133 c
  above_plus_5 = agree→eq _ _ (all_below-lt 256 above_plus c above_plus_table h)

  below_plus_5 : int_lt (centred c) (pos 5) ≡ ltb c 133
  below_plus_5 = agree→eq _ _ (all_below-lt 256 below_plus c below_plus_table h)

-- The flags that a position gives, by the tests on its two characters.
abbrev flags : (a b : ℕ) → ℕ
flags a b =
    if ltb 123 a && ltb a 133 && ltb 133 b
    then 1
    else if ltb 123 a && ltb a 133 && ltb b 123
    then 2
    else if ltb 133 a && ltb 133 b
    then 17
    else if ltb 133 a && ltb b 123
    then 18
    else if ltb a 123 && ltb 133 b
    then 9
    else if ltb a 123 && ltb b 123
    then 10
    else 4

module _ (a b : ℕ) (ha : a < 256) (hb : b < 256) where
  joystick-flags : joystick (centred a) (centred b) ≡ flags a b
  unfolding joystick
  joystick-flags =
      rw
        (
          above_minus_5 a ha,
          below_minus_5 a ha,
          above_plus_5 a ha,
          below_plus_5 a ha,
          below_minus_5 b hb,
          above_plus_5 b hb,
        )
        refl

  pub left_driven_lem :
      (l : MotorState)
      → commanded (joystick (centred a) (centred b)) motor_dir_left l ≡ left_driven a b
  unfolding commanded
  left_driven_lem l = rw joystick-flags (ground arith)

  pub right_driven_lem :
      (r : MotorState)
      → commanded (joystick (centred a) (centred b)) motor_dir_right r ≡ right_driven a b
  unfolding commanded
  right_driven_lem r = rw joystick-flags (ground arith)
