-- ===== src/Motor.antt =====
-- os/drivers/motor.c: the two motors, and the pins of GPIO 1 that drive them. `out` is the level of each
-- pin of the bank: a write to the set register raises the pins of its ones, a write to the clear
-- register lowers them.
pub mod Drive
pub mod Stick
pub mod Task
pub mod Write
mod Tests
use kernel_team_project.Base.{
  ℕ, zero, suc, ◌+◌, ◌/◌, ◌%◌, ◌^◌, Bool, true, false, not, ◌&&◌, ◌||◌, ◌==◌, ◌!=◌, if◌then◌else◌,
  bit_and, bit_or, bit, ◌<<◌, ltb, is_neg, is_zero, ℤ, pos, negsuc, List,
}

pub data MotorState : Type 0 where
  motor_stop : MotorState
  motor_forward : MotorState
  motor_backward : MotorState

-- `motor_t`, for a motor on GPIO 1; the pins are masks.
pub record Motor : Type 0 where
  pub motor_number : ℕ
  pub pin1 : ℕ
  pub pin2 : ℕ
  pub en_pin : ℕ
  pub state : MotorState

-- `motors[LEFT]`, `motors[RIGHT]` and the pins.
pub record Motors : Type 0 where
  pub left : Motor
  pub right : Motor
  pub out : ℕ → Bool

-- The masks of the pins.
abbrev pub left_motor_pin1 : ℕ
left_motor_pin1 = 0x1 << 5

abbrev pub left_motor_pin2 : ℕ
left_motor_pin2 = 0x1 << 4

abbrev pub right_motor_pin1 : ℕ
right_motor_pin1 = 0x1 << 2

abbrev pub right_motor_pin2 : ℕ
right_motor_pin2 = 0x1 << 3

abbrev pub left_motor_en : ℕ
left_motor_en = 0x1 << 7

abbrev pub right_motor_en : ℕ
right_motor_en = 0x1 << 6

abbrev pub gpio_set : Motors → (pins : ℕ) → Motors
gpio_set m pins = record m { out = λ k. bit pins k || m.out k }

abbrev pub gpio_clear : Motors → (pins : ℕ) → Motors
gpio_clear m pins = record m { out = λ k. not (bit pins k) && m.out k }

unfoldable pub motors_stop : Motors → Motors
motors_stop m = gpio_clear (gpio_clear m m.left.en_pin) m.right.en_pin

-- One round of the loop of `motors_start`, for a motor and its state.
unfoldable pub start_motor : Motors → Motor → MotorState → Motors
start_motor m motor motor_stop = gpio_clear (gpio_clear m motor.pin1) motor.pin2
start_motor m motor motor_forward =
    gpio_set (gpio_clear (gpio_set m motor.pin1) motor.pin2) motor.en_pin
start_motor m motor motor_backward =
    gpio_set (gpio_set (gpio_clear m motor.pin1) motor.pin2) motor.en_pin

unfoldable pub motors_start : Motors → Motors
motors_start m = let m' = start_motor m m.left m.left.state in start_motor m' m.right m.right.state

-- The pins that `motor_init` lowers.
abbrev pub all_pins : ℕ
all_pins =
    bit_or
      (bit_or
        (bit_or (bit_or (bit_or left_motor_pin1 left_motor_pin2) left_motor_en) right_motor_pin1)
        right_motor_pin2)
      right_motor_en

-- `motor_init`, without the direction of the pins.
unfoldable pub motor_init : Motors → Motors
motor_init m =
    let m' = record m {
      left = record m.left {
        motor_number = 0;
        pin1 = left_motor_pin1;
        pin2 = left_motor_pin2;
        en_pin = left_motor_en;
      };
      right = record m.right {
        motor_number = 1;
        pin1 = right_motor_pin1;
        pin2 = right_motor_pin2;
        en_pin = right_motor_en;
      };
    } in
    gpio_clear m' all_pins

abbrev pub motor_dir_forward : ℕ
motor_dir_forward = 0x1 << 0

abbrev pub motor_dir_backward : ℕ
motor_dir_backward = 0x1 << 1

abbrev pub motor_dir_stop : ℕ
motor_dir_stop = 0x1 << 2

abbrev pub motor_dir_left : ℕ
motor_dir_left = 0x1 << 3

abbrev pub motor_dir_right : ℕ
motor_dir_right = 0x1 << 4

-- `motors[LEFT].state = l; motors[RIGHT].state = r`
abbrev pub set_states : Motors → (l r : MotorState) → Motors
set_states m l r = record m {
  left = record (m.left) { state = l };
  right = record (m.right) { state = r };
}

-- The four flags that are tested behind the one for stopping, each with what it changes.
abbrev pub on_both : Bool → MotorState → Motors → Motors
on_both flag x m = if flag then set_states m x x else m

abbrev pub on_left : Bool → Motors → Motors
on_left flag m = if flag then set_states m motor_stop m.right.state else m

abbrev pub on_right : Bool → Motors → Motors
on_right flag m = if flag then set_states m m.left.state motor_stop else m

unfoldable pub motors_set_dir : Motors → (dirs : ℕ) → Motors
motors_set_dir m dirs =
    let stopped = set_states m motor_stop motor_stop in
    let m = on_both (bit_and dirs motor_dir_forward != 0) motor_forward m in
    let m = on_both (bit_and dirs motor_dir_backward != 0) motor_backward m in
    let m = on_left (bit_and dirs motor_dir_left != 0) m in
    let m = on_right (bit_and dirs motor_dir_right != 0) m in
    if bit_and dirs motor_dir_stop != 0 then stopped else m

abbrev pub motor_set_dir : ℕ
motor_set_dir = 1

-- `motor_ioctl(cmd, value)`; it always returns 0.
unfoldable pub motor_ioctl : Motors → (cmd value : ℕ) → Motors
motor_ioctl m cmd value =
    let m = motors_stop m in
    let m : Motors = if cmd == motor_set_dir then motors_set_dir m value else m in motors_start m

-- What a call by the number of a motor comes to: its result and the pins, or a read of `motors` behind
-- its end.
pub data Outcome : Type 0 where
  returned : (result : ℤ) → Motors → Outcome
  beyond : (index : ℤ) → Outcome

-- The end of `motor_write`, for a motor and the value in the buffer.
unfoldable pub write_motor : Motors → Motor → (v : ℤ) → Motors
write_motor m motor (pos zero) = gpio_clear (gpio_clear m motor.pin1) motor.pin2
write_motor m motor (pos (suc n)) = gpio_clear (gpio_set m motor.pin1) motor.pin2
write_motor m motor (negsuc n) = gpio_set (gpio_clear m motor.pin1) motor.pin2

-- `motor_write(motor_num, buf, count)`, for the value `v` in the buffer. NUM_MOTORS is 2.
unfoldable pub motor_write : Motors → (motor_num v : ℤ) → Outcome
motor_write m (negsuc n) v = returned (negsuc 0) m
motor_write m (pos n) v =
    if ltb 2 n
    then returned (negsuc 0) m
    else if n == 0
    then returned (pos 0) (write_motor m m.left v)
    else if n == 1
    then returned (pos 0) (write_motor m m.right v)
    else beyond (pos n)

-- The order of C's `int`.
abbrev pub int_lt : ℤ → ℤ → Bool
int_lt (pos a) (pos b) = ltb a b
int_lt (pos a) (negsuc b) = false
int_lt (negsuc a) (pos b) = true
int_lt (negsuc a) (negsuc b) = ltb b a

-- -5
abbrev pub minus_5 : ℤ
minus_5 = negsuc 4

-- The value that `motor_task` of os/scheduler/scheduler.c passes to `motor_ioctl` for the position of a
-- joystick. Its last two branches pass the same value.
unfoldable pub joystick : (x y : ℤ) → ℕ
joystick x y =
    if int_lt minus_5 x && int_lt x (pos 5) && int_lt (pos 5) y
    then motor_dir_forward
    else if int_lt minus_5 x && int_lt x (pos 5) && int_lt y minus_5
    then motor_dir_backward
    else if int_lt (pos 5) x && int_lt (pos 5) y
    then bit_or motor_dir_forward motor_dir_right
    else if int_lt (pos 5) x && int_lt y minus_5
    then bit_or motor_dir_backward motor_dir_right
    else if int_lt x minus_5 && int_lt (pos 5) y
    then bit_or motor_dir_forward motor_dir_left
    else if int_lt x minus_5 && int_lt y minus_5
    then bit_or motor_dir_backward motor_dir_left
    else motor_dir_stop
