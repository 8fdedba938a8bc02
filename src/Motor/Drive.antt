-- ===== src/Motor/Drive.antt =====
-- What the pins of the motors of os/drivers/motor.c are after a call of `motor_ioctl`.
use kernel_team_project.Base.{
  ℕ, ◌≡◌, ◌∙◌, refl, ap, Bool, true, false, ◌!=◌, if◌then◌else◌, bit_and,
}
use kernel_team_project.Motor.{
  MotorState, motor_stop, motor_forward, motor_backward, Motors, motors_stop, start_motor,
  motors_start, motors_set_dir, motor_set_dir, motor_ioctl, left_motor_pin1, left_motor_pin2,
  right_motor_pin1, right_motor_pin2, left_motor_en, right_motor_en, motor_dir_forward,
  motor_dir_backward, motor_dir_stop, motor_dir_left, motor_dir_right, on_both, on_left, on_right,
}

-- The levels of pin 1, pin 2 and the enable pin in a state.
unfoldable pub levels : MotorState → Bool × Bool × Bool
levels motor_stop = (false, false, false)
levels motor_forward = (true, false, true)
levels motor_backward = (false, true, true)

-- The levels of the pins of the left and of the right motor.
abbrev pub left_levels : Motors → Bool × Bool × Bool
left_levels m = (m.out 5, m.out 4, m.out 7)

abbrev pub right_levels : Motors → Bool × Bool × Bool
right_levels m = (m.out 2, m.out 3, m.out 6)

-- The motors with the pins that `motor_init` gives them, in the states `l` and `r`.
abbrev pub wired : (l r : MotorState) → (ℕ → Bool) → Motors
wired l r out = record {
  left = record {
    motor_number = 0;
    pin1 = left_motor_pin1;
    pin2 = left_motor_pin2;
    en_pin = left_motor_en;
    state = l;
  };
  right = record {
    motor_number = 1;
    pin1 = right_motor_pin1;
    pin2 = right_motor_pin2;
    en_pin = right_motor_en;
    state = r;
  };
  out = out;
}

started :
    (l r : MotorState) (out : ℕ → Bool)
    → let m = motors_start (motors_stop (wired l r out)) in
      (left_levels m ≡ levels l) × (right_levels m ≡ levels r)
unfolding motors_start motors_stop start_motor levels
started motor_stop motor_stop out = (refl, refl)
started motor_stop motor_forward out = (refl, refl)
started motor_stop motor_backward out = (refl, refl)
started motor_forward motor_stop out = (refl, refl)
started motor_forward motor_forward out = (refl, refl)
started motor_forward motor_backward out = (refl, refl)
started motor_backward motor_stop out = (refl, refl)
started motor_backward motor_forward out = (refl, refl)
started motor_backward motor_backward out = (refl, refl)

module _ (out : ℕ → Bool) where
  on_both-wired :
      (b : Bool) (x l r : MotorState)
      → on_both b x (wired l r out) ≡ wired (if b then x else l) (if b then x else r) out
  on_both-wired true x l r = refl
  on_both-wired false x l r = refl

  on_left-wired :
      (b : Bool) (l r : MotorState)
      → on_left b (wired l r out) ≡ wired (if b then motor_stop else l) r out
  on_left-wired true l r = refl
  on_left-wired false l r = refl

  on_right-wired :
      (b : Bool) (l r : MotorState)
      → on_right b (wired l r out) ≡ wired l (if b then motor_stop else r) out
  on_right-wired true l r = refl
  on_right-wired false l r = refl

  stop-wired :
      (b : Bool) (l r : MotorState)
      → (if b then wired motor_stop motor_stop out else wired l r out)
        ≡ wired (if b then motor_stop else l) (if b then motor_stop else r) out
  stop-wired true l r = refl
  stop-wired false l r = refl

-- The state of a motor for a command: it stops for the stop flag and for the flag of its own side, and
-- otherwise turns as the flags for both say, or as before if there are none.
unfoldable pub commanded : (dirs side : ℕ) → MotorState → MotorState
commanded dirs side before =
    if bit_and dirs motor_dir_stop != 0
    then motor_stop
    else if bit_and dirs side != 0
    then motor_stop
    else if bit_and dirs motor_dir_backward != 0
    then motor_backward
    else if bit_and dirs motor_dir_forward != 0
    then motor_forward
    else before

motors_set_dir-wired :
    (l r : MotorState) (out : ℕ → Bool) (dirs : ℕ)
    → motors_set_dir (wired l r out) dirs
      ≡ wired (commanded dirs motor_dir_left l) (commanded dirs motor_dir_right r) out
unfolding motors_set_dir commanded
motors_set_dir-wired l r out dirs =
    let f = bit_and dirs motor_dir_forward != 0 in
    let b = bit_and dirs motor_dir_backward != 0 in
    let lt = bit_and dirs motor_dir_left != 0 in
    let rt = bit_and dirs motor_dir_right != 0 in
    let stop = bit_and dirs motor_dir_stop != 0 in
    let l1 : MotorState = if f then motor_forward else l in
    let r1 : MotorState = if f then motor_forward else r in
    let l2 : MotorState = if b then motor_backward else l1 in
    let r2 : MotorState = if b then motor_backward else r1 in
    let l3 : MotorState = if lt then motor_stop else l2 in
    let r3 : MotorState = if rt then motor_stop else r2 in
    let moving : on_right rt
          (on_left lt (on_both b motor_backward (on_both f motor_forward (wired l r out))))
        ≡ wired l3 r3 out =
      ap (λ m. on_right rt (on_left lt (on_both b motor_backward m)))
        (on_both-wired out f motor_forward l r)
      ∙ ap (λ m. on_right rt (on_left lt m)) (on_both-wired out b motor_backward l1 r1)
      ∙ ap (on_right rt) (on_left-wired out lt l2 r2)
      ∙ on_right-wired out rt l3 r2 in
    ap (λ m. if stop then wired motor_stop motor_stop out else m) moving ∙ stop-wired out stop l3 r3

-- After a command for a direction the pins of each motor have the levels of the state that is commanded:
-- pin 1 alone drives it forward, pin 2 alone backward, and it is enabled unless it is stopped.
pub motor_ioctl_lem :
    (l r : MotorState) (out : ℕ → Bool) (dirs : ℕ)
    → let m = motor_ioctl (wired l r out) motor_set_dir dirs in
      (left_levels m ≡ levels (commanded dirs motor_dir_left l))
      × (right_levels m ≡ levels (commanded dirs motor_dir_right r))
unfolding motor_ioctl motors_stop
motor_ioctl_lem l r out dirs =
    let l' = commanded dirs motor_dir_left l in
    let r' = commanded dirs motor_dir_right r in
    let e = motors_set_dir-wired l r (motors_stop (wired l r out)).out dirs in
    (
      ap (λ m. left_levels (motors_start m)) e ∙ (started l' r' out).0,
      ap (λ m. right_levels (motors_start m)) e ∙ (started l' r' out).1,
    )
