-- ===== src/Motor/Task.antt =====
-- One round of `motor_task` of os/scheduler/scheduler.c, which is also that of `motor_test_sequence` of
-- os/drivers/motor.c: a line from the second serial port, and the motors. What is printed is left out.
use mathlib.Core.Path.{subst, sym}
use kernel_team_project.Base.{
  ℕ, suc, ◌<◌, ◌≡◌, ◌≢◌, ◌∙◌, ap, Option, none, some, List, [], ◌∷◌, ◌==◌, ltb, if◌then◌else◌,
  length, get_or, ℤ, to_i32, sub32, ne→not-==, lt→ltb, arith, Bool, true,
}
use kernel_team_project.Ring.{newline}
use kernel_team_project.Ring.Chars
use kernel_team_project.Uart.{Uart, rx, uart_readline}
use kernel_team_project.Uart.Lines.{waiting, next_line, uart_readline_lem}
use kernel_team_project.Motor.{MotorState, Motors, motor_ioctl, motor_set_dir, joystick}
use kernel_team_project.Motor.Stick.{left_driven, right_driven, left_driven_lem, right_driven_lem}
use kernel_team_project.Motor.Drive.{wired, levels, left_levels, right_levels, motor_ioctl_lem}

-- `(int) uart_buffer[i] - 128`, where a `char` is not negative.
abbrev pub axis : List ℕ → (i : ℕ) → ℤ
axis line i = to_i32 (sub32 (get_or line i 0) 128)

-- What follows the read; `none` is a line that is too long for the buffer of 10 bytes with its NUL.
unfoldable pub take_command : Uart → Motors → Option (List ℕ) → Option (Uart × Motors)
take_command u m none = some (u, m)
take_command u m (some line) =
    if ltb 9 (length line)
    then none
    else if length line == 5
    then some (u, motor_ioctl m motor_set_dir (joystick (axis line 1) (axis line 3)))
    else some (u, m)

-- The buffer is passed as one of 100 bytes.
unfoldable pub motor_round : Uart → Motors → Option (Uart × Motors)
motor_round u m = let (line, u') = uart_readline u 1 100 in take_command u' m line

next_line-frame :
    (n x a y b : ℕ) (q : List ℕ)
    → x ≢ newline
    → a ≢ newline
    → y ≢ newline
    → b ≢ newline
    → next_line (suc (suc (suc (suc (suc n))))) (x ∷ a ∷ y ∷ b ∷ newline ∷ q)
      ≡ (x ∷ a ∷ y ∷ b ∷ newline ∷ [], q)
unfolding next_line
next_line-frame n x a y b q hx ha hy hb =
    rw (ne→not-== _ _ hx, ne→not-== _ _ ha, ne→not-== _ _ hy, ne→not-== _ _ hb)

module _ (u : Uart) (v : Chars.IsValid (rx u 1)) (some_line : (rx u 1).lines ≢ 0) where
  -- Where the next line at the second port is a frame of four characters, none of them a newline, one
  -- round takes it and leaves what comes behind it to the next round. The fourth character says the
  -- direction: forward from 134 on, backward up to 122, and none between. The second one stops the left
  -- motor up to 123 and at 133, and the right motor from 133 on and at 123. Each motor's pins have the
  -- levels for that, whatever they and the states of the motors were.
  pub motor_round_lem :
      (x a y b : ℕ) (q : List ℕ) (l r : MotorState) (out : ℕ → Bool)
      → waiting u 1 ≡ x ∷ a ∷ y ∷ b ∷ newline ∷ q
      → x ≢ newline
      → a ≢ newline
      → y ≢ newline
      → b ≢ newline
      → a < 256
      → b < 256
      → (u' : Uart) × (m : Motors) × (motor_round u (wired l r out) ≡ some (u', m))
        × (waiting u' 1 ≡ q)
        × (left_levels m ≡ levels (left_driven a b))
        × (right_levels m ≡ levels (right_driven a b))
  unfolding motor_round take_command
  motor_round_lem x a y b q l r out frame hx ha hy hb small_a small_b =
      let (line, e, got) =
        uart_readline_lem 1 (omega arith) u 100 v some_line (omega arith) (omega arith) in
      let next = ap (next_line 99) frame ∙ next_line-frame 94 x a y b q hx ha hy hb in
      let read : line ≡ x ∷ a ∷ y ∷ b ∷ newline ∷ [] = got.bytes ∙ ap (λ p. p.0) next in
      let u' = (uart_readline u 1 100).1 in
      let dirs = joystick (to_i32 (sub32 a 128)) (to_i32 (sub32 b 128)) in
      let pins = motor_ioctl_lem l r out dirs in
      (
        u',
        motor_ioctl (wired l r out) motor_set_dir dirs,
        ap (take_command u' (wired l r out)) (e ∙ ap some read),
        got.left ∙ ap (λ p. p.1) next,
        pins.0 ∙ ap levels (left_driven_lem a b small_a small_b l),
        pins.1 ∙ ap levels (right_driven_lem a b small_a small_b r),
      )

  -- A line of ten characters or more is written behind the end of the buffer.
  pub motor_round_overruns :
      (m : Motors) → 9 < length (next_line 99 (waiting u 1)).0 → motor_round u m ≡ none
  unfolding motor_round take_command
  motor_round_overruns m long =
      let (line, e, got) =
        uart_readline_lem 1 (omega arith) u 100 v some_line (omega arith) (omega arith) in
      let longer : 9 < length line = subst (λ l. 9 < length l) (sym got.bytes) long in
      let over : ltb 9 (length line) ≡ true = lt→ltb _ _ longer in
      ap (take_command (uart_readline u 1 100).1 m) e ∙ rw over
