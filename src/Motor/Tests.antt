-- ===== src/Motor/Tests.antt =====
-- The theorems about the motors at concrete commands.
use kernel_team_project.Base.{ℕ, ◌≡◌, refl, false, none, some, List, [], ◌∷◌, length, get_or, arith}
use kernel_team_project.Ring.{newline}
use kernel_team_project.Ring.Chars
use kernel_team_project.Uart.{Uart, rx}
use kernel_team_project.Uart.Lines.{waiting, next_line}
use kernel_team_project.Motor.Task.{motor_round, motor_round_lem, motor_round_overruns}
use kernel_team_project.Motor.{Motors, motor_stop, motor_forward}
use kernel_team_project.Motor.Drive.{wired, levels, left_levels, right_levels}

abbrev line_in : List ℕ → (lines : ℕ) → Uart
line_in s lines = record {
  rx0 = record { buffer = λ _. 0; head = 0; tail = 0; size = 0; lines = 0 };
  rx1 = record {
    buffer = λ i. get_or s i 0;
    head = 0;
    tail = length s;
    size = length s;
    lines = lines;
  };
  sent = [];
}

-- "x", 228, "y", 188 and a newline: forward and to the right.
abbrev frame : List ℕ
frame = b'x' ∷ 228 ∷ b'y' ∷ 188 ∷ newline ∷ []

frame-IsValid : Chars.IsValid (rx (line_in frame 1) 1)
unfolding Chars.count_lines
frame-IsValid = omega arith

motor_round_lem_example :
    (u' : Uart) × (m : Motors) × (motor_round
        (line_in frame 1)
        (wired motor_stop motor_stop (λ _. false))
      ≡ some (u', m))
    × (waiting u' 1 ≡ [])
    × (left_levels m ≡ levels motor_forward)
    × (right_levels m ≡ levels motor_stop)
motor_round_lem_example =
    motor_round_lem (line_in frame 1) frame-IsValid (omega arith) b'x' 228 b'y' 188 [] motor_stop
      motor_stop (λ _. false) refl (omega arith) (omega arith) (omega arith) (omega arith)
      (omega arith) (omega arith)

-- "0123456789" and a newline.
abbrev digits : List ℕ
digits = b'0' ∷ b'1' ∷ b'2' ∷ b'3' ∷ b'4' ∷ b'5' ∷ b'6' ∷ b'7' ∷ b'8' ∷ b'9' ∷ newline ∷ []

digits-IsValid : Chars.IsValid (rx (line_in digits 1) 1)
unfolding Chars.count_lines
digits-IsValid = omega arith

motor_round_overruns_example :
    motor_round (line_in digits 1) (wired motor_stop motor_stop (λ _. false)) ≡ none
unfolding next_line
motor_round_overruns_example =
    motor_round_overruns (line_in digits 1) digits-IsValid (omega arith)
      (wired motor_stop motor_stop (λ _. false)) (omega arith)
