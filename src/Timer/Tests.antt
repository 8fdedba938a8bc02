-- ===== src/Timer/Tests.antt =====
-- The theorems about os/drivers/timer.c at concrete devices and functions.
use kernel_team_project.Base.{ℕ, refl, true, some, none, arith, ◌==◌, if◌then◌else◌, []}
use kernel_team_project.Regs.{Bus, Io, Machine, skip}
use kernel_team_project.Regs.Ends.{Returns}
use kernel_team_project.Intc.Handler.{handle_timer_n_irq, other_irq}
use kernel_team_project.Timer.{Timers, timer_init}
use kernel_team_project.Timer.Wiring.{InTime, IsWired, timer_init-IsWired}

-- A device whose clock is selected, and whose other registers read as 0.
abbrev ready_bus : Bus ℕ
ready_bus = record {
  load = λ addr d. (if addr == 0x44E00508 then 2 else 0, d);
  store = λ addr value d. value;
}

abbrev start : Machine ℕ
start = record { dev = 0; console = [] }

-- Two functions, and tables where timer 3 calls one of them.
abbrev tick_a : Io ℕ (Unit {0})
tick_a = skip

abbrev tick_b : Io ℕ (Unit {0})
tick_b m = some (tt, record m { dev = 7 })

abbrev with_timer_3 : Timers ℕ
with_timer_3 = record {
  timer_tick_funcs = λ i. if i == 3 then some tick_b else none;
  handlers = λ irq. if irq == 69 then handle_timer_n_irq 3 else other_irq;
}

ready-InTime : InTime ready_bus 1 2
ready-InTime = record {
  clock_select =
      λ d. (0, omega arith, record { goes_on = λ i h. absurd (omega arith); ends = refl });
  clock = λ d. (0, omega arith, record { goes_on = λ i h. absurd (omega arith); ends = refl });
  reset = λ d. (0, omega arith, record { goes_on = λ i h. absurd (omega arith); ends = refl });
  writes = λ d. (0, omega arith, record { goes_on = λ i h. absurd (omega arith); ends = refl });
}

timer_init-IsWired_example :
    (t : Timers ℕ) × Returns (timer_init ready_bus 1 with_timer_3 2 1000 tick_a) (true, t)
    × IsWired t 2 tick_a
    × IsWired t 3 tick_b
timer_init-IsWired_example =
    timer_init-IsWired ready_bus 1 with_timer_3 2 3 1000 tick_a tick_b (omega arith) (omega arith)
      (λ e. absurd (omega arith)) (record { tick = refl; handler = refl }) ready-InTime
