-- ===== src/Regs/Plain.antt =====
-- The simplest device: registers that keep what is written to them.
use kernel_team_project.Base.{ℕ, [], update}
use kernel_team_project.Regs.{Bus, Machine}

abbrev pub Registers : Type 0
Registers = ℕ → ℕ

abbrev pub plain : Bus Registers
plain = record { load = λ addr d. (d addr, d); store = λ addr value d. update d addr value }

abbrev pub at_rest : Registers → Machine Registers
at_rest d = record { dev = d; console = [] }
