-- ===== src/Ddr/Tests.antt =====
-- The theorems about boot/ddr.c at concrete memories.
use kernel_team_project.Base.{
  ℕ, ◌+◌, ◌≤◌, ◌≡◌, refl, arith, some, [], ◌∷◌, ◌==◌, if◌then◌else◌, update,
}
use kernel_team_project.Regs.{Bus}
use kernel_team_project.Regs.Plain.{Registers, at_rest}
use kernel_team_project.Ddr.{test_ddr3_memory, ddr_start_addr}
use kernel_team_project.Ddr.MemoryTest.{broken_word_found}

-- A memory whose word 5 always reads as 0.
abbrev broken : Bus Registers
broken = record {
  load = λ addr d. (if addr == ddr_start_addr + 20 then 0 else d addr, d);
  store = λ addr value d. update d addr value;
}

broken_word_found_example :
    (errors : ℕ) × (d : Registers) × (test_ddr3_memory broken (at_rest (λ _. 0))
      ≡ some (
        errors,
        record { dev = d; console = ("Memory Test Failed! Errors: %d \n", errors ∷ []) ∷ [] },
      ))
    × (3 ≤ errors)
broken_word_found_example =
    broken_word_found broken 5 0 (omega arith) (λ d. refl) (at_rest (λ _. 0))
