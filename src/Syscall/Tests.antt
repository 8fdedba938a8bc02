-- ===== src/Syscall/Tests.antt =====
-- The theorem about os/interrupts/syscall.c at a concrete call.
use kernel_team_project.Base.{◌≡◌, some}
use kernel_team_project.Regs.Plain.{plain, at_rest}
use kernel_team_project.Syscall.{empty_table, setup_syscall_table, handle_syscall, beyond}
use kernel_team_project.Syscall.Dispatch.{lit, handle_syscall_lem}

handle_syscall_lem_example :
    (handle_syscall plain (setup_syscall_table empty_table) 4 (at_rest (λ _. 0))
      ≡ some (beyond 4, at_rest (lit plain 4 (λ _. 0))))
    × (handle_syscall plain empty_table 4 (at_rest (λ _. 0))
        ≡ some (beyond 4, at_rest (lit plain 4 (λ _. 0))))
handle_syscall_lem_example = handle_syscall_lem plain 4 (at_rest (λ _. 0))
