-- ===== src/Syscall.antt =====
-- os/interrupts/syscall.c and syscall.h: the table of system calls and its use, with `GPIO_set` of
-- os/drivers/gpio.c on any device. The arguments of a call are not used by the routines.
pub mod Dispatch
mod Tests
use kernel_team_project.Base.{
  ℕ, suc, ◌+◌, ◌<◌, Bool, ltb, if◌then◌else◌, List, [], ◌∷◌, Option, none, some, get_elem?, ℤ, pos,
  negsuc, zero,
}
use kernel_team_project.Regs.{Bus, Io, pure, ◌>>=◌, ◌>>◌}
use kernel_team_project.Gpio.{gpio1_base, led2, led3, write_set}

abbrev pub sys_yield : ℕ
sys_yield = 0

abbrev pub sys_read_num : ℕ
sys_read_num = 1

abbrev pub sys_write_num : ℕ
sys_write_num = 3

abbrev pub num_syscalls : ℕ
num_syscalls = sys_write_num + 1

-- -ENOSYSCALL
abbrev pub no_syscall : ℤ
no_syscall = negsuc 0

-- The routines that the table points to.
pub data Routine : Type 0 where
  routine_default : Routine
  routine_read : Routine
  routine_write : Routine

-- `syscall_vector_table`, of NUM_SYSCALLS entries; `none` is NULL.
abbrev pub SyscallTable : Type 0
SyscallTable = List (Option Routine)

abbrev set_entry : SyscallTable → ℕ → Routine → SyscallTable
set_entry [] n r = []
set_entry (x ∷ table) zero r = some r ∷ table
set_entry (x ∷ table) (suc n) r = x ∷ set_entry table n r

-- A static table holds NULLs at the start.
abbrev pub empty_table : SyscallTable
empty_table = none ∷ none ∷ none ∷ none ∷ []

unfoldable pub setup_syscall_table : SyscallTable → SyscallTable
setup_syscall_table table =
    let table = set_entry table sys_yield routine_default in
    let table = set_entry table sys_read_num routine_read in
    set_entry table sys_write_num routine_write

-- What a call comes to: a result, or a read of the table behind its end.
pub data Outcome : Type 0 where
  returned : ℤ → Outcome
  beyond : (index : ℕ) → Outcome

module _ {D : Type 0} (bus : Bus D) where
  unfoldable pub sys_default : Io D ℤ
  sys_default = pure (pos 0)

  unfoldable pub sys_read : Io D ℤ
  sys_read = do write_set bus gpio1_base led3; pure (pos 0)

  unfoldable pub sys_write : Io D ℤ
  sys_write = pure (pos 0)

  unfoldable pub call_routine : Routine → Io D ℤ
  unfolding sys_default sys_read sys_write
  call_routine routine_default = sys_default
  call_routine routine_read = sys_read
  call_routine routine_write = sys_write

  -- The use of an entry of the table, and of what the table holds there, if anything.
  unfoldable pub call_entry : (index : ℕ) → Option (Option Routine) → Io D Outcome
  unfolding call_routine
  call_entry index none = pure (beyond index)
  call_entry index (some none) = pure (returned no_syscall)
  call_entry index (some (some routine)) = do result ← call_routine routine; pure (returned result)

  unfoldable pub handle_syscall : SyscallTable → (syscall_num : ℕ) → Io D Outcome
  handle_syscall table syscall_num = do
    write_set bus gpio1_base led2
    if ltb num_syscalls syscall_num
        then pure (returned no_syscall)
        else call_entry syscall_num (get_elem? table syscall_num)
