-- ===== src/Syscall/Dispatch.antt =====
-- What a system call of os/interrupts/syscall.c returns.
use kernel_team_project.Base.{ℕ, zero, suc, ◌≡◌, refl, ◌==◌, some, if◌then◌else◌, arith, pos, add32}
use kernel_team_project.Regs.{Bus, Machine}
use kernel_team_project.Syscall.{
  Outcome, returned, beyond, no_syscall, empty_table, setup_syscall_table, handle_syscall,
  call_entry, call_routine, sys_read_num,
}
use kernel_team_project.Gpio.{gpio1_base, gpio_setdataout_off, led2, led3}

module _ {D : Type 0} (bus : Bus D) where
  abbrev pub pins : ℕ
  pins = add32 gpio1_base gpio_setdataout_off

  -- The state that a call leaves: LED 2 is lit, and LED 3 too by a read.
  abbrev pub lit : (syscall_num : ℕ) → D → D
  lit syscall_num d =
      let d' = bus.store pins led2 d in
      if syscall_num == sys_read_num then bus.store pins led3 d' else d'

  -- What a call by a number comes to, and the state that it leaves, in the table that is set up and in
  -- one that is not.
  abbrev pub in_table : (syscall_num : ℕ) → Outcome
  in_table syscall_num =
      if syscall_num == 0
      then returned (pos 0)
      else if syscall_num == 1
      then returned (pos 0)
      else if syscall_num == 3
      then returned (pos 0)
      else if syscall_num == 4
      then beyond 4
      else returned no_syscall

  abbrev pub in_no_table : (syscall_num : ℕ) → Outcome
  in_no_table syscall_num = if syscall_num == 4 then beyond 4 else returned no_syscall

  -- With the table that `setup_syscall_table` makes of an empty one, 0, 1 and 3 return 0; with the empty
  -- table, which is that of the program, since nothing in it calls `setup_syscall_table`, they return
  -- the error. With both the number 4 reads the table behind its end, since the guard lets it pass, and
  -- all others return the error. A call lights LED 2, a read through the first table LED 3 as well, and
  -- nothing else is touched.
  pub handle_syscall_lem :
      (syscall_num : ℕ) (m : Machine D)
      → (handle_syscall bus (setup_syscall_table empty_table) syscall_num m
          ≡ some (in_table syscall_num, record m { dev = lit syscall_num m.dev }))
        × (handle_syscall bus empty_table syscall_num m
            ≡ some (in_no_table syscall_num, record m { dev = bus.store pins led2 m.dev }))
  unfolding handle_syscall setup_syscall_table call_entry call_routine
  handle_syscall_lem zero m = (refl, refl)
  handle_syscall_lem (suc zero) m = (refl, refl)
  handle_syscall_lem (suc (suc zero)) m = (refl, refl)
  handle_syscall_lem (suc (suc (suc zero))) m = (refl, refl)
  handle_syscall_lem (suc (suc (suc (suc zero)))) m = (refl, refl)
  handle_syscall_lem (suc (suc (suc (suc (suc n))))) m = (ground arith, ground arith)
