-- ===== src/Sched/Create.antt =====
-- `process_create` of os/scheduler/scheduler.c as an allocator of the slots of the process table, and
-- the state of a new process.
use kernel_team_project.Base.{
  ℕ, ◌+◌, ◌*◌, ◌%◌, ◌≡◌, ◌∙◌, refl, ap, none, some, List, [], ◌∷◌, arith, update, zero, suc, take,
  min, ◌++◌, u32_mod, tabulate, ne→not-==, length,
}
use kernel_team_project.Ring.{generic_pop}
use kernel_team_project.Ring.Generic
use kernel_team_project.Ring.Queue
use kernel_team_project.Fat32.Strings.{NoNul}
use kernel_team_project.Sched.{
  Process, Scheduler, new, created, clear_registers, set_register, create_from, process_create,
  snprintf,
}

-- The slots that are free, in the order in which they are given out.
abbrev pub free_list : Scheduler → List ℕ
free_list s = Generic.contents s.free_processes

-- A new process starts at its entry point, with its stack at its top and the numbers of the registers
-- in the registers. Its status register holds 15 and not the mode that was put there: the loop over
-- sixteen registers runs over the end of the thirteen.
pub created_lem :
    (address entry_point : ℕ) (p : Process)
    → let q = created address entry_point p in
      ((q.state ≡ new) × (q.program_counter ≡ entry_point) × (q.current_mode ≡ 0xDF))
      × (tabulate 13 q.registers ≡ tabulate 13 (λ i. i))
      × (q.stack_pointer ≡ (address + 80 + 64 * 1024) % u32_mod)
      × (q.cpsr ≡ 15)
unfolding created clear_registers set_register
created_lem address entry_point p = ((refl, refl, refl), refl, omega arith, refl)

-- A call where slots are free.
pub record Created (address : ℕ → ℕ) (s : Scheduler) (entry_point proc : ℕ) (rest : List ℕ)
    (s' : Scheduler) : Type 0 where
  pub returned : process_create address s entry_point ≡ (some proc, s')
  pub table :
      s'.processes ≡ update s.processes proc (created (address proc) entry_point (s.processes proc))
  pub free : free_list s' ≡ rest
  pub valid : Generic.IsValid s'.free_processes

module _ (address : ℕ → ℕ) (s : Scheduler) (entry_point : ℕ)
    (valid : Generic.IsValid s.free_processes) where
  -- A new process takes the first free slot, which is then no longer free; no other process changes.
  pub process_create-Created :
      (proc : ℕ) (rest : List ℕ)
      → free_list s ≡ proc ∷ rest
      → (s' : Scheduler) × Created address s entry_point proc rest s'
  unfolding process_create create_from Queue.pop
  process_create-Created proc rest free =
      let pop = Generic.pop_refines valid ∙ ap Queue.pop free in
      let out : (generic_pop s.free_processes).0 ≡ some proc = ap (λ t. t.0) pop in
      (
        record s {
          processes =
              update s.processes proc (created (address proc) entry_point (s.processes proc));
          free_processes = (generic_pop s.free_processes).1;
          num_processes = (s.num_processes + 1) % u32_mod;
        },
        record {
          returned = rw out refl;
          table = refl;
          free = ap (λ t. t.1) pop;
          valid = Generic.pop-IsValid valid;
        },
      )

  -- With no free slot NULL is returned, and no process changes.
  pub process_create_full :
      free_list s ≡ []
      → (process_create address s entry_point).0 ≡ none
        × ((process_create address s entry_point).1.processes ≡ s.processes)
        × (free_list (process_create address s entry_point).1 ≡ [])
  unfolding process_create create_from Queue.pop
  process_create_full free =
      let pop = Generic.pop_refines valid ∙ ap Queue.pop free in
      let out : (generic_pop s.free_processes).0 ≡ none = ap (λ t. t.0) pop in
      rw out (refl, refl, ap (λ t. t.1) pop)

-- `snprintf` stores the first `n` characters and a NUL: for a text of `n` characters or more, one byte
-- more than the `n` that it was given.
pub snprintf_lem :
    (src : List ℕ) (n : ℕ)
    → NoNul src
    → (snprintf src n ≡ take n src ++ 0 ∷ []) × (length (snprintf src n) ≡ min n (length src) + 1)
unfolding snprintf
snprintf_lem [] zero h = (refl, omega arith)
snprintf_lem [] (suc n) h = (refl, omega arith)
snprintf_lem (c ∷ src) zero h = (refl, omega arith)
snprintf_lem (c ∷ src) (suc n) h =
    let rest = snprintf_lem src n h.1 in
    rw (ne→not-== c 0 h.0) (ap (λ l. c ∷ l) rest.0, omega (arith, rest.1))
