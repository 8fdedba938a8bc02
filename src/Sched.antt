-- ===== src/Sched.antt =====
-- os/scheduler/scheduler.c and scheduler.h: the table of processes, the queues over it, and the
-- choice of the next process. A pointer to a process is its index in the table. Start has the messages
-- and the timer of `scheduler_init` as well.
pub mod Queue
pub mod Turns
pub mod Fair
pub mod Create
pub mod Init
pub mod Start
mod Tests
use kernel_team_project.Base.{
  ℕ, zero, suc, ◌+◌, ◌*◌, ◌%◌, Bool, true, false, Option, none, some, List, [], ◌∷◌, ◌++◌, ◌==◌,
  ltb, if◌then◌else◌, update, add32, bit_or, u32_mod, ◌>>=◌,
}
use kernel_team_project.Ring.{GenericBuffer, generic_init, generic_push, generic_pop}

abbrev pub max_processes : ℕ
max_processes = 32

abbrev pub user_stack_size : ℕ
user_stack_size = 64 * 1024

-- MODE_System and I_F_BIT
abbrev pub mode_system : ℕ
mode_system = 0x1F

abbrev pub i_f_bit : ℕ
i_f_bit = 0xC0

pub data ProcessState : Type 0 where
  undefined : ProcessState
  new : ProcessState
  ready : ProcessState
  running : ProcessState
  blocked : ProcessState
  terminated : ProcessState

-- `process_t`, without the bytes of its stack.
pub record Process : Type 0 where
  pub registers : ℕ → ℕ
  pub stack_pointer : ℕ
  pub link_register : ℕ
  pub cpsr : ℕ
  pub program_counter : ℕ
  pub segment_base : ℕ
  pub current_mode : ℕ
  pub shared_page : ℕ
  pub stack_top : ℕ
  pub name : List ℕ
  pub pid : ℕ
  pub priority : ℕ
  pub state : ProcessState

-- The static variables: `scheduler`, the three queues and `current_process`.
pub record Scheduler : Type 0 where
  pub processes : ℕ → Process
  pub idle_process : Option ℕ
  pub current_index : ℕ
  pub num_processes : ℕ
  pub process_queue : GenericBuffer ℕ
  pub free_processes : GenericBuffer ℕ
  pub ready_queue : GenericBuffer ℕ
  pub current_process : Option ℕ

-- `s->processes[i]` changed by `f`.
abbrev pub modify : Scheduler → ℕ → (Process → Process) → Scheduler
modify s i f = record s { processes = update s.processes i (f (s.processes i)) }

-- `proc->registers[i] = value`. The array has 13 elements: the next three words of a process are the
-- stack pointer, the link register and the status register.
unfoldable pub set_register : Process → (i value : ℕ) → Process
set_register p i value =
    if ltb i 13
    then record p { registers = update p.registers i value }
    else if i == 13
    then record p { stack_pointer = value }
    else if i == 14
    then record p { link_register = value }
    else if i == 15
    then record p { cpsr = value }
    else p

-- The loop of `process_create` over the registers, from `i` on.
unfoldable pub clear_registers : Process → (rounds i : ℕ) → Process
clear_registers p zero i = p
clear_registers p (suc rounds) i = clear_registers (set_register p i i) rounds (i + 1)

-- The stack stands behind the registers and seven more words.
abbrev pub stack_offset : ℕ
stack_offset = 80

-- What `process_create` makes of the process at `address`.
unfoldable pub created : (address entry_point : ℕ) → Process → Process
created address entry_point p =
    let p = record p {
      state = new;
      priority = 1;
      program_counter = entry_point;
      segment_base = address;
      current_mode = bit_or mode_system i_f_bit;
      cpsr = bit_or mode_system i_f_bit;
      shared_page = 0;
    } in
    let p = clear_registers p 16 0 in
    let stack_top = add32 address (stack_offset + user_stack_size) in
    record p { link_register = 0; stack_top = stack_top; stack_pointer = stack_top }

module _ (address : ℕ → ℕ) where
  -- The process taken from the queue of free ones, if there is one.
  unfoldable pub create_from :
      Scheduler → (entry_point : ℕ) → Option ℕ → (free : GenericBuffer ℕ) → Option ℕ × Scheduler
  create_from s entry_point none free = (none, record s { free_processes = free })
  create_from s entry_point (some proc) free =
      let s' = modify s proc (created (address proc) entry_point) in
      (
        some proc,
        record s' { free_processes = free; num_processes = (s.num_processes + 1) % u32_mod },
      )

  -- `address` says where the linker has put each process of the table. NULL is `none`.
  unfoldable pub process_create : Scheduler → (entry_point : ℕ) → Option ℕ × Scheduler
  process_create s entry_point =
      let (out, free) = generic_pop s.free_processes in create_from s entry_point out free

-- The bytes that the `snprintf` of this file stores: at most `n` of `src`, then a NUL.
unfoldable pub snprintf : (src : List ℕ) → (n : ℕ) → List ℕ
snprintf [] n = 0 ∷ []
snprintf (c ∷ src) zero = 0 ∷ []
snprintf (c ∷ src) (suc n) = let rest = c ∷ snprintf src n in if c == 0 then 0 ∷ [] else rest

-- One round of the loop that fills the queue of free processes.
unfoldable pub add_free : Scheduler → ℕ → Scheduler
add_free s i =
    let s' = modify s i (λ p. record p {
      pid = i;
      state = undefined;
      priority = 0;
      program_counter = 0;
      stack_pointer = 0;
      link_register = 0;
      cpsr = 0;
    }) in
    record s' { free_processes = (generic_push s.free_processes i).1 }

unfoldable pub populate : Scheduler → (rounds i : ℕ) → Scheduler
populate s zero i = s
populate s (suc rounds) i = populate (add_free s i) rounds (i + 1)

-- The name of a new process, and its place in the queue of all processes.
abbrev pub name_process : Scheduler → (name : List ℕ) → (proc : ℕ) → Scheduler
name_process s name proc =
    let s' = modify s proc (λ p. record p { name = snprintf name 16 }) in
    record s' { process_queue = (generic_push s.process_queue proc).1 }

-- A process that can run: named, in the queue of ready ones, and counted.
unfoldable pub add_ready : Scheduler → (name : List ℕ) → (proc : ℕ) → Scheduler
add_ready s name proc =
    let s' = name_process s name proc in
    record s' {
      ready_queue = (generic_push s.ready_queue proc).1;
      num_processes = (s.num_processes + 1) % u32_mod;
    }

-- Where `idle_task`, `P1`, `P2` and `motor_task` are.
pub record EntryPoints : Type 0 where
  pub idle_task : ℕ
  pub p1 : ℕ
  pub p2 : ℕ
  pub motor_task : ℕ

-- The names that `scheduler_init` gives.
abbrev pub idle_name : List ℕ
idle_name = b'I' ∷ b'd' ∷ b'l' ∷ b'e' ∷ b' ' ∷ b'P' ∷ b'r' ∷ b'o' ∷ b'c' ∷ b'e' ∷ b's' ∷ b's' ∷ []

abbrev pub p1_name : List ℕ
p1_name = b'P' ∷ b'1' ∷ []

abbrev pub p2_name : List ℕ
p2_name = b'P' ∷ b'2' ∷ []

abbrev pub motor_name : List ℕ
motor_name =
    b'M' ∷ b'o' ∷ b't' ∷ b'o' ∷ b'r' ∷ b' ' ∷ b'P' ∷ b'r' ∷ b'o' ∷ b'c' ∷ b'e' ∷ b's' ∷ b's' ∷ []

-- The start of `scheduler_init`, in front of the first process.
unfoldable pub init_tables : Scheduler → Scheduler
init_tables s =
    let s' = record s {
      current_index = 0;
      num_processes = 0;
      process_queue = generic_init s.process_queue;
      free_processes = generic_init s.free_processes;
      ready_queue = generic_init s.ready_queue;
    } in
    populate s' max_processes 0

module _ (address : ℕ → ℕ) where
  -- A process created and made ready; `none` is the endless loop where the creation fails.
  unfoldable pub init_ready : Scheduler → (entry_point : ℕ) → (name : List ℕ) → Option Scheduler
  init_ready s entry_point name =
      let (out, s') = process_create address s entry_point in
      elim out [ none ↦ none | some proc ↦ some (add_ready s' name proc) ]

  unfoldable pub init_idle : Scheduler → (entry_point : ℕ) → Option Scheduler
  init_idle s entry_point =
      let (out, s') = process_create address s entry_point in
      elim out [
        | none ↦ none
        | some proc ↦ some (record (name_process s' idle_name proc) { idle_process = some proc })
      ]

  -- What `scheduler_init` does in memory, up to the start of the timer.
  unfoldable pub init_processes : EntryPoints → Scheduler → Option Scheduler
  init_processes entry s = do
    s ← init_idle (init_tables s) entry.idle_task
    s ← init_ready s entry.p1 p1_name
    s ← init_ready s entry.p2 p2_name
    init_ready s entry.motor_task motor_name

-- The process that was running, unless it is the idle one, goes to the end of the queue.
unfoldable pub requeue : Scheduler → (current idle : Option ℕ) → Scheduler
requeue s none idle = s
requeue s (some c) none =
    let s' = modify s c (λ p. record p { state = ready }) in
    record s' { ready_queue = (generic_push s.ready_queue c).1 }
requeue s (some c) (some idle) =
    let s' = modify s c (λ p. record p { state = ready }) in
    if c == idle then s else record s' { ready_queue = (generic_push s.ready_queue c).1 }

-- `next_proc`: the idle process where no other is ready.
abbrev pub next_process : Option ℕ → (idle : Option ℕ) → Option ℕ
next_process none idle = idle
next_process (some p) idle = some p

unfoldable pub dispatch : Scheduler → (next : Option ℕ) → Option Scheduler
dispatch s none = none
dispatch s (some p) =
    let s' = modify s p (λ q. record q { state = running }) in
    some (record s' { current_process = some p })

-- `scheduler_run` up to the jump to the process; `none` is the access through a NULL pointer where
-- there is neither a ready nor an idle process.
unfoldable pub scheduler_run : Scheduler → Option Scheduler
scheduler_run s =
    let s = requeue s s.current_process s.idle_process in
    let (out, q) = generic_pop s.ready_queue in
    dispatch (record s { ready_queue = q }) (next_process out s.idle_process)
