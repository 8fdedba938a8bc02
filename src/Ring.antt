-- ===== src/Ring.antt =====
-- common/circular_buffer.c and circular_buffer.h: the two ring buffers of 512 slots. The buffer of
-- characters also counts the lines that it holds; the generic one holds pointers, so it is taken at
-- any type of element. A function that updates `*buffer` returns the new buffer beside its result.
pub mod Queue
mod Window
pub mod Generic
pub mod Chars
mod Tests
use kernel_team_project.Base.{
  ℕ, ◌+◌, ◌-◌, ◌%◌, Bool, true, false, Option, none, some, ◌==◌, if◌then◌else◌, update, u16_mod,
}

-- CHAR_BUFFER_SIZE and GENERIC_BUFFER_SIZE
abbrev pub char_buffer_size : ℕ
char_buffer_size = 512

abbrev pub generic_buffer_size : ℕ
generic_buffer_size = 512

-- The character code of '\n'.
abbrev pub newline : ℕ
newline = 10

pub record GenericBuffer {ℓ} (A : Type ℓ) : Type ℓ where
  pub buffer : ℕ → A
  pub head : ℕ
  pub tail : ℕ
  pub size : ℕ

pub record CharBuffer : Type 0 where
  pub buffer : ℕ → ℕ
  pub head : ℕ
  pub tail : ℕ
  pub size : ℕ
  pub lines : ℕ

module _ {ℓ} {A : Type ℓ} where
  unfoldable pub generic_init : GenericBuffer A → GenericBuffer A
  generic_init b = record b { head = 0; tail = 0; size = 0 }

  unfoldable pub generic_push : GenericBuffer A → A → Bool × GenericBuffer A
  generic_push b x = if b.size == generic_buffer_size then (false, b) else (
    true,
    record b {
      buffer = update b.buffer b.tail x;
      tail = (b.tail + 1) % generic_buffer_size;
      size = (b.size + 1) % u16_mod;
    },
  )

  -- The option is what is stored through `data`: `none` where the function returns false.
  unfoldable pub generic_pop : GenericBuffer A → Option A × GenericBuffer A
  generic_pop b = if b.size == 0 then (none, b) else (
    some (b.buffer b.head),
    record b { head = (b.head + 1) % generic_buffer_size; size = (b.size + u16_mod - 1) % u16_mod },
  )

unfoldable pub char_init : CharBuffer → CharBuffer
char_init b = record b { head = 0; tail = 0; size = 0; lines = 0 }

unfoldable pub char_push : CharBuffer → ℕ → Bool × CharBuffer
char_push b c = if b.size == char_buffer_size then (false, b) else (
  true,
  record b {
    buffer = update b.buffer b.tail c;
    tail = (b.tail + 1) % char_buffer_size;
    size = (b.size + 1) % u16_mod;
    lines = if c == newline then (b.lines + 1) % u16_mod else b.lines;
  },
)

unfoldable pub char_pop : CharBuffer → Option ℕ × CharBuffer
char_pop b = if b.size == 0 then (none, b) else (
  some (b.buffer b.head),
  record b {
    head = (b.head + 1) % char_buffer_size;
    size = (b.size + u16_mod - 1) % u16_mod;
    lines = if b.buffer b.head == newline then (b.lines + u16_mod - 1) % u16_mod else b.lines;
  },
)
