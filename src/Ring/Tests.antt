-- ===== src/Ring/Tests.antt =====
-- Runs of the ring buffers at concrete inputs, and the theorems about them at such inputs.
use kernel_team_project.Base.{ℕ, ◌≡◌, refl, false, List, [], ◌∷◌, arith, update}
use kernel_team_project.Ring.{GenericBuffer, CharBuffer, newline, generic_push, char_push, char_pop}
use kernel_team_project.Ring.Generic
use kernel_team_project.Ring.Chars
use kernel_team_project.Ring.Queue
use kernel_team_project.Ring.Queue.{Op, put, get}

-- 7, then 8, round the end of the storage.
abbrev wrapped : GenericBuffer ℕ
wrapped = record { buffer = update (update (λ _. 0) 511 7) 0 8; head = 511; tail = 1; size = 2 }

wrapped-IsValid : Generic.IsValid wrapped
wrapped-IsValid = omega arith

abbrev script : List (Op ℕ)
script = put 9 ∷ get ∷ get ∷ get ∷ get ∷ []

run_refines_example : Generic.run wrapped script ≡ Queue.run 512 (7 ∷ 8 ∷ []) script
run_refines_example = Generic.run_refines script wrapped-IsValid

push_wraps : (generic_push (record wrapped { tail = 511; size = 0 }) 5).1.tail ≡ 0
unfolding generic_push
push_wraps = refl

push_full : (generic_push (record wrapped { size = 512 }) 5).0 ≡ false
unfolding generic_push
push_full = refl

-- "a\n" at the end of the storage.
abbrev line : CharBuffer
line = record {
  buffer = update (update (λ _. 0) 510 b'a') 511 newline;
  head = 510;
  tail = 0;
  size = 2;
  lines = 1;
}

line-IsValid : Chars.IsValid line
unfolding Chars.count_lines
line-IsValid = omega arith

char_push_refines_example :
    let (done, b) = char_push line 5 in
    (done, Chars.contents b) ≡ Queue.push 512 (b'a' ∷ newline ∷ []) 5
char_push_refines_example = Chars.push_refines 5 line-IsValid

char_pop_refines_example :
    let (out, b) = char_pop line in (out, Chars.contents b) ≡ Queue.pop (b'a' ∷ newline ∷ [])
char_pop_refines_example = Chars.pop_refines line-IsValid
