-- ===== src/Ddr/MemoryTest.antt =====
-- `test_ddr3_memory` of boot/ddr.c on a memory that works and on one with a broken word.
use mathlib.Core.Bool.{true}
use mathlib.Core.Path.{ap, subst}
use kernel_team_project.Base.{
  ℕ, zero, suc, ◌+◌, ◌*◌, ◌<◌, ◌≤◌, ◌≡◌, ◌∙◌, refl, sym, arith, ltb, ◌!=◌, if◌then◌else◌, some,
  List, [], ◌∷◌, ◌++◌,
}
use kernel_team_project.Regs.{Bus, Machine, Message, run-bind, log_message, uart_printf}
use kernel_team_project.Ddr.{
  test_words, test_patterns, report, test_ddr3_memory, ddr_words, ddr_start_addr,
}

abbrev patterns : List ℕ
patterns = 0xAAAAAAAA ∷ 0x55555555 ∷ 0x00000000 ∷ 0xFFFFFFFF ∷ []

ltb-suc : (n : ℕ) → ltb 0 (suc n) ≡ true
ltb-suc n = ground arith

count_same : {v p : ℕ} (errors : ℕ) → v ≡ p → (if v != p then errors + 1 else errors) ≡ errors
count_same errors e = ground arith

abbrev differs : (c p : ℕ) → ℕ
differs c p = if c != p then 1 else 0

-- How many of the patterns are not the word `c`.
abbrev differing : (c : ℕ) → List ℕ → ℕ
differing c [] = 0
differing c (p ∷ ps) = differs c p + differing c ps

three_differ : (c : ℕ) → 3 ≤ differing c patterns
three_differ c = ground arith

counted : (v p errors : ℕ) → errors ≤ (if v != p then errors + 1 else errors)
counted v p errors = ground arith

weaken : (n errors x total : ℕ) → errors ≤ n → n + x ≤ total → errors + x ≤ total
weaken n errors x total h h' = omega arith

add_sums :
    {n total : ℕ} (errors x y : ℕ) → errors + x ≤ n → n + y ≤ total → errors + (x + y) ≤ total
add_sums errors x y h h' = omega arith

-- The machine after a word has been written and read.
abbrev touched : {D : Type 0} (bus : Bus D) (addr p : ℕ) → Machine D → Machine D
touched bus addr p m = record m { dev = (bus.load addr (bus.store addr p m.dev)).1 }

module _ {D : Type 0} (bus : Bus D) where
  -- The last message of the test.
  abbrev pub verdict : (errors : ℕ) → Message
  verdict errors =
      if ltb 0 errors
      then ("Memory Test Failed! Errors: %d \n", errors ∷ [])
      else ("Memory Test Passed!\n", [])

  verdict_failed :
      {errors : ℕ}
      → 3 ≤ errors
      → verdict errors ≡ ("Memory Test Failed! Errors: %d \n", errors ∷ [])
  verdict_failed {errors} h = let positive : ltb 0 errors ≡ true = ground arith in rw positive

  report_lem :
      (errors : ℕ) (m : Machine D)
      → report bus errors m ≡ some (errors, record m { console = m.console ++ verdict errors ∷ [] })
  unfolding report log_message uart_printf
  report_lem zero m = refl
  report_lem (suc errors) m = rw (ltb-suc errors)

  -- From the loops to the whole function.
  test-patterns :
      (m : Machine D) (errors : ℕ) (d : D)
      → test_patterns bus patterns 0 m ≡ some (errors, record m { dev = d })
      → test_ddr3_memory bus m
        ≡ some (errors, record m { dev = d; console = m.console ++ verdict errors ∷ [] })
  unfolding test_ddr3_memory log_message
  test-patterns m errors d e =
      run-bind (test_patterns bus patterns 0) (report bus) e
      ∙ report_lem errors (record m { dev = d })

  module _
      (keeps : (addr value : ℕ) (d : D) → (bus.load addr (bus.store addr value d)).0 ≡ value) where
    words_kept :
        (rounds addr p errors : ℕ) (m : Machine D)
        → (d : D) × (test_words bus rounds addr p errors m ≡ some (errors, record m { dev = d }))
    unfolding test_words
    words_kept zero addr p errors m = (m.dev, refl)
    words_kept (suc rounds) addr p errors m =
        subst
          (λ n.
            (d : D) × (test_words bus rounds (addr + 4) p n (touched bus addr p m)
              ≡ some (errors, record m { dev = d })))
          (sym (count_same errors (keeps addr p m.dev)))
          (words_kept rounds (addr + 4) p errors (touched bus addr p m))

    patterns_kept :
        (ps : List ℕ) (errors : ℕ) (m : Machine D)
        → (d : D) × (test_patterns bus ps errors m ≡ some (errors, record m { dev = d }))
    unfolding test_patterns
    patterns_kept [] errors m = (m.dev, refl)
    patterns_kept (p ∷ ps) errors m =
        let (d, e) = words_kept ddr_words ddr_start_addr p errors m in
        let (d', e') = patterns_kept ps errors (record m { dev = d }) in
        (
          d',
          run-bind (test_words bus ddr_words ddr_start_addr p errors) (test_patterns bus ps) e ∙ e',
        )

    -- A memory in which a word reads as it has just been written passes the test, which returns 0 and says
    -- so, also if the writes change other words: each word is read before the next is written.
    pub memory_passes :
        (m : Machine D)
        → (d : D) × (test_ddr3_memory bus m
            ≡ some (
              0,
              record m { dev = d; console = m.console ++ ("Memory Test Passed!\n", []) ∷ [] },
            ))
    memory_passes m = let (d, e) = patterns_kept patterns 0 m in (d, test-patterns m 0 d e)

  -- A run of the inner loop that ends with `n` errors or more.
  abbrev Counts : (rounds addr p errors : ℕ) (m : Machine D) (n : ℕ) → Type 0
  Counts rounds addr p errors m n =
      (errors' : ℕ) × (d : D) × (test_words bus rounds addr p errors m
        ≡ some (errors', record m { dev = d }))
      × (n ≤ errors')

  Counts-grow :
      (rounds addr p errors n : ℕ) (m : Machine D) → n ≤ errors → Counts rounds addr p errors m n
  unfolding test_words
  Counts-grow zero addr p errors n m h = (errors, m.dev, refl, h)
  Counts-grow (suc rounds) addr p errors n m h =
      let v = (bus.load addr (bus.store addr p m.dev)).0 in
      Counts-grow rounds (addr + 4) p (if v != p then errors + 1 else errors) n
        (touched bus addr p m) (ground arith)

  module _ (target c : ℕ) (broken : (d : D) → (bus.load target d).0 ≡ c) where
    words_broken :
        (rounds addr p errors j : ℕ) (m : Machine D)
        → target ≡ addr + 4 * j
        → j < rounds
        → Counts rounds addr p errors m (errors + differs c p)
    unfolding test_words
    words_broken zero addr p errors j m here hj = absurd (omega arith)
    words_broken (suc rounds) addr p errors zero m here hj =
        let v = (bus.load addr (bus.store addr p m.dev)).0 in
        let read : v ≡ c =
          subst (λ a. (bus.load a (bus.store addr p m.dev)).0 ≡ c) (omega arith) (broken _) in
        Counts-grow rounds (addr + 4) p (if v != p then errors + 1 else errors)
          (errors + differs c p) (touched bus addr p m) (ground arith)
    words_broken (suc rounds) addr p errors (suc j) m here hj =
        let v = (bus.load addr (bus.store addr p m.dev)).0 in
        let n = if v != p then errors + 1 else errors in
        let (errors', d, e, h) =
          words_broken rounds (addr + 4) p n j (touched bus addr p m) (omega arith) (omega arith) in
        (errors', d, e, weaken n errors (differs c p) errors' (counted v p errors) h)

    patterns_broken :
        (j : ℕ) (ps : List ℕ) (errors : ℕ) (m : Machine D)
        → target ≡ ddr_start_addr + 4 * j
        → j < ddr_words
        → (errors' : ℕ) × (d : D) × (test_patterns bus ps errors m
            ≡ some (errors', record m { dev = d }))
          × (errors + differing c ps ≤ errors')
    unfolding test_patterns
    patterns_broken j [] errors m here hj = (errors, m.dev, refl, omega arith)
    patterns_broken j (p ∷ ps) errors m here hj =
        let (n, d, e, h) = words_broken ddr_words ddr_start_addr p errors j m here hj in
        let (errors', d', e', h') = patterns_broken j ps n (record m { dev = d }) here hj in
        (
          errors',
          d',
          run-bind (test_words bus ddr_words ddr_start_addr p errors) (test_patterns bus ps) e ∙ e',
          add_sums errors (differs c p) (differing c ps) h h',
        )

  -- Where one of the words that the test covers always reads as the same number, whatever has been
  -- written, the test returns 3 errors or more, and says so.
  pub broken_word_found :
      (j c : ℕ)
      → j < ddr_words
      → ((d : D) → (bus.load (ddr_start_addr + 4 * j) d).0 ≡ c)
      → (m : Machine D)
      → (errors : ℕ) × (d : D) × (test_ddr3_memory bus m
          ≡ some (
            errors,
            record m {
              dev = d;
              console = m.console ++ ("Memory Test Failed! Errors: %d \n", errors ∷ []) ∷ [];
            },
          ))
        × (3 ≤ errors)
  broken_word_found j c hj broken m =
      let (errors, d, e, h) =
        patterns_broken (ddr_start_addr + 4 * j) c broken j patterns 0 m refl hj in
      let differ = three_differ c in
      let many : 3 ≤ errors = omega arith in
      (
        errors,
        d,
        test-patterns m errors d e
            ∙ ap (λ v. some (errors, record m { dev = d; console = m.console ++ v ∷ [] }))
                (verdict_failed many),
        many,
      )
