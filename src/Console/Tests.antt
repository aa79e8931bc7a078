-- ===== src/Console/Tests.antt =====
-- The theorems on kernel/console.c at concrete inputs.
use operating_system_se.Base.{ℕ, ◌≡◌, refl, arith, List, [], ◌∷◌, ◌++◌, false, replicate, some}
use operating_system_se.Console.{Console, consoleintr, consoleread_loop, returned, uart, consputc}
use operating_system_se.Console.Ring.{Holds}
use operating_system_se.Console.Edit.{Lines, consoleintr-edit}
use operating_system_se.Console.Read.{Agrees, consoleread_loop-take_ready}

-- "hi\n" is ready, and an "x" was typed.
abbrev typed : Console
typed = record { buf = 104 ∷ 105 ∷ 10 ∷ 120 ∷ replicate 124 0; r = 0; w = 3; e = 4 }

abbrev shown : Lines
shown = record { ready = 104 ∷ 105 ∷ 10 ∷ []; line = 120 ∷ [] }

typed-Holds : Holds typed shown.ready shown.line
typed-Holds = record {
  room = refl;
  reads = omega arith;
  writes = refl;
  edits = refl;
  bounded = omega arith;
  is_ready = refl;
  is_line = refl;
  open_line = λ k h. (let e : k ≡ 0 = omega arith in rw e (omega arith));
}

-- The character after it is "y".
consoleintr-edit_example :
    Holds (consoleintr 121 typed).0 (104 ∷ 105 ∷ 10 ∷ []) (120 ∷ 121 ∷ [])
    × ((consoleintr 121 typed).1 ≡ uart 121 ∷ [])
unfolding consputc
consoleintr-edit_example = consoleintr-edit 121 typed shown typed-Holds

-- The memory as the list of the bytes that were stored.
abbrev push : ℕ → ℕ → List ℕ → List ℕ
push a b u = u ++ (b ∷ [])

consoleread_loop-take_ready_example :
    Agrees
      (λ n. false)
      (λ a b u. some (push a b u))
      2
      (120 ∷ [])
      (consoleread_loop (λ n. false) (λ a b u. some (push a b u)) 2 2 500 typed [])
      (returned 2, (10 ∷ [], 104 ∷ 105 ∷ []))
consoleread_loop-take_ready_example =
    consoleread_loop-take_ready (λ n. false) (λ a b u. some (push a b u)) 2 2 500 typed shown.ready
      shown.line [] typed-Holds
