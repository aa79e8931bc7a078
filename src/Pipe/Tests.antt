-- ===== src/Pipe/Tests.antt =====
-- The theorems about kernel/pipe.c at pipes whose counters are about to wrap.
use operating_system_se.Base.{
  ℕ, zero, suc, ◌-◌, ◌^◌, ◌≡◌, refl, ap, true, false, Option, none, some, List, [], ◌∷◌, ◌++◌,
  arith, length, replicate,
}
use operating_system_se.Pipe.{Pipe, is_empty, put, get, write_loop, read_loop}
use operating_system_se.Pipe.Ring.{IsValid, contents, put-contents}
use operating_system_se.Pipe.Write.{Wrote, write_loop-Wrote}
use operating_system_se.Pipe.Read.{Took, read_loop-Took, read_loop-loses}

length-zeros : (n : ℕ) → length (replicate {A = ℕ} n 0) ≡ n
length-zeros zero = refl
length-zeros (suc n) = ap suc (length-zeros n)

abbrev at_wrap : Pipe
at_wrap = record {
  ring = replicate 512 0;
  nread = 2 ^ 32 - 1;
  nwrite = 2 ^ 32 - 1;
  readopen = true;
  writeopen = true;
}

at_wrap-IsValid : IsValid at_wrap
at_wrap-IsValid = record {
  room = length-zeros 512;
  reads = omega arith;
  writes = omega arith;
  bounded = omega arith;
}

-- Byte 7 at every user address.
abbrev sevens : ℕ → Option ℕ
sevens a = some 7

wraps : (write_loop sevens (λ i. false) 0 2 0 at_wrap).1.nwrite ≡ 1
unfolding write_loop
wraps = refl

write_loop-Wrote_example : Wrote sevens 0 2 0 at_wrap (write_loop sevens (λ i. false) 0 2 0 at_wrap)
write_loop-Wrote_example = write_loop-Wrote sevens (λ i. false) 0 2 0 at_wrap at_wrap-IsValid

abbrev append_byte : ℕ → ℕ → List ℕ → List ℕ
append_byte a b u = u ++ (b ∷ [])

one-IsValid : IsValid (put 7 at_wrap)
one-IsValid = (put-contents 7 at_wrap at_wrap-IsValid refl).0

read_loop-Took_example :
    Took append_byte 100 5 0
      (put 7 at_wrap)
      []
      (read_loop (λ a b w. some (append_byte a b w)) 100 5 0 (put 7 at_wrap) [])
read_loop-Took_example = read_loop-Took append_byte 100 5 0 (put 7 at_wrap) [] one-IsValid

one_waits : is_empty (put 7 at_wrap) ≡ false
unfolding put
one_waits = refl

read_loop-loses_example :
    (read_loop {U = List ℕ} (λ a b w. none) 100 5 0 (put 7 at_wrap) (0 ∷ [])
      ≡ (0, (get (put 7 at_wrap)).1, 0 ∷ []))
    × (contents (put 7 at_wrap) ≡ (get (put 7 at_wrap)).0 ∷ contents (get (put 7 at_wrap)).1)
read_loop-loses_example =
    read_loop-loses (λ a b w. none) 100 4 0 (put 7 at_wrap) (0 ∷ []) one-IsValid one_waits refl
