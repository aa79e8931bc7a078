-- ===== src/Printf/Tests.antt =====
-- Runs of `printf` (kernel/printf.c).
use operating_system_se.Base.{
  ◌-◌, ◌^◌, ◌≤◌, ◌≡◌, inl, inr, refl, true, false, [], ◌∷◌, length, get_or, arith,
}
use operating_system_se.Str.{Bytes}
use operating_system_se.Printf.{
  digits_of, printint_buf, printint, hex_digits, printptr, conversion, string_at, round, printf,
}
use operating_system_se.Printf.Digits.{read_number, printint-read_number, printint_buf-fits}

-- "x=%d%%" and "%s" at 0 and 8, "ok" at 16.
abbrev memory : Bytes
memory x =
    get_or
      (120 ∷ 61 ∷ 37 ∷ 100 ∷ 37 ∷ 37 ∷ 0 ∷ 0 ∷ 37 ∷ 115 ∷ 0 ∷ 0 ∷ 0 ∷ 0 ∷ 0 ∷ 0 ∷ 111 ∷ 107 ∷ 0
        ∷ [])
      x 0

-- "x=-42%"
prints_number : printf 10 0 memory ((2 ^ 32 - 42) ∷ []) ≡ 120 ∷ 61 ∷ 45 ∷ 52 ∷ 50 ∷ 37 ∷ []
unfolding printf round conversion printint printint_buf digits_of
prints_number = refl

-- "ok"
prints_string : printf 10 8 memory (16 ∷ []) ≡ 111 ∷ 107 ∷ []
unfolding printf round conversion string_at
prints_string = refl

-- "0x00000000000000ff"
prints_pointer : length (printptr 255) ≡ 18
unfolding printptr hex_digits
prints_pointer = refl

printint-read_number_example : read_number 16 (printint 48879 16 false) ≡ 48879
printint-read_number_example = printint-read_number 16 48879 (inr refl) (omega arith)

printint_buf-fits_example : length (printint_buf (2 ^ 63) 10 true) ≤ 20
printint_buf-fits_example = printint_buf-fits 10 (2 ^ 63) true (inl refl) (omega arith)
