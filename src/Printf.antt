-- ===== src/Printf.antt =====
-- kernel/printf.c: the arguments of the calls of consputc(), in order. Characters are their codes; a `long long` is
-- its 64 bits; the lock makes a call one step.
pub mod Digits
mod Tests
use operating_system_se.Base.{
  ℕ, zero, suc, ◌+◌, ◌-◌, ◌*◌, ◌/◌, ◌%◌, ◌^◌, Bool, true, false, not, ◌&&◌, Option, none, some,
  List, [], ◌∷◌, ◌++◌, ltb, leb, ◌==◌, if◌then◌else◌,
}
use operating_system_se.Str.{Bytes}

-- digits[d]
abbrev pub digit : ℕ → ℕ
digit d = if ltb d 10 then 48 + d else 87 + d

-- The loop of `printint` that fills `buf`, for at most `fuel` digits: the last digit is first.
unfoldable pub digits_of : (fuel base x : ℕ) → List ℕ
digits_of zero base x = []
digits_of (suc fuel) base x =
    let rest = digits_of fuel base (x / base) in
    digit (x % base) ∷ (if x / base == 0 then [] else rest)

-- The number and the sign that `printint` prints.
abbrev pub is_minus : (xx : ℕ) (sign : Bool) → Bool
is_minus xx sign = sign && leb (2 ^ 63) xx

abbrev pub magnitude : (xx : ℕ) (sign : Bool) → ℕ
magnitude xx sign = if is_minus xx sign then (2 ^ 64 - xx) % 2 ^ 64 else xx

-- '-', if there is one.
abbrev pub sign_chars : Bool → List ℕ
sign_chars minus = if minus then 45 ∷ [] else []

-- `buf` when it is full; a number below 2^64 has at most 64 digits.
unfoldable pub printint_buf : (xx base : ℕ) (sign : Bool) → List ℕ
unfolding digits_of
printint_buf xx base sign = digits_of 64 base (magnitude xx sign) ++ sign_chars (is_minus xx sign)

-- The loop that writes `buf` from its end.
abbrev pub backwards : List ℕ → List ℕ
backwards [] = []
backwards (c ∷ cs) = backwards cs ++ (c ∷ [])

unfoldable pub printint : (xx base : ℕ) (sign : Bool) → List ℕ
unfolding printint_buf
printint xx base sign = backwards (printint_buf xx base sign)

-- The loop of `printptr`, with `n` digits to go.
unfoldable pub hex_digits : (n x : ℕ) → List ℕ
hex_digits zero x = []
hex_digits (suc n) x = digit (x / 2 ^ 60) ∷ hex_digits n (x * 16 % 2 ^ 64)

unfoldable pub printptr : ℕ → List ℕ
unfolding hex_digits
printptr x = 48 ∷ 120 ∷ hex_digits 16 x

-- What follows a %: a number of 32 or 64 bits, signed or not, with `skip` characters more; and the others.
pub data Conversion : Type 0 where
  int_32 : (base : ℕ) (sign : Bool) → Conversion
  int_64 : (base : ℕ) (sign : Bool) (skip : ℕ) → Conversion
  pointer : Conversion
  char : Conversion
  string : Conversion
  percent : Conversion
  stop : Conversion
  unknown : Conversion

-- The characters of the conversions: d u x l p c s %.
unfoldable pub conversion : (c0 c1 c2 : ℕ) → Conversion
conversion c0 c1 c2 =
    if c0 == 100
    then int_32 10 true
    else if (c0 == 108) && (c1 == 100)
    then int_64 10 true 1
    else if (c0 == 108) && ((c1 == 108) && (c2 == 100))
    then int_64 10 true 2
    else if c0 == 117
    then int_32 10 false
    else if (c0 == 108) && (c1 == 117)
    then int_64 10 false 1
    else if (c0 == 108) && ((c1 == 108) && (c2 == 117))
    then int_64 10 false 2
    else if c0 == 120
    then int_32 16 false
    else if (c0 == 108) && (c1 == 120)
    then int_64 16 false 1
    else if (c0 == 108) && ((c1 == 108) && (c2 == 120))
    then int_64 16 false 2
    else if c0 == 112
    then pointer
    else if c0 == 99
    then char
    else if c0 == 115
    then string
    else if c0 == 37
    then percent
    else if c0 == 0
    then stop
    else unknown

-- va_arg: an int as a long long, and a uint.
abbrev pub sign_extend : ℕ → ℕ
sign_extend a = if ltb (a % 2 ^ 32) (2 ^ 31) then a % 2 ^ 32 else a % 2 ^ 32 + (2 ^ 64 - 2 ^ 32)

abbrev pub word_32 : (sign : Bool) → ℕ → ℕ
word_32 sign a = if sign then sign_extend a else a % 2 ^ 32

-- The characters of a string, `fuel` at most.
unfoldable pub string_at : (fuel s : ℕ) → Bytes → List ℕ
string_at zero s mem = []
string_at (suc fuel) s mem =
    let rest = string_at fuel (s + 1) mem in if mem s == 0 then [] else mem s ∷ rest

-- "(null)"
abbrev pub null_string : List ℕ
null_string = 40 ∷ 110 ∷ 117 ∷ 108 ∷ 108 ∷ 41 ∷ []

abbrev pub first : List ℕ → ℕ
first [] = 0
first (a ∷ more) = a

abbrev pub others : List ℕ → List ℕ
others [] = []
others (a ∷ more) = more

-- A round of the loop of `printf`: what it writes, by how many characters it moves on, and the arguments left.
pub record Round : Type 0 where
  pub out : List ℕ
  pub moves : ℕ
  pub left : List ℕ

-- The round at the character at `f`, with these arguments; none if it is the last. A call has an argument for each
-- conversion. Strings are read for at most `fuel` characters.
unfoldable pub round : (fuel f : ℕ) → Bytes → List ℕ → Option Round
round fuel f mem args =
    let c0 = mem (f + 1) in
    let c1 = if c0 == 0 then 0 else mem (f + 2) in
    let c2 = if c1 == 0 then 0 else mem (f + 3) in
    let a = first args in
    let next : ℕ → List ℕ → Option Round =
      λ n out. some (record { out = out; moves = 2 + n; left = others args }) in
    let literal : ℕ → List ℕ → Option Round =
      λ n out. some (record { out = out; moves = n; left = args }) in
    let convert : Option Round = elim (conversion c0 c1 c2) [
      | int_32 base sign ↦ next 0 (printint (word_32 sign a) base sign)
      | int_64 base sign skip ↦ next skip (printint a base sign)
      | pointer ↦ next 0 (printptr a)
      | char ↦ next 0 (a % 2 ^ 32 ∷ [])
      | string ↦ next 0 (if a == 0 then null_string else string_at fuel a mem)
      | percent ↦ literal 2 (37 ∷ [])
      | stop ↦ none
      | unknown ↦ literal 2 (37 ∷ c0 ∷ [])
    ] in
    if mem f == 0 then none else if not (mem f == 37) then literal 1 (mem f ∷ []) else convert

-- `printf` from the character at `f` on, for at most `fuel` rounds.
unfoldable pub printf : (fuel f : ℕ) → Bytes → List ℕ → List ℕ
unfolding round
printf zero f mem args = []
printf (suc fuel) f mem args = elim (round fuel f mem args) [
  | none ↦ []
  | some r ↦ r.out ++ printf fuel (f + r.moves) mem r.left
]
