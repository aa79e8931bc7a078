-- ===== src/Printf/Digits.antt =====
-- The digits that `printint` writes (kernel/printf.c).
use operating_system_se.Base.{
  ℕ, zero, suc, ◌+◌, ◌-◌, ◌*◌, ◌/◌, ◌%◌, ◌^◌, ◌≤◌, ◌<◌, ◌≡◌, ◌⊎◌, inl, inr, refl, ap, sym, ◌∙◌,
  Bool, true, false, List, [], ◌∷◌, ◌++◌, ltb, leb, ◌==◌, if◌then◌else◌, length, length-append,
  arith, Bool-cases,
}
use operating_system_se.Printf.{
  digit, digits_of, is_minus, magnitude, sign_chars, printint_buf, backwards, printint,
}

-- The bases that `printf` uses.
abbrev pub Base : ℕ → Type 0
Base b = (b ≡ 10) ⊎ (b ≡ 16)

-- The value of a digit, and of digits that are read from the left.
abbrev pub undigit : ℕ → ℕ
undigit c = if ltb c 58 then c - 48 else c - 87

abbrev pub read_from : (base : ℕ) → List ℕ → ℕ → ℕ
read_from base [] n = n
read_from base (c ∷ cs) n = read_from base cs (n * base + undigit c)

abbrev pub read_number : (base : ℕ) → List ℕ → ℕ
read_number base cs = read_from base cs 0

undigit-digit : (d : ℕ) → d < 16 → undigit (digit d) ≡ d
undigit-digit d lt = ground arith

read_from-append :
    (base : ℕ) (cs : List ℕ) (c n : ℕ)
    → read_from base (cs ++ (c ∷ [])) n ≡ read_from base cs n * base + undigit c
read_from-append base [] c n = refl
read_from-append base (d ∷ cs) c n = read_from-append base cs c (n * base + undigit d)

-- One step of the division.
step : (b x : ℕ) → Base b → (x / b * b + x % b ≡ x) × (x % b < 16)
step b x (inl e) = rw e (omega arith, omega arith)
step b x (inr e) = rw e (omega arith, omega arith)

shrink : (b x n : ℕ) → Base b → x < 2 ^ suc n → x / b < 2 ^ n
shrink b x n (inl e) lt = rw e (omega arith)
shrink b x n (inr e) lt = rw e (omega arith)

digits_of-read :
    (fuel b x : ℕ) → Base b → x < 2 ^ fuel → read_number b (backwards (digits_of fuel b x)) ≡ x
unfolding digits_of
digits_of-read zero b x base lt = omega arith
digits_of-read (suc fuel) b x base lt =
    let (whole, small) = step b x base in
    elim (Bool-cases (x / b == 0)) [
      | inl last ↦
          let z : x / b ≡ 0 = ground arith in
          rw last (omega (arith, undigit-digit (x % b) small, ap (λ q. q * b) z, whole))
      | inr more ↦ rw more (
          read_from-append b (backwards (digits_of fuel b (x / b))) (digit (x % b)) 0
          ∙ ap (λ q. q * b + undigit (digit (x % b)))
              (digits_of-read fuel b (x / b) base (shrink b x fuel base lt))
          ∙ ap (λ d. x / b * b + d) (undigit-digit (x % b) small)
          ∙ whole)
    ]

shorter : (b x k : ℕ) → Base b → x < 10 ^ suc k → x / b < 10 ^ k
shorter b x k (inl e) lt = rw e (omega arith)
shorter b x k (inr e) lt = rw e (omega arith)

-- A number below 10^(k+1) has at most k+1 digits.
digits_of-short : (fuel k b x : ℕ) → Base b → x < 10 ^ suc k → length (digits_of fuel b x) ≤ suc k
unfolding digits_of
digits_of-short zero k b x base lt = omega arith
digits_of-short (suc fuel) k b x base lt = elim (Bool-cases (x / b == 0)) [
  | inl last ↦ rw last (omega arith)
  | inr more ↦
      rw more (deeper k (shorter b x k base lt) (λ j. digits_of-short fuel j b (x / b) base) more)
]
  where
    deeper :
        (k : ℕ)
        → x / b < 10 ^ k
        → ((j : ℕ) → x / b < 10 ^ suc j → length (digits_of fuel b (x / b)) ≤ suc j)
        → (x / b == 0) ≡ false
        → suc (length (digits_of fuel b (x / b))) ≤ suc k
    deeper zero lt ih more = absurd (ground arith)
    deeper (suc k) lt ih more = omega (arith, ih k lt)

append_nil : (l : List ℕ) → l ++ [] ≡ l
append_nil [] = refl
append_nil (c ∷ l) = ap (λ k. c ∷ k) (append_nil l)

-- What `printint` writes for an unsigned number of 64 bits in base 10 or 16, read as a number in that base, is
-- the number.
pub printint-read_number :
    (base xx : ℕ) → Base base → xx < 2 ^ 64 → read_number base (printint xx base false) ≡ xx
unfolding printint printint_buf
printint-read_number base xx b lt =
    ap (λ l. read_number base (backwards l)) (append_nil (digits_of 64 base xx))
    ∙ digits_of-read 64 base xx b lt

sign_short :
    (xx : ℕ) (sign : Bool) (base : ℕ)
    → Base base
    → xx < 2 ^ 64
    → length (digits_of 64 base (magnitude xx sign)) + length (sign_chars (is_minus xx sign)) ≤ 20
sign_short xx sign base b lt = elim (Bool-cases (is_minus xx sign)) [
  | inl minus ↦
      rw minus (omega (arith, digits_of-short 64 18 base ((2 ^ 64 - xx) % 2 ^ 64) b (small minus)))
  | inr plus ↦ rw plus (omega (arith, digits_of-short 64 19 base xx b (omega arith)))
]
  where
    small : is_minus xx sign ≡ true → (2 ^ 64 - xx) % 2 ^ 64 < 10 ^ 19
    small minus = (let big : leb (2 ^ 63) xx ≡ true = ground arith in ground arith)

backwards-last : (cs : List ℕ) (c : ℕ) → backwards (cs ++ (c ∷ [])) ≡ c ∷ backwards cs
backwards-last [] c = refl
backwards-last (d ∷ cs) c = ap (λ l. l ++ (d ∷ [])) (backwards-last cs c)

-- A negative number is written as '-' and its absolute value.
printint-negative :
    (base xx : ℕ)
    → 2 ^ 63 ≤ xx
    → xx < 2 ^ 64
    → printint xx base true ≡ 45 ∷ printint (2 ^ 64 - xx) base false
unfolding printint printint_buf
printint-negative base xx ge lt =
    let minus : leb (2 ^ 63) xx ≡ true = ground arith in
    let same : (2 ^ 64 - xx) % 2 ^ 64 ≡ 2 ^ 64 - xx = omega arith in
    rw (minus, same)
      (backwards-last (digits_of 64 base (2 ^ 64 - xx)) 45
        ∙ ap (λ l. 45 ∷ backwards l) (sym (append_nil (digits_of 64 base (2 ^ 64 - xx)))))

-- For every number of 64 bits, signed or not, in base 10 or 16, `printint` puts at most 20 characters into its
-- buffer of 20.
pub printint_buf-fits :
    (base xx : ℕ) (sign : Bool) → Base base → xx < 2 ^ 64 → length (printint_buf xx base sign) ≤ 20
unfolding printint_buf
printint_buf-fits base xx sign b lt = omega (
  arith,
  sign_short xx sign base b lt,
  length-append (digits_of 64 base (magnitude xx sign)) (sign_chars (is_minus xx sign)),
)
