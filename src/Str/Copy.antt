-- ===== src/Str/Copy.antt =====
-- `safestrcpy` of kernel/string.c.
use operating_system_se.Base.{
  ℕ, zero, suc, ◌+◌, ◌≤◌, ◌<◌, ◌≡◌, ◌≢◌, ◌⊎◌, inl, inr, false, arith, ◌==◌, Bool-cases, ap, sym,
  ◌∙◌,
}
use operating_system_se.Str.{Bytes, store, safestrcpy_loop, safestrcpy}
use operating_system_se.Str.Move.{within}

-- `g` holds at `s` a string of less than `n` bytes: it ends in a NUL, agrees with the source up to
-- there, is the source up to its NUL or its first `n - 1` bytes, and `g` is `f` outside the `n` bytes.
pub record Copied (f g : Bytes) (s t n : ℕ) : Type 0 where
  pub len : ℕ
  pub fits : len < n
  pub ended : g (s + len) ≡ 0
  pub same : (j : ℕ) → j < len → g (s + j) ≡ f (t + j)
  pub whole : (f (t + len) ≡ 0) ⊎ (len + 1 ≡ n)
  pub outside : (a : ℕ) → within a s n ≡ false → g a ≡ f a

-- The two ranges of `n` bytes do not meet.
abbrev pub Apart : ℕ → ℕ → ℕ → Type 0
Apart s t n = (s + n ≤ t) ⊎ (t + n ≤ s)

-- The rest of a copy, after one byte that is not NUL.
Copied-cons :
    (f g : Bytes) (s t n : ℕ)
    → Apart s t (suc n)
    → f t ≢ 0
    → Copied (store f s (f t)) g (s + 1) (t + 1) n
    → Copied f g s t (suc n)
Copied-cons f g s t n far ne c = record {
  len = suc c.len;
  fits = omega (arith, c.fits);
  ended = ap_at (omega arith) c.ended;
  same = all_same;
  whole = whole_at;
  outside = λ a h. ground (arith, c.outside a);
}
  where
    ap_at : {a b : ℕ} → a ≡ b → g a ≡ 0 → g b ≡ 0
    ap_at e z = sym (ap g e) ∙ z

    all_same : (j : ℕ) → j < suc c.len → g (s + j) ≡ f (t + j)
    all_same zero h = ground (arith, c.outside s)
    all_same (suc j) h = ground (arith, c.same j)

    whole_at : (f (t + suc c.len) ≡ 0) ⊎ (suc c.len + 1 ≡ suc n)
    whole_at = ground (arith, c.whole, c.fits)

safestrcpy_loop-Copied :
    (f : Bytes) (s t n : ℕ) → Apart s t (suc n) → Copied f (safestrcpy_loop f s t n) s t (suc n)
unfolding safestrcpy_loop
safestrcpy_loop-Copied f s t zero far = record {
  len = 0;
  fits = omega arith;
  ended = ground arith;
  same = λ j h. absurd (omega arith);
  whole = inr (omega arith);
  outside = λ a h. ground arith;
}
safestrcpy_loop-Copied f s t (suc n) far = elim (Bool-cases (f t == 0)) [
  | inl nul ↦ rw nul (record {
    len = 0;
    fits = omega arith;
    ended = ground arith;
    same = λ j h. absurd (omega arith);
    whole = inl (ground arith);
    outside = λ a h. ground arith;
  })
  | inr more ↦ rw more (
      Copied-cons f _ s t (suc n) far (ground arith)
        (safestrcpy_loop-Copied (store f s (f t)) (s + 1) (t + 1) n (omega arith)))
]

-- For `n` above 0 and ranges that do not meet, `safestrcpy` always leaves a NUL-terminated string in
-- its `n` bytes: the source up to its NUL, or its first `n - 1` bytes; it writes nowhere else.
pub safestrcpy-Copied :
    (f : Bytes) (s t n : ℕ) → 0 < n → Apart s t n → Copied f (safestrcpy f s t n) s t n
unfolding safestrcpy
safestrcpy-Copied f s t zero h far = absurd (omega arith)
safestrcpy-Copied f s t (suc n) h far = safestrcpy_loop-Copied f s t n far
