-- ===== src/Str/Compare.antt =====
-- `memcmp`, `strncmp` and `strlen` of kernel/string.c against what they are for.
use operating_system_se.Base.{
  ℕ, zero, suc, ◌+◌, ◌<◌, ◌≡◌, ◌≢◌, ◌⊎◌, inl, inr, ◌↔◌, refl, arith, not, ◌==◌, if◌then◌else◌, ℤ,
  pos, sub_ℕ, sub_ℕ-eq-zero, ap, ◌∙◌,
}
use operating_system_se.Str.{Bytes, memcmp, strncmp, strlen}

-- The ranges from `p` and from `q` on agree in their first `n` bytes.
abbrev pub SameBytes : Bytes → ℕ → ℕ → ℕ → Type 0
SameBytes f p q zero = Unit
SameBytes f p q (suc n) = (f p ≡ f q) × SameBytes f (p + 1) (q + 1) n

-- `memcmp` returns 0 exactly if the `n` bytes agree.
pub memcmp-SameBytes : (f : Bytes) (p q n : ℕ) → (memcmp f p q n ≡ pos 0) ↔ SameBytes f p q n
unfolding memcmp
memcmp-SameBytes f p q zero = (λ e. tt, λ e. refl)
memcmp-SameBytes f p q (suc n) =
    memcmp-SameBytes-step (memcmp f (p + 1) (q + 1) n) (memcmp-SameBytes f (p + 1) (q + 1) n)
  where
    memcmp-SameBytes-step :
        (r : ℤ)
        → ((r ≡ pos 0) ↔ SameBytes f (p + 1) (q + 1) n)
        → ((if not (f p == f q) then sub_ℕ (f p) (f q) else r) ≡ pos 0)
          ↔ ((f p ≡ f q) × SameBytes f (p + 1) (q + 1) n)
    memcmp-SameBytes-step r ih = (
      λ e. (
        ground (arith, sub_ℕ-eq-zero (f p) (f q)),
        ih.0 (ground (arith, sub_ℕ-eq-zero (f p) (f q))),
      ),
      λ (e, t). let z = ih.1 t in ground arith,
    )

-- The strings at `p` and `q` agree up to the first NUL, or in their first `n` bytes.
abbrev pub SameString : Bytes → ℕ → ℕ → ℕ → Type 0
SameString f p q zero = Unit
SameString f p q (suc n) = (f p ≡ f q) × ((f p ≡ 0) ⊎ SameString f (p + 1) (q + 1) n)

⊎-map : {A B C : Type 0} → (B → C) → A ⊎ B → A ⊎ C
⊎-map f (inl a) = inl a
⊎-map f (inr b) = inr (f b)

strncmp-suc :
    (f : Bytes) (p q n : ℕ)
    → (strncmp f p q (suc n) ≡ pos 0)
      ↔ ((f p ≡ f q) × ((f p ≡ 0) ⊎ (strncmp f (p + 1) (q + 1) n ≡ pos 0)))
unfolding strncmp
strncmp-suc f p q n =
    (ground (arith, sub_ℕ-eq-zero (f p) (f q)), ground (arith, sub_ℕ-eq-zero (f p) (f q)))

-- `strncmp` returns 0 exactly if the strings agree up to a common NUL or in their first `n` bytes.
pub strncmp-SameString : (f : Bytes) (p q n : ℕ) → (strncmp f p q n ≡ pos 0) ↔ SameString f p q n
unfolding strncmp
strncmp-SameString f p q zero = (λ e. tt, λ e. refl)
strncmp-SameString f p q (suc n) =
    let ih = strncmp-SameString f (p + 1) (q + 1) n in
    (
      λ e. let (same, rest) = (strncmp-suc f p q n).0 e in (same, ⊎-map ih.0 rest),
      λ (same, rest). (strncmp-suc f p q n).1 (same, ⊎-map ih.1 rest),
    )

-- With enough fuel `strlen` returns the distance to the first NUL.
pub strlen_lem :
    (k fuel : ℕ) (f : Bytes) (s : ℕ)
    → k < fuel
    → ((j : ℕ) → j < k → f (s + j) ≢ 0)
    → f (s + k) ≡ 0
    → strlen fuel f s ≡ k
unfolding strlen
strlen_lem k zero f s lt before nul = absurd (omega arith)
strlen_lem zero (suc fuel) f s lt before nul = let e : s + 0 ≡ s = omega arith in ground arith
strlen_lem (suc k) (suc fuel) f s lt before nul =
    let here : f s ≢ 0 = λ z. before 0 (omega arith) (ground arith) in
    let rest : strlen fuel f (s + 1) ≡ k =
      strlen_lem k fuel f (s + 1) (omega arith)
        (λ j h z. before (j + 1) (omega arith) (shift (omega arith) z)) (ground arith) in
    ground arith
  where
    shift : {a b : ℕ} → a ≡ b → f b ≡ 0 → f a ≡ 0
    shift e z = ap f e ∙ z
