-- ===== src/Virtio/Counts.antt =====
-- The number of free descriptors (kernel/virtio_disk.c).
use operating_system_se.Base.{
  ℕ, zero, suc, ◌+◌, ◌<◌, ◌≡◌, inl, inr, refl, ap, Bool, true, false, ◌==◌, if◌then◌else◌, arith,
  Bool-cases,
}
use operating_system_se.Virtio.{update}

-- The number of free descriptors among the first `k`.
unfoldable pub count_free : (ℕ → Bool) → ℕ → ℕ
count_free f zero = 0
count_free f (suc k) = (if f k then 1 else 0) + count_free f k

pub count_free-same :
    (f g : ℕ → Bool) (k : ℕ) → ((i : ℕ) → i < k → g i ≡ f i) → count_free g k ≡ count_free f k
unfolding count_free
count_free-same f g zero h = refl
count_free-same f g (suc k) h =
    ground (arith, h k, count_free-same f g k (λ i lt. h i (omega arith)))

pub count_free-take :
    (f : ℕ → Bool) (i k : ℕ)
    → f i ≡ true
    → i < k
    → count_free (update f i false) k + 1 ≡ count_free f k
unfolding count_free
count_free-take f i zero e lt = absurd (omega arith)
count_free-take f i (suc k) e lt = elim (Bool-cases (k == i)) [
  | inl here ↦
      let at : k ≡ i = ground arith in
      let rest = count_free-same f (update f i false) k (λ j below. ground arith) in
      ground (arith, rest, ap f at)
  | inr there ↦ ground (arith, count_free-take f i k e)
]

pub count_free-give :
    (f : ℕ → Bool) (i k : ℕ)
    → f i ≡ false
    → i < k
    → count_free (update f i true) k ≡ count_free f k + 1
unfolding count_free
count_free-give f i zero e lt = absurd (omega arith)
count_free-give f i (suc k) e lt = elim (Bool-cases (k == i)) [
  | inl here ↦
      let at : k ≡ i = ground arith in
      let rest = count_free-same f (update f i true) k (λ j below. ground arith) in
      ground (arith, rest, ap f at)
  | inr there ↦ ground (arith, count_free-give f i k e)
]

pub count_free-none : (f : ℕ → Bool) (k : ℕ) → ((i : ℕ) → i < k → f i ≡ false) → count_free f k ≡ 0
unfolding count_free
count_free-none f zero h = refl
count_free-none f (suc k) h = ground (arith, h k, count_free-none f k (λ i lt. h i (omega arith)))
