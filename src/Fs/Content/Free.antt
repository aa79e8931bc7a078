-- ===== src/Fs/Content/Free.antt =====
-- Sets of blocks that are freed (kernel/fs.c, `bfree`).
use operating_system_se.Base.{
  ℕ, zero, suc, ◌+◌, ◌≤◌, ◌<◌, ◌≡◌, ◌≢◌, inl, inr, refl, ap, ap₂, sym, ◌∙◌, Bool, false, not, ◌&&◌,
  ◌==◌, ◌||◌, ok, arith, Bool-cases,
}
use operating_system_se.Fs.Volume.{Superblock, Volume}
use operating_system_se.Fs.Bitmap.{bblock}
use operating_system_se.Fs.Bitmap.Refine.{is_free}
use operating_system_se.Fs.Blocks.Owned.{IsSound, IsOwned}
use operating_system_se.Fs.Bitmap.{bfree}
use operating_system_se.Fs.Bitmap.Undo.{bfree-frees}
use operating_system_se.Fs.Blocks.{bfree_nonzero}

-- Whether block `c` is one of the `n` addresses from g i on; 0 is no block.
abbrev pub among : (ℕ → ℕ) → (i n c : ℕ) → Bool
among g i zero c = false
among g i (suc n) c = (not (g i == 0) && (c == g i)) || among g (i + 1) n c

pub among-false :
    (g : ℕ → ℕ) (i n c : ℕ)
    → ((k : ℕ) → i ≤ k → k < i + n → g k ≢ 0 → g k ≢ c)
    → among g i n c ≡ false
among-false g i zero c h = refl
among-false g i (suc n) c h =
    ground (arith, h i, among-false g (i + 1) n c (λ k lo hi. h k (omega arith) (omega arith)))

pub among-same :
    (g f : ℕ → ℕ) (i j n c : ℕ)
    → ((k : ℕ) → k < n → f (j + k) ≡ g (i + k))
    → among f j n c ≡ among g i n c
among-same g f i j zero c h = refl
among-same g f i j (suc n) c h =
    let head : f j ≡ g i = ap f (omega arith) ∙ h 0 (omega arith) ∙ ap g (omega arith) in
    ap₂ (λ a t. (not (a == 0) && (c == a)) || t) head
      (among-same g f (i + 1) (j + 1) n c
        (λ k lt. ap f (omega arith) ∙ h (k + 1) (omega arith) ∙ ap g (omega arith)))

pub among-append :
    (g : ℕ → ℕ) (i m n c : ℕ) → among g i (m + n) c ≡ (among g i m c || among g (i + m) n c)
among-append g i zero n c =
    let e : 0 + n ≡ n = omega arith in let e' : i + 0 ≡ i = omega arith in rw (e, e') refl
among-append g i (suc m) n c =
    let e : suc m + n ≡ suc (m + n) = omega arith in
    let e' : i + suc m ≡ i + 1 + m = omega arith in
    rw (e, e') (ground (arith, among-append g (i + 1) m n c))

pub among-empty :
    (g : ℕ → ℕ) (i n c : ℕ) → ((k : ℕ) → i ≤ k → k < i + n → g k ≡ 0) → among g i n c ≡ false
among-empty g i n c h = among-false g i n c (λ k lo hi ne. absurd (ne (h k lo hi)))

module _ (sb : Superblock) where
  -- The blocks of a set are free now, the others as before; only the bitmap was written.
  pub record Frees (set : ℕ → Bool) (v w : Volume) : Type 0 where
    pub sound : IsSound sb w
    pub free : (c : ℕ) → is_free sb w c ≡ (set c || is_free sb v c)
    pub keeps : (c : ℕ) → ((d : ℕ) → d < sb.size → c ≢ bblock sb d) → w.bytes c ≡ v.bytes c

  pub Frees-refl : (v : Volume) → IsSound sb v → Frees (λ c. false) v v
  Frees-refl v s = record { sound = s; free = λ c. refl; keeps = λ c p. refl }

  pub Frees-trans :
      (s t : ℕ → Bool) (u v w : Volume) → Frees s u v → Frees t v w → Frees (λ c. s c || t c) u w
  Frees-trans s t u v w p q = record {
    sound = q.sound;
    free = λ c. ground (arith, p.free c, q.free c);
    keeps = λ c h. q.keeps c h ∙ p.keeps c h;
  }

  pub bfree-Frees :
      (b : ℕ) (v : Volume)
      → IsSound sb v
      → IsOwned sb v b
      → b ≢ 0
      → (w : Volume) × (bfree sb b v ≡ ok w) × Frees (λ c. c == b) v w
  bfree-Frees b v s own nz =
      let (w, run, free, bytes, keeps) = bfree-frees sb v b s.bitmap own.used in
      (
        w,
        run,
        record {
          sound = record {
            bitmap = record {
              bytes = bytes;
              own = λ c d hc hd e. elim (Bool-cases (d == b)) [
                | inl here ↦ (λ z. own.plain c hc (sym (ground arith) ∙ z))
                | inr there ↦ s.bitmap.own c d hc hd (ground (arith, free d, e))
              ];
            };
            boot = ground (arith, free 0, s.boot);
            small = s.small;
          };
          free = free;
          keeps = λ c p. keeps c (p b own.inside);
        },
      )

  pub bfree_nonzero-Frees :
      (b : ℕ) (v : Volume)
      → IsSound sb v
      → (b ≢ 0 → IsOwned sb v b)
      → (w : Volume) × (bfree_nonzero sb b v ≡ ok w) × Frees (λ c. not (b == 0) && (c == b)) v w
  bfree_nonzero-Frees b v s own = elim (Bool-cases (b == 0)) [
    | inl z ↦ rw z (v, refl, Frees-refl v s)
    | inr ne ↦ rw ne (bfree-Frees b v s (own (ground arith)) (ground arith))
  ]

  -- A block that is not freed stays in use.
  pub Frees-IsOwned :
      (s : ℕ → Bool) (v w : Volume) (c : ℕ)
      → Frees s v w
      → s c ≡ false
      → IsOwned sb v c
      → IsOwned sb w c
  Frees-IsOwned s v w c f out own = record {
    inside = own.inside;
    used = ground (arith, f.free c, own.used);
    plain = own.plain;
  }

  -- The addresses g i, ... are those of blocks in use, all different.
  pub record AreOwned (g : ℕ → ℕ) (i n : ℕ) (v : Volume) : Type 0 where
    pub owned : (k : ℕ) → i ≤ k → k < i + n → g k ≢ 0 → IsOwned sb v (g k)
    pub apart : (j k : ℕ) → i ≤ j → j < i + n → i ≤ k → k < i + n → g j ≢ 0 → g j ≡ g k → j ≡ k

  pub rest_owned :
      (g : ℕ → ℕ) (i n : ℕ) (v w : Volume)
      → AreOwned g i (suc n) v
      → Frees (λ c. not (g i == 0) && (c == g i)) v w
      → AreOwned g (i + 1) n w
  rest_owned g i n v w o f = record {
    owned = λ k lo hi ne.
        Frees-IsOwned (λ c. not (g i == 0) && (c == g i)) v w (g k) f
          (ground (arith, o.apart k i (omega arith) (omega arith) (omega arith) (omega arith) ne))
          (o.owned k (omega arith) (omega arith) ne);
    apart = λ j k lj hj lk hk ne e.
        o.apart j k (omega arith) (omega arith) (omega arith) (omega arith) ne e;
  }
