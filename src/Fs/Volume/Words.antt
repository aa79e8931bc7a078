-- ===== src/Fs/Volume/Words.antt =====
-- Numbers of several bytes in a block (the casts of bp->data in kernel/fs.c), read after a write.
use operating_system_se.Base.{ℕ, ◌+◌, ◌^◌, ◌≤◌, ◌<◌, ◌≡◌, ◌⊎◌, arith}
use operating_system_se.Fs.Volume.{get_16, put_16, get_32, put_32}

pub get_16-put_16 : (f : ℕ → ℕ) (o v : ℕ) → v < 2 ^ 16 → get_16 (put_16 f o v) o ≡ v
unfolding get_16 put_16
get_16-put_16 f o v h = ground arith

pub get_32-put_32 : (f : ℕ → ℕ) (o v : ℕ) → v < 2 ^ 32 → get_32 (put_32 f o v) o ≡ v
unfolding get_32 put_32
get_32-put_32 f o v h = ground arith

-- Numbers elsewhere stay.
pub get_16-frame :
    (f g : ℕ → ℕ) (p : ℕ) → g p ≡ f p → g (p + 1) ≡ f (p + 1) → get_16 g p ≡ get_16 f p
unfolding get_16
get_16-frame f g p a b = ground arith

pub get_32-frame :
    (f g : ℕ → ℕ) (p : ℕ)
    → g p ≡ f p
    → g (p + 1) ≡ f (p + 1)
    → g (p + 2) ≡ f (p + 2)
    → g (p + 3) ≡ f (p + 3)
    → get_32 g p ≡ get_32 f p
unfolding get_32
get_32-frame f g p a b c d = ground arith

pub put_16-outside : (f : ℕ → ℕ) (o v x : ℕ) → (x < o) ⊎ (o + 2 ≤ x) → put_16 f o v x ≡ f x
unfolding put_16
put_16-outside f o v x h = ground arith

pub put_32-outside : (f : ℕ → ℕ) (o v x : ℕ) → (x < o) ⊎ (o + 4 ≤ x) → put_32 f o v x ≡ f x
unfolding put_32
put_32-outside f o v x h = ground arith

pub get_32-zero : (f : ℕ → ℕ) (p : ℕ) → ((x : ℕ) → f x ≡ 0) → get_32 f p ≡ 0
unfolding get_32
get_32-zero f p z = ground (arith, z p, z (p + 1), z (p + 2), z (p + 3))

pub put_32-byte : (f : ℕ → ℕ) (o v x : ℕ) → f x < 256 → put_32 f o v x < 256
unfolding put_32
put_32-byte f o v x h = ground arith

pub put_16-byte : (f : ℕ → ℕ) (o v x : ℕ) → f x < 256 → put_16 f o v x < 256
unfolding put_16
put_16-byte f o v x h = ground arith
