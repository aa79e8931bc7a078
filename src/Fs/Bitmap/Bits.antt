-- ===== src/Fs/Bitmap/Bits.antt =====
-- The bits of a byte (kernel/fs.c, `balloc` and `bfree`), by evaluation over all bytes.
use Prim.Native.Nat.{bit_and, bit_or}
use operating_system_se.Base.{
  ℕ, zero, suc, ◌-◌, ◌^◌, ◌<◌, ◌≡◌, refl, Bool, true, false, ◌&&◌, ◌||◌, not, ◌==◌, ltb, arith,
  ==_iff, if◌then◌else◌,
}

-- Whether the numbers under `k` all pass the test.
every : (ℕ → Bool) → ℕ → Bool
every test zero = true
every test (suc k) = if test k then every test k else false

every_at : (test : ℕ → Bool) (k j : ℕ) → j < k → every test k ≡ true → test j ≡ true
unfolding every
every_at test zero j lt e = absurd (omega arith)
every_at test (suc k) j lt e = ground (arith, every_at test k j)

abbrev clear_at : ℕ → ℕ → Bool
clear_at x k = bit_and x (2 ^ k) == 0

abbrev same : Bool → Bool → Bool
same a b = if a then b else not b

-- What holds of the byte `x` and the bits `k` and `j`: the assignments give bytes, change the bit `k` and no
-- other, and undo each other.
bytes_law : ℕ → ℕ → ℕ → Bool
bytes_law x k j = ltb (bit_or x (2 ^ k)) 256 && ltb (bit_and x (255 - 2 ^ k)) 256

set_law : ℕ → ℕ → ℕ → Bool
set_law x k j = same (clear_at (bit_or x (2 ^ k)) j) (not (j == k) && clear_at x j)

clear_law : ℕ → ℕ → ℕ → Bool
clear_law x k j = same (clear_at (bit_and x (255 - 2 ^ k)) j) ((j == k) || clear_at x j)

undo_law : ℕ → ℕ → ℕ → Bool
undo_law x k j = not (clear_at x k) || (bit_and (bit_or x (2 ^ k)) (255 - 2 ^ k) == x)

-- A law at all bytes and bits.
abbrev everywhere : (ℕ → ℕ → ℕ → Bool) → Bool
everywhere law = every (λ x. every (λ k. every (λ j. law x k j) 8) 8) 256

everywhere-at :
    (law : ℕ → ℕ → ℕ → Bool) (x k j : ℕ)
    → everywhere law ≡ true
    → x < 256
    → k < 8
    → j < 8
    → law x k j ≡ true
everywhere-at law x k j e hx hk hj = every_at (law x k) 8 j hj (
    every_at (λ k. every (λ j. law x k j) 8) 8 k hk
      (every_at (λ x. every (λ k. every (λ j. law x k j) 8) 8) 256 x hx e))

bytes_everywhere : everywhere bytes_law ≡ true
unfolding every bytes_law
bytes_everywhere = refl

set_everywhere : everywhere set_law ≡ true
unfolding every set_law
set_everywhere = refl

clear_everywhere : everywhere clear_law ≡ true
unfolding every clear_law
clear_everywhere = refl

undo_everywhere : everywhere undo_law ≡ true
unfolding every undo_law
undo_everywhere = refl

pub bit_or-byte : (x k : ℕ) → x < 256 → k < 8 → bit_or x (2 ^ k) < 256
unfolding bytes_law
bit_or-byte x k hx hk =
    let e = everywhere-at bytes_law x k 0 bytes_everywhere hx hk (omega arith) in ground arith

pub bit_and-byte : (x k : ℕ) → x < 256 → k < 8 → bit_and x (255 - 2 ^ k) < 256
unfolding bytes_law
bit_and-byte x k hx hk =
    let e = everywhere-at bytes_law x k 0 bytes_everywhere hx hk (omega arith) in ground arith

pub set_at :
    (x k j : ℕ)
    → x < 256
    → k < 8
    → j < 8
    → (bit_and (bit_or x (2 ^ k)) (2 ^ j) == 0) ≡ (not (j == k) && (bit_and x (2 ^ j) == 0))
unfolding set_law
set_at x k j hx hk hj = same-eq _ _ (everywhere-at set_law x k j set_everywhere hx hk hj)
  where
    same-eq : (a b : Bool) → same a b ≡ true → a ≡ b
    same-eq a b e = ground arith

pub cleared_at :
    (x k j : ℕ)
    → x < 256
    → k < 8
    → j < 8
    → (bit_and (bit_and x (255 - 2 ^ k)) (2 ^ j) == 0) ≡ ((j == k) || (bit_and x (2 ^ j) == 0))
unfolding clear_law
cleared_at x k j hx hk hj = same-eq _ _ (everywhere-at clear_law x k j clear_everywhere hx hk hj)
  where
    same-eq : (a b : Bool) → same a b ≡ true → a ≡ b
    same-eq a b e = ground arith

pub undo_at :
    (x k : ℕ)
    → x < 256
    → k < 8
    → (bit_and x (2 ^ k) == 0) ≡ true
    → bit_and (bit_or x (2 ^ k)) (255 - 2 ^ k) ≡ x
unfolding undo_law
undo_at x k hx hk free =
    let e = everywhere-at undo_law x k 0 undo_everywhere hx hk (omega arith) in
    (==_iff _ x).0 (either (clear_at x k) _ free e)
  where
    either : (a b : Bool) → a ≡ true → not a || b ≡ true → b ≡ true
    either a b p q = ground arith
