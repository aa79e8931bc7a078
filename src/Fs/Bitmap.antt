-- ===== src/Fs/Bitmap.antt =====
-- The allocator of disk blocks (`bzero`, `balloc`, `bfree` in kernel/fs.c).
pub mod Bits
pub mod Refine
pub mod Undo
use Prim.Native.Nat.{bit_and, bit_or}
use operating_system_se.Base.{
  ℕ, zero, suc, ◌+◌, ◌-◌, ◌*◌, ◌/◌, ◌%◌, ◌^◌, ◌≡◌, Option, none, some, ltb, leb, ◌==◌, ◌&&◌,
  if◌then◌else◌, min, Outcome, ok, panic, Bool, true, false,
}
use operating_system_se.Fs.Volume.{bsize, bpb, Superblock, Volume, put_block, put_byte}

-- m = 1 << (bi % 8)
abbrev pub mask : ℕ → ℕ
mask bi = 2 ^ (bi % 8)

-- BBLOCK(b, sb)
abbrev pub bblock : Superblock → ℕ → ℕ
bblock sb b = b / bpb + sb.bmapstart

unfoldable pub bzero : ℕ → Volume → Volume
bzero bno v = put_block bno (λ x. 0) v

-- The test of bit `bi` in a block of the bitmap, and its two assignments.
unfoldable pub bit_free : (ℕ → ℕ) → ℕ → Bool
bit_free f bi = bit_and (f (bi / 8)) (mask bi) == 0

unfoldable pub set_bit : (ℕ → ℕ) → ℕ → ℕ → ℕ
set_bit f bi = put_byte f (bi / 8) (bit_or (f (bi / 8)) (mask bi))

unfoldable pub clear_bit : (ℕ → ℕ) → ℕ → ℕ → ℕ
clear_bit f bi = put_byte f (bi / 8) (bit_and (f (bi / 8)) (255 - mask bi))

-- The inner loop of `balloc`, for the `n` bits from `bi` on: the first free one.
unfoldable pub scan_bits : (ℕ → ℕ) → ℕ → ℕ → Option ℕ
scan_bits f bi zero = none
scan_bits f bi (suc n) =
    let rest = scan_bits f (bi + 1) n in if bit_free f bi then some bi else rest

-- The outer loop, from block `b` on, for at most `fuel` blocks of the bitmap. The result is the block, or
-- 0.
unfoldable pub balloc_from : Superblock → ℕ → ℕ → Volume → ℕ × Volume
balloc_from sb zero b v = (0, v)
balloc_from sb (suc fuel) b v =
    let rest = balloc_from sb fuel (b + bpb) v in
    let f = v.bytes (bblock sb b) in
    if ltb b sb.size
    then (elim (scan_bits f 0 (min bpb (sb.size - b))) [
      | some bi ↦ (b + bi, bzero (b + bi) (put_block (bblock sb b) (set_bit f bi) v))
      | none ↦ rest
    ])
    else (0, v)

unfoldable pub balloc : Superblock → Volume → ℕ × Volume
balloc sb v = balloc_from sb (sb.size / bpb + 1) 0 v

unfoldable pub bfree : Superblock → ℕ → Volume → Outcome Volume
bfree sb b v =
    let f = v.bytes (bblock sb b) in
    if bit_free f (b % bpb)
    then panic "freeing free block"
    else ok (put_block (bblock sb b) (clear_bit f (b % bpb)) v)
