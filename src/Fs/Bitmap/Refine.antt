-- ===== src/Fs/Bitmap/Refine.antt =====
-- The bitmap as a set of free blocks: what `balloc` and `bfree` of kernel/fs.c do to it.
use Prim.Native.Nat.{bit_and, bit_or}
use operating_system_se.Base.{
  ℕ, zero, suc, ◌+◌, ◌-◌, ◌*◌, ◌/◌, ◌%◌, ◌≤◌, ◌<◌, ◌≡◌, ◌≢◌, ◌⊎◌, inl, inr, refl, ap, subst, Bool,
  true, false, not, ◌&&◌, ◌||◌, none, some, [], ◌∷◌, ◌++◌, ltb, ◌==◌, min, arith, Bool-cases,
  Option-cases,
}
use operating_system_se.Fs.Volume.{bpb, Superblock, Volume, put_block}
use operating_system_se.Fs.Bitmap.{
  mask, bblock, bzero, bit_free, set_bit, clear_bit, scan_bits, balloc_from, balloc,
}
use operating_system_se.Fs.Bitmap.Bits.{bit_or-byte, bit_and-byte, set_at, cleared_at}

abbrev pub AreBytes : (ℕ → ℕ) → Type 0
AreBytes f = (o : ℕ) → f o < 256

pub bit_free-set_bit :
    (f : ℕ → ℕ) (bi bj : ℕ)
    → AreBytes f
    → bit_free (set_bit f bi) bj ≡ (not (bj == bi) && bit_free f bj)
unfolding bit_free set_bit
bit_free-set_bit f bi bj h =
    let law = set_at (f (bi / 8)) (bi % 8) (bj % 8) (h (bi / 8)) (omega arith) (omega arith) in
    elim (Bool-cases (bj / 8 == bi / 8)) [
      | inl here ↦
          let at : bj / 8 ≡ bi / 8 = ground arith in
          let now : set_bit f bi (bj / 8) ≡ bit_or (f (bi / 8)) (mask bi) = ground arith in
          let tests : (bj == bi) ≡ (bj % 8 == bi % 8) = ground arith in rw (now, ap f at, tests) law
      | inr far ↦
          let now : set_bit f bi (bj / 8) ≡ f (bj / 8) = ground arith in
          let tests : (bj == bi) ≡ false = ground arith in rw (now, tests) refl
    ]

pub bit_free-clear_bit :
    (f : ℕ → ℕ) (bi bj : ℕ)
    → AreBytes f
    → bit_free (clear_bit f bi) bj ≡ ((bj == bi) || bit_free f bj)
unfolding bit_free clear_bit
bit_free-clear_bit f bi bj h =
    let law = cleared_at (f (bi / 8)) (bi % 8) (bj % 8) (h (bi / 8)) (omega arith) (omega arith) in
    elim (Bool-cases (bj / 8 == bi / 8)) [
      | inl here ↦
          let at : bj / 8 ≡ bi / 8 = ground arith in
          let now : clear_bit f bi (bj / 8) ≡ bit_and (f (bi / 8)) (255 - mask bi) = ground arith in
          let tests : (bj == bi) ≡ (bj % 8 == bi % 8) = ground arith in rw (now, ap f at, tests) law
      | inr far ↦
          let now : clear_bit f bi (bj / 8) ≡ f (bj / 8) = ground arith in
          let tests : (bj == bi) ≡ false = ground arith in rw (now, tests) refl
    ]

set_bit-byte : (f : ℕ → ℕ) (bi o : ℕ) → AreBytes f → set_bit f bi o < 256
unfolding set_bit
set_bit-byte f bi o h =
    ground (arith, h o, bit_or-byte (f (bi / 8)) (bi % 8) (h (bi / 8)) (omega arith))

pub clear_bit-byte : (f : ℕ → ℕ) (bi o : ℕ) → AreBytes f → clear_bit f bi o < 256
unfolding clear_bit
clear_bit-byte f bi o h =
    ground (arith, h o, bit_and-byte (f (bi / 8)) (bi % 8) (h (bi / 8)) (omega arith))

scan_bits-none :
    (f : ℕ → ℕ) (bi n j : ℕ) → scan_bits f bi n ≡ none → bi ≤ j → j < bi + n → bit_free f j ≡ false
unfolding scan_bits
scan_bits-none f bi zero j e lo hi = absurd (omega arith)
scan_bits-none f bi (suc n) j e lo hi = ground (arith, scan_bits-none f (bi + 1) n j)

-- The scan finds the first free bit.
record FirstFree (f : ℕ → ℕ) (bi n k : ℕ) : Type 0 where
  low : bi ≤ k
  high : k < bi + n
  free : bit_free f k ≡ true
  first : (j : ℕ) → bi ≤ j → j < k → bit_free f j ≡ false

scan_bits-some : (f : ℕ → ℕ) (bi n k : ℕ) → scan_bits f bi n ≡ some k → FirstFree f bi n k
unfolding scan_bits
scan_bits-some f bi zero k e = absurd (cc)
scan_bits-some f bi (suc n) k e = elim (Bool-cases (bit_free f bi)) [
  | inl free ↦ ground arith
  | inr used ↦
      let r = scan_bits-some f (bi + 1) n k (ground arith) in
      record {
        low = omega (arith, r.low);
        high = omega (arith, r.high);
        free = r.free;
        first = λ j lo hi. ground (arith, r.first j);
      }
]

-- Whether block `b` is free.
abbrev pub is_free : Superblock → Volume → ℕ → Bool
is_free sb v b = bit_free (v.bytes (bblock sb b)) (b % bpb)

-- The blocks of the bitmap hold bytes, and are marked as used themselves.
pub record IsBitmap (sb : Superblock) (v : Volume) : Type 0 where
  pub bytes : (b : ℕ) → AreBytes (v.bytes b)
  pub own : (b c : ℕ) → b < sb.size → c < sb.size → is_free sb v c ≡ true → c ≢ bblock sb b

-- The volume `w` is `v` after block `b` was taken, the first that was free: it is zero now.
pub record Taken (sb : Superblock) (v : Volume) (b : ℕ) (w : Volume) : Type 0 where
  pub inside : b < sb.size
  pub was_free : is_free sb v b ≡ true
  pub first : (c : ℕ) → c < b → is_free sb v c ≡ false
  pub now : (c : ℕ) → c < sb.size → is_free sb w c ≡ (not (c == b) && is_free sb v c)
  pub zeroed : (o : ℕ) → w.bytes b o ≡ 0
  pub others : (c : ℕ) → c ≢ b → c ≢ bblock sb b → w.bytes c ≡ v.bytes c
  pub bytes : (c : ℕ) → AreBytes (w.bytes c)
  pub logs : w.logged ≡ (v.logged ++ (bblock sb b ∷ [])) ++ (b ∷ [])

abbrev marked : Superblock → ℕ → Volume → Volume
marked sb b v = bzero b (put_block (bblock sb b) (set_bit (v.bytes (bblock sb b)) (b % bpb)) v)

marked-free :
    (sb : Superblock) (v : Volume) (b c : ℕ)
    → IsBitmap sb v
    → b < sb.size
    → is_free sb v b ≡ true
    → c < sb.size
    → is_free sb (marked sb b v) c ≡ (not (c == b) && is_free sb v c)
unfolding bzero
marked-free sb v b c h lt free hc =
    let apart = h.own c b hc lt free in
    elim (Bool-cases (bblock sb c == bblock sb b)) [
      | inl here ↦
          let at : bblock sb c ≡ bblock sb b = ground arith in
          let now : (marked sb b v).bytes (bblock sb c)
              ≡ set_bit (v.bytes (bblock sb b)) (b % bpb) =
            ground (arith, apart) in
          let tests : (c == b) ≡ (c % bpb == b % bpb) = ground arith in
          rw (now, ap v.bytes at, tests)
            (bit_free-set_bit (v.bytes (bblock sb b)) (b % bpb) (c % bpb) (h.bytes (bblock sb b)))
      | inr far ↦
          let now : (marked sb b v).bytes (bblock sb c) ≡ v.bytes (bblock sb c) =
            ground (arith, apart) in
          let tests : (c == b) ≡ false = ground arith in rw (now, tests) refl
    ]

marked-Taken :
    (sb : Superblock) (v : Volume) (b : ℕ)
    → IsBitmap sb v
    → b < sb.size
    → is_free sb v b ≡ true
    → ((c : ℕ) → c < b → is_free sb v c ≡ false)
    → Taken sb v b (marked sb b v)
unfolding bzero
marked-Taken sb v b h lt free first = record {
  inside = lt;
  was_free = free;
  first = first;
  now = λ c hc. marked-free sb v b c h lt free hc;
  zeroed = λ o. ground arith;
  others = λ c n m. ground arith;
  bytes = λ c o. ground (
    arith,
    h.bytes c o,
    set_bit-byte (v.bytes (bblock sb b)) (b % bpb) o (h.bytes (bblock sb b)),
  );
  logs = refl;
}

-- What `balloc` returns: a block that it took, or 0 where none is free.
abbrev pub Allocates : Superblock → Volume → ℕ × Volume → Type 0
Allocates sb v r =
    Taken sb v r.0 r.1 ⊎ ((r ≡ (0, v)) × ((c : ℕ) → c < sb.size → is_free sb v c ≡ false))

-- Where bit `bi` of the bitmap's block for `b` is.
bit_of-block :
    (sb : Superblock) (v : Volume) (b c : ℕ)
    → b % bpb ≡ 0
    → b ≤ c
    → c < b + bpb
    → is_free sb v c ≡ bit_free (v.bytes (bblock sb b)) (c - b)
bit_of-block sb v b c m lo hi =
    let at : bblock sb c ≡ bblock sb b = omega arith in
    let off : c % bpb ≡ c - b = omega arith in rw (at, off) refl

balloc_from-Allocates :
    (sb : Superblock) (fuel b : ℕ) (v : Volume)
    → IsBitmap sb v
    → b % bpb ≡ 0
    → sb.size ≤ b + fuel * bpb
    → ((c : ℕ) → c < b → c < sb.size → is_free sb v c ≡ false)
    → Allocates sb v (balloc_from sb fuel b v)
unfolding balloc_from
balloc_from-Allocates sb zero b v h m enough before = inr (refl, λ c lt. before c (omega arith) lt)
balloc_from-Allocates sb (suc fuel) b v h m enough before = elim (Bool-cases (ltb b sb.size)) [
  | inr past ↦ rw past (inr (refl, λ c lt. before c (ground arith) lt))
  | inl more ↦ elim (Option-cases (scan_bits (v.bytes (bblock sb b)) 0 (min bpb (sb.size - b)))) [
    | inl full ↦
        rw (more, full)
          (balloc_from-Allocates sb fuel (b + bpb) v h (omega arith) (omega arith) (λ c lt in_size.
            ground (
              arith,
              before c,
              bit_of-block sb v b c m,
              scan_bits-none (v.bytes (bblock sb b)) 0 (min bpb (sb.size - b)) (c - b) full,
            )))
    | inr (bi, found) ↦
        let r = scan_bits-some (v.bytes (bblock sb b)) 0 (min bpb (sb.size - b)) bi found in
        let at : bblock sb (b + bi) ≡ bblock sb b = omega (arith, r.high) in
        let off : (b + bi) % bpb ≡ bi = omega (arith, r.high) in
        let taken : Taken sb v (b + bi) (marked sb (b + bi) v) =
          marked-Taken sb v (b + bi) h (ground (arith, r.high)) (rw (at, off) r.free)
            (λ c lt. ground (arith, before c, bit_of-block sb v b c m, r.first (c - b), r.high)) in
        rw (more, found) (inl (subst (λ w. Taken sb v (b + bi) w) (rw (at, off) refl) taken))
  ]
]

-- If the blocks of the bitmap are in use, `balloc` returns the first free block, which is in use and zero then, all
-- other blocks but that of its bit as they were; or 0 and the same volume, if no block is free.
pub balloc-Allocates : (sb : Superblock) (v : Volume) → IsBitmap sb v → Allocates sb v (balloc sb v)
unfolding balloc
balloc-Allocates sb v h =
    balloc_from-Allocates sb (sb.size / bpb + 1) 0 v h refl (omega arith)
      (λ c lt in_size. absurd (omega arith))
