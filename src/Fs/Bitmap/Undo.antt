-- ===== src/Fs/Bitmap/Undo.antt =====
-- `bfree` (kernel/fs.c) on the bitmap, alone and after `balloc`.
use operating_system_se.Base.{
  ℕ, ◌%◌, ◌<◌, ◌≡◌, ◌≢◌, inl, inr, refl, sym, ap, subst, true, false, ◌||◌, ◌==◌, ok, arith,
  Bool-cases,
}
use operating_system_se.Fs.Volume.{bpb, Superblock, Volume, put_block}
use operating_system_se.Fs.Bitmap.{bblock, clear_bit, balloc, bfree}
use operating_system_se.Fs.Bitmap.Refine.{
  AreBytes, is_free, IsBitmap, Allocates, balloc-Allocates, bit_free-clear_bit, clear_bit-byte,
}

-- `bfree` of a block in use does not panic; that block is free then, the others are as before, and only the
-- block of the bitmap is written.
pub bfree-frees :
    (sb : Superblock) (v : Volume) (b : ℕ)
    → IsBitmap sb v
    → is_free sb v b ≡ false
    → (w : Volume) × (bfree sb b v ≡ ok w)
      × ((c : ℕ) → is_free sb w c ≡ ((c == b) || is_free sb v c))
      × ((c : ℕ) → AreBytes (w.bytes c))
      × ((c : ℕ) → c ≢ bblock sb b → w.bytes c ≡ v.bytes c)
unfolding bfree
bfree-frees sb v b h used =
    let f = v.bytes (bblock sb b) in
    (
      put_block (bblock sb b) (clear_bit f (b % bpb)) v,
      rw used refl,
      λ c. cleared-free c,
      λ c o. ground (arith, h.bytes c o, clear_bit-byte f (b % bpb) o (h.bytes (bblock sb b))),
      λ c ne. ground arith,
    )
  where
    cleared-free :
        (c : ℕ)
        → is_free sb (put_block (bblock sb b) (clear_bit (v.bytes (bblock sb b)) (b % bpb)) v) c
          ≡ ((c == b) || is_free sb v c)
    cleared-free c = elim (Bool-cases (bblock sb c == bblock sb b)) [
      | inl here ↦
          let at : bblock sb c ≡ bblock sb b = ground arith in
          let tests : (c == b) ≡ (c % bpb == b % bpb) = ground arith in
          rw (here, ap v.bytes at, tests)
            (bit_free-clear_bit (v.bytes (bblock sb b)) (b % bpb) (c % bpb) (h.bytes (bblock sb b)))
      | inr far ↦ let tests : (c == b) ≡ false = ground arith in rw (far, tests) refl
    ]

-- `balloc` keeps bytes bytes, and the blocks of the bitmap in use.
pub balloc-IsBitmap : (sb : Superblock) (v : Volume) → IsBitmap sb v → IsBitmap sb (balloc sb v).1
balloc-IsBitmap sb v h = kept (balloc sb v) (balloc-Allocates sb v h)
  where
    kept : (r : ℕ × Volume) → Allocates sb v r → IsBitmap sb r.1
    kept r (inl t) = record {
      bytes = t.bytes;
      own = λ b c hb hc free. h.own b c hb hc (ground (arith, t.now c hc));
    }
    kept r (inr (same, full)) = subst (λ q. IsBitmap sb q.1) (sym same) h

-- If a block below the size is free, `bfree` of the block that `balloc` returns does not panic, and then the
-- same blocks are free as before.
pub bfree-balloc :
    (sb : Superblock) (v : Volume)
    → IsBitmap sb v
    → (c : ℕ) → c < sb.size
    → is_free sb v c ≡ true
    → (w : Volume) × (bfree sb (balloc sb v).0 (balloc sb v).1 ≡ ok w)
      × ((d : ℕ) → d < sb.size → is_free sb w d ≡ is_free sb v d)
bfree-balloc sb v h c lt free =
    undone (balloc sb v) (balloc-IsBitmap sb v h) (balloc-Allocates sb v h)
  where
    undone :
        (r : ℕ × Volume)
        → IsBitmap sb r.1
        → Allocates sb v r
        → (w : Volume) × (bfree sb r.0 r.1 ≡ ok w)
          × ((d : ℕ) → d < sb.size → is_free sb w d ≡ is_free sb v d)
    undone r keep (inl t) =
        let (w, done, frees, _, _) =
          bfree-frees sb r.1 r.0 keep (ground (arith, t.now r.0 t.inside)) in
        (w, done, λ d hd. ground (arith, frees d, t.now d hd, t.was_free))
    undone r keep (inr (same, full)) = absurd (ground (arith, full c lt))
