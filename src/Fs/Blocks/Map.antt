-- ===== src/Fs/Blocks/Map.antt =====
-- The addresses of a file, as the two steps of `bmap` (kernel/fs.c) enter them.
use operating_system_se.Base.{
  ℕ, zero, suc, ◌+◌, ◌-◌, ◌*◌, ◌^◌, ◌≤◌, ◌<◌, ◌≡◌, ◌≢◌, inl, inr, refl, ap, ◌∙◌, false, List, [],
  ◌∷◌, length, ltb, ◌==◌, if◌then◌else◌, get_or, set, arith, Bool-cases,
}
use operating_system_se.Fs.Volume.{Superblock, Volume, put_block, get_32, put_32}
use operating_system_se.Fs.Volume.Words.{get_32-put_32, get_32-frame, put_32-outside, put_32-byte}
use operating_system_se.Fs.Itable.{Inode}
use operating_system_se.Fs.Bitmap.{balloc}
use operating_system_se.Fs.Blocks.Owned.{
  IsSound, IsOwned, Extends, Extends-refl, Extends-trans, put_block-Extends, New, New-ne, Fresh,
  balloc-Fresh, IsFull,
}
use operating_system_se.Fs.Blocks.{ndirect, slot_block, indirect_block}

pub get_or-set : (xs : List ℕ) (i a : ℕ) → i < length xs → get_or (set xs i a) i 0 ≡ a
get_or-set [] i a h = absurd (omega arith)
get_or-set (x ∷ xs) zero a h = refl
get_or-set (x ∷ xs) (suc i) a h = get_or-set xs i a (omega arith)

pub get_or-set_ne : (xs : List ℕ) (i k a : ℕ) → k ≢ i → get_or (set xs i a) k 0 ≡ get_or xs k 0
get_or-set_ne [] i k a h = refl
get_or-set_ne (x ∷ xs) zero zero a h = absurd (h refl)
get_or-set_ne (x ∷ xs) zero (suc k) a h = refl
get_or-set_ne (x ∷ xs) (suc i) zero a h = refl
get_or-set_ne (x ∷ xs) (suc i) (suc k) a h = get_or-set_ne xs i k a (λ e. h (ap suc e))

-- The address that a file has for block `bn`, or 0.
abbrev pub addr_of : Inode → Volume → ℕ → ℕ
addr_of ip v bn =
    if ltb bn ndirect
    then get_or ip.addrs bn 0
    else if get_or ip.addrs ndirect 0 == 0
    then 0
    else get_32 (v.bytes (get_or ip.addrs ndirect 0)) ((bn - ndirect) * 4)

module _ (sb : Superblock) where
  -- What a call that may allocate leaves: the old address, or a fresh block, or 0 where none is left.
  pub data Given (v : Volume) (old a : ℕ) (w : Volume) : Type 0 where
    kept : old ≢ 0 → a ≡ old → w ≡ v → Given v old a w
    fresh : old ≡ 0 → Fresh sb v a w → Given v old a w
    none_left : old ≡ 0 → a ≡ 0 → w ≡ v → IsFull sb v → Given v old a w

  pub slot_block-Given :
      (i : ℕ) (ip : Inode) (v : Volume)
      → IsSound sb v
      → Given v (get_or ip.addrs i 0) (slot_block sb i ip v).0 (slot_block sb i ip v).1.1
        × ((slot_block sb i ip v).1.0 ≡ (
            if (slot_block sb i ip v).0 == get_or ip.addrs i 0
            then ip
            else record ip { addrs = set ip.addrs i (slot_block sb i ip v).0 }))
  unfolding slot_block
  slot_block-Given i ip v s = elim (Bool-cases (get_or ip.addrs i 0 == 0)) [
    | inr there ↦ rw there (kept (ground arith) refl refl, ground arith)
    | inl empty ↦ elim (balloc-Fresh sb v s) [
      | inl f ↦
          let ne : ((balloc sb v).0 == 0) ≡ false = ground (arith, f.ne) in
          rw (empty, ne) (fresh (ground arith) f, ground (arith, f.ne))
      | inr (same, full) ↦ rw (empty, same) (none_left (ground arith) refl refl full, ground arith)
    ]
  ]

  -- What `indirect_block` leaves in the indirect block.
  pub record Entered (blk bn : ℕ) (v : Volume) (a : ℕ) (w : Volume) : Type 0 where
    pub entries :
        (k : ℕ)
        → get_32 (w.bytes blk) (k * 4) ≡ (if k == bn then a else get_32 (v.bytes blk) (k * 4))
    pub again : get_32 (v.bytes blk) (bn * 4) ≢ 0 → (a ≡ get_32 (v.bytes blk) (bn * 4)) × (w ≡ v)
    pub new : get_32 (v.bytes blk) (bn * 4) ≡ 0 → a ≢ 0 → New sb v a w
    pub extends : Extends sb blk v w
    pub full : a ≡ 0 → IsFull sb w

  pub entry_at : (g : ℕ → ℕ) (k bn a : ℕ) → g bn ≡ a → g k ≡ (if k == bn then a else g k)
  entry_at g k bn a e = elim (Bool-cases (k == bn)) [
    | inl here ↦ let at : k ≡ bn = ground arith in rw here (ap g at ∙ e)
    | inr other ↦ rw other refl
  ]

  put_32-entries :
      (f : ℕ → ℕ) (bn k a : ℕ)
      → a < 2 ^ 32
      → get_32 (put_32 f (bn * 4) a) (k * 4) ≡ (if k == bn then a else get_32 f (k * 4))
  put_32-entries f bn k a lt = elim (Bool-cases (k == bn)) [
    | inl here ↦
        let at : k ≡ bn = ground arith in
        rw here (ap (λ j. get_32 (put_32 f (bn * 4) a) (j * 4)) at ∙ get_32-put_32 f (bn * 4) a lt)
    | inr other ↦
        let out : (x : ℕ) → k * 4 ≤ x → x < k * 4 + 4 → put_32 f (bn * 4) a x ≡ f x =
          λ x lo hi. put_32-outside f (bn * 4) a x (ground arith) in
        rw other (
          get_32-frame f (put_32 f (bn * 4) a) (k * 4) (out (k * 4) (omega arith) (omega arith))
            (out (k * 4 + 1) (omega arith) (omega arith))
            (out (k * 4 + 2) (omega arith) (omega arith))
            (out (k * 4 + 3) (omega arith) (omega arith)))
  ]

  pub indirect_block-Entered :
      (blk bn : ℕ) (v : Volume)
      → IsSound sb v
      → IsOwned sb v blk
      → Entered blk bn v (indirect_block sb blk bn v).0 (indirect_block sb blk bn v).1
  unfolding indirect_block
  indirect_block-Entered blk bn v s own = elim (Bool-cases (get_32 (v.bytes blk) (bn * 4) == 0)) [
    | inr there ↦ rw there (record {
      entries = λ k. entry_at (λ j. get_32 (v.bytes blk) (j * 4)) k bn _ refl;
      again = λ ne. (refl, refl);
      new = λ z. absurd (ground arith);
      extends = Extends-refl sb blk v s;
      full = λ z. absurd (ground arith);
    })
    | inl empty ↦ elim (balloc-Fresh sb v s) [
      | inl f ↦
          let a : ℕ = (balloc sb v).0 in
          let w : Volume = (balloc sb v).1 in
          let ne : (a == 0) ≡ false = ground (arith, f.ne) in
          let apart : blk ≢ a = New-ne sb v a w blk f.new own in
          let ext : Extends sb blk v w = f.extends blk in
          let written : Extends sb blk w (put_block blk (put_32 (w.bytes blk) (bn * 4) a) w) =
            put_block-Extends sb blk (put_32 (w.bytes blk) (bn * 4) a) w ext.sound
              (ext.keeps_owned blk own)
              (λ o. put_32-byte (w.bytes blk) (bn * 4) a o (ext.sound.bitmap.bytes blk o)) in
          rw (empty, ne)
            (record {
              entries = λ k. ground (
                arith,
                put_32-entries (w.bytes blk) bn k a (omega (arith, f.new.inside, s.small)),
                ap (λ g. get_32 g (k * 4)) ((f.extends (blk + 1)).keeps blk own (omega arith)),
              );
              again = λ z. absurd (ground arith);
              new = λ z n. record {
                inside = f.new.inside;
                was_free = f.new.was_free;
                owned = written.keeps_owned a f.new.owned;
                zero = λ o. ground (arith, f.new.zero o, apart);
              };
              extends = Extends-trans sb blk v w _ ext written;
              full = λ z. absurd (f.ne z);
            })
      | inr (same, full) ↦
          rw (empty, same)
            (record {
              entries = λ k. entry_at (λ j. get_32 (v.bytes blk) (j * 4)) k bn 0 (ground arith);
              again = λ z. absurd (ground arith);
              new = λ z n. absurd (n refl);
              extends = Extends-refl sb blk v s;
              full = λ z. full;
            })
    ]
  ]
