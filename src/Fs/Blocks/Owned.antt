-- ===== src/Fs/Blocks/Owned.antt =====
-- Blocks in use: what allocation (kernel/fs.c, `balloc`) and writes to a file's blocks leave of a disk.
use operating_system_se.Base.{
  ℕ, ◌^◌, ◌≤◌, ◌<◌, ◌≡◌, ◌≢◌, ◌⊎◌, inl, inr, refl, ap, sym, ◌∙◌, true, false, ◌==◌, arith,
}
use operating_system_se.Fs.Volume.{Superblock, Volume, put_block}
use operating_system_se.Fs.Bitmap.{balloc, bblock}
use operating_system_se.Fs.Bitmap.Refine.{AreBytes, is_free, IsBitmap, Allocates, balloc-Allocates}
use operating_system_se.Fs.Bitmap.Undo.{balloc-IsBitmap}

module _ (sb : Superblock) where
  -- A volume on which block 0 is in use, with numbers of blocks below 2^32.
  pub record IsSound (v : Volume) : Type 0 where
    pub bitmap : IsBitmap sb v
    pub boot : is_free sb v 0 ≡ false
    pub small : sb.size ≤ 2 ^ 32

  -- No block is free.
  abbrev pub IsFull : Volume → Type 0
  IsFull v = (c : ℕ) → c < sb.size → is_free sb v c ≡ false

  -- Block `b` is in use, and is not part of the bitmap.
  pub record IsOwned (v : Volume) (b : ℕ) : Type 0 where
    pub inside : b < sb.size
    pub used : is_free sb v b ≡ false
    pub plain : (c : ℕ) → c < sb.size → b ≢ bblock sb c

  -- `w` is sound, and in use on it are the blocks that were so on `v`, with their content but for that of
  -- block `skip`.
  pub record Extends (skip : ℕ) (v w : Volume) : Type 0 where
    pub sound : IsSound w
    pub keeps : (c : ℕ) → IsOwned v c → c ≢ skip → w.bytes c ≡ v.bytes c
    pub keeps_owned : (c : ℕ) → IsOwned v c → IsOwned w c
    pub frees : (c : ℕ) → c < sb.size → is_free sb w c ≡ true → is_free sb v c ≡ true

  pub Extends-refl : (skip : ℕ) (v : Volume) → IsSound v → Extends skip v v
  Extends-refl skip v s = record {
    sound = s;
    keeps = λ c o ne. refl;
    keeps_owned = λ c o. o;
    frees = λ c lt e. e;
  }

  pub Extends-trans :
      (skip : ℕ) (u v w : Volume) → Extends skip u v → Extends skip v w → Extends skip u w
  Extends-trans skip u v w p q = record {
    sound = q.sound;
    keeps = λ c o ne. q.keeps c (p.keeps_owned c o) ne ∙ p.keeps c o ne;
    keeps_owned = λ c o. q.keeps_owned c (p.keeps_owned c o);
    frees = λ c lt e. p.frees c lt (q.frees c lt e);
  }

  -- A block in use is written.
  pub put_block-Extends :
      (b : ℕ) (f : ℕ → ℕ) (v : Volume)
      → IsSound v
      → IsOwned v b
      → AreBytes f
      → Extends b v (put_block b f v)
  put_block-Extends b f v s own bs = record {
    sound = record {
      bitmap = record {
        bytes = λ c o. ground (arith, s.bitmap.bytes c o, bs o);
        own = λ c d hc hd e. s.bitmap.own c d hc hd (sym (free d hd) ∙ e);
      };
      boot = free 0 (omega (arith, own.inside)) ∙ s.boot;
      small = s.small;
    };
    keeps = λ c o ne. ground arith;
    keeps_owned =
        λ c o. record { inside = o.inside; used = free c o.inside ∙ o.used; plain = o.plain };
    frees = λ c hc e. sym (free c hc) ∙ e;
  }
    where
      free : (c : ℕ) → c < sb.size → is_free sb (put_block b f v) c ≡ is_free sb v c
      free c hc = let ne : (bblock sb c == b) ≡ false = ground (arith, own.plain c hc) in rw ne refl

  -- A block that was free and is in use now, all zero.
  pub record New (v : Volume) (a : ℕ) (w : Volume) : Type 0 where
    pub inside : a < sb.size
    pub was_free : is_free sb v a ≡ true
    pub owned : IsOwned w a
    pub zero : (o : ℕ) → w.bytes a o ≡ 0

  -- A new block is none of those in use.
  pub New-ne : (v : Volume) (a : ℕ) (w : Volume) (c : ℕ) → New v a w → IsOwned v c → c ≢ a
  New-ne v a w c n o e = ground (arith, n.was_free, o.used, ap (is_free sb v) e)

  -- What `balloc` returns on a sound volume.
  pub record Fresh (v : Volume) (b : ℕ) (w : Volume) : Type 0 where
    pub ne : b ≢ 0
    pub new : New v b w
    pub extends : (skip : ℕ) → Extends skip v w

  pub balloc-Fresh :
      (v : Volume)
      → IsSound v
      → Fresh v (balloc sb v).0 (balloc sb v).1 ⊎ ((balloc sb v ≡ (0, v)) × IsFull v)
  balloc-Fresh v s =
      fresh (balloc sb v) (balloc-IsBitmap sb v s.bitmap) (balloc-Allocates sb v s.bitmap)
    where
      fresh :
          (r : ℕ × Volume)
          → IsBitmap sb r.1
          → Allocates sb v r
          → Fresh v r.0 r.1 ⊎ ((r ≡ (0, v)) × IsFull v)
      fresh r keep (inr (same, full)) = inr (same, full)
      fresh r keep (inl t) = inl (record {
        ne = λ e. ground (arith, t.was_free, s.boot, ap (is_free sb v) e);
        new = record {
          inside = t.inside;
          was_free = t.was_free;
          owned = record {
            inside = t.inside;
            used = ground (arith, t.now r.0 t.inside);
            plain = λ c hc. s.bitmap.own c r.0 hc t.inside t.was_free;
          };
          zero = t.zeroed;
        };
        extends = λ skip. record {
          sound = record {
            bitmap = keep;
            boot = ground (arith, t.now 0 (omega (arith, t.inside)), s.boot);
            small = s.small;
          };
          keeps = λ c o ne.
              t.others c (λ e. ground (arith, t.was_free, o.used, ap (is_free sb v) e))
                (o.plain r.0 t.inside);
          keeps_owned = λ c o. record {
            inside = o.inside;
            used = ground (arith, t.now c o.inside, o.used);
            plain = o.plain;
          };
          frees = λ c hc e. ground (arith, t.now c hc);
        };
      })
