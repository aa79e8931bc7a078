-- ===== src/Fs/Blocks/Opened.antt =====
-- The first half of `bmap` (kernel/fs.c) for a block behind the indirect block: that block is there.
use operating_system_se.Base.{
  ℕ, ◌*◌, ◌<◌, ◌≡◌, ◌≢◌, ◌⊎◌, inl, inr, refl, length-set, true, length, ◌==◌, if◌then◌else◌, get_or,
  set, arith,
}
use operating_system_se.Fs.Volume.{Superblock, Volume, get_32}
use operating_system_se.Fs.Volume.Words.{get_32-zero}
use operating_system_se.Fs.Itable.{Inode}
use operating_system_se.Fs.Bitmap.Refine.{is_free}
use operating_system_se.Fs.Blocks.{ndirect}
use operating_system_se.Fs.Blocks.Owned.{IsSound, IsOwned, Extends, Extends-refl, IsFull}
use operating_system_se.Fs.Blocks.Map.{Given, kept, fresh, none_left, get_or-set, get_or-set_ne}

module _ (sb : Superblock) where
  -- An inode with 13 addresses, of which the last, if any, is that of a block in use.
  pub record IsFile (ip : Inode) (v : Volume) : Type 0 where
    pub slots : length ip.addrs ≡ 13
    pub indirect : get_or ip.addrs ndirect 0 ≢ 0 → IsOwned sb v (get_or ip.addrs ndirect 0)

  -- After the slot of the indirect block is filled: its block `blk`, on a volume `v1`.
  pub record Opened (ip : Inode) (v : Volume) (blk : ℕ) (ip1 : Inode) (v1 : Volume) : Type 0 where
    pub slot : get_or ip1.addrs ndirect 0 ≡ blk
    pub direct : (k : ℕ) → k < ndirect → get_or ip1.addrs k 0 ≡ get_or ip.addrs k 0
    pub owned : blk ≢ 0 → IsOwned sb v1 blk
    pub sound : IsSound sb v1
    pub entries :
        blk ≢ 0
        → (k : ℕ)
        → get_32 (v1.bytes blk) (k * 4) ≡ (
            if get_or ip.addrs ndirect 0 == 0
            then 0
            else get_32 (v.bytes (get_or ip.addrs ndirect 0)) (k * 4))
    pub was_none : blk ≡ 0 → get_or ip.addrs ndirect 0 ≡ 0
    pub still : get_or ip.addrs ndirect 0 ≢ 0 → (ip1 ≡ ip) × (v1 ≡ v)
    pub extends : (skip : ℕ) → Extends sb skip v v1
    pub new_slot :
        (get_or ip1.addrs ndirect 0 ≡ get_or ip.addrs ndirect 0)
        ⊎ ((get_or ip.addrs ndirect 0 ≡ 0) × (is_free sb v blk ≡ true))
    pub slots : length ip1.addrs ≡ length ip.addrs
    pub rest : ip1 ≡ record ip { addrs = ip1.addrs }
    pub full : blk ≡ 0 → IsFull sb v1

  pub opened :
      (ip : Inode) (v : Volume) (blk : ℕ) (ip1 : Inode) (v1 : Volume)
      → IsSound sb v
      → IsFile ip v
      → Given sb v (get_or ip.addrs ndirect 0) blk v1
      → ip1 ≡ (
          if blk == get_or ip.addrs ndirect 0
          then ip
          else record ip { addrs = set ip.addrs ndirect blk })
      → Opened ip v blk ip1 v1
  opened ip v blk ip1 v1 s file (kept there at same) e =
      let ip_same : ip1 ≡ ip = ground arith in
      rw (at, ip_same, same)
        (record {
          slot = refl;
          direct = λ k hk. refl;
          owned = λ ne. file.indirect ne;
          sound = s;
          entries = λ ne k. ground arith;
          was_none = λ z. z;
          still = λ ne. (refl, refl);
          extends = λ skip. Extends-refl sb skip v s;
          new_slot = inl refl;
          slots = refl;
          rest = refl;
          full = λ z. absurd (there z);
        })
  opened ip v blk ip1 v1 s file (none_left empty at same full) e =
      let ip_same : ip1 ≡ ip = ground arith in
      rw (at, ip_same, same)
        (record {
          slot = empty;
          direct = λ k hk. refl;
          owned = λ ne. absurd (ne refl);
          sound = s;
          entries = λ ne k. absurd (ne refl);
          was_none = λ z. empty;
          still = λ ne. (refl, refl);
          extends = λ skip. Extends-refl sb skip v s;
          new_slot = inl refl;
          slots = refl;
          rest = refl;
          full = λ z. full;
        })
  opened ip v blk ip1 v1 s file (fresh empty f) e =
      let ip_new : ip1 ≡ record ip { addrs = set ip.addrs ndirect blk } = ground (arith, f.ne) in
      rw ip_new (record {
        slot = get_or-set ip.addrs ndirect blk (omega (arith, file.slots));
        direct = λ k hk. get_or-set_ne ip.addrs ndirect k blk (omega arith);
        owned = λ ne. f.new.owned;
        sound = (f.extends 0).sound;
        entries = λ ne k. zero_entry k;
        was_none = λ z. empty;
        still = λ ne. absurd (ne empty);
        extends = f.extends;
        new_slot = inr (empty, f.new.was_free);
        slots = length-set ip.addrs ndirect blk;
        rest = refl;
        full = λ z. absurd (f.ne z);
      })
    where
      zero_entry :
          (k : ℕ)
          → get_32 (v1.bytes blk) (k * 4) ≡ (
              if get_or ip.addrs ndirect 0 == 0
              then 0
              else get_32 (v.bytes (get_or ip.addrs ndirect 0)) (k * 4))
      zero_entry k = ground (arith, get_32-zero (v1.bytes blk) (k * 4) f.new.zero)
