-- ===== src/Fs/Refs/Put.antt =====
-- The last `iput` of an inode without links (kernel/fs.c).
use operating_system_se.Base.{
  ℕ, ◌≡◌, ◌≢◌, ◌<◌, ◌^◌, ◌-◌, ◌||◌, refl, ap, ap₂, sym, ◌∙◌, subst, true, false, some, get_elem?,
  set, get_elem?-set_self, get_elem?-set_ne, ◌==◌, ok, arith, lt_of_get_elem?,
}
use operating_system_se.Fs.Volume.{Superblock, Volume, get_16}
use operating_system_se.Fs.Bitmap.Refine.{is_free}
use operating_system_se.Fs.Itable.{Inode}
use operating_system_se.Fs.Dinode.{iblock, ioffset, put_dinode, iupdate}
use operating_system_se.Fs.Dinode.Update.{type_stays, field_16}
use operating_system_se.Fs.Blocks.{itrunc}
use operating_system_se.Fs.Blocks.Owned.{IsSound, IsOwned}
use operating_system_se.Fs.Content.Rounds.{IsWell}
use operating_system_se.Fs.Content.Store.{IsApart}
use operating_system_se.Fs.Content.RoundTrip.{iupdate-free}
use operating_system_se.Fs.Content.Truncate.{in_file, in_file-apart, itrunc-Frees}
use operating_system_se.Fs.Refs.{FsState, deref, unlinked, ifree, iput}

module _ (sb : Superblock) where
  -- The type that `iupdate` puts on disk.
  iupdate-type :
      (ip : Inode) (v : Volume)
      → ip.type < 2 ^ 16
      → get_16 ((iupdate sb ip v).bytes (iblock sb ip.inum)) (ioffset ip.inum) ≡ ip.type
  unfolding iupdate
  iupdate-type ip v lt =
      let b : ℕ = iblock sb ip.inum in
      let o : ℕ = ioffset ip.inum in
      let f : ℕ → ℕ = v.bytes b in
      let self : (b == b) ≡ true = ground arith in
      rw self (field_16 f o ip (put_dinode f o ip) f o ip.type lt (λ x h. type_stays f o ip x h))

  -- The inode's entry is free for another inode, its blocks and its place on disk are free.
  pub record Freed (i : ℕ) (ip : Inode) (s s' : FsState) : Type 0 where
    pub entry : Inode
    pub at : get_elem? s'.inodes i ≡ some entry
    pub unused : entry.ref ≡ 0
    pub stale : entry.valid ≡ false
    pub others : (j : ℕ) → i ≢ j → get_elem? s'.inodes j ≡ get_elem? s.inodes j
    pub blocks :
        (c : ℕ)
        → c < sb.size
        → is_free sb s'.volume c ≡ (in_file sb ip s.volume c || is_free sb s.volume c)
    pub sound : IsSound sb s'.volume
    pub on_disk : get_16 (s'.volume.bytes (iblock sb ip.inum)) (ioffset ip.inum) ≡ 0

  iput-runs :
      (i : ℕ) (ip ip' : Inode) (s : FsState) (v' : Volume)
      → get_elem? s.inodes i ≡ some ip
      → unlinked sb ip ≡ true
      → ifree sb ip s.volume ≡ ok (ip', v')
      → iput sb i s
        ≡ ok (record { inodes = set s.inodes i (record ip' { ref = ip'.ref - 1 }); volume = v' })
  unfolding iput
  iput-runs i ip ip' s v' at last run =
      let start : deref i s ≡ ok ip = rw (at, deref) refl in rw (start, last, run) refl

  ifree-runs :
      (ip ip1 : Inode) (v v1 : Volume)
      → itrunc sb ip v ≡ ok (ip1, v1)
      → ifree sb ip v
        ≡ ok (record ip1 { type = 0; valid = false }, iupdate sb (record ip1 { type = 0 }) v1)
  unfolding ifree
  ifree-runs ip ip1 v v1 run = rw run refl

  -- `iput` of the last reference to a valid inode without links does not panic, if the file is well-formed and its
  -- own block on disk is not one of its blocks: the entry has no reference and is not valid then, the others are as
  -- before, exactly the blocks of the file are free in addition, and the inode on disk has type 0.
  pub iput-Freed :
      (i : ℕ) (ip : Inode) (s : FsState)
      → get_elem? s.inodes i ≡ some ip
      → unlinked sb ip ≡ true
      → IsWell sb ip s.volume
      → IsApart sb (iblock sb ip.inum) ip s.volume
      → (s' : FsState) × (iput sb i s ≡ ok s') × Freed i ip s s'
  iput-Freed i ip s at last w home =
      let (ip1, v1, run, rest, cut, sound, free) = itrunc-Frees sb ip s.volume w home in
      let ip2 : Inode = record ip1 { type = 0 } in
      let b : ℕ = iblock sb ip.inum in
      let same : b ≡ iblock sb ip2.inum = ap (λ (j : Inode). iblock sb j.inum) (sym rest) in
      let place : ioffset ip.inum ≡ ioffset ip2.inum =
        ap (λ (j : Inode). ioffset j.inum) (sym rest) in
      let one : ip1.ref ≡ 1 = ap (λ (j : Inode). j.ref) rest ∙ ground arith in
      let own : IsOwned sb v1 b = record {
        inside = home.owned.inside;
        used =
            ground (
              arith,
              free b home.owned.inside,
              in_file-apart sb b ip s.volume home,
              home.owned.used,
            );
        plain = home.owned.plain;
      } in
      let (sound', kept) = iupdate-free sb ip2 v1 sound (subst (IsOwned sb v1) same own) in
      let left : Inode = record ip2 { valid = false; ref = ip1.ref - 1 } in
      (
        _,
        iput-runs i ip (record ip2 { valid = false }) s (iupdate sb ip2 v1) at last
            (ifree-runs ip ip1 s.volume v1 run),
        record {
          entry = left;
          at = get_elem?-set_self s.inodes i left (lt_of_get_elem? s.inodes i ip at);
          unused = ap (λ n. n - 1) one;
          stale = refl;
          others = λ j ne. get_elem?-set_ne s.inodes left ne;
          blocks = λ c lt. kept c lt ∙ free c lt;
          sound = sound';
          on_disk =
              ap₂ (λ b o. get_16 ((iupdate sb ip2 v1).bytes b) o) same place
              ∙ iupdate-type ip2 v1 (omega arith);
        },
      )
