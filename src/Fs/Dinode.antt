-- ===== src/Fs/Dinode.antt =====
-- Inodes on disk (`ialloc`, `iupdate` and the reading in `ilock`, kernel/fs.c): 64 bytes each, 16 to a
-- block.
pub mod Update
use operating_system_se.Base.{
  ℕ, zero, suc, ◌+◌, ◌-◌, ◌*◌, ◌/◌, ◌%◌, ◌≡◌, ◌||◌, ◌&&◌, Bool, true, false, not, Option, none,
  some, List, [], ◌∷◌, ltb, leb, ◌==◌, if◌then◌else◌, Outcome, ok, panic, ◌>>=◌,
}
use operating_system_se.Fs.Volume.{Superblock, Volume, put_block, get_16, put_16, get_32, put_32}
use operating_system_se.Fs.Itable.{Inode}

-- NDIRECT + 1
abbrev pub n_addrs : ℕ
n_addrs = 13

-- IBLOCK(i, sb), and the offset of the inode in that block.
abbrev pub iblock : Superblock → ℕ → ℕ
iblock sb i = i / 16 + sb.inodestart

abbrev pub ioffset : ℕ → ℕ
ioffset i = i % 16 * 64

-- Copies of an array of uint.
unfoldable pub get_words : (ℕ → ℕ) → (o n : ℕ) → List ℕ
unfolding get_32
get_words f o zero = []
get_words f o (suc n) = get_32 f o ∷ get_words f (o + 4) n

unfoldable pub put_words : (ℕ → ℕ) → ℕ → List ℕ → ℕ → ℕ
unfolding put_32
put_words f o [] = f
put_words f o (w ∷ ws) = put_words (put_32 f o w) (o + 4) ws

-- The fields of struct dinode, assigned at offset `o`.
unfoldable pub put_dinode : (ℕ → ℕ) → ℕ → Inode → ℕ → ℕ
put_dinode f o ip =
    put_words
      (put_32
        (put_16 (put_16 (put_16 (put_16 f o ip.type) (o + 2) ip.major) (o + 4) ip.minor) (o + 6)
          ip.nlink)
        (o + 8) ip.size)
      (o + 12) ip.addrs

-- The fields of struct dinode at offset `o`, in an inode that is valid then.
unfoldable pub get_dinode : (ℕ → ℕ) → ℕ → Inode → Inode
get_dinode f o ip = record ip {
  valid = true;
  type = get_16 f o;
  major = get_16 f (o + 2);
  minor = get_16 f (o + 4);
  nlink = get_16 f (o + 6);
  size = get_32 f (o + 8);
  addrs = get_words f (o + 12) n_addrs;
}

unfoldable pub iupdate : Superblock → Inode → Volume → Volume
iupdate sb ip v =
    let b = iblock sb ip.inum in put_block b (put_dinode (v.bytes b) (ioffset ip.inum) ip) v

-- `ilock` once the inode's sleeplock is held.
unfoldable pub ilock : Superblock → Volume → Inode → Outcome Inode
ilock sb v ip =
    let ip' = get_dinode (v.bytes (iblock sb ip.inum)) (ioffset ip.inum) ip in
    if ltb ip.ref 1
    then panic "ilock"
    else if ip.valid
    then ok ip
    else if ip'.type == 0
    then panic "ilock: no type"
    else ok ip'

-- `ialloc` up to its call of iget(), from inode `inum` on, for the `n` that are left: the inode, or 0.
unfoldable pub ialloc_from : Superblock → (type n inum : ℕ) → Volume → ℕ × Volume
unfolding get_16 put_16
ialloc_from sb type zero inum v = (0, v)
ialloc_from sb type (suc n) inum v =
    let rest = ialloc_from sb type n (inum + 1) v in
    let b = iblock sb inum in
    let f = v.bytes b in
    let o = ioffset inum in
    let zeroed = λ (x : ℕ). if leb o x && ltb x (o + 64) then 0 else f x in
    if get_16 f o == 0 then (inum, put_block b (put_16 zeroed o type) v) else rest

unfoldable pub ialloc : Superblock → ℕ → Volume → ℕ × Volume
unfolding ialloc_from
ialloc sb type v = ialloc_from sb type (sb.ninodes - 1) 1 v
