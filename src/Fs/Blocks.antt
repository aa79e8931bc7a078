-- ===== src/Fs/Blocks.antt =====
-- The blocks of an inode (`bmap` and `itrunc`, kernel/fs.c): twelve direct ones, and 256 through an
-- indirect block.
pub mod Owned
pub mod Map
pub mod Opened
pub mod Stable
use operating_system_se.Base.{
  ℕ, zero, suc, ◌+◌, ◌-◌, ◌*◌, ◌/◌, ◌%◌, ◌≡◌, List, [], ◌∷◌, ltb, leb, ◌==◌, if◌then◌else◌, get_or,
  set, not, Bool, Outcome, ok, panic, ◌>>=◌,
}
use operating_system_se.Fs.Volume.{Superblock, Volume, put_block, get_32, put_32}
use operating_system_se.Fs.Itable.{Inode}
use operating_system_se.Fs.Bitmap.{balloc, bfree}
use operating_system_se.Fs.Dinode.{iupdate}

-- NDIRECT and NINDIRECT
abbrev pub ndirect : ℕ
ndirect = 12

abbrev pub nindirect : ℕ
nindirect = 256

module _ (sb : Superblock) where
  -- The address in slot `i` of the inode, allocated if it is 0.
  unfoldable pub slot_block : ℕ → Inode → Volume → ℕ × (Inode × Volume)
  slot_block i ip v =
      let a = get_or ip.addrs i 0 in
      let (b, v') = balloc sb v in
      if not (a == 0)
      then (a, (ip, v))
      else if b == 0
      then (0, (ip, v'))
      else (b, (record ip { addrs = set ip.addrs i b }, v'))

  -- The address at index `bn` of the indirect block, allocated if it is 0.
  unfoldable pub indirect_block : (blk bn : ℕ) → Volume → ℕ × Volume
  unfolding get_32 put_32
  indirect_block blk bn v =
      let a = get_32 (v.bytes blk) (bn * 4) in
      let (b, v') = balloc sb v in
      if not (a == 0)
      then (a, v)
      else if b == 0
      then (0, v')
      else (b, put_block blk (put_32 (v'.bytes blk) (bn * 4) b) v')

  -- The address of block `bn` of the inode, or 0.
  unfoldable pub bmap : ℕ → Inode → Volume → Outcome (ℕ × (Inode × Volume))
  unfolding slot_block indirect_block
  bmap bn ip v =
      if ltb bn ndirect
      then ok (slot_block bn ip v)
      else if leb nindirect (bn - ndirect)
      then panic "bmap: out of range"
      else let (blk, (ip', v')) = slot_block ndirect ip v in
        if blk == 0
        then ok (0, (ip', v'))
        else let (a, w) = indirect_block blk (bn - ndirect) v' in ok (a, (ip', w))

  -- if(a) bfree(dev, a)
  abbrev pub bfree_nonzero : ℕ → Volume → Outcome Volume
  bfree_nonzero a v = if a == 0 then ok v else bfree sb a v

  -- The first loop of `itrunc`, for the `n` slots from `i` on.
  unfoldable pub free_direct : (n i : ℕ) → Inode → Volume → Outcome (Inode × Volume)
  free_direct zero i ip v = ok (ip, v)
  free_direct (suc n) i ip v = bfree_nonzero (get_or ip.addrs i 0) v >>= λ w.
      free_direct n (i + 1) (record ip { addrs = set ip.addrs i 0 }) w

  -- The second loop, for the `n` entries from `j` on of the indirect block.
  unfoldable pub free_indirect : (blk n j : ℕ) → Volume → Outcome Volume
  unfolding get_32
  free_indirect blk zero j v = ok v
  free_indirect blk (suc n) j v =
      bfree_nonzero (get_32 (v.bytes blk) (j * 4)) v >>= λ w. free_indirect blk n (j + 1) w

  unfoldable pub itrunc : Inode → Volume → Outcome (Inode × Volume)
  unfolding free_direct free_indirect iupdate
  itrunc ip v = do
    (ip1, v1) ← free_direct ndirect 0 ip v
    let blk = get_or ip1.addrs ndirect 0
    v2 ← (if blk == 0 then ok v1 else (free_indirect blk nindirect 0 v1 >>= λ w. bfree sb blk w))
    let ip2 = record ip1 { addrs = set ip1.addrs ndirect 0; size = 0 }
    ok (ip2, iupdate sb ip2 v2)
