-- ===== src/Fs/Refs.antt =====
-- References to inodes (`iput`, `ireclaim` in kernel/fs.c), over the table of inodes in memory
-- and the disk. Sleeplocks are not part of this state.
pub mod Put
use operating_system_se.Base.{
  ℕ, zero, suc, ◌+◌, ◌-◌, Bool, false, not, ◌&&◌, none, some, List, ◌==◌, if◌then◌else◌, get_elem?,
  set, Outcome, ok, panic, ◌>>=◌,
}
use operating_system_se.Fs.Volume.{Superblock, Volume, get_16}
use operating_system_se.Fs.Itable.{Inode, iget}
use operating_system_se.Fs.Dinode.{iblock, ioffset, iupdate, ilock}
use operating_system_se.Fs.Blocks.{itrunc}

pub record FsState : Type 0 where
  pub inodes : List Inode
  pub volume : Volume

-- The inode that a pointer shows; a null pointer is a fault.
abbrev pub deref : ℕ → FsState → Outcome Inode
deref i s = elim (get_elem? s.inodes i) [ some ip ↦ ok ip | none ↦ panic "null inode" ]

abbrev pub put_inode : ℕ → Inode → FsState → FsState
put_inode i ip s = record s { inodes = set s.inodes i ip }

module _ (sb : Superblock) where
  -- `ilock` of the inode in slot `i`.
  unfoldable pub ilock_at : ℕ → FsState → Outcome FsState
  unfolding ilock
  ilock_at i s = do ip ← deref i s; ip' ← ilock sb s.volume ip; ok (put_inode i ip' s)

  -- The part of `iput` that frees an inode without links: itrunc(), type 0, iupdate(), valid 0.
  unfoldable pub ifree : Inode → Volume → Outcome (Inode × Volume)
  unfolding itrunc iupdate
  ifree ip v = do
    (ip1, v1) ← itrunc sb ip v
    let ip2 = record ip1 { type = 0 }
    ok (record ip2 { valid = false }, iupdate sb ip2 v1)

  abbrev pub unlinked : Inode → Bool
  unlinked ip = (ip.ref == 1) && (ip.valid && (ip.nlink == 0))

  unfoldable pub iput : ℕ → FsState → Outcome FsState
  unfolding ifree
  iput i s = do
    ip ← deref i s
    (ip', v') ← (if unlinked ip then ifree ip s.volume else ok (ip, s.volume))
    ok (record { inodes = set s.inodes i (record ip' { ref = ip'.ref - 1 }); volume = v' })

  -- The loop of `ireclaim(dev)` from inode `inum` on, for the `n` that are left. begin_op() and end_op() stand
  -- around the calls for one inode.
  unfoldable pub ireclaim_from : (dev n inum : ℕ) → FsState → Outcome FsState
  unfolding get_16 ilock_at iput
  ireclaim_from dev zero inum s = ok s
  ireclaim_from dev (suc n) inum s =
      let f = s.volume.bytes (iblock sb inum) in
      let o = ioffset inum in
      let reclaim : Outcome FsState = iget dev inum s.inodes >>= λ (i, ips).
      ilock_at i (record s { inodes = ips }) >>= λ s1. iput i s1 in
      let step : Outcome FsState =
        if not (get_16 f o == 0) && (get_16 f (o + 6) == 0) then reclaim else ok s in
      step >>= λ s'. ireclaim_from dev n (inum + 1) s'

  unfoldable pub ireclaim : (dev : ℕ) → FsState → Outcome FsState
  unfolding ireclaim_from
  ireclaim dev s = ireclaim_from dev (sb.ninodes - 1) 1 s
