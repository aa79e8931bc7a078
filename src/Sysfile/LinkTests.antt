-- ===== src/Sysfile/LinkTests.antt =====
-- `sys_link` (kernel/sysfile.c) on a small disk, where the new name has no directory.
use operating_system_se.Base.{
  ℕ, ◌≡◌, refl, true, false, none, some, [], ◌∷◌, ◌==◌, if◌then◌else◌, Outcome, ok, ok_of, arith,
}
use operating_system_se.Str.{Bytes, memmove}
use operating_system_se.Fs.Volume.{Superblock, Volume, get_16, get_32}
use operating_system_se.Fs.Itable.{Inode, idup, iget, iget_scan}
use operating_system_se.Fs.Dinode.{get_dinode, get_words}
use operating_system_se.Fs.Blocks.{bmap}
use operating_system_se.Fs.Content.{readi}
use operating_system_se.Fs.Path.{skip_slashes, skip_word}
use operating_system_se.Fs.Dinode.Update.{IsStorable}
use operating_system_se.Fs.Refs.{FsState, ilock_at}
use operating_system_se.Fs.Names.{Named, namei, nameiparent}
use operating_system_se.Sysfile.Paths.{maxpath, more_links, sys_link}
use operating_system_se.Sysfile.Undo.{changed, Undone, no_parent, sys_link-Undone}

abbrev disk : Superblock
disk = record { size = 30; ninodes = 16; inodestart = 3; bmapstart = 2 }

-- The root directory, in block 20, has one entry: "a", with the number 2.
abbrev root : Inode
root = record {
  dev = 1;
  inum = 1;
  ref = 1;
  valid = true;
  type = 1;
  major = 0;
  minor = 0;
  nlink = 1;
  size = 16;
  addrs = 20 ∷ 0 ∷ 0 ∷ 0 ∷ 0 ∷ 0 ∷ 0 ∷ 0 ∷ 0 ∷ 0 ∷ 0 ∷ 0 ∷ 0 ∷ [];
}

-- The slot of the inode 2 before and after ilock() has read it: a file without contents, with one link.
abbrev slot : Inode
slot = record {
  dev = 1;
  inum = 2;
  ref = 1;
  valid = false;
  type = 0;
  major = 0;
  minor = 0;
  nlink = 0;
  size = 0;
  addrs = [];
}

abbrev file : Inode
file = record slot {
  valid = true;
  type = 2;
  nlink = 1;
  addrs = 0 ∷ 0 ∷ 0 ∷ 0 ∷ 0 ∷ 0 ∷ 0 ∷ 0 ∷ 0 ∷ 0 ∷ 0 ∷ 0 ∷ 0 ∷ [];
}

file-IsStorable : IsStorable file
file-IsStorable = record {
  type = omega arith;
  major = omega arith;
  minor = omega arith;
  nlink = omega arith;
  size = omega arith;
  count = refl;
  addrs = ground arith;
}

abbrev blocks : ℕ → ℕ → ℕ
blocks b o =
    if b == 20
    then if o == 0 then 2 else if o == 2 then 97 else 0
    else if b == 3
    then if o == 128 then 2 else if o == 134 then 1 else 0
    else 0

abbrev volume : Volume
volume = record { bytes = blocks; logged = [] }

abbrev state : FsState
state = record { inodes = root ∷ record slot { inum = 0; ref = 0 } ∷ []; volume = volume }

-- The path "a" at 100, an empty path at 200, and a buffer for a name at 300.
abbrev memory : Bytes
memory x = if x == 100 then 97 else 0

abbrev found : Outcome Named
found = namei disk maxpath 100 300 0 memory state

abbrev mem1 : Bytes
mem1 = (ok_of found (none, (memory, state))).1.0

abbrev opened : FsState
opened = record { inodes = root ∷ slot ∷ []; volume = volume }

abbrev locked : FsState
locked = record { inodes = root ∷ file ∷ []; volume = volume }

finds : found ≡ ok (some 1, (mem1, opened))
unfolding namei skip_slashes idup readi bmap skip_word memmove iget iget_scan
finds = refl

locks : ilock_at disk 1 opened ≡ ok locked
unfolding ilock_at get_dinode get_16 get_32 get_words
locks = refl

abbrev counted : FsState
counted = changed disk more_links 1 file locked

no_directory : nameiparent disk maxpath 200 300 0 mem1 counted ≡ ok (none, (mem1, counted))
unfolding nameiparent namei skip_slashes idup readi bmap skip_word memmove iget iget_scan
no_directory = refl

sys_link-Undone_example :
    Undone disk 1 mem1 file 1 counted (sys_link disk (some 100) (some 200) 300 0 memory state)
sys_link-Undone_example =
    sys_link-Undone disk 100 200 300 0 1 1 memory mem1 mem1 state opened locked counted file finds
      locks refl (λ e. absurd (omega (arith, e))) (λ e. absurd (omega (arith, e))) refl
      (λ e. absurd (omega (arith, e))) file-IsStorable (no_parent no_directory) refl (omega arith)
