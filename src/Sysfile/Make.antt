-- ===== src/Sysfile/Make.antt =====
-- Inodes made, and the current directory (`create`, `sys_mkdir`, `sys_mknod`, `sys_chdir` in
-- kernel/sysfile.c).
use operating_system_se.Base.{
  ℕ, ◌+◌, ◌%◌, ◌^◌, Bool, true, false, not, ◌&&◌, ◌||◌, Option, none, some, ◌==◌, if◌then◌else◌,
  Outcome, ok, ◌>>=◌,
}
use operating_system_se.Str.{Bytes}
use operating_system_se.Fs.Volume.{Superblock}
use operating_system_se.Fs.Itable.{Inode, iget}
use operating_system_se.Fs.Dinode.{ialloc}
use operating_system_se.Fs.Refs.{FsState, deref, ilock_at, iput}
use operating_system_se.Fs.Dir.{t_dir, dirlookup, dirlink}
use operating_system_se.Fs.Names.{Named, namei, nameiparent}
use operating_system_se.Sysfile.Paths.{maxpath, Called, dot, dotdot, more_links, change_inode}

-- T_FILE and T_DEVICE
abbrev pub t_file : ℕ
t_file = 2

abbrev pub t_device : ℕ
t_device = 3

-- What `create` sets in a new inode.
abbrev pub fresh : (major minor : ℕ) → Inode → Inode
fresh major minor ip = record ip { major = major; minor = minor; nlink = 1 }

abbrev pub without_links : Inode → Inode
without_links ip = record ip { nlink = 0 }

module _ (sb : Superblock) where
  -- The path `fail` of `create`, for the new inode `i` in directory `d`.
  unfoldable pub create_fail : (i d : ℕ) → Bytes → FsState → Outcome Named
  create_fail i d mem s = do
    s1 ← change_inode sb without_links i s
    s2 ← iput sb i s1
    s3 ← iput sb d s2
    ok (none, (mem, s3))

  -- The entries "." and ".." of a new directory.
  unfoldable pub dot_entries : (i d : ℕ) → FsState → Outcome (Bool × FsState)
  dot_entries i d s = deref i s >>= λ ip. dirlink sb i dot ip.inum s >>= λ (first, s1).
      let second : Outcome (Bool × FsState) = deref d s1 >>= λ dp. dirlink sb i dotdot dp.inum s1 in
      if first then second else ok (false, s1)

  -- `create` once the inode is allocated, in slot `i`.
  unfoldable pub create_new :
      (i d : ℕ) (name : Bytes) (type major minor : ℕ) → Bytes → FsState → Outcome Named
  create_new i d name type major minor mem s = do
    s1 ← ilock_at sb i s
    s2 ← change_inode sb (fresh major minor) i s1
    (dots, s3) ← (if type == t_dir then dot_entries i d s2 else ok (true, s2))
    let enter : Outcome Named = deref i s3 >>= λ ip. dirlink sb d name ip.inum s3 >>= λ (done, s4).
        let counted : Outcome FsState =
          if type == t_dir then change_inode sb more_links d s4 else ok s4 in
        let made : Outcome Named =
          counted >>= λ s5. iput sb d s5 >>= λ s6. ok (some i, (mem, s6)) in
        if done then made else create_fail i d mem s4
    if dots then enter else create_fail i d mem s3

  -- `create` where the name is there already, as the inode in slot `i`.
  unfoldable pub create_found : (i d type : ℕ) → Bytes → FsState → Outcome Named
  create_found i d type mem s = do
    s1 ← iput sb d s
    s2 ← ilock_at sb i s1
    ip ← deref i s2
    let refuse : Outcome Named = iput sb i s2 >>= λ s3. ok (none, (mem, s3))
    (if (type == t_file) && ((ip.type == t_file) || (ip.type == t_device))
        then ok (some i, (mem, s2))
        else refuse)

  -- `create`: the slot of the inode, or none for 0.
  unfoldable pub create :
      (path type major minor : ℕ) (name cwd : ℕ) → Bytes → FsState → Outcome Named
  create path type major minor name cwd mem s =
      nameiparent sb maxpath path name cwd mem s >>= λ (r, (mem1, s1)). elim r [
        | none ↦ ok (none, (mem1, s1))
        | some d ↦
            (ilock_at sb d s1 >>= λ s2.
            let last : Bytes = λ x. mem1 (name + x) in
            dirlookup sb d last s2 >>= λ (found, s3). elim found [
              | some (i, off) ↦ create_found i d type mem1 s3
              | none ↦
                  (deref d s3 >>= λ dp.
                  let (inum, v) = ialloc sb type s3.volume in
                  let s4 = record s3 { volume = v } in
                  let refuse : Outcome Named = iput sb d s4 >>= λ s5. ok (none, (mem1, s5)) in
                  let make : Outcome Named = iget dp.dev inum s4.inodes >>= λ (i, ips).
                  create_new i d last type major minor mem1 (record s4 { inodes = ips }) in
                  if inum == 0 then refuse else make)
            ])
      ]

  -- The use of `create` in `sys_mkdir` and `sys_mknod`.
  unfoldable pub make_node :
      (path : Option ℕ) (type major minor : ℕ) (name cwd : ℕ) → Bytes → FsState → Outcome Called
  make_node none type major minor name cwd mem s = ok (false, (mem, s))
  make_node (some path) type major minor name cwd mem s =
      create path type major minor name cwd mem s >>= λ (r, (mem1, s1)). elim r [
        | none ↦ ok (false, (mem1, s1))
        | some i ↦ (iput sb i s1 >>= λ s2. ok (true, (mem1, s2)))
      ]

  unfoldable pub sys_mkdir : (path : Option ℕ) (name cwd : ℕ) → Bytes → FsState → Outcome Called
  sys_mkdir path name cwd mem s = make_node path t_dir 0 0 name cwd mem s

  -- The arguments are int, the fields short.
  unfoldable pub sys_mknod :
      (path : Option ℕ) (major minor : ℕ) (name cwd : ℕ) → Bytes → FsState → Outcome Called
  sys_mknod path major minor name cwd mem s =
      make_node path t_device (major % 2 ^ 16) (minor % 2 ^ 16) name cwd mem s

  -- `sys_chdir`: the result, and the slot of the process's directory after it.
  unfoldable pub sys_chdir :
      (path : Option ℕ) (name cwd : ℕ) → Bytes → FsState → Outcome (Bool × (ℕ × (Bytes × FsState)))
  sys_chdir none name cwd mem s = ok (false, (cwd, (mem, s)))
  sys_chdir (some path) name cwd mem s = namei sb maxpath path name cwd mem s >>= λ (r, (mem1, s1)).
      elim r [
        | none ↦ ok (false, (cwd, (mem1, s1)))
        | some i ↦ do
          s2 ← ilock_at sb i s1
          ip ← deref i s2
          let refuse : Outcome (Bool × (ℕ × (Bytes × FsState))) =
              iput sb i s2 >>= λ s3. ok (false, (cwd, (mem1, s3)))
          let enter : Outcome (Bool × (ℕ × (Bytes × FsState))) =
              iput sb cwd s2 >>= λ s3. ok (true, (i, (mem1, s3)))
          if not (ip.type == t_dir) then refuse else enter
      ]
