-- ===== src/Fs/Names.antt =====
-- Path names (`namex`, `namei`, `nameiparent` in kernel/fs.c). A path and the buffer for a name lie in one
-- memory, given by their addresses.
use operating_system_se.Base.{
  ℕ, zero, suc, ◌+◌, Bool, true, false, not, ◌&&◌, Option, none, some, ◌==◌, if◌then◌else◌, Outcome,
  ok, panic, ◌>>=◌,
}
use operating_system_se.Str.{Bytes}
use operating_system_se.Fs.Volume.{Superblock}
use operating_system_se.Fs.Itable.{iget, idup}
use operating_system_se.Fs.Path.{slash, skipelem}
use operating_system_se.Fs.Refs.{FsState, deref, ilock_at, iput}
use operating_system_se.Fs.Dir.{t_dir, dirlookup}

-- ROOTDEV and ROOTINO
abbrev pub rootdev : ℕ
rootdev = 1

abbrev pub rootino : ℕ
rootino = 1

-- The inode's slot or 0, the memory, the state.
abbrev pub Named : Type 0
Named = Option ℕ × (Bytes × FsState)

module _ (sb : Superblock) where
  -- `iput`, and the result 0.
  abbrev pub drop_inode : ℕ → Bytes → FsState → Outcome Named
  drop_inode i mem s = iput sb i s >>= λ s'. ok (none, (mem, s'))

  -- The loop of `namex` at the inode in slot `i`, for at most `fuel` elements.
  unfoldable pub namex_loop :
      (parent : Bool) → (name fuel : ℕ) → (i path : ℕ) → Bytes → FsState → Outcome Named
  unfolding skipelem ilock_at dirlookup iput
  namex_loop parent name zero i path mem s = panic "out of fuel"
  namex_loop parent name (suc fuel) i path mem s =
      let (next_path, mem') = skipelem (suc fuel) mem path name in
      elim next_path [
        | none ↦ if parent then drop_inode i mem' s else ok (some i, (mem', s))
        | some path' ↦
            (ilock_at sb i s >>= λ s1. deref i s1 >>= λ ip.
            if not (ip.type == t_dir)
            then drop_inode i mem' s1
            else if parent && (mem' path' == 0)
            then ok (some i, (mem', s1))
            else (dirlookup sb i (λ x. mem' (name + x)) s1 >>= λ (r, s2). elim r [
              | none ↦ drop_inode i mem' s2
              | some (next, off) ↦
                  (iput sb i s2 >>= λ s3. namex_loop parent name fuel next path' mem' s3)
            ]))
      ]

  -- `cwd` is the slot of the process's directory.
  unfoldable pub namex :
      (parent : Bool) → (fuel path name cwd : ℕ) → Bytes → FsState → Outcome Named
  unfolding namex_loop
  namex parent fuel path name cwd mem s =
      if mem path == slash
      then (iget rootdev rootino s.inodes >>= λ (i, ips).
          namex_loop parent name fuel i path mem (record s { inodes = ips }))
      else namex_loop parent name fuel cwd path mem (record s { inodes = idup cwd s.inodes })

  unfoldable pub namei : (fuel path name cwd : ℕ) → Bytes → FsState → Outcome Named
  unfolding namex
  namei fuel path name cwd mem s = namex false fuel path name cwd mem s

  unfoldable pub nameiparent : (fuel path name cwd : ℕ) → Bytes → FsState → Outcome Named
  unfolding namex
  nameiparent fuel path name cwd mem s = namex true fuel path name cwd mem s
