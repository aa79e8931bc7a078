-- ===== src/Sysfile/Paths.antt =====
-- Links (`sys_link`, `isdirempty`, `sys_unlink` in kernel/sysfile.c). A path is its address in memory, and
-- `name` that of a buffer for a name.
use operating_system_se.Base.{
  ℕ, zero, suc, ◌+◌, ◌-◌, ◌*◌, ◌%◌, ◌^◌, Bool, true, false, not, ◌||◌, Option, none, some, ltb, leb,
  ◌==◌, if◌then◌else◌, replicate, Outcome, ok, panic, ◌>>=◌, pos, negsuc,
}
use operating_system_se.Str.{Bytes}
use operating_system_se.Fs.Volume.{Superblock, Volume}
use operating_system_se.Fs.Itable.{Inode}
use operating_system_se.Fs.Dinode.{iupdate}
use operating_system_se.Fs.Content.{writei}
use operating_system_se.Fs.Path.{dirsiz, namecmp}
use operating_system_se.Fs.Refs.{FsState, deref, put_inode, ilock_at, iput}
use operating_system_se.Fs.Dir.{
  t_dir, dirent_size, from_kernel, de_inum, beside, entries, read_entry, dirlookup, dirlink,
}
use operating_system_se.Fs.Names.{namei, nameiparent}

-- MAXPATH: a path has fewer elements.
abbrev pub maxpath : ℕ
maxpath = 128

-- The result of a system call, 0 or -1, the memory, the state.
abbrev pub Called : Type 0
Called = Bool × (Bytes × FsState)

-- The names "." and "..".
abbrev pub dot : Bytes
dot x = if x == 0 then 46 else 0

abbrev pub dotdot : Bytes
dotdot x = if ltb x 2 then 46 else 0

abbrev pub equal_names : Bytes → Bytes → Bool
equal_names s t = elim (namecmp (beside s t) 0 dirsiz) [ pos n ↦ n == 0 | negsuc n ↦ false ]

-- The field nlink is a short: ++, --, and the test < 1.
abbrev pub more_links : Inode → Inode
more_links ip = record ip { nlink = (ip.nlink + 1) % 2 ^ 16 }

abbrev pub fewer_links : Inode → Inode
fewer_links ip = record ip { nlink = (ip.nlink + (2 ^ 16 - 1)) % 2 ^ 16 }

abbrev pub no_links : Inode → Bool
no_links ip = (ip.nlink == 0) || leb (2 ^ 15) ip.nlink

module _ (sb : Superblock) where
  -- A change of the inode in slot `i`, and iupdate().
  unfoldable pub change_inode : (Inode → Inode) → ℕ → FsState → Outcome FsState
  unfolding iupdate
  change_inode f i s = deref i s >>= λ ip.
      let ip' = f ip in ok (record (put_inode i ip' s) { volume = iupdate sb ip' s.volume })

  -- The path `bad` of `sys_link`.
  unfoldable pub link_bad : ℕ → Bytes → FsState → Outcome Called
  link_bad i mem s = do
    s1 ← ilock_at sb i s
    s2 ← change_inode fewer_links i s1
    s3 ← iput sb i s2
    ok (false, (mem, s3))

  -- `sys_link` once the inode has one link more.
  unfoldable pub link_name : (i new name cwd : ℕ) → Bytes → FsState → Outcome Called
  link_name i new name cwd mem s = nameiparent sb maxpath new name cwd mem s >>= λ (r, (mem1, s1)).
      elim r [
        | none ↦ link_bad i mem1 s1
        | some d ↦
            (ilock_at sb d s1 >>= λ s2. deref d s2 >>= λ dp. deref i s2 >>= λ ip.
            let bad : FsState → Outcome Called = λ t. iput sb d t >>= λ t'. link_bad i mem1 t' in
            let joined : Outcome Called =
              dirlink sb d (λ x. mem1 (name + x)) ip.inum s2 >>= λ (done, s3).
              let good : Outcome Called =
                iput sb d s3 >>= λ s4. iput sb i s4 >>= λ s5. ok (true, (mem1, s5)) in
              if done then good else bad s3 in
            if not (dp.dev == ip.dev) then bad s2 else joined)
      ]

  unfoldable pub sys_link : (old new : Option ℕ) (name cwd : ℕ) → Bytes → FsState → Outcome Called
  sys_link none new name cwd mem s = ok (false, (mem, s))
  sys_link (some old) none name cwd mem s = ok (false, (mem, s))
  sys_link (some old) (some new) name cwd mem s =
      namei sb maxpath old name cwd mem s >>= λ (r, (mem1, s1)). elim r [
        | none ↦ ok (false, (mem1, s1))
        | some i ↦
            (ilock_at sb i s1 >>= λ s2. deref i s2 >>= λ ip.
            let directory : Outcome Called = iput sb i s2 >>= λ s3. ok (false, (mem1, s3)) in
            let linked : Outcome Called =
              change_inode more_links i s2 >>= λ s3. link_name i new name cwd mem1 s3 in
            if ip.type == t_dir then directory else linked)
      ]

  -- The loop of `isdirempty` from offset `off` on, for at most `fuel` entries.
  unfoldable pub scan_used : (fuel off : ℕ) → Inode → Volume → Outcome (Bool × (Inode × Volume))
  scan_used zero off ip v = ok (true, (ip, v))
  scan_used (suc fuel) off ip v =
      let round : Outcome (Bool × (Inode × Volume)) = read_entry sb off ip v >>= λ (r, (ip', v')).
      let rest = scan_used fuel (off + dirent_size) ip' v' in
      elim r [
        | none ↦ panic "isdirempty: readi"
        | some de ↦ if not (de_inum de == 0) then ok (false, (ip', v')) else rest
      ] in
      if ltb off ip.size then round else ok (true, (ip, v))

  unfoldable pub isdirempty : ℕ → FsState → Outcome (Bool × FsState)
  isdirempty d s = deref d s >>= λ dp.
      scan_used (entries sb dp) (2 * dirent_size) dp s.volume >>= λ (r, (dp', v')).
      ok (r, record (put_inode d dp' s) { volume = v' })

  -- `sys_unlink` once the entry's inode may go: the entry at `off` of directory `d` is cleared.
  unfoldable pub unlink_entry : (d i off : ℕ) → Bytes → FsState → Outcome Called
  unlink_entry d i off mem s = deref d s >>= λ dp. deref i s >>= λ ip.
      writei sb (from_kernel (replicate dirent_size 0)) 0 off dirent_size dp s.volume
      >>= λ (n, (dp1, v1)).
          let full : Bool = elim n [ pos k ↦ k == dirent_size | negsuc k ↦ false ] in
          let s1 = record (put_inode d dp1 s) { volume = v1 } in
          let cleared : Outcome Called = (do
            s2 ← (if ip.type == t_dir then change_inode fewer_links d s1 else ok s1)
            s3 ← iput sb d s2
            s4 ← change_inode fewer_links i s3
            s5 ← iput sb i s4
            ok (true, (mem, s5))) in
          if full then cleared else panic "unlink: writei"

  unfoldable pub sys_unlink : (path : Option ℕ) (name cwd : ℕ) → Bytes → FsState → Outcome Called
  sys_unlink none name cwd mem s = ok (false, (mem, s))
  sys_unlink (some path) name cwd mem s =
      nameiparent sb maxpath path name cwd mem s >>= λ (r, (mem1, s1)). elim r [
        | none ↦ ok (false, (mem1, s1))
        | some d ↦
            (ilock_at sb d s1 >>= λ s2.
            let bad : FsState → Outcome Called =
              λ t. iput sb d t >>= λ t'. ok (false, (mem1, t')) in
            let last : Bytes = λ x. mem1 (name + x) in
            let look : Outcome Called = dirlookup sb d last s2 >>= λ (found, s3). elim found [
              | none ↦ bad s3
              | some (i, off) ↦
                  (ilock_at sb i s3 >>= λ s4. deref i s4 >>= λ ip.
                  let remove : Outcome Called =
                    (if ip.type == t_dir then isdirempty i s4 else ok (true, s4)) >>= λ (gone, s5).
                    let full : Outcome Called = iput sb i s5 >>= λ s6. bad s6 in
                    if gone then unlink_entry d i off mem1 s5 else full in
                  if no_links ip then panic "unlink: nlink < 1" else remove)
            ] in
            if equal_names last dot || equal_names last dotdot then bad s2 else look)
      ]
