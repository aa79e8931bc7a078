-- ===== src/Sysfile/Open.antt =====
-- Files opened, read and asked about (`sys_open`, `sys_read`, `sys_fstat` in kernel/sysfile.c, `fileread`,
-- `filestat` in kernel/file.c).
use Prim.Native.Nat.{bit_and}
use operating_system_se.Base.{
  ℕ, ◌+◌, Bool, not, ◌&&◌, ◌||◌, Option, none, some, List, leb, ◌==◌, if◌then◌else◌, Outcome, ok,
  panic, ◌>>=◌, ℤ, pos, negsuc,
}
use operating_system_se.Str.{Bytes}
use operating_system_se.File.{File, fd_none, fd_pipe, fd_inode, fd_device, filealloc}
use operating_system_se.Fs.Volume.{Superblock}
use operating_system_se.Fs.Itable.{Inode, Stat, stati}
use operating_system_se.Fs.Blocks.{itrunc}
use operating_system_se.Fs.Content.{readi}
use operating_system_se.Fs.Refs.{FsState, deref, put_inode, ilock_at, iput}
use operating_system_se.Fs.Dir.{t_dir}
use operating_system_se.Fs.Names.{Named, namei}
use operating_system_se.Sysfile.Fds.{Fds, deref_file, put_file, argfd, fdalloc, fileclose_at}
use operating_system_se.Sysfile.Paths.{maxpath}
use operating_system_se.Sysfile.Make.{t_file, t_device, create}

-- NDEV
abbrev pub ndev : ℕ
ndev = 10

-- O_WRONLY, O_RDWR, O_CREATE and O_TRUNC
abbrev pub o_wronly : ℕ
o_wronly = 1

abbrev pub o_rdwr : ℕ
o_rdwr = 2

abbrev pub o_create : ℕ
o_create = 512

abbrev pub o_trunc : ℕ
o_trunc = 1024

abbrev pub has_flag : ℕ → ℕ → Bool
has_flag omode flag = not (bit_and omode flag == 0)

module _ (sb : Superblock) where
  -- What `sys_open` acts on: the descriptors and the file system.
  abbrev pub Opened : Type 0
  Opened = ℤ × (Bytes × (Fds × FsState))

  -- The inode to open, or none for -1.
  unfoldable pub open_inode : (path omode name cwd : ℕ) → Bytes → FsState → Outcome Named
  open_inode path omode name cwd mem s =
      let existing : Outcome Named = namei sb maxpath path name cwd mem s >>= λ (r, (mem1, s1)).
      elim r [
        | none ↦ ok (none, (mem1, s1))
        | some i ↦ do
          s2 ← ilock_at sb i s1
          ip ← deref i s2
          let refuse : Outcome Named = iput sb i s2 >>= λ s3. ok (none, (mem1, s3))
          if (ip.type == t_dir) && not (omode == 0) then refuse else ok (some i, (mem1, s2))
      ] in
      if has_flag omode o_create then create sb path t_file 0 0 name cwd mem s else existing

  -- filealloc() and fdalloc(), and what is undone where the second fails: the descriptor and the file, or
  -- none.
  unfoldable pub open_fd : Fds → Outcome (Option (ℕ × ℕ) × Fds)
  open_fd k = elim (filealloc k.files) [
    | none ↦ ok (none, k)
    | some (f, fs) ↦
        let k1 : Fds = record k { files = fs } in
        elim (fdalloc f k1) [
          | none ↦ (fileclose_at f k1 >>= λ (c, k2). ok (none, k2))
          | some (fd, k2) ↦ ok (some (fd, f), k2)
        ]
  ]

  -- The fields of the open file.
  abbrev pub opened_file : (i omode : ℕ) → Inode → File → File
  opened_file i omode ip f =
      let g : File =
        if ip.type == t_device
        then record f { type = fd_device; major = ip.major }
        else record f { type = fd_inode; off = 0 } in
      record g {
        ip = i;
        readable = if has_flag omode o_wronly then 0 else 1;
        writable = if has_flag omode o_wronly || has_flag omode o_rdwr then 1 else 0;
      }

  -- `sys_open` once it has the inode, in slot `i`. A short is negative from 2^15 on.
  unfoldable pub open_file : (i omode : ℕ) → Bytes → Fds → FsState → Outcome Opened
  open_file i omode mem k s = deref i s >>= λ ip.
      let refuse : Fds → Outcome Opened =
        λ k'. iput sb i s >>= λ s'. ok (negsuc 0, (mem, (k', s'))) in
      let finish : Outcome Opened = open_fd k >>= λ (r, k1). elim r [
        | none ↦ refuse k1
        | some (fd, f) ↦ do
          x ← deref_file f k1
          let k2 = put_file f (opened_file i omode ip x) k1
          (ip', v') ←
              (if has_flag omode o_trunc && (ip.type == t_file)
                then itrunc sb ip s.volume
                else ok (ip, s.volume))
          ok (pos fd, (mem, (k2, record (put_inode i ip' s) { volume = v' })))
      ] in
      if (ip.type == t_device) && leb ndev ip.major then refuse k else finish

  unfoldable pub sys_open :
      (path : Option ℕ) (omode name cwd : ℕ) → Bytes → Fds → FsState → Outcome Opened
  sys_open none omode name cwd mem k s = ok (negsuc 0, (mem, (k, s)))
  sys_open (some path) omode name cwd mem k s =
      open_inode path omode name cwd mem s >>= λ (r, (mem1, s1)). elim r [
        | none ↦ ok (negsuc 0, (mem1, (k, s1)))
        | some i ↦ open_file i omode mem1 k s1
      ]

  -- `filestat`, where `copied` says whether copyout() succeeds: what it copies, or none for -1.
  unfoldable pub filestat : (copied : Bool) → File → FsState → Outcome (Option Stat × FsState)
  filestat copied f s =
      let inode : Outcome (Option Stat × FsState) = (do
        s1 ← ilock_at sb f.ip s
        ip ← deref f.ip s1
        ok (if copied then some (stati ip) else none, s1)) in
      elim f.type [
        | fd_inode ↦ inode
        | fd_device ↦ inode
        | fd_none ↦ ok (none, s)
        | fd_pipe ↦ ok (none, s)
      ]

  unfoldable pub sys_fstat : (copied : Bool) → ℤ → Fds → FsState → Outcome (Option Stat × FsState)
  sys_fstat copied n k s = elim (argfd n k) [
    | none ↦ ok (none, s)
    | some (fd, f) ↦ (deref_file f k >>= λ x. filestat copied x s)
  ]

-- How `fileread` goes on: it returns, or calls piperead() or the read function of a device.
pub data ReadCall : Type 0 where
  returns : ℤ → ReadCall
  from_pipe : ℕ → ReadCall
  from_device : ℕ → ReadCall

module _ (sb : Superblock) {U : Type 0} (copyout : ℕ → List ℕ → U → U × Bool)
    (has_read : ℕ → Bool) where
  -- `fileread` for `n` bytes, as a uint, to address `addr` of the user's memory `u`. `has_read` says which devices have a
  -- read function.
  unfoldable pub fileread :
      (addr n : ℕ) → File → U → FsState → Outcome (ReadCall × (File × (U × FsState)))
  fileread addr n f u s =
      let inode : Outcome (ReadCall × (File × (U × FsState))) = (do
        s1 ← ilock_at sb f.ip s
        ip ← deref f.ip s1
        r ← readi sb copyout addr f.off n u ip s1.volume
        let off : ℕ = elim r.result [ pos m ↦ f.off + m | negsuc m ↦ f.off ]
        ok (
          returns r.result,
          (record f { off = off }, (r.dest, record (put_inode f.ip r.ip s1) { volume = r.volume })),
        )) in
      let device : ReadCall =
        if leb ndev f.major || not (has_read f.major)
        then returns (negsuc 0)
        else from_device f.major in
      if f.readable == 0 then ok (returns (negsuc 0), (f, (u, s))) else (elim f.type [
        | fd_pipe ↦ ok (from_pipe f.pipe, (f, (u, s)))
        | fd_device ↦ ok (device, (f, (u, s)))
        | fd_inode ↦ inode
        | fd_none ↦ panic "fileread"
      ])

  unfoldable pub sys_read :
      ℤ → (addr n : ℕ) → Fds → U → FsState → Outcome (ReadCall × (Fds × (U × FsState)))
  sys_read d addr n k u s = elim (argfd d k) [
    | none ↦ ok (returns (negsuc 0), (k, (u, s)))
    | some (fd, f) ↦
        (deref_file f k >>= λ x.
        fileread addr n x u s >>= λ (r, (x', rest)). ok (r, (put_file f x' k, rest)))
  ]
