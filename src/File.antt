-- ===== src/File.antt =====
-- kernel/file.c: the table of open files. A pointer to a file is its index in `ftable.file`; pointers to
-- pipes and inodes are numbers. What a close does to the pipe or the inode is returned as a value.
pub mod Table
pub mod Write
mod Tests
use operating_system_se.Base.{
  ℕ, zero, suc, ◌+◌, ◌-◌, ◌*◌, ◌/◌, ◌≡◌, Bool, true, false, not, Option, none, some, List, [], ◌∷◌,
  ltb, ◌==◌, ◌||◌, if◌then◌else◌, Outcome, ok, panic, get_elem?, set, ℤ, pos, negsuc, modify,
}

pub data FileType : Type 0 where
  fd_none : FileType
  fd_pipe : FileType
  fd_inode : FileType
  fd_device : FileType

-- struct file
pub record File : Type 0 where
  pub type : FileType
  pub ref : ℕ
  pub readable : ℕ
  pub writable : ℕ
  pub pipe : ℕ
  pub ip : ℕ
  pub off : ℕ
  pub major : ℕ

-- The loop of `filealloc` from file `i` on: none if the table is full.
unfoldable pub filealloc_from : ℕ → List File → Option (ℕ × List File)
filealloc_from i [] = none
filealloc_from i (f ∷ fs) =
    let rest = filealloc_from (i + 1) fs in
    if f.ref == 0
    then some (i, record f { ref = 1 } ∷ fs)
    else (elim rest [ none ↦ none | some (j, fs') ↦ some (j, f ∷ fs') ])

unfoldable pub filealloc : List File → Option (ℕ × List File)
unfolding filealloc_from
filealloc fs = filealloc_from 0 fs

unfoldable pub filedup : File → Outcome File
filedup f = if ltb f.ref 1 then panic "filedup" else ok (record f { ref = f.ref + 1 })

-- What `fileclose` still does after the table's lock is released.
pub data Closing : Type 0 where
  nothing : Closing
  close_pipe : (pipe writable : ℕ) → Closing
  put_inode : (ip : ℕ) → Closing

abbrev pub closing : File → Closing
closing ff = elim ff.type [
  | fd_none ↦ nothing
  | fd_pipe ↦ close_pipe ff.pipe ff.writable
  | fd_inode ↦ put_inode ff.ip
  | fd_device ↦ put_inode ff.ip
]

unfoldable pub fileclose : File → Outcome (File × Closing)
fileclose f =
    if ltb f.ref 1
    then panic "fileclose"
    else if ltb 0 (f.ref - 1)
    then ok (record f { ref = f.ref - 1 }, nothing)
    else ok (record f { ref = 0; type = fd_none }, closing f)

-- ((MAXOPBLOCKS-1-1-2) / 2) * BSIZE
abbrev pub max_write : ℕ
max_write = (10 - 1 - 1 - 2) / 2 * 1024

-- The loop of `filewrite` on an inode, from byte `i` of `n` on, for at most `fuel` rounds. `writei` makes
-- one transaction: from the number of the byte, the offset in the file, the number of bytes and the
-- inode it gives the result and the inode. The result is `i` and the offset at the end.
module _ {S : Type 0} (writei : ℕ → ℕ → ℕ → S → ℤ × S) where
  unfoldable pub write_chunks : ℕ → ℕ → ℕ → ℕ → S → ℕ × (ℕ × S)
  write_chunks zero n i off ip = (i, (off, ip))
  write_chunks (suc fuel) n i off ip =
      if not (ltb i n)
      then (i, (off, ip))
      else let n1 = if ltb max_write (n - i) then max_write else n - i in
        let (r, ip') = writei i off n1 ip in
        elim r [
          | pos m ↦
              let off' = if ltb 0 m then off + m else off in
              let rest = write_chunks fuel n (i + m) off' ip' in
              if not (m == n1) then (i, (off', ip')) else rest
          | negsuc m ↦ (i, (off, ip'))
        ]

  -- `filewrite` on an inode: the return value, the offset, the inode.
  unfoldable pub filewrite_inode : ℕ → ℕ → File → S → ℤ × (File × S)
  unfolding write_chunks
  filewrite_inode fuel n f ip =
      if f.writable == 0
      then (negsuc 0, (f, ip))
      else let (i, (off, ip')) = write_chunks fuel n 0 f.off ip in
        (if i == n then pos n else negsuc 0, (record f { off = off }, ip'))
