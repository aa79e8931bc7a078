-- ===== src/Fs/Itable.antt =====
-- The table of inodes in memory (`iget`, `idup` and the count of references in kernel/fs.c). A pointer to
-- an inode is its index in `itable.inode`.
pub mod Unique
use operating_system_se.Base.{
  ℕ, zero, suc, ◌+◌, ◌-◌, ◌≡◌, Bool, true, false, not, ltb, ◌==◌, ◌&&◌, if◌then◌else◌, Option, none,
  some, List, [], ◌∷◌, Outcome, ok, panic, set, get_elem?, modify,
}

-- struct inode, without its sleeplock.
pub record Inode : Type 0 where
  pub dev : ℕ
  pub inum : ℕ
  pub ref : ℕ
  pub valid : Bool
  pub type : ℕ
  pub major : ℕ
  pub minor : ℕ
  pub nlink : ℕ
  pub size : ℕ
  pub addrs : List ℕ

-- struct stat
pub record Stat : Type 0 where
  pub dev : ℕ
  pub ino : ℕ
  pub type : ℕ
  pub nlink : ℕ
  pub size : ℕ

unfoldable pub stati : Inode → Stat
stati ip = record { dev = ip.dev; ino = ip.inum; type = ip.type; nlink = ip.nlink; size = ip.size }

abbrev pub in_use : ℕ → ℕ → Inode → Bool
in_use dev inum ip = ltb 0 ip.ref && ((ip.dev == dev) && (ip.inum == inum))

-- What the loop of `iget` ends with: an entry in use for the inode, or the first empty one.
pub data Scan : Type 0 where
  found : ℕ → Scan
  empty : Option ℕ → Scan

-- The empty slot that is remembered after entry `i`.
abbrev pub remember : ℕ → Inode → Option ℕ → Option ℕ
remember i ip (some j) = some j
remember i ip none = if ip.ref == 0 then some i else none

-- The loop from entry `i` on; `e` is the empty slot that is remembered.
unfoldable pub iget_scan : ℕ → ℕ → ℕ → Option ℕ → List Inode → Scan
iget_scan dev inum i e [] = empty e
iget_scan dev inum i e (ip ∷ ips) =
    let rest = iget_scan dev inum (i + 1) (remember i ip e) ips in
    if in_use dev inum ip then found i else rest

unfoldable pub iget : ℕ → ℕ → List Inode → Outcome (ℕ × List Inode)
iget dev inum ips = elim (iget_scan dev inum 0 none ips) [
  | found i ↦ ok (i, modify (λ ip. record ip { ref = ip.ref + 1 }) ips i)
  | empty none ↦ panic "iget: no inodes"
  | empty (some i) ↦
      ok (i, modify (λ ip. record ip { dev = dev; inum = inum; ref = 1; valid = false }) ips i)
]

unfoldable pub idup : ℕ → List Inode → List Inode
idup i ips = modify (λ ip. record ip { ref = ip.ref + 1 }) ips i
