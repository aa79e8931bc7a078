-- ===== src/Bio.antt =====
-- kernel/bio.c and kernel/sleeplock.c: the buffer cache. The circular list through `bcache.head` is the
-- list of the buffers from `head.next` on, the most recently used first; a pointer to a buffer is its
-- index in `bcache.buf`. The disk behind it returns what was written last.
pub mod Lookup
pub mod Release
mod Tests
use operating_system_se.Base.{
  ℕ, zero, suc, ◌+◌, ◌-◌, ◌≡◌, Bool, true, false, not, ◌&&◌, Option, none, some, List, [], ◌∷◌,
  ◌++◌, ◌==◌, if◌then◌else◌, Outcome, ok, panic, ◌>>=◌,
}

-- NBUF
abbrev pub nbuf : ℕ
nbuf = 30

-- struct sleeplock, without the spinlock that protects it.
pub record Sleeplock : Type 0 where
  pub locked : ℕ
  pub pid : ℕ

abbrev pub initsleeplock : Sleeplock
initsleeplock = record { locked = 0; pid = 0 }

-- A round of the loop of `acquiresleep`, by the process `pid`: none if it goes to sleep.
unfoldable pub acquiresleep : ℕ → Sleeplock → Option Sleeplock
acquiresleep pid lk = if not (lk.locked == 0) then none else some (record { locked = 1; pid = pid })

unfoldable pub releasesleep : Sleeplock → Sleeplock
releasesleep lk = record { locked = 0; pid = 0 }

unfoldable pub holdingsleep : ℕ → Sleeplock → Bool
holdingsleep pid lk = not (lk.locked == 0) && (lk.pid == pid)

-- struct buf
pub record Buf : Type 0 where
  pub slot : ℕ
  pub valid : Bool
  pub dev : ℕ
  pub blockno : ℕ
  pub lock : Sleeplock
  pub refcnt : ℕ
  pub bytes : List ℕ

abbrev pub is_for : ℕ → ℕ → Buf → Bool
is_for dev blockno b = (b.dev == dev) && (b.blockno == blockno)

-- The loop of `binit` over the next `n` buffers, of which each goes to the head of the list.
unfoldable pub binit_from : ℕ → ℕ → List Buf → List Buf
binit_from i zero bs = bs
binit_from i (suc n) bs = binit_from (i + 1) n (
    record {
      slot = i;
      valid = false;
      dev = 0;
      blockno = 0;
      lock = initsleeplock;
      refcnt = 0;
      bytes = [];
    }
    ∷ bs)

unfoldable pub binit : List Buf
unfolding binit_from
binit = binit_from 0 nbuf []

-- The first loop of `bget`, from the most recently used buffer on.
unfoldable pub find_cached : ℕ → ℕ → List Buf → Option (ℕ × List Buf)
find_cached dev blockno [] = none
find_cached dev blockno (b ∷ bs) =
    let rest = find_cached dev blockno bs in
    if is_for dev blockno b
    then some (b.slot, record b { refcnt = b.refcnt + 1 } ∷ bs)
    else (elim rest [ none ↦ none | some (s, bs') ↦ some (s, b ∷ bs') ])

abbrev pub recycled : ℕ → ℕ → Buf → Buf
recycled dev blockno b = record b { dev = dev; blockno = blockno; valid = false; refcnt = 1 }

-- The second loop of `bget`, from the least recently used buffer on.
unfoldable pub recycle : ℕ → ℕ → List Buf → Option (ℕ × List Buf)
recycle dev blockno [] = none
recycle dev blockno (b ∷ bs) = elim (recycle dev blockno bs) [
  | some (s, bs') ↦ some (s, b ∷ bs')
  | none ↦ if b.refcnt == 0 then some (b.slot, recycled dev blockno b ∷ bs) else none
]

-- `bget` up to its call of `acquiresleep`.
unfoldable pub bget : ℕ → ℕ → List Buf → Outcome (ℕ × List Buf)
unfolding find_cached recycle
bget dev blockno bs = elim (find_cached dev blockno bs) [
  | some r ↦ ok r
  | none ↦ elim (recycle dev blockno bs) [ some r ↦ ok r | none ↦ panic "bget: no buffers" ]
]

-- The change `f` of the buffer `s`.
unfoldable pub change : ℕ → (Buf → Buf) → List Buf → List Buf
change s f [] = []
change s f (b ∷ bs) = if b.slot == s then f b ∷ bs else b ∷ change s f bs

-- `bread` after `bget`, for the locked buffer: what the disk holds is read unless it is valid.
unfoldable pub bread_locked : (ℕ → ℕ → List ℕ) → Buf → Buf
bread_locked disk b =
    if not b.valid then record b { bytes = disk b.dev b.blockno; valid = true } else b

unfoldable pub bwrite : ℕ → (ℕ → ℕ → List ℕ) → Buf → Outcome (ℕ → ℕ → List ℕ)
unfolding holdingsleep
bwrite pid disk b =
    if not (holdingsleep pid b.lock)
    then panic "bwrite"
    else ok (λ d k. if is_for d k b then b.bytes else disk d k)

-- The buffer, and the list without it.
unfoldable pub unlink : ℕ → List Buf → Option (Buf × List Buf)
unlink s [] = none
unlink s (b ∷ bs) =
    let rest = unlink s bs in
    if b.slot == s
    then some (b, bs)
    else (elim rest [ none ↦ none | some (x, bs') ↦ some (x, b ∷ bs') ])

-- `brelse` of the buffer `s` by the process `pid`.
unfoldable pub brelse : ℕ → ℕ → List Buf → Outcome (List Buf)
unfolding unlink holdingsleep releasesleep change
brelse pid s bs = elim (unlink s bs) [
  | none ↦ panic "brelse"
  | some (b, others) ↦
      let b' = record b { lock = releasesleep b.lock; refcnt = b.refcnt - 1 } in
      if not (holdingsleep pid b.lock)
      then panic "brelse"
      else if b'.refcnt == 0
      then ok (b' ∷ others)
      else ok (change s (λ _. b') bs)
]

unfoldable pub bpin : ℕ → List Buf → List Buf
unfolding change
bpin s bs = change s (λ b. record b { refcnt = b.refcnt + 1 }) bs

unfoldable pub bunpin : ℕ → List Buf → List Buf
unfolding change
bunpin s bs = change s (λ b. record b { refcnt = b.refcnt - 1 }) bs
