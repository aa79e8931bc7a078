-- ===== src/Log.antt =====
-- kernel/log.c: the redo log, as what it writes to the disk, and the bookkeeping of transactions.
pub mod Install
pub mod Recover
pub mod Commit
pub mod Reserve
mod Tests
use operating_system_se.Base.{
  ℕ, zero, suc, ◌+◌, ◌-◌, ◌*◌, ◌≡◌, Bool, true, false, ◌||◌, List, [], ◌∷◌, ◌++◌, ltb, leb, ◌==◌,
  if◌then◌else◌, take, drop, length, Outcome, ok, panic,
}

-- MAXOPBLOCKS and LOGBLOCKS
abbrev pub max_op_blocks : ℕ
max_op_blocks = 10

abbrev pub log_blocks : ℕ
log_blocks = 30

-- The content of a block, as its words of 32 bits.
abbrev pub Block : Type 0
Block = List ℕ

-- A disk, and a cache in front of it, by block number. The cache gives what `bread` returns: a
-- buffer that was changed and is pinned, or else the block of the disk. `crashes` holds the disk as
-- it was after each write, the newest first: what a crash may leave.
pub record Store : Type 0 where
  pub disk : ℕ → Block
  pub cache : ℕ → Block
  pub crashes : List (ℕ → Block)

abbrev pub update : (ℕ → Block) → ℕ → Block → ℕ → Block
update f b v x = if x == b then v else f x

-- memmove(to->data, from->data, BSIZE), on two buffers of the cache.
unfoldable pub copy_block : ℕ → ℕ → Store → Store
copy_block to from s = record s { cache = update s.cache to (s.cache from) }

-- bwrite
unfoldable pub bwrite : ℕ → Store → Store
bwrite b s = let d = update s.disk b (s.cache b) in record s { disk = d; crashes = d ∷ s.crashes }

-- The in-memory header is the list of its first `n` entries. On disk it is the count, then the entries.
abbrev pub decode : Block → List ℕ
decode [] = []
decode (n ∷ ws) = take n ws

abbrev pub tail_of : Block → Block
tail_of [] = []
tail_of (n ∷ ws) = ws

-- The header's buffer after its first words are overwritten.
abbrev pub encode : List ℕ → Block → Block
encode bs old = length bs ∷ (bs ++ drop (length bs) (tail_of old))

-- The log's header is at block `start`, its blocks follow.
module _ (start : ℕ) where
  -- `write_log` from entry `tail` on.
  unfoldable pub write_log_from : ℕ → List ℕ → Store → Store
  unfolding copy_block bwrite
  write_log_from tail [] s = s
  write_log_from tail (b ∷ bs) s =
      write_log_from (tail + 1) bs (bwrite (start + tail + 1) (copy_block (start + tail + 1) b s))

  -- `install_trans` from entry `tail` on.
  unfoldable pub install_from : ℕ → List ℕ → Store → Store
  unfolding copy_block bwrite
  install_from tail [] s = s
  install_from tail (b ∷ bs) s =
      install_from (tail + 1) bs (bwrite b (copy_block b (start + tail + 1) s))

  unfoldable pub read_head : Store → List ℕ
  read_head s = decode (s.cache start)

  unfoldable pub write_head : List ℕ → Store → Store
  unfolding bwrite
  write_head bs s =
      bwrite start (record s { cache = update s.cache start (encode bs (s.cache start)) })

  -- `recover_from_log`, after a restart with the disk `d`.
  unfoldable pub recover_from_log : (ℕ → Block) → Store
  unfolding read_head install_from write_head
  recover_from_log d =
      let s : Store = record { disk = d; cache = d; crashes = [] } in
      write_head [] (install_from 0 (read_head s) s)

  -- `commit` for the blocks of the in-memory header.
  unfoldable pub commit : List ℕ → Store → Store
  unfolding write_log_from write_head install_from
  commit [] s = s
  commit (b ∷ bs) s =
      let logged = write_head (b ∷ bs) (write_log_from 0 (b ∷ bs) s) in
      write_head [] (install_from 0 (b ∷ bs) logged)

-- The rest of `struct log`: `outstanding`, `committing` and the header's entries.
pub record Trans : Type 0 where
  pub outstanding : ℕ
  pub committing : Bool
  pub blocks : List ℕ

-- A round of the loop of `begin_op`: goes to sleep, or has begun.
pub data Begun : Type 0 where
  waits : Begun
  begun : Trans → Begun

unfoldable pub begin_op : Trans → Begun
begin_op t =
    if t.committing
    then waits
    else if ltb log_blocks (length t.blocks + (t.outstanding + 1) * max_op_blocks)
    then waits
    else begun (record t { outstanding = t.outstanding + 1 })

-- The first part of `end_op`: the new state, and whether to commit. It is called with an operation
-- outstanding; a count below 0 is not represented.
unfoldable pub end_op : Trans → Outcome (Trans × Bool)
end_op t =
    let t' = record t { outstanding = t.outstanding - 1 } in
    if t.committing
    then panic "log.committing"
    else if t.outstanding == 1
    then ok (record t' { committing = true }, true)
    else ok (t', false)

-- After commit(): the header is empty.
unfoldable pub end_commit : Trans → Trans
end_commit t = record t { committing = false; blocks = [] }

abbrev pub has : ℕ → List ℕ → Bool
has a [] = false
has a (x ∷ xs) = (a == x) || has a xs

-- `log_write` for the block `b`: the new state, and whether the buffer is pinned.
unfoldable pub log_write : ℕ → Trans → Outcome (Trans × Bool)
log_write b t =
    if leb log_blocks (length t.blocks)
    then panic "too big a transaction"
    else if ltb t.outstanding 1
    then panic "log_write outside of trans"
    else if has b t.blocks
    then ok (t, false)
    else ok (record t { blocks = t.blocks ++ (b ∷ []) }, true)
