-- ===== src/Log/Recover.antt =====
-- What recovery makes of a disk whose log holds a transaction, and what a transaction relies on
-- (kernel/log.c).
use operating_system_se.Base.{
  ℕ, ◌≤◌, ◌≡◌, ◌≢◌, ◌⊎◌, true, false, List, [], ◌∷◌, arith, ◌==◌, if◌then◌else◌, length,
}
use operating_system_se.Log.{
  Block, Store, update, decode, encode, log_blocks, install_from, write_head, recover_from_log, has,
}
use operating_system_se.Log.Install.{is_log, LogHolds, Homes, install_from-disk}

-- A block outside the log after recovery from the disk `d`.
abbrev pub recovered : ℕ → (ℕ → Block) → ℕ → Block
recovered start d x = (recover_from_log start d).disk x

pub update_ne : (f : ℕ → Block) (b : ℕ) (v : Block) (x : ℕ) → x ≢ b → update f b v x ≡ f x
update_ne f b v x h = ground arith

pub has-home :
    (start x : ℕ) (bs : List ℕ) → Homes start bs → has x bs ≡ true → is_log start x ≡ false
has-home start x [] h e = cc
has-home start x (b ∷ bs) h e = ground (arith, has-home start x bs h.1, h.0)

pub write_head-disk :
    (start : ℕ) (bs : List ℕ) (s : Store) (x : ℕ)
    → ((write_head start bs s).disk x
        ≡ (if x == start then encode bs (s.cache start) else s.disk x))
      × ((write_head start bs s).cache x
          ≡ (if x == start then encode bs (s.cache start) else s.cache x))
unfolding write_head
write_head-disk start bs s x = ground arith

pub recover-with :
    (start : ℕ) (d f : ℕ → Block) (bs : List ℕ) (x : ℕ)
    → decode (d start) ≡ bs
    → length bs ≤ log_blocks
    → Homes start bs
    → LogHolds start d f 0 bs
    → is_log start x ≡ false
    → recovered start d x ≡ (if has x bs then f x else d x)
unfolding recover_from_log
recover-with start d f bs x e fits homes holds home =
    let fresh : Store = record { disk = d; cache = d; crashes = [] } in
    rw e (
      ground (
        arith,
        write_head-disk start [] (install_from start 0 bs fresh) x,
        install_from-disk start f 0 bs fresh x (omega arith) homes holds,
      ))

-- What a transaction may rely on: its blocks fit into the log and lie outside it, the log on disk is
-- empty, and outside the log only the transaction's blocks differ between cache and disk.
pub record IsReady (start : ℕ) (bs : List ℕ) (s : Store) : Type 0 where
  pub fits : length bs ≤ log_blocks
  pub homes : Homes start bs
  pub empty : decode (s.disk start) ≡ []
  pub clean : (x : ℕ) → has x bs ≡ false → is_log start x ≡ false → s.disk x ≡ s.cache x

-- Recovery from the disk `e` gives the contents `g` outside the log.
abbrev pub RecoversTo : ℕ → (g e : ℕ → Block) → Type 0
RecoversTo start g e = (x : ℕ) → is_log start x ≡ false → recovered start e x ≡ g x

-- Recovery gives all of the old contents or all of the new ones.
abbrev pub IsAtomic : ℕ → Store → (ℕ → Block) → Type 0
IsAtomic start s e = RecoversTo start s.disk e ⊎ RecoversTo start s.cache e
