-- ===== src/Spinlock.antt =====
-- kernel/spinlock.c: one spinlock, used by any number of CPUs whose steps interleave. A step is one
-- access to the lock's fields, except that the two reads of `holding` are one step, together with the
-- `push_off` before them in `acquire` and the write of `cpu` after them in `release`. `push_off` and `pop_off` touch only the CPU that runs them.
pub mod PushOff
pub mod Invariant
pub mod Exclusion
mod Tests
use operating_system_se.Base.{
  ℕ, ◌+◌, ◌-◌, ◌≡◌, Bool, true, false, ◌&&◌, Option, none, some, List, [], ◌∷◌, ltb, ◌==◌, same_ref,
  if◌then◌else◌, Outcome, ok, panic,
}

-- `struct cpu`, the fields of the nesting count, and `intr`, the interrupt bit of the machine's
-- status register.
pub record Cpu : Type 0 where
  pub noff : ℕ
  pub intena : Bool
  pub intr : Bool

-- `struct spinlock`; `cpu` is the index of the CPU that holds it, or null.
pub record Lock : Type 0 where
  pub locked : Bool
  pub cpu : Option ℕ

abbrev pub initlock : Lock
initlock = record { locked = false; cpu = none }

unfoldable pub push_off : Cpu → Cpu
push_off c =
    let old = c.intr in
    record { noff = c.noff + 1; intena = if c.noff == 0 then old else c.intena; intr = false }

unfoldable pub pop_off : Cpu → Outcome Cpu
pop_off c =
    if c.intr
    then panic "pop_off - interruptible"
    else if ltb c.noff 1
    then panic "pop_off"
    else let c' = record c { noff = c.noff - 1 } in
      ok (if (c.noff - 1 == 0) && c.intena then record c' { intr = true } else c')

-- Whether CPU `me` holds the lock.
unfoldable pub holding : ℕ → Lock → Bool
holding me lk = lk.locked && same_ref lk.cpu (some me)

-- Where a CPU stands in `acquire` and `release`.
pub data Pc : Type 0 where
  outside : Pc  -- before `acquire`
  spinning : Pc  -- in the loop of the atomic swap
  swapped : Pc  -- past the loop, before lk->cpu = mycpu()
  inside : Pc  -- `acquire` has returned
  cleared : Pc  -- in `release`, past lk->cpu = 0
  popping : Pc  -- past the release of the lock, before pop_off()
  panicked : Pc

pub record System : Type 0 where
  pub lock : Lock
  pub cpu : ℕ → Cpu
  pub pc : ℕ → Pc

abbrev pub update {ℓ} : {A : Type ℓ} → (ℕ → A) → ℕ → A → ℕ → A
update f i v j = if j == i then v else f j

-- CPU `i` goes on to `p`.
abbrev pub goto : ℕ → Pc → System → System
goto i p s = record s { pc = update s.pc i p }

-- The first part of `acquire`: push_off(), and the check for a lock that this CPU holds already.
unfoldable pub acquire_enter : ℕ → System → System
unfolding push_off holding
acquire_enter i s =
    let s' = record s { cpu = update s.cpu i (push_off (s.cpu i)) } in
    if holding i s.lock then goto i panicked s' else goto i spinning s'

-- __sync_lock_test_and_set(&lk->locked, 1): tried again until it returns 0.
unfoldable pub acquire_swap : ℕ → System → System
acquire_swap i s =
    let lk = s.lock in
    let s' = record s { lock = record lk { locked = true } } in
    if lk.locked then s' else goto i swapped s'

-- lk->cpu = mycpu()
unfoldable pub acquire_record : ℕ → System → System
acquire_record i s =
    let lk = s.lock in goto i inside (record s { lock = record lk { cpu = some i } })

-- The check of `release`, and lk->cpu = 0.
unfoldable pub release_clear : ℕ → System → System
unfolding holding
release_clear i s =
    let lk = s.lock in
    if holding i lk
    then goto i cleared (record s { lock = record lk { cpu = none } })
    else goto i panicked s

-- __sync_lock_release(&lk->locked)
unfoldable pub release_unlock : ℕ → System → System
release_unlock i s =
    let lk = s.lock in goto i popping (record s { lock = record lk { locked = false } })

-- The call of pop_off() that ends `release`.
unfoldable pub release_pop : ℕ → System → System
unfolding pop_off
release_pop i s = elim (pop_off (s.cpu i)) [
  | ok c ↦ goto i outside (record s { cpu = update s.cpu i c })
  | panic m ↦ goto i panicked s
]

unfoldable pub advance_at : Pc → ℕ → System → System
unfolding acquire_enter acquire_swap acquire_record release_clear release_unlock release_pop
advance_at outside i s = acquire_enter i s
advance_at spinning i s = acquire_swap i s
advance_at swapped i s = acquire_record i s
advance_at inside i s = release_clear i s
advance_at cleared i s = release_unlock i s
advance_at popping i s = release_pop i s
advance_at panicked i s = s

-- What may happen next: CPU `i` makes its next step, or, outside any push_off(), switches its
-- interrupts.
pub data Event : Type 0 where
  go : ℕ → Event
  set_intr : ℕ → Bool → Event

unfoldable pub advance : Event → System → System
unfolding advance_at
advance (go i) s = advance_at (s.pc i) i s
advance (set_intr i b) s =
    let c = s.cpu i in
    if c.noff == 0 then record s { cpu = update s.cpu i (record c { intr = b }) } else s

-- One interleaving.
unfoldable pub run : List Event → System → System
unfolding advance
run [] s = s
run (e ∷ es) s = run es (advance e s)
