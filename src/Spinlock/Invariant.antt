-- ===== src/Spinlock/Invariant.antt =====
-- What holds of the lock of kernel/spinlock.c and of its CPUs in every interleaving.
use operating_system_se.Base.{ℕ, ◌<◌, ◌≡◌, refl, Bool, true, false, some, arith, List, [], ◌∷◌}
use operating_system_se.Spinlock.{
  Cpu, initlock, Pc, outside, spinning, swapped, inside, cleared, popping, panicked, System,
  acquire_enter, acquire_swap, acquire_record, release_clear, release_unlock, release_pop,
  advance_at, Event, go, set_intr, advance, run,
}

-- Between the atomic swap of `acquire` and the release of the lock.
abbrev pub critical : Pc → Bool
critical swapped = true
critical inside = true
critical cleared = true
critical _ = false

-- What a CPU's own state says where it stands.
abbrev pub IsCalm : Pc → Cpu → Type 0
IsCalm outside c = 0 < c.noff → c.intr ≡ false
IsCalm panicked c = ⊥
IsCalm _ c = (0 < c.noff) × (c.intr ≡ false)

pub record Inv (s : System) : Type 0 where
  pub mutex : (i j : ℕ) → critical (s.pc i) ≡ true → critical (s.pc j) ≡ true → i ≡ j
  pub held : (i : ℕ) → critical (s.pc i) ≡ true → s.lock.locked ≡ true
  pub owner : (i : ℕ) → s.pc i ≡ inside → s.lock.cpu ≡ some i
  pub owned : (i : ℕ) → s.lock.cpu ≡ some i → s.pc i ≡ inside
  pub calm : (i : ℕ) → IsCalm (s.pc i) (s.cpu i)

module _ {s : System} (i : ℕ) (inv : Inv s) where
  open inv use {mutex, held, owner, owned, calm}

  enter-Inv : s.pc i ≡ outside → Inv (acquire_enter i s)
  unfolding acquire_enter
  enter-Inv at = record {
    mutex = λ j k. ground (arith, mutex j k);
    held = λ j. ground (arith, held j);
    owner = λ j. ground (arith, owner j);
    owned = λ j. ground (arith, owned j, owned i);
    calm = λ j. ground (arith, calm j, owned i);
  }

  swap-Inv : s.pc i ≡ spinning → Inv (acquire_swap i s)
  unfolding acquire_swap
  swap-Inv at = record {
    mutex = λ j k. ground (arith, mutex j k, held j, held k);
    held = λ j. ground (arith, held j);
    owner = λ j. ground (arith, owner j);
    owned = λ j. ground (arith, owned j, held j);
    calm = λ j. ground (arith, calm j);
  }

  record-Inv : s.pc i ≡ swapped → Inv (acquire_record i s)
  unfolding acquire_record
  record-Inv at = record {
    mutex = λ j k. ground (arith, mutex j k);
    held = λ j. ground (arith, held j, held i);
    owner = λ j. ground (arith, owner j, mutex i j);
    owned = λ j. ground (arith, owned j);
    calm = λ j. ground (arith, calm j);
  }

  clear-Inv : s.pc i ≡ inside → Inv (release_clear i s)
  unfolding release_clear
  clear-Inv at = record {
    mutex = λ j k. ground (arith, mutex j k, owner i, held i);
    held = λ j. ground (arith, held j, held i, owner i);
    owner = λ j. ground (arith, owner j, mutex i j, owner i, held i);
    owned = λ j. ground (arith, owned j, owner i, held i);
    calm = λ j. ground (arith, calm j, calm i, owner i, held i);
  }

  unlock-Inv : s.pc i ≡ cleared → Inv (release_unlock i s)
  unfolding release_unlock
  unlock-Inv at = record {
    mutex = λ j k. ground (arith, mutex j k);
    held = λ j. ground (arith, held j, mutex i j);
    owner = λ j. ground (arith, owner j);
    owned = λ j. ground (arith, owned j);
    calm = λ j. ground (arith, calm j);
  }

  pop-Inv : s.pc i ≡ popping → Inv (release_pop i s)
  unfolding release_pop
  pop-Inv at = record {
    mutex = λ j k. ground (arith, mutex j k, calm i);
    held = λ j. ground (arith, held j, calm i);
    owner = λ j. ground (arith, owner j, calm i);
    owned = λ j. ground (arith, owned j, calm i);
    calm = λ j. ground (arith, calm j, calm i);
  }

  intr-Inv : (b : Bool) → Inv (advance (set_intr i b) s)
  unfolding advance
  intr-Inv b = record {
    mutex = λ j k. ground (arith, mutex j k);
    held = λ j. ground (arith, held j);
    owner = λ j. ground (arith, owner j);
    owned = λ j. ground (arith, owned j);
    calm = λ j. ground (arith, calm j, calm i);
  }

  at-Inv : (p : Pc) → s.pc i ≡ p → Inv (advance_at p i s)
  unfolding advance_at
  at-Inv outside at = enter-Inv at
  at-Inv spinning at = swap-Inv at
  at-Inv swapped at = record-Inv at
  at-Inv inside at = clear-Inv at
  at-Inv cleared at = unlock-Inv at
  at-Inv popping at = pop-Inv at
  at-Inv panicked at = inv

pub advance-Inv : (e : Event) {s : System} → Inv s → Inv (advance e s)
unfolding advance
advance-Inv (go i) {s} inv = at-Inv i inv (s.pc i) refl
advance-Inv (set_intr i b) inv = intr-Inv i inv b

pub run-Inv : (es : List Event) {s : System} → Inv s → Inv (run es s)
unfolding run
run-Inv [] inv = inv
run-Inv (e ∷ es) inv = run-Inv es (advance-Inv e inv)

-- The lock is free and no CPU has reached `acquire`; each may hold other locks.
pub record IsStart (s : System) : Type 0 where
  pub free : s.lock ≡ initlock
  pub before : (i : ℕ) → s.pc i ≡ outside
  pub quiet : (i : ℕ) → 0 < (s.cpu i).noff → (s.cpu i).intr ≡ false

pub start-Inv : {s : System} → IsStart s → Inv s
start-Inv st = record {
  mutex = λ i j. ground (arith, st.before i);
  held = λ i. ground (arith, st.before i);
  owner = λ i. ground (arith, st.before i);
  owned = λ i. ground (arith, st.free);
  calm = λ i. ground (arith, st.before i, st.quiet i);
}
