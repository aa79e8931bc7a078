-- ===== src/Spinlock/Exclusion.antt =====
-- Mutual exclusion for the lock of kernel/spinlock.c, and what `holding` says.
use operating_system_se.Base.{ℕ, ◌<◌, ◌≡◌, ◌≢◌, ◌↔◌, true, false, List, arith, subst}
use operating_system_se.Spinlock.{
  Pc, outside, spinning, swapped, inside, cleared, popping, panicked, System, Cpu, holding, Event,
  run,
}
use operating_system_se.Spinlock.Invariant.{critical, IsCalm, Inv, IsStart, start-Inv, run-Inv}

calm_off : (p : Pc) (c : Cpu) → IsCalm p c → critical p ≡ true → (c.intr ≡ false) × (0 < c.noff)
calm_off swapped c h e = (h.1, h.0)
calm_off inside c h e = (h.1, h.0)
calm_off cleared c h e = (h.1, h.0)
calm_off outside c h e = cc
calm_off spinning c h e = (h.1, h.0)
calm_off popping c h e = (h.1, h.0)
calm_off panicked c h e = cc

not_panicked : (p : Pc) (c : Cpu) → IsCalm p c → p ≢ panicked
not_panicked p c h e = subst (λ q. IsCalm q c) e h

-- However the steps of the CPUs interleave, at most one CPU at a time stands between the atomic swap
-- of `acquire` and the release of the lock.
pub run-mutex :
    (es : List Event) {s : System}
    → IsStart s
    → (i j : ℕ) → critical ((run es s).pc i) ≡ true
    → critical ((run es s).pc j) ≡ true
    → i ≡ j
run-mutex es st = (run-Inv es (start-Inv st)).mutex

-- In every interleaving a CPU runs with interrupts off, and a push_off() open, while it stands
-- between the atomic swap of `acquire` and the release of the lock.
pub run-quiet :
    (es : List Event) {s : System}
    → IsStart s
    → (i : ℕ) → critical ((run es s).pc i) ≡ true
    → (((run es s).cpu i).intr ≡ false) × (0 < ((run es s).cpu i).noff)
run-quiet es {s} st i e =
    calm_off ((run es s).pc i) ((run es s).cpu i) ((run-Inv es (start-Inv st)).calm i) e

-- In no interleaving does a check of `acquire`, `release` or `pop_off` panic.
pub run-never_panics :
    (es : List Event) {s : System} → IsStart s → (i : ℕ) → (run es s).pc i ≢ panicked
run-never_panics es {s} st i =
    not_panicked ((run es s).pc i) ((run es s).cpu i) ((run-Inv es (start-Inv st)).calm i)

-- In every interleaving `holding` says of each CPU exactly whether it stands between the return of
-- `acquire` and the start of `release`.
pub holding_iff_inside :
    (es : List Event) {s : System}
    → IsStart s
    → (i : ℕ) → (holding i (run es s).lock ≡ true) ↔ ((run es s).pc i ≡ inside)
unfolding holding
holding_iff_inside es {s} st i = (ground (arith, owned i), ground (arith, owner i, held i))
  where
    inv : Inv (run es s)
    inv = run-Inv es (start-Inv st)

    open inv use {owned, owner, held}
