-- ===== src/Spinlock/Tests.antt =====
-- The theorems about kernel/spinlock.c at concrete inputs.
use operating_system_se.Base.{ℕ, ◌≡◌, ◌≢◌, ◌↔◌, refl, true, false, List, [], ◌∷◌, arith}
use operating_system_se.Spinlock.{
  Cpu, initlock, outside, inside, panicked, spinning, System, holding, Event, go, run,
}
use operating_system_se.Spinlock.Invariant.{critical, IsStart}
use operating_system_se.Spinlock.Exclusion.{run-mutex, run-never_panics, holding_iff_inside}

abbrev awake : Cpu
awake = record { noff = 0; intena = false; intr = true }

abbrev start : System
start = record { lock = initlock; cpu = λ _. awake; pc = λ _. outside }

-- CPU 0 takes the lock while CPU 1 tries.
abbrev contest : List Event
contest = go 0 ∷ go 1 ∷ go 1 ∷ go 0 ∷ go 1 ∷ go 0 ∷ []

start-IsStart : IsStart start
start-IsStart = record { free = refl; before = λ i. refl; quiet = λ i h. absurd (omega arith) }

-- CPU 1 swapped first, so CPU 0 still spins.
contest-spins : ((run contest start).pc 0 ≡ spinning) × ((run contest start).pc 1 ≡ inside)
unfolding run
contest-spins = (refl, refl)

inside_critical : critical ((run contest start).pc 1) ≡ true
unfolding run
inside_critical = refl

-- CPU 1 has the lock, as the only one.
run-mutex_example : ◌≡◌ {A = ℕ} 1 1
run-mutex_example = run-mutex contest start-IsStart 1 1 inside_critical inside_critical

run-never_panics_example : (run contest start).pc 0 ≢ panicked
run-never_panics_example = run-never_panics contest start-IsStart 0

holding_iff_inside_example :
    (holding 1 (run contest start).lock ≡ true) ↔ ((run contest start).pc 1 ≡ inside)
holding_iff_inside_example = holding_iff_inside contest start-IsStart 1
