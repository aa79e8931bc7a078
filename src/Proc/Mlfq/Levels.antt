-- ===== src/Proc/Mlfq/Levels.antt =====
-- The scheduling fields of a process stay in range (kernel/proc.c, kernel/trap.c).
use operating_system_se.Base.{
  ℕ, zero, suc, ◌+◌, ◌-◌, ◌<◌, none, some, All, All-map, All-modify, arith, Option,
}
use operating_system_se.Proc.{Proc}
use operating_system_se.Proc.Mlfq.{
  mlfq_levels, quantum, aging_threshold, pick, dispatch, charge, age, Sched, ticks_of, run_chosen,
  scheduler_round, clock_tick,
}

-- The level exists, its quantum is not used up, and above level 0 a promotion is not due.
pub record IsValid (p : Proc) : Type 0 where
  pub level : p.queue_level < mlfq_levels
  pub ticks : p.q_ticks < quantum p.queue_level
  pub waited : 0 < p.queue_level → p.wait_time < aging_threshold

pub quantum_pos : (n : ℕ) → n < mlfq_levels → 0 < quantum n
unfolding quantum
quantum_pos zero h = omega arith
quantum_pos (suc zero) h = omega arith
quantum_pos (suc (suc zero)) h = omega arith
quantum_pos (suc (suc (suc n))) h = absurd (omega arith)

dispatch-IsValid : (p : Proc) → IsValid p → IsValid (dispatch p)
unfolding dispatch
dispatch-IsValid p v = ground arith

charge-IsValid : (prev : ℕ) (p : Proc) → IsValid p → IsValid (charge prev p)
unfolding charge
charge-IsValid prev p v = ground (arith, quantum_pos p.queue_level, quantum_pos (p.queue_level + 1))

age-IsValid : (p : Proc) → IsValid p → IsValid (age p)
unfolding age
age-IsValid p v = ground (arith, quantum_pos (p.queue_level - 1))

pub clock_tick-IsValid : (p : Proc) → IsValid p → IsValid (clock_tick p)
unfolding clock_tick
clock_tick-IsValid p v = ground arith

run_chosen-IsValid :
    (swtch : Sched → Sched) (s : Sched) (o : Option ℕ)
    → ((t : Sched) → All IsValid t.procs → All IsValid (swtch t).procs)
    → All IsValid s.procs
    → All IsValid (run_chosen swtch s o).procs
unfolding run_chosen
run_chosen-IsValid swtch s none keep v = All-map IsValid age s.procs age-IsValid v
run_chosen-IsValid swtch s (some i) keep v = All-map IsValid age _ age-IsValid (
    All-modify IsValid (charge (ticks_of s.procs i)) _ i (charge-IsValid (ticks_of s.procs i))
      (keep _ (All-modify IsValid dispatch s.procs i dispatch-IsValid v)))

-- One round of the scheduler keeps every process's level, used ticks and waiting time in range, if
-- what runs between the two context switches does: the index into `mlfq_quantum` is always in range.
pub scheduler_round-IsValid :
    (swtch : Sched → Sched) (s : Sched)
    → ((t : Sched) → All IsValid t.procs → All IsValid (swtch t).procs)
    → All IsValid s.procs
    → All IsValid (scheduler_round swtch s).procs
unfolding scheduler_round
scheduler_round-IsValid swtch s keep v = run_chosen-IsValid swtch s (pick s.procs) keep v
