-- ===== src/Proc/Mlfq.antt =====
-- The multi-level feedback queue of kernel/proc.c (`scheduler`) and its clock (kernel/trap.c,
-- `clockintr`). The counters are C ints that are only counted up: they are numbers without a bound.
pub mod Pick
pub mod Levels
pub mod Aging
mod Tests
use operating_system_se.Base.{
  ℕ, zero, suc, ◌+◌, ◌-◌, ◌≡◌, Bool, true, false, ◌&&◌, Option, none, some, List, [], ◌∷◌, map, ltb,
  leb, ◌==◌, if◌then◌else◌, get_or, get_elem?, modify,
}
use operating_system_se.Proc.{ProcState, runnable, running, Proc, is_runnable, is_running}

-- MLFQ_LEVELS
abbrev pub mlfq_levels : ℕ
mlfq_levels = 3

-- mlfq_quantum: ticks at each level.
abbrev pub mlfq_quantum : List ℕ
mlfq_quantum = 1 ∷ 2 ∷ 4 ∷ []

abbrev pub aging_threshold : ℕ
aging_threshold = 200

unfoldable pub quantum : ℕ → ℕ
quantum level = get_or mlfq_quantum level 0

-- The inner loop of the scan: the first process, from index `i` on, that is RUNNABLE at `level`.
unfoldable pub scan_level : ℕ → ℕ → List Proc → Option ℕ
scan_level level i [] = none
scan_level level i (p ∷ ps) =
    if is_runnable p.state && p.queue_level == level then some i else scan_level level (i + 1) ps

-- The outer loop, for the `n` levels from `level` on.
unfoldable pub scan_levels : ℕ → ℕ → List Proc → Option ℕ
scan_levels zero level ps = none
scan_levels (suc n) level ps = elim (scan_level level 0 ps) [
  | some i ↦ some i
  | none ↦ scan_levels n (level + 1) ps
]

unfoldable pub pick : List Proc → Option ℕ
unfolding scan_levels scan_level
pick ps = scan_levels mlfq_levels 0 ps

-- The chosen process just before swtch().
unfoldable pub dispatch : Proc → Proc
dispatch p = record p { state = running; n_run = p.n_run + 1 }

-- The chosen process after swtch(): `prev_total` is its `total_ticks` before. A negative difference
-- counts as 0.
unfoldable pub charge : ℕ → Proc → Proc
unfolding quantum
charge prev_total p =
    let q = p.q_ticks + (p.total_ticks - prev_total) in
    let level = if ltb p.queue_level (mlfq_levels - 1) then p.queue_level + 1 else p.queue_level in
    if leb (quantum p.queue_level) q
    then record p { queue_level = level; q_ticks = 0; wait_time = 0 }
    else record p { q_ticks = q; wait_time = 0 }

-- The aging loop's body.
unfoldable pub age : Proc → Proc
age p =
    let w = p.wait_time + 1 in
    if is_runnable p.state
    then if leb aging_threshold w && ltb 0 p.queue_level
      then record p { queue_level = p.queue_level - 1; q_ticks = 0; wait_time = 0 }
      else record p { wait_time = w }
    else record p { wait_time = 0 }

-- The table, and `c->proc`, the process that this CPU runs.
pub record Sched : Type 0 where
  pub procs : List Proc
  pub current : Option ℕ

-- `chosen->total_ticks`
unfoldable pub ticks_of : List Proc → ℕ → ℕ
ticks_of ps i = elim (get_elem? ps i) [ some p ↦ p.total_ticks | none ↦ 0 ]

-- The rest of a round of the endless loop, once the scan has chosen. `swtch` is all that happens
-- between the switch to the chosen process and the switch back to the scheduler.
unfoldable pub run_chosen : (Sched → Sched) → Sched → Option ℕ → Sched
unfolding dispatch charge age ticks_of
run_chosen swtch s none = record s { procs = map age s.procs }
run_chosen swtch s (some i) =
    let s' = swtch (record { procs = modify dispatch s.procs i; current = some i }) in
    record { procs = map age (modify (charge (ticks_of s.procs i)) s'.procs i); current = none }

-- One round.
unfoldable pub scheduler_round : (Sched → Sched) → Sched → Sched
unfolding pick run_chosen
scheduler_round swtch s = run_chosen swtch s (pick s.procs)

-- The part of `clockintr` that counts the running process's ticks.
unfoldable pub clock_tick : Proc → Proc
clock_tick p =
    if is_running p.state then record p { total_ticks = p.total_ticks + 1; wait_time = 0 } else p
