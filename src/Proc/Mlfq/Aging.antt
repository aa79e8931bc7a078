-- ===== src/Proc/Mlfq/Aging.antt =====
-- Aging in `scheduler` (kernel/proc.c): a process that waits long enough reaches level 0.
use operating_system_se.Base.{
  ℕ, suc, ◌+◌, ◌*◌, ◌≤◌, ◌<◌, ◌≡◌, ◌≢◌, none, some, List, [], ◌∷◌, arith, length, get_elem?,
  get_elem?-map, get_elem?-modify_ne, ap, ◌∙◌, Option,
}
use operating_system_se.Proc.{Proc, runnable}
use operating_system_se.Proc.Mlfq.{
  aging_threshold, pick, dispatch, charge, age, Sched, ticks_of, run_chosen, scheduler_round,
}
use operating_system_se.Proc.Mlfq.Levels.{IsValid}

-- Rounds of the scheduler, one for each function that says what runs in it.
unfoldable pub rounds : List (Sched → Sched) → Sched → Sched
rounds [] s = s
rounds (f ∷ fs) s = rounds fs (scheduler_round f s)

-- In every round another process is chosen, or none, and what runs leaves process `i` alone.
abbrev pub PassedOver : ℕ → List (Sched → Sched) → Sched → Type 0
PassedOver i [] s = Unit
PassedOver i (f ∷ fs) s =
    (pick s.procs ≢ some i)
    × ((t : Sched) → get_elem? (f t).procs i ≡ get_elem? t.procs i)
    × PassedOver i fs (scheduler_round f s)

-- A round in which `i` is passed over ages it.
run_chosen-age :
    (i : ℕ) (f : Sched → Sched) (s : Sched) (p : Proc) (o : Option ℕ)
    → get_elem? s.procs i ≡ some p
    → o ≢ some i
    → ((t : Sched) → get_elem? (f t).procs i ≡ get_elem? t.procs i)
    → get_elem? (run_chosen f s o).procs i ≡ some (age p)
unfolding run_chosen
run_chosen-age i f s p none at other alone = get_elem?-map age s.procs i p at
run_chosen-age i f s p (some k) at other alone = get_elem?-map age _ i p (
    get_elem?-modify_ne (charge (ticks_of s.procs k)) _ differ
    ∙ alone _
    ∙ get_elem?-modify_ne dispatch s.procs differ
    ∙ at)
  where
    differ : k ≢ i
    differ e = other (ap some e)

round-age :
    (i : ℕ) (f : Sched → Sched) (s : Sched) (p : Proc)
    → get_elem? s.procs i ≡ some p
    → pick s.procs ≢ some i
    → ((t : Sched) → get_elem? (f t).procs i ≡ get_elem? t.procs i)
    → get_elem? (scheduler_round f s).procs i ≡ some (age p)
unfolding scheduler_round
round-age i f s p at other alone = run_chosen-age i f s p (pick s.procs) at other alone

-- What a RUNNABLE process must still wait.
record Due (n : ℕ) (p : Proc) : Type 0 where
  ready : p.state ≡ runnable
  waited : 0 < p.queue_level → p.wait_time < aging_threshold
  enough : aging_threshold * p.queue_level ≤ p.wait_time + n

age-Due : (n : ℕ) (p : Proc) → Due (suc n) p → Due n (age p)
unfolding age
age-Due n p d = ground arith

PassedOver-Due :
    (i : ℕ) (fs : List (Sched → Sched)) (s : Sched) (p : Proc)
    → get_elem? s.procs i ≡ some p
    → Due (length fs) p
    → PassedOver i fs s
    → (q : Proc) × (get_elem? (rounds fs s).procs i ≡ some q) × Due 0 q
unfolding rounds
PassedOver-Due i [] s p at d w = (p, at, d)
PassedOver-Due i (f ∷ fs) s p at d w =
    PassedOver-Due i fs (scheduler_round f s) (age p) (round-age i f s p at w.0 w.1)
      (age-Due (length fs) p d) w.2

Due-zero : (p : Proc) → Due 0 p → p.queue_level ≡ 0
Due-zero p d = ground arith

-- A process with fields in range that stays RUNNABLE while other processes are chosen stands on
-- level 0 after at most 400 rounds (200 for each level above).
pub rounds-promote :
    (i : ℕ) (fs : List (Sched → Sched)) (s : Sched) (p : Proc)
    → get_elem? s.procs i ≡ some p
    → p.state ≡ runnable
    → IsValid p
    → PassedOver i fs s
    → 400 ≤ length fs
    → (q : Proc) × (get_elem? (rounds fs s).procs i ≡ some q)
      × (q.state ≡ runnable)
      × (q.queue_level ≡ 0)
rounds-promote i fs s p at r v w n =
    let (q, at', d) =
      PassedOver-Due i fs s p at
        (record { ready = r; waited = v.waited; enough = omega (arith, v.level) }) w in
    (q, at', d.ready, Due-zero q d)
