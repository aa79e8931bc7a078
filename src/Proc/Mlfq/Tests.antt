-- ===== src/Proc/Mlfq/Tests.antt =====
-- The scheduler of kernel/proc.c on small tables, and the theorems at such tables.
use operating_system_se.Base.{
  ℕ, ◌+◌, ◌≡◌, refl, ◌∙◌, sym, subst, none, some, List, [], ◌∷◌, All, arith, get_elem?, length,
  zero, suc, map, modify, get_elem?-modify_ne,
}
use operating_system_se.Proc.{ProcState, runnable, sleeping, Proc, null}
use operating_system_se.Proc.Mlfq.{
  mlfq_levels, quantum, pick, dispatch, charge, age, Sched, run_chosen, scheduler_round,
}
use operating_system_se.Proc.Mlfq.Pick.{IsBest, pick-IsBest}
use operating_system_se.Proc.Mlfq.Levels.{IsValid, scheduler_round-IsValid}
use operating_system_se.Proc.Mlfq.Aging.{PassedOver, rounds, rounds-promote}

abbrev at_level : ProcState → ℕ → ℕ → Proc
at_level st level wait = record {
  state = st;
  chan = null;
  killed = 0;
  xstate = 0;
  pid = 1;
  parent = none;
  queue_level = level;
  q_ticks = 0;
  wait_time = wait;
  n_run = 0;
  total_ticks = 0;
  kstack = 0;
  sz = 0;
  pagetable = 0;
  trapframe = 0;
  context = record { ra = 0; sp = 0; saved = [] };
  ofile = [];
  cwd = none;
  name = λ _. 0;
}

abbrev table : List Proc
table =
    at_level sleeping 0 0
    ∷ at_level runnable 2 10
    ∷ at_level runnable 1 0
    ∷ at_level runnable 1 0
    ∷ []

abbrev sched : List Proc → Sched
sched ps = record { procs = ps; current = none }

pick-table : pick table ≡ some 2
unfolding pick
pick-table = refl

pick-IsBest_example : IsBest 0 mlfq_levels table 2
pick-IsBest_example = pick-IsBest table 2 pick-table

idle-picks_none : pick (at_level sleeping 0 0 ∷ []) ≡ none
unfolding pick
idle-picks_none = refl

table-IsValid : All IsValid table
unfolding quantum
table-IsValid = omega arith

scheduler_round-IsValid_example : All IsValid (scheduler_round (λ s. s) (sched table)).procs
scheduler_round-IsValid_example =
    scheduler_round-IsValid (λ s. s) (sched table) (λ t h. h) table-IsValid

-- A process on level 2, next to two on level 0 of which each wakes the other and then sleeps.
abbrev crowd : List Proc
crowd = at_level runnable 0 0 ∷ at_level sleeping 0 0 ∷ at_level runnable 2 10 ∷ []

abbrev doze : Proc → Proc
doze p = record p { state = sleeping }

abbrev rouse : Proc → Proc
rouse p = record p { state = runnable; q_ticks = 0 }

unfoldable ping : Sched → Sched
ping s = record s { procs = modify doze (modify rouse s.procs 1) 0 }

unfoldable pong : Sched → Sched
pong s = record s { procs = modify doze (modify rouse s.procs 0) 1 }

abbrev turns : ℕ → List (Sched → Sched)
turns zero = []
turns (suc n) = ping ∷ pong ∷ turns n

-- On level 0 with no tick used, in this state.
record IsTop (st : ProcState) (p : Proc) : Type 0 where
  now : p.state ≡ st
  top : p.queue_level ≡ 0
  fresh : p.q_ticks ≡ 0

abbrev slept : Proc → Proc
slept p = age (charge p.total_ticks (doze (dispatch p)))

slept-IsTop : (p : Proc) → IsTop runnable p → IsTop sleeping (slept p)
unfolding age charge dispatch quantum
slept-IsTop p e = ground arith

roused-IsTop : (p : Proc) → IsTop sleeping p → IsTop runnable (age (rouse p))
unfolding age
roused-IsTop p e = ground arith

pick-first : (p : Proc) (ps : List Proc) → IsTop runnable p → pick (p ∷ ps) ≡ some 0
unfolding pick
pick-first p ps e = ground arith

pick-second :
    (p q : Proc) (ps : List Proc) → IsTop sleeping p → IsTop runnable q → pick (p ∷ q ∷ ps) ≡ some 1
unfolding pick
pick-second p q ps e f = ground arith

round-ping :
    (p q : Proc) (ps : List Proc)
    → IsTop runnable p
    → scheduler_round ping (sched (p ∷ q ∷ ps)) ≡ sched (slept p ∷ age (rouse q) ∷ map age ps)
unfolding scheduler_round ping
round-ping p q ps e = rw (pick-first p (q ∷ ps) e, run_chosen)

round-pong :
    (p q : Proc) (ps : List Proc)
    → IsTop sleeping p
    → IsTop runnable q
    → scheduler_round pong (sched (p ∷ q ∷ ps)) ≡ sched (age (rouse p) ∷ slept q ∷ map age ps)
unfolding scheduler_round pong
round-pong p q ps e f = rw (pick-second p q ps e f, run_chosen)

ping_alone : (t : Sched) → get_elem? (ping t).procs 2 ≡ get_elem? t.procs 2
unfolding ping
ping_alone t =
    get_elem?-modify_ne doze (modify rouse t.procs 1) (λ e. omega arith)
    ∙ get_elem?-modify_ne rouse t.procs (λ e. omega arith)

pong_alone : (t : Sched) → get_elem? (pong t).procs 2 ≡ get_elem? t.procs 2
unfolding pong
pong_alone t =
    get_elem?-modify_ne doze (modify rouse t.procs 0) (λ e. omega arith)
    ∙ get_elem?-modify_ne rouse t.procs (λ e. omega arith)

turns-PassedOver :
    (n : ℕ) (p q : Proc) (ps : List Proc)
    → IsTop runnable p
    → IsTop sleeping q
    → PassedOver 2 (turns n) (sched (p ∷ q ∷ ps))
turns-PassedOver zero p q ps e f = tt
turns-PassedOver (suc n) p q ps e f =
    let e1 = slept-IsTop p e in
    let f1 = roused-IsTop q f in
    let ps1 = map age ps in
    let rest =
      turns-PassedOver n (age (rouse (slept p))) (slept (age (rouse q))) (map age ps1)
        (roused-IsTop (slept p) e1) (slept-IsTop (age (rouse q)) f1) in
    let second : PassedOver 2 (pong ∷ turns n) (sched (slept p ∷ age (rouse q) ∷ ps1)) = (
      λ h. ground (arith, pick-second (slept p) (age (rouse q)) ps1 e1 f1),
      pong_alone,
      subst (PassedOver 2 (turns n)) (sym (round-pong (slept p) (age (rouse q)) ps1 e1 f1)) rest,
    ) in
    (
      λ h. ground (arith, pick-first p (q ∷ ps) e),
      ping_alone,
      subst (PassedOver 2 (pong ∷ turns n)) (sym (round-ping p q ps e)) second,
    )

low-IsValid : IsValid (at_level runnable 2 10)
unfolding quantum
low-IsValid = omega arith

first-IsTop : (st : ProcState) → IsTop st (at_level st 0 0)
first-IsTop st = record { now = refl; top = refl; fresh = refl }

length-turns : (n : ℕ) → length (turns n) ≡ n + n
length-turns zero = refl
length-turns (suc n) = omega (arith, length-turns n)

rounds-promote_example :
    (q : Proc) × (get_elem? (rounds (turns 200) (sched crowd)).procs 2 ≡ some q)
    × (q.state ≡ runnable)
    × (q.queue_level ≡ 0)
rounds-promote_example =
    rounds-promote 2 (turns 200) (sched crowd) (at_level runnable 2 10) refl refl low-IsValid
      (turns-PassedOver 200 (at_level runnable 0 0) (at_level sleeping 0 0)
        (at_level runnable 2 10 ∷ []) (first-IsTop runnable) (first-IsTop sleeping))
      (omega (arith, length-turns 200))
