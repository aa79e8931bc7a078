-- ===== src/Proc/Wakeup/Effects.antt =====
-- Who is woken and who is killed (kernel/proc.c).
use operating_system_se.Base.{
  ℕ, zero, suc, ◌+◌, ◌≤◌, ◌≡◌, ◌≢◌, refl, ap, ◌∙◌, inl, inr, Bool, true, false, not, ◌&&◌, ◌||◌,
  ◌↔◌, Option, none, some, List, [], ◌∷◌, arith, All, ◌==◌, same_ref, if◌then◌else◌, Option-cases,
  get_elem?, length, ℕ_discrete,
}
use operating_system_se.Proc.{Proc, sleeping, runnable, Chan, same_chan, is_sleeping}
use operating_system_se.Proc.Mlfq.Levels.{IsValid, quantum_pos}
use operating_system_se.Proc.Wakeup.{wake_one, wakeup_from, wakeup, kill_one, kkill}

wakeup_from-get :
    (i : ℕ) (me : Option ℕ) (chan : Chan) (ps : List Proc) (j : ℕ) (p : Proc)
    → get_elem? ps j ≡ some p
    → get_elem? (wakeup_from i me chan ps) j
      ≡ some (if same_ref (some (i + j)) me then p else wake_one chan p)
unfolding wakeup_from
wakeup_from-get i me chan [] j p e = cc
wakeup_from-get i me chan (q ∷ ps) zero p e =
    let shift : i + 0 ≡ i = omega arith in rw shift (ground arith)
wakeup_from-get i me chan (q ∷ ps) (suc j) p e =
    let shift : i + suc j ≡ i + 1 + j = omega arith in
    rw shift (wakeup_from-get (i + 1) me chan ps j p e)

length-wakeup_from :
    (i : ℕ) (me : Option ℕ) (chan : Chan) (ps : List Proc)
    → length (wakeup_from i me chan ps) ≡ length ps
unfolding wakeup_from
length-wakeup_from i me chan [] = refl
length-wakeup_from i me chan (p ∷ ps) = ap suc (length-wakeup_from (i + 1) me chan ps)

-- `wakeup` makes each process that sleeps on the channel, but for the running one, RUNNABLE with its
-- quantum and its waiting time started anew, and leaves every other process as it is.
pub wakeup-get :
    (me : Option ℕ) (chan : Chan) (ps : List Proc) (j : ℕ) (p : Proc)
    → get_elem? ps j ≡ some p
    → get_elem? (wakeup me chan ps) j
      ≡ some (
          if not (same_ref (some j) me) && (is_sleeping p.state && same_chan p.chan chan)
          then record p { state = runnable; q_ticks = 0; wait_time = 0 }
          else p)
unfolding wakeup wake_one
wakeup-get me chan ps j p e =
    let shift : 0 + j ≡ j = omega arith in
    wakeup_from-get 0 me chan ps j p e ∙ rw shift (ap some (tests_commute (same_ref (some j) me)))
  where
    tests_commute :
        (b : Bool)
        → (if b then p else wake_one chan p) ≡ (
            if not b && (is_sleeping p.state && same_chan p.chan chan)
            then record p { state = runnable; q_ticks = 0; wait_time = 0 }
            else p)
    tests_commute true = refl
    tests_commute false = refl

pub length-wakeup :
    (me : Option ℕ) (chan : Chan) (ps : List Proc) → length (wakeup me chan ps) ≡ length ps
unfolding wakeup
length-wakeup me chan ps = length-wakeup_from 0 me chan ps

wake_one-IsValid : (chan : Chan) (p : Proc) → IsValid p → IsValid (wake_one chan p)
unfolding wake_one
wake_one-IsValid chan p v = ground (arith, quantum_pos p.queue_level)

wakeup_from-IsValid :
    (i : ℕ) (me : Option ℕ) (chan : Chan) (ps : List Proc)
    → All IsValid ps
    → All IsValid (wakeup_from i me chan ps)
unfolding wakeup_from
wakeup_from-IsValid i me chan [] v = tt
wakeup_from-IsValid i me chan (p ∷ ps) v =
    (either (same_ref (some i) me), wakeup_from-IsValid (i + 1) me chan ps v.1)
  where
    either : (b : Bool) → IsValid (if not b then wake_one chan p else p)
    either true = v.0
    either false = wake_one-IsValid chan p v.0

-- `wakeup` keeps the scheduling fields of every process in range.
pub wakeup-IsValid :
    (me : Option ℕ) (chan : Chan) (ps : List Proc)
    → All IsValid ps
    → All IsValid (wakeup me chan ps)
unfolding wakeup
wakeup-IsValid me chan ps v = wakeup_from-IsValid 0 me chan ps v

-- `ps'` is `ps` with the first process of this pid killed, and woken if it slept.
pub record Killed (pid : ℕ) (ps ps' : List Proc) : Type 0 where
  pub index : ℕ
  pub victim : Proc
  pub corpse : Proc
  pub was : get_elem? ps index ≡ some victim
  pub named : victim.pid ≡ pid
  pub is : get_elem? ps' index ≡ some corpse
  pub marked : corpse.killed ≡ 1
  pub awake : corpse.state ≢ sleeping
  pub same_pid : corpse.pid ≡ pid
  pub first : (j : ℕ) (q : Proc) → get_elem? ps j ≡ some q → q.pid ≡ pid → index ≤ j
  pub others : (j : ℕ) → j ≢ index → get_elem? ps' j ≡ get_elem? ps j

abbrev pub has_pid : ℕ → List Proc → Bool
has_pid pid [] = false
has_pid pid (p ∷ ps) = (p.pid == pid) || has_pid pid ps

Killed-here :
    (pid : ℕ) (p : Proc) (ps : List Proc) → p.pid ≡ pid → Killed pid (p ∷ ps) (kill_one p ∷ ps)
unfolding kill_one
Killed-here pid p ps e = record {
  index = 0;
  victim = p;
  corpse = kill_one p;
  was = refl;
  named = e;
  is = refl;
  marked = ground arith;
  awake = λ a. ground arith;
  same_pid = ground arith;
  first = λ j q g r. omega arith;
  others = λ j ne. skip_head j ne;
}
  where
    skip_head : (j : ℕ) → j ≢ 0 → get_elem? (kill_one p ∷ ps) j ≡ get_elem? (p ∷ ps) j
    skip_head zero ne = absurd (ne refl)
    skip_head (suc j) ne = refl

Killed-cons :
    (pid : ℕ) (p : Proc) (ps ps' : List Proc)
    → p.pid ≢ pid
    → Killed pid ps ps'
    → Killed pid (p ∷ ps) (p ∷ ps')
Killed-cons pid p ps ps' ne k = record {
  index = suc k.index;
  victim = k.victim;
  corpse = k.corpse;
  was = k.was;
  named = k.named;
  is = k.is;
  marked = k.marked;
  awake = k.awake;
  same_pid = k.same_pid;
  first = later;
  others = same_tail;
}
  where
    later : (j : ℕ) (q : Proc) → get_elem? (p ∷ ps) j ≡ some q → q.pid ≡ pid → suc k.index ≤ j
    later zero q g e = ground arith
    later (suc j) q g e = omega (arith, k.first j q g e)

    same_tail : (j : ℕ) → j ≢ suc k.index → get_elem? (p ∷ ps') j ≡ get_elem? (p ∷ ps) j
    same_tail zero h = refl
    same_tail (suc j) h = k.others j (λ e. h (ap suc e))

-- `kkill` succeeds exactly if some slot of the table has this pid.
pub kkill-none_iff : (pid : ℕ) (ps : List Proc) → (kkill pid ps ≡ none) ↔ (has_pid pid ps ≡ false)
unfolding kkill
kkill-none_iff pid [] = (λ e. refl, λ e. refl)
kkill-none_iff pid (p ∷ ps) = kkill-none_step (kkill pid ps) (kkill-none_iff pid ps)
  where
    kkill-none_step :
        (r : Option (List Proc))
        → ((r ≡ none) ↔ (has_pid pid ps ≡ false))
        → ((if p.pid == pid
              then some (kill_one p ∷ ps)
              else (elim r [ none ↦ none | some ps' ↦ some (p ∷ ps') ]))
            ≡ none)
          ↔ (has_pid pid (p ∷ ps) ≡ false)
    kkill-none_step none ih = (ground arith, ground arith)
    kkill-none_step (some ps') ih = (ground arith, ground arith)

-- When it succeeds, it kills the first process with the pid: this one is marked and no longer asleep,
-- and no other process changes.
pub kkill-Killed : (pid : ℕ) (ps ps' : List Proc) → kkill pid ps ≡ some ps' → Killed pid ps ps'
unfolding kkill
kkill-Killed pid [] ps' e = absurd (cc)
kkill-Killed pid (p ∷ ps) ps' e = elim (ℕ_discrete p.pid pid) [
  | yes same ↦
      let e' : kill_one p ∷ ps ≡ ps' = ground arith in rw (← e') (Killed-here pid p ps same)
  | no ne ↦ elim (Option-cases (kkill pid ps)) [
    | inl gone ↦ absurd (ground arith)
    | inr (rest, found) ↦
        let e' : p ∷ rest ≡ ps' = ground arith in
        rw (← e') (Killed-cons pid p ps rest ne (kkill-Killed pid ps rest found))
  ]
]
