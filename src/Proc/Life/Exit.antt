-- ===== src/Proc/Life/Exit.antt =====
-- What `kexit` and `reparent` (kernel/proc.c) leave behind in the table.
use operating_system_se.Base.{
  ℕ, zero, suc, ◌+◌, ◌≤◌, ◌<◌, ◌≡◌, ◌≢◌, refl, ap, sym, ◌∙◌, inl, inr, Bool, true, false, ◌&&◌,
  Option, none, some, List, [], ◌∷◌, map, arith, ◌==◌, same_ref, ==_refl, leb, ltb, if◌then◌else◌,
  Bool-cases, Option-cases, get_elem?, length, modify, get_elem?-modify_self, get_elem?-modify_ne,
  length-modify,
}
use operating_system_se.Proc.{Proc, sleeping, zombie, Chan, proc_at, same_chan}
use operating_system_se.Proc.Wakeup.{wake_one, wakeup_from, wakeup}
use operating_system_se.Proc.Wakeup.Effects.{length-wakeup}
use operating_system_se.Proc.Life.{
  chan_of, reparent_one, reparent_from, reparent, parent_of, exit_table,
}

parent_of-wakeup_from :
    (i : ℕ) (me : Option ℕ) (chan : Chan) (ps : List Proc) (j : ℕ)
    → parent_of (wakeup_from i me chan ps) j ≡ parent_of ps j
unfolding wakeup_from wake_one parent_of
parent_of-wakeup_from i me chan [] j = refl
parent_of-wakeup_from i me chan (p ∷ ps) zero = ground arith
parent_of-wakeup_from i me chan (p ∷ ps) (suc j) = parent_of-wakeup_from (i + 1) me chan ps j

-- `wakeup` changes no parent.
parent_of-wakeup :
    (me : Option ℕ) (chan : Chan) (ps : List Proc) (j : ℕ)
    → parent_of (wakeup me chan ps) j ≡ parent_of ps j
unfolding wakeup
parent_of-wakeup me chan ps j = parent_of-wakeup_from 0 me chan ps j

parent_of-modify :
    (f : Proc → Proc) (ps : List Proc) (i j : ℕ)
    → ((p : Proc) → (f p).parent ≡ p.parent)
    → parent_of (modify f ps i) j ≡ parent_of ps j
unfolding parent_of
parent_of-modify f [] i j h = refl
parent_of-modify f (p ∷ ps) zero zero h = h p
parent_of-modify f (p ∷ ps) zero (suc j) h = refl
parent_of-modify f (p ∷ ps) (suc i) zero h = refl
parent_of-modify f (p ∷ ps) (suc i) (suc j) h = parent_of-modify f ps i j h

-- Giving slot `i`, which holds a process, the parent `o`.
parent_of-adopt :
    (o : Option ℕ) (ps : List Proc) (i j : ℕ) (p : Proc)
    → get_elem? ps i ≡ some p
    → parent_of (modify (λ q. record q { parent = o }) ps i) j
      ≡ (if i == j then o else parent_of ps j)
unfolding parent_of
parent_of-adopt o [] i j p e = cc
parent_of-adopt o (q ∷ ps) zero zero p e = refl
parent_of-adopt o (q ∷ ps) zero (suc j) p e = ground arith
parent_of-adopt o (q ∷ ps) (suc i) zero p e = ground arith
parent_of-adopt o (q ∷ ps) (suc i) (suc j) p e = ground (arith, parent_of-adopt o ps i j p e)

abbrev orphaned : ℕ → Option ℕ → Bool
orphaned me o = same_ref o (some me)

parent_of-eq :
    (ps : List Proc) (i : ℕ) (p : Proc) → get_elem? ps i ≡ some p → parent_of ps i ≡ p.parent
unfolding parent_of
parent_of-eq ps i p e = rw (e, parent_of)

parent_of-none : (ps : List Proc) (i : ℕ) → get_elem? ps i ≡ none → parent_of ps i ≡ none
unfolding parent_of
parent_of-none ps i e = rw (e, parent_of)

adopt :
    (me : ℕ) (o : Option ℕ) (i j : ℕ) (ps : List Proc) (p : Proc)
    → get_elem? ps i ≡ some p
    → parent_of
        (if orphaned me p.parent
          then wakeup (some me) (chan_of o) (modify (λ q. record q { parent = o }) ps i)
          else ps)
        j
      ≡ (if orphaned me p.parent && i == j then o else parent_of ps j)
adopt me o i j ps p e = elim (Bool-cases (orphaned me p.parent)) [
  | inl yes' ↦ rw yes' (parent_of-wakeup (some me) (chan_of o) _ j ∙ parent_of-adopt o ps i j p e)
  | inr no' ↦ rw no'
]

parent_of-reparent_one :
    (me : ℕ) (o : Option ℕ) (i j : ℕ) (ps : List Proc)
    → parent_of (reparent_one me o i ps) j
      ≡ (if orphaned me (parent_of ps i) && i == j then o else parent_of ps j)
unfolding reparent_one
parent_of-reparent_one me o i j ps = elim (Option-cases (get_elem? ps i)) [
  | inl gone ↦ rw (gone, reparent_one) (rw (parent_of-none ps i gone))
  | inr (p, here) ↦
      rw (here, reparent_one) (rw (parent_of-eq ps i p here) (adopt me o i j ps p here))
]

parent_of-reparent_from :
    (n me : ℕ) (o : Option ℕ) (i j : ℕ) (ps : List Proc)
    → parent_of (reparent_from n me o i ps) j
      ≡ (if orphaned me (parent_of ps j) && (leb i j && ltb j (i + n)) then o else parent_of ps j)
unfolding reparent_from
parent_of-reparent_from zero me o i j ps = ground arith
parent_of-reparent_from (suc n) me o i j ps = ground (
  arith,
  parent_of-reparent_from n me o (i + 1) j (reparent_one me o i ps),
  parent_of-reparent_one me o i j ps,
)

parent_of-past : (ps : List Proc) (j : ℕ) → length ps ≤ j → parent_of ps j ≡ none
unfolding parent_of
parent_of-past [] j h = refl
parent_of-past (p ∷ ps) zero h = absurd (omega arith)
parent_of-past (p ∷ ps) (suc j) h = parent_of-past ps j (omega arith)

-- `reparent` gives exactly the children of `me` to init.
parent_of-reparent :
    (me : ℕ) (o : Option ℕ) (ps : List Proc) (j : ℕ)
    → parent_of (reparent me o ps) j ≡ (if orphaned me (parent_of ps j) then o else parent_of ps j)
unfolding reparent
parent_of-reparent me o ps j =
    ground (arith, parent_of-reparent_from (length ps) me o 0 j ps, parent_of-past ps j)

-- In the table that `kexit` leaves, exactly the children of the exiting process have init for their
-- parent instead; every other process keeps its parent.
pub exit_table-parents :
    (me status : ℕ) (o : Option ℕ) (ps : List Proc) (j : ℕ)
    → parent_of (exit_table me status o ps) j
      ≡ (if same_ref (parent_of ps j) (some me) then o else parent_of ps j)
unfolding exit_table
exit_table-parents me status o ps j =
    parent_of-modify _ _ me j (λ p. refl)
    ∙ parent_of-wakeup (some me) _ _ j
    ∙ parent_of-reparent me o _ j
    ∙ ap (λ r. if same_ref r (some me) then o else r) (parent_of-modify _ ps me j (λ p. refl))

-- After a `wakeup` by `me` no other process sleeps on the channel.
wakeup_from-awake :
    (i me : ℕ) (chan : Chan) (ps : List Proc) (j : ℕ) (q : Proc)
    → get_elem? (wakeup_from i (some me) chan ps) j ≡ some q
    → i + j ≢ me
    → same_chan q.chan chan ≡ true
    → q.state ≢ sleeping
unfolding wakeup_from wake_one
wakeup_from-awake i me chan [] j q e ne c s = cc
wakeup_from-awake i me chan (p ∷ ps) zero q e ne c s =
    let skip : i + 0 ≡ i = omega arith in ground arith
wakeup_from-awake i me chan (p ∷ ps) (suc j) q e ne c s =
    wakeup_from-awake (i + 1) me chan ps j q e (omega arith) c s

length-reparent_one :
    (me : ℕ) (o : Option ℕ) (i : ℕ) (ps : List Proc) → length (reparent_one me o i ps) ≡ length ps
unfolding reparent_one
length-reparent_one me o i ps = elim (Option-cases (get_elem? ps i)) [
  | inl gone ↦ rw (gone, reparent_one)
  | inr (p, here) ↦ rw (here, reparent_one) (either (orphaned me p.parent))
]
  where
    f : Proc → Proc
    f q = record q { parent = o }

    either :
        (b : Bool)
        → length (if b then wakeup (some me) (chan_of o) (modify f ps i) else ps) ≡ length ps
    either true = length-wakeup (some me) (chan_of o) (modify f ps i) ∙ length-modify f ps i
    either false = refl

length-reparent_from :
    (n me : ℕ) (o : Option ℕ) (i : ℕ) (ps : List Proc)
    → length (reparent_from n me o i ps) ≡ length ps
unfolding reparent_from
length-reparent_from zero me o i ps = refl
length-reparent_from (suc n) me o i ps =
    length-reparent_from n me o (i + 1) (reparent_one me o i ps) ∙ length-reparent_one me o i ps

length-reparent : (me : ℕ) (o : Option ℕ) (ps : List Proc) → length (reparent me o ps) ≡ length ps
unfolding reparent
length-reparent me o ps = length-reparent_from (length ps) me o 0 ps

-- What `kexit` does first to its own slot.
abbrev close : Proc → Proc
close p = record p { ofile = map (λ _. none) p.ofile; cwd = none }

abbrev closed : ℕ → List Proc → List Proc
closed me ps = modify close ps me

get_elem?-bound : (xs : List Proc) (i : ℕ) → i < length xs → (p : Proc) × (get_elem? xs i ≡ some p)
get_elem?-bound [] i h = absurd (omega arith)
get_elem?-bound (x ∷ xs) zero h = (x, refl)
get_elem?-bound (x ∷ xs) (suc i) h = get_elem?-bound xs i (omega arith)

-- After `kexit` the exiting process is a zombie with its exit status.
pub exit_table-zombie :
    (me status : ℕ) (o : Option ℕ) (ps : List Proc)
    → me < length ps
    → (p : Proc) × (get_elem? (exit_table me status o ps) me ≡ some p)
      × (p.state ≡ zombie)
      × (p.xstate ≡ status)
unfolding exit_table
exit_table-zombie me status o ps lt =
    let size =
      length-wakeup (some me) (chan_of (parent_of (reparent me o (closed me ps)) me))
        (reparent me o (closed me ps))
      ∙ length-reparent me o (closed me ps)
      ∙ length-modify close ps me in
    let (p, here) = get_elem?-bound _ me (rw size lt) in
    (record p { xstate = status; state = zombie }, get_elem?-modify_self _ _ me p here, refl, refl)

parent-exiting :
    (me parent : ℕ) (o : Option ℕ) (ps : List Proc)
    → parent_of ps me ≡ some parent
    → parent ≢ me
    → parent_of (reparent me o (closed me ps)) me ≡ some parent
parent-exiting me parent o ps e ne =
    ground (
      arith,
      parent_of-reparent me o (closed me ps) me,
      parent_of-modify close ps me me (λ p. refl),
    )

-- After `kexit` the parent of the exiting process, if that is another process, does not sleep on its
-- own address, as it does in `kwait`: it has been woken.
pub exit_table-wakes_parent :
    (me status parent : ℕ) (o : Option ℕ) (ps : List Proc) (q : Proc)
    → parent_of ps me ≡ some parent
    → parent ≢ me
    → get_elem? (exit_table me status o ps) parent ≡ some q
    → q.chan ≡ proc_at parent
    → q.state ≢ sleeping
unfolding exit_table wakeup
exit_table-wakes_parent me status parent o ps q e ne at c =
    let woken = sym (get_elem?-modify_ne _ _ (λ r. ne (sym r))) ∙ at in
    let chan = ap chan_of (parent-exiting me parent o ps e ne) in
    wakeup_from-awake 0 me _ _ parent q woken (omega arith) (rw (chan, c) (==_refl parent))
