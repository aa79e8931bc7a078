-- ===== src/Spinlock/PushOff.antt =====
-- `push_off` and `pop_off` of kernel/spinlock.c are matched.
use operating_system_se.Base.{
  ℕ, zero, suc, ◌+◌, ◌<◌, ◌≡◌, refl, false, arith, Outcome, ok, ◌>>=◌, ◌==◌, if◌then◌else◌, ok_of,
}
use operating_system_se.Spinlock.{Cpu, push_off, pop_off}

-- Interrupts are off on a CPU inside a push_off().
abbrev pub IsQuiet : Cpu → Type 0
IsQuiet c = 0 < c.noff → c.intr ≡ false

-- `n` calls of push_off().
abbrev pub pushes : ℕ → Cpu → Cpu
pushes zero c = c
pushes (suc n) c = pushes n (push_off c)

-- `n` calls of pop_off().
abbrev pub pops : ℕ → Cpu → Outcome Cpu
pops zero c = ok c
pops (suc n) c = do c' ← pop_off c; pops n c'

-- `d` is `c` with `k` calls of push_off() open.
record Pushed (c d : Cpu) (k : ℕ) : Type 0 where
  deep : d.noff ≡ c.noff + k
  quiet : 0 < k → d.intr ≡ false
  saved : 0 < c.noff + k → d.intena ≡ (if c.noff == 0 then c.intr else c.intena)
  same : k ≡ 0 → d.intr ≡ c.intr

push_off-Pushed : (c d : Cpu) (k : ℕ) → Pushed c d k → Pushed c (push_off d) (suc k)
unfolding push_off
push_off-Pushed c d k p = ground arith

pushes-Pushed : (c d : Cpu) (k n m : ℕ) → k + n ≡ m → Pushed c d k → Pushed c (pushes n d) m
pushes-Pushed c d k zero m e p = let e' : k ≡ m = omega arith in rw (← e') p
pushes-Pushed c d k (suc n) m e p =
    pushes-Pushed c (push_off d) (suc k) n m (omega arith) (push_off-Pushed c d k p)

-- What pop_off() leaves when one more push_off() is open.
popped : Cpu → Cpu
popped d = ok_of (pop_off d) d

pop_off-Pushed :
    (c d : Cpu) (k : ℕ)
    → IsQuiet c
    → Pushed c d (suc k)
    → (pop_off d ≡ ok (popped d)) × Pushed c (popped d) k
unfolding pop_off popped
pop_off-Pushed c d k q p = (ground arith, ground arith)

pops-Pushed :
    (c d : Cpu) (n : ℕ)
    → IsQuiet c
    → Pushed c d n
    → (c' : Cpu) × (pops n d ≡ ok c') × (c'.noff ≡ c.noff) × (c'.intr ≡ c.intr)
pops-Pushed c d zero q p = (d, refl, omega (arith, p.deep), p.same refl)
pops-Pushed c d (suc n) q p =
    let (e, p') = pop_off-Pushed c d n q p in
    let (c', e', a, b) = pops-Pushed c (popped d) n q p' in (c', rw e e', a, b)

-- On a CPU whose interrupts are off inside every open push_off(), after one or more calls of
-- push_off() interrupts are off, and as many calls of pop_off() then succeed and give back the depth
-- and the interrupt state of the start.
pub pops-pushes :
    (c : Cpu) (n : ℕ)
    → IsQuiet c
    → ((pushes (suc n) c).intr ≡ false)
      × ((c' : Cpu) × (pops (suc n) (pushes (suc n) c) ≡ ok c')
          × (c'.noff ≡ c.noff)
          × (c'.intr ≡ c.intr))
pops-pushes c n q =
    let p = pushes-Pushed c c 0 (suc n) (suc n) (omega arith) (ground arith) in
    (p.quiet (omega arith), pops-Pushed c (pushes (suc n) c) (suc n) q p)
