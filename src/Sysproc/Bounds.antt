-- ===== src/Sysproc/Bounds.antt =====
-- The bounds that the system calls test (kernel/syscall.c, kernel/sysproc.c).
use operating_system_se.Base.{
  ℕ, ◌+◌, ◌-◌, ◌%◌, ◌^◌, ◌≤◌, ◌<◌, ◌≡◌, inl, inr, refl, Bool, true, false, Option, none, some, List,
  [], ◌∷◌, ◌++◌, ltb, leb, if◌then◌else◌, All, pos, arith, Bool-cases,
}
use operating_system_se.Sysproc.{fetchaddr, sys_sbrk, since, rested, asleep, pause_loop, sys_pause}

-- For a size that leaves room for eight bytes below 2^64, `fetchaddr` copies exactly the addresses whose eight
-- bytes lie below the size.
pub fetchaddr-within :
    (copyin : ℕ → Option ℕ) (sz addr : ℕ)
    → sz + 8 ≤ 2 ^ 64
    → addr < 2 ^ 64
    → fetchaddr copyin sz addr ≡ (if leb (addr + 8) sz then copyin addr else none)
unfolding fetchaddr
fetchaddr-within copyin sz addr small lt = ground arith

-- A lazy `sys_sbrk` of a number of bytes that is not negative adds it to the size, or fails and leaves the size,
-- exactly if the sum would not fit 64 bits.
pub sys_sbrk-lazy :
    (alloc dealloc : ℕ → ℕ → ℕ) (n sz : ℕ)
    → sz < 2 ^ 64
    → n < 2 ^ 31
    → sys_sbrk alloc dealloc false (pos n) sz
      ≡ (if ltb (sz + n) (2 ^ 64) then (some sz, sz + n) else (none, sz))
unfolding sys_sbrk
sys_sbrk-lazy alloc dealloc n sz lt small = elim (Bool-cases (ltb (sz + n) (2 ^ 64))) [
  | inl fits ↦
      let e : (sz + n) % 2 ^ 64 ≡ sz + n = ground arith in
      let up : ltb (sz + n) sz ≡ false = ground arith in rw (fits, e, up) refl
  | inr out ↦
      let e : (sz + n) % 2 ^ 64 ≡ sz + n - 2 ^ 64 = ground arith in
      let down : ltb (sz + n - 2 ^ 64) sz ≡ true = ground arith in rw (out, e, down) refl
]

-- The tests of a process that is not killed, where `d` ticks have passed at each.
abbrev pub tests : ℕ → List ℕ → List (ℕ × Bool)
tests t0 [] = []
tests t0 (d ∷ ds) = ((t0 + d) % 2 ^ 32, false) ∷ tests t0 ds

since-passed : (t0 d : ℕ) → t0 < 2 ^ 32 → d < 2 ^ 32 → since ((t0 + d) % 2 ^ 32) t0 ≡ d
since-passed t0 d l0 ld = omega arith

-- Whether the last test ends the pause, when none before did.
pause_loop-tests :
    (n t0 : ℕ) (ds : List ℕ) (d : ℕ)
    → t0 < 2 ^ 32
    → n ≤ 2 ^ 32
    → All (λ e. e < n) ds
    → d < 2 ^ 32
    → pause_loop n t0 (tests t0 (ds ++ (d ∷ []))) ≡ (if ltb d n then asleep else rested)
unfolding pause_loop
pause_loop-tests n t0 [] d l0 ln before ld = elim (Bool-cases (ltb d n)) [
  | inl more ↦ rw (since-passed t0 d l0 ld, more) refl
  | inr over ↦ rw (since-passed t0 d l0 ld, over) refl
]
pause_loop-tests n t0 (e ∷ ds) d l0 ln (lt, before) ld =
    let more : ltb e n ≡ true = ground arith in
    rw (since-passed t0 e l0 (omega arith), more) (pause_loop-tests n t0 ds d l0 ln before ld)

-- `sys_pause` of `n` ticks, where no more than 2^32 pass between its tests and the process is not killed: while
-- fewer than `n` ticks have passed it sleeps, and at the first test after `n` or more it returns 0, also where
-- the counter of ticks wraps.
pub sys_pause-rests :
    (n t0 : ℕ) (ds : List ℕ) (d : ℕ)
    → t0 < 2 ^ 32
    → n < 2 ^ 31
    → All (λ e. e < n) ds
    → d < 2 ^ 32
    → sys_pause (pos n) t0 (tests t0 (ds ++ (d ∷ []))) ≡ (if ltb d n then asleep else rested)
unfolding sys_pause
sys_pause-rests n t0 ds d l0 ln before ld = pause_loop-tests n t0 ds d l0 (omega arith) before ld
