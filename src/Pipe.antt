-- ===== src/Pipe.antt =====
-- kernel/pipe.c: a ring of 512 bytes with two counters of 32 bits that wrap. The pipe's lock makes
-- what a call does up to its next sleep() or return one step.
pub mod Ring
pub mod Write
pub mod Read
mod Tests
use operating_system_se.Base.{
  ℕ, zero, suc, ◌+◌, ◌-◌, ◌%◌, ◌^◌, ◌≡◌, Bool, true, false, ◌&&◌, ◌||◌, not, Option, none, some,
  List, [], ◌∷◌, ◌==◌, if◌then◌else◌, get_or, set, replicate,
}

-- PIPESIZE
abbrev pub pipe_size : ℕ
pipe_size = 512

abbrev pub u32 : ℕ → ℕ
u32 n = n % 2 ^ 32

-- `struct pipe`. A page that kalloc() returns holds arbitrary bytes; `data` has 512 of them.
pub record Pipe : Type 0 where
  pub ring : List ℕ
  pub nread : ℕ
  pub nwrite : ℕ
  pub readopen : Bool
  pub writeopen : Bool

-- The fields that `pipealloc` sets, over the bytes of the new page.
unfoldable pub init_pipe : List ℕ → Pipe
init_pipe bytes = record { ring = bytes; nread = 0; nwrite = 0; readopen = true; writeopen = true }

-- The tests of the two loops.
abbrev pub is_empty : Pipe → Bool
is_empty pi = pi.nread == pi.nwrite

abbrev pub is_full : Pipe → Bool
is_full pi = pi.nwrite == u32 (pi.nread + pipe_size)

-- pi->data[pi->nwrite++ % PIPESIZE] = ch
unfoldable pub put : ℕ → Pipe → Pipe
put ch pi = record pi {
  ring = set pi.ring (pi.nwrite % pipe_size) ch;
  nwrite = u32 (pi.nwrite + 1);
}

-- ch = pi->data[pi->nread++ % PIPESIZE]
unfoldable pub get : Pipe → ℕ × Pipe
get pi = (get_or pi.ring (pi.nread % pipe_size) 0, record pi { nread = u32 (pi.nread + 1) })

-- How a run of the loop of `pipewrite` ends, with the value of `i`: it returns -1; or wakes the
-- readers and sleeps until there is room; or wakes the readers and returns `i`.
pub data WriteEnd : Type 0 where
  hung_up : ℕ → WriteEnd
  blocked : ℕ → WriteEnd
  finished : ℕ → WriteEnd

-- The loop of `pipewrite` with `k` rounds to go, i = n - k: `copyin a` is the byte at the user's
-- address `a`, or none where that faults, and `killed i` what killed() returns in round `i`.
unfoldable pub write_loop : (ℕ → Option ℕ) → (ℕ → Bool) → ℕ → ℕ → ℕ → Pipe → WriteEnd × Pipe
unfolding put
write_loop copyin killed addr zero i pi = (finished i, pi)
write_loop copyin killed addr (suc k) i pi =
    if not pi.readopen || killed i
    then (hung_up i, pi)
    else if is_full pi
    then (blocked i, pi)
    else elim (copyin (addr + i)) [
      | none ↦ (finished i, pi)
      | some ch ↦ write_loop copyin killed addr k (i + 1) (put ch pi)
    ]

-- What `piperead` does before it copies: goes on, sleeps, or returns -1.
pub data ReadWait : Type 0 where
  ready : ReadWait
  asleep : ReadWait
  interrupted : ReadWait

unfoldable pub read_wait : Bool → Pipe → ReadWait
read_wait killed pi =
    if is_empty pi && pi.writeopen then (if killed then interrupted else asleep) else ready

module _ {U : Type 0} where
  -- The copying loop of `piperead` with `k` rounds to go: `copyout a b u` stores byte `b` at the
  -- user's address `a`, or is none where that faults. The result is the count returned.
  unfoldable pub read_loop : (ℕ → ℕ → U → Option U) → ℕ → ℕ → ℕ → Pipe → U → ℕ × Pipe × U
  unfolding get
  read_loop copyout addr zero i pi u = (i, pi, u)
  read_loop copyout addr (suc k) i pi u =
      if is_empty pi
      then (i, pi, u)
      else let (ch, pi') = get pi in
        elim (copyout (addr + i) ch u) [
          | none ↦ (i, pi', u)
          | some u' ↦ read_loop copyout addr k (i + 1) pi' u'
        ]

-- `pipeclose`: the new pipe, and whether its page is freed.
unfoldable pub pipeclose : Bool → Pipe → Pipe × Bool
pipeclose writable pi =
    let pi' =
      if writable then record pi { writeopen = false } else record pi { readopen = false } in
    (pi', not pi'.readopen && not pi'.writeopen)
