-- ===== src/Console/Read.antt =====
-- `consoleread` (kernel/console.c) takes bytes from the lines that are ready.
use operating_system_se.Base.{
  ℕ, zero, suc, ◌+◌, ◌-◌, ◌%◌, ◌≤◌, ◌<◌, ◌≡◌, ◌≢◌, refl, ap, ap₂, sym, ◌∙◌, subst, Bool, true,
  false, Option, none, some, List, [], ◌∷◌, ◌++◌, All, arith, get_or, length, ltb, ◌==◌,
  if◌then◌else◌, inl, inr, Bool-cases, Option-cases,
}
use operating_system_se.Pipe.{u32}
use operating_system_se.Console.{
  Console, buf_size, sub_32, ReadEnd, returned, interrupted, asleep, consoleread_loop, consoleread,
}
use operating_system_se.Console.Ring.{span-mod, Holds}

-- The first byte that is ready is taken.
next_byte :
    (c : Console) (b : ℕ) (ready line : List ℕ)
    → Holds c (b ∷ ready) line
    → (get_or c.buf (c.r % buf_size) 0 ≡ b) × Holds (record c { r = u32 (c.r + 1) }) ready line
next_byte c b ready line h = (
  sym (ap (λ l. get_or l 0 0) h.is_ready),
  record {
    room = h.room;
    reads = omega arith;
    writes = omega (arith, h.writes);
    edits = omega (arith, h.edits);
    bounded = omega (arith, h.bounded);
    is_ready =
        ap (tail ready) h.is_ready
        ∙ span-mod c.buf (c.r + 1) (u32 (c.r + 1)) (length ready) (omega arith);
    is_line =
        h.is_line
        ∙ span-mod c.buf (c.r + suc (length ready)) (u32 (c.r + 1) + length ready) (length line)
            (omega arith);
    open_line = h.open_line;
  },
)
  where
    tail : List ℕ → List ℕ → List ℕ
    tail d [] = d
    tail d (x ∷ xs) = xs

module _ {U : Type 0} (killed : ℕ → Bool) (copyout : ℕ → ℕ → U → Option U) (target : ℕ) where
  -- The reader on the list of the bytes that are ready. A control-d that does not come first stays.
  abbrev pub take_ready : (n dst : ℕ) → List ℕ → U → ReadEnd × (List ℕ × U)
  take_ready zero dst ready u = (returned target, (ready, u))
  take_ready (suc n) dst [] u = ((if killed (suc n) then interrupted else asleep (suc n)), ([], u))
  take_ready (suc n) dst (b ∷ ready) u =
      if b == 4
      then (returned (target - suc n), ((if ltb (suc n) target then b ∷ ready else ready), u))
      else elim (copyout dst b u) [
        | none ↦ (returned (target - suc n), (ready, u))
        | some u' ↦
            if b == 10
            then (returned (target - n), (ready, u'))
            else take_ready n (dst + 1) ready u'
      ]

  -- Same result, same memory, and a console that holds what is left.
  abbrev pub Agrees : List ℕ → ReadEnd × (Console × U) → ReadEnd × (List ℕ × U) → Type 0
  Agrees line run end = (run.0 ≡ end.0) × Holds run.1.0 end.1.0 line × (run.1.1 ≡ end.1.1)

  -- On a console that holds the bytes `ready`, the reader's loop ends as the reader on that list does, with the
  -- same memory, and the console holds what is left. The line being typed stays.
  pub consoleread_loop-take_ready :
      (n dst : ℕ) (c : Console) (ready line : List ℕ) (u : U)
      → Holds c ready line
      → Agrees line (consoleread_loop killed copyout target n dst c u) (take_ready n dst ready u)
  unfolding consoleread_loop
  consoleread_loop-take_ready zero dst c ready line u h = (refl, h, refl)
  consoleread_loop-take_ready (suc n) dst c [] line u h =
      let e : (c.r == c.w) ≡ true = ground (arith, h.writes, h.reads) in rw e (refl, h, refl)
  consoleread_loop-take_ready (suc n) dst c (b ∷ ready) line u h =
      let more : (c.r == c.w) ≡ false = ground (arith, h.writes, h.reads, h.bounded) in
      let (at, rest) = next_byte c b ready line h in
      let back : sub_32 (u32 (c.r + 1)) 1 ≡ c.r = omega (arith, h.reads) in
      rw (more, at)
        (elim (Bool-cases (b == 4)) [
          | inl d ↦ elim (Bool-cases (ltb (suc n) target)) [
            | inl late ↦ rw (d, late, back) (refl, h, refl)
            | inr first ↦ rw (d, first) (refl, rest, refl)
          ]
          | inr not_d ↦ elim (Option-cases (copyout dst b u)) [
            | inl fault ↦ rw (not_d, fault) (refl, rest, refl)
            | inr (u', stored) ↦ elim (Bool-cases (b == 10)) [
              | inl newline ↦ rw (not_d, stored, at, newline) (refl, rest, refl)
              | inr plain ↦
                  rw (not_d, stored, at, plain)
                    (consoleread_loop-take_ready n (dst + 1) (record c { r = u32 (c.r + 1) }) ready
                      line u' rest)
            ]
          ]
        ])

module _ {U : Type 0} (put : ℕ → ℕ → U → U) where
  -- Bytes stored one after the other.
  abbrev pub put_all : ℕ → List ℕ → U → U
  put_all dst [] u = u
  put_all dst (b ∷ bs) u = put_all (dst + 1) bs (put dst b u)

  take_ready-line :
      (killed : ℕ → Bool) (target n dst : ℕ) (text rest : List ℕ) (u : U)
      → All (λ b. (b ≢ 4) × (b ≢ 10)) text
      → length text < n
      → n ≤ target
      → take_ready killed (λ a b u. some (put a b u)) target n dst (text ++ (10 ∷ rest)) u
        ≡ (returned (target - n + suc (length text)), (rest, put_all dst (text ++ (10 ∷ [])) u))
  take_ready-line killed target zero dst text rest u plain h le = absurd (omega arith)
  take_ready-line killed target (suc n) dst [] rest u plain h le =
      let e : target - n ≡ target - suc n + 1 = omega arith in rw e refl
  take_ready-line killed target (suc n) dst (b ∷ text) rest u plain h le =
      let not_d : (b == 4) ≡ false = ground (arith, plain.0.0) in
      let not_newline : (b == 10) ≡ false = ground (arith, plain.0.1) in
      let e : target - suc n + suc (suc (length text)) ≡ target - n + suc (length text) =
        omega arith in
      rw (not_d, not_newline, e)
        (take_ready-line killed target n (dst + 1) text rest (put dst b u) plain.1 (omega arith)
          (omega arith))

  -- If a line of less than `n` characters is ready, none of them a newline or control-d, and copies do not
  -- fault, `consoleread` returns its length with the newline, has stored it, and the console holds the rest.
  pub consoleread-put_all :
      (killed : ℕ → Bool) (n dst : ℕ) (c : Console) (text rest line : List ℕ) (u : U)
      → Holds c (text ++ (10 ∷ rest)) line
      → All (λ b. (b ≢ 4) × (b ≢ 10)) text
      → length text < n
      → (c' : Console) × (consoleread killed (λ a b u. some (put a b u)) n dst c u
          ≡ (returned (suc (length text)), (c', put_all dst (text ++ (10 ∷ [])) u)))
        × Holds c' rest line
  unfolding consoleread
  consoleread-put_all killed n dst c text rest line u h plain lt =
      let copyout : ℕ → ℕ → U → Option U = λ a b u. some (put a b u) in
      let spec = take_ready-line killed n n dst text rest u plain lt (omega arith) in
      let count : n - n + suc (length text) ≡ suc (length text) = omega arith in
      from (consoleread_loop killed copyout n n dst c u)
        (take_ready killed copyout n n dst (text ++ (10 ∷ rest)) u)
        (consoleread_loop-take_ready killed copyout n n dst c (text ++ (10 ∷ rest)) line u h)
        (spec ∙ ap (λ k. (returned k, (rest, put_all dst (text ++ (10 ∷ [])) u))) count)
    where
      from :
          (run : ReadEnd × (Console × U)) (end : ReadEnd × (List ℕ × U))
          → Agrees killed (λ a b u. some (put a b u)) n line run end
          → end ≡ (returned (suc (length text)), (rest, put_all dst (text ++ (10 ∷ [])) u))
          → (c' : Console) × (run
              ≡ (returned (suc (length text)), (c', put_all dst (text ++ (10 ∷ [])) u)))
            × Holds c' rest line
      from (e, (c', u')) (e', (ready, u'')) (same, holds, mem) spec = (
        c',
        ap₂ (λ a b. (a, (c', b))) (same ∙ ap (λ p. p.0) spec) (mem ∙ ap (λ p. p.1.1) spec),
        subst (λ l. Holds c' l line) (ap (λ p. p.1.0) spec) holds,
      )
