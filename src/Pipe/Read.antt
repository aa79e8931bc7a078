-- ===== src/Pipe/Read.antt =====
-- What `piperead` (kernel/pipe.c) takes out of the pipe.
use operating_system_se.Base.{
  ℕ, zero, suc, ◌+◌, ◌≡◌, refl, sym, ap, ◌∙◌, inl, inr, false, Option, none, some, List, [], ◌∷◌,
  ◌++◌, arith, length, min, Bool-cases,
}
use operating_system_se.Pipe.{Pipe, is_empty, get, read_loop}
use operating_system_se.Pipe.Ring.{IsValid, contents, get-contents, is_empty-contents}

module _ {U : Type 0} (store : ℕ → ℕ → U → U) where
  -- The bytes stored at successive addresses.
  abbrev pub deliver : ℕ → List ℕ → U → U
  deliver a [] u = u
  deliver a (b ∷ bs) u = deliver (a + 1) bs (store a b u)

  -- The bytes `taken` have left the pipe, oldest first, are counted, and stand in the user's memory
  -- from addr + i on; `k` were asked for.
  pub record Took (addr k i : ℕ) (pi : Pipe) (u : U) (out : ℕ × Pipe × U) : Type 0 where
    pub valid : IsValid out.1
    pub taken : List ℕ
    pub count : out.0 ≡ i + length taken
    pub bytes : contents pi ≡ taken ++ contents out.1
    pub stored : out.2 ≡ deliver (addr + i) taken u
    pub all : length taken ≡ min k (length (contents pi))

  Took-stop :
      (addr k i : ℕ) (pi : Pipe) (u : U)
      → IsValid pi
      → min k (length (contents pi)) ≡ 0
      → Took addr k i pi u (i, pi, u)
  Took-stop addr k i pi u v h = record {
    valid = v;
    taken = [];
    count = omega arith;
    bytes = refl;
    stored = refl;
    all = sym h;
  }

  Took-cons :
      (addr k i ch : ℕ) (pi pi' : Pipe) (u : U) (out : ℕ × Pipe × U)
      → contents pi ≡ ch ∷ contents pi'
      → Took addr k (i + 1) pi' (store (addr + i) ch u) out
      → Took addr (suc k) i pi u out
  Took-cons addr k i ch pi pi' u out front t =
      let next : addr + (i + 1) ≡ addr + i + 1 = omega arith in
      record {
        valid = t.valid;
        taken = ch ∷ t.taken;
        count = omega (arith, t.count);
        bytes = front ∙ ap (λ bs. ch ∷ bs) t.bytes;
        stored = t.stored ∙ ap (λ a. deliver a t.taken (store (addr + i) ch u)) next;
        all = omega (arith, t.all, ap length front);
      }

  -- Where no store faults, `piperead` delivers to the user the oldest bytes of the pipe, in order and
  -- each once, as many as were asked for or as there were; it returns their number, and the rest stays.
  pub read_loop-Took :
      (addr k i : ℕ) (pi : Pipe) (u : U)
      → IsValid pi
      → Took addr k i pi u (read_loop (λ a b w. some (store a b w)) addr k i pi u)
  unfolding read_loop
  read_loop-Took addr zero i pi u v = Took-stop addr zero i pi u v (omega arith)
  read_loop-Took addr (suc k) i pi u v = elim (Bool-cases (is_empty pi)) [
    | inl e ↦
        rw e (Took-stop addr (suc k) i pi u v (omega (arith, ap length (is_empty-contents pi v e))))
    | inr some' ↦
        let (v', front) = get-contents pi v some' in
        rw some' (
          Took-cons addr k i (get pi).0 pi (get pi).1 u _ front
            (read_loop-Took addr k (i + 1) (get pi).1 (store (addr + i) (get pi).0 u) v'))
  ]

-- Where the store of the next byte faults, `piperead` has taken that byte out of the pipe all the
-- same: it is neither delivered nor counted, and the next reader does not get it.
pub read_loop-loses :
    {U : Type 0} (copyout : ℕ → ℕ → U → Option U) (addr k i : ℕ) (pi : Pipe) (u : U)
    → IsValid pi
    → is_empty pi ≡ false
    → copyout (addr + i) (get pi).0 u ≡ none
    → (read_loop copyout addr (suc k) i pi u ≡ (i, (get pi).1, u))
      × (contents pi ≡ (get pi).0 ∷ contents (get pi).1)
unfolding read_loop
read_loop-loses copyout addr k i pi u v some' fault =
    (rw (some', fault), (get-contents pi v some').1)
