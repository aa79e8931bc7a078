-- ===== src/Pipe/Ring.antt =====
-- The ring of kernel/pipe.c as a queue of bytes, oldest first.
use operating_system_se.Base.{
  ℕ, zero, suc, ◌+◌, ◌-◌, ◌%◌, ◌^◌, ◌≤◌, ◌<◌, ◌≡◌, ◌≢◌, refl, ap, ap₂, ◌∙◌, true, false, List, [],
  ◌∷◌, ◌++◌, arith, get_or, set, length, length-set,
}
use operating_system_se.Pipe.{Pipe, pipe_size, u32, is_empty, is_full, put, get}

-- The bytes waiting, as the counters give it.
abbrev pub count : Pipe → ℕ
count pi = u32 (pi.nwrite + 2 ^ 32 - pi.nread)

pub record IsValid (pi : Pipe) : Type 0 where
  pub room : length pi.ring ≡ pipe_size
  pub reads : pi.nread < 2 ^ 32
  pub writes : pi.nwrite < 2 ^ 32
  pub bounded : count pi ≤ pipe_size

-- `n` bytes of the ring from position `r` on.
abbrev pub bytes_from : List ℕ → ℕ → ℕ → List ℕ
bytes_from d r zero = []
bytes_from d r (suc n) = get_or d (r % pipe_size) 0 ∷ bytes_from d (r + 1) n

abbrev pub contents : Pipe → List ℕ
contents pi = bytes_from pi.ring pi.nread (count pi)

pub get_or-set_self : (xs : List ℕ) (i v d : ℕ) → i < length xs → get_or (set xs i v) i d ≡ v
get_or-set_self [] i v d h = absurd (omega arith)
get_or-set_self (x ∷ xs) zero v d h = refl
get_or-set_self (x ∷ xs) (suc i) v d h = get_or-set_self xs i v d (omega arith)

pub get_or-set_ne : (xs : List ℕ) (i j v d : ℕ) → i ≢ j → get_or (set xs i v) j d ≡ get_or xs j d
get_or-set_ne [] i j v d h = refl
get_or-set_ne (x ∷ xs) zero zero v d h = absurd (h refl)
get_or-set_ne (x ∷ xs) zero (suc j) v d h = refl
get_or-set_ne (x ∷ xs) (suc i) zero v d h = refl
get_or-set_ne (x ∷ xs) (suc i) (suc j) v d h = get_or-set_ne xs i j v d (λ e. h (ap suc e))

-- The positions repeat after 512, which divides 2^32.
bytes_from-mod :
    (d : List ℕ) (r r' n : ℕ)
    → r % pipe_size ≡ r' % pipe_size
    → bytes_from d r n ≡ bytes_from d r' n
bytes_from-mod d r r' zero e = refl
bytes_from-mod d r r' (suc n) e =
    ap₂ ◌∷◌ (ap (λ i. get_or d i 0) e) (bytes_from-mod d (r + 1) (r' + 1) n (omega arith))

-- A byte stored just past `n` bytes of the ring extends them.
bytes_from-set :
    (d : List ℕ) (r n i ch : ℕ)
    → length d ≡ pipe_size
    → n < pipe_size
    → i ≡ (r + n) % pipe_size
    → bytes_from (set d i ch) r (suc n) ≡ bytes_from d r n ++ (ch ∷ [])
bytes_from-set d r zero i ch l h e =
    ap₂ ◌∷◌
      (ap (λ j. get_or (set d i ch) j 0) (omega arith) ∙ get_or-set_self d i ch 0 (omega arith))
      refl
bytes_from-set d r (suc n) i ch l h e =
    ap₂ ◌∷◌ (get_or-set_ne d i (r % pipe_size) ch 0 (omega arith))
      (bytes_from-set d (r + 1) n i ch l (omega arith) (omega arith))

-- Below the limit, `put` appends the byte to the queue and keeps the ring valid.
pub put-contents :
    (ch : ℕ) (pi : Pipe)
    → IsValid pi
    → is_full pi ≡ false
    → IsValid (put ch pi) × (contents (put ch pi) ≡ contents pi ++ (ch ∷ []))
unfolding put
put-contents ch pi v room =
    let free : pi.nwrite ≢ u32 (pi.nread + pipe_size) = ground arith in
    let few : count pi < pipe_size = omega arith in
    let more : count (put ch pi) ≡ suc (count pi) = omega arith in
    (
      record {
        room = length-set pi.ring (pi.nwrite % pipe_size) ch ∙ v.room;
        reads = v.reads;
        writes = omega arith;
        bounded = omega arith;
      },
      ap (bytes_from (put ch pi).ring pi.nread) more
          ∙ bytes_from-set pi.ring pi.nread (count pi) _ ch v.room few (omega arith),
    )

-- From a ring that is not empty, `get` takes the oldest byte and keeps the ring valid.
pub get-contents :
    (pi : Pipe)
    → IsValid pi
    → is_empty pi ≡ false
    → IsValid (get pi).1 × (contents pi ≡ (get pi).0 ∷ contents (get pi).1)
unfolding get
get-contents pi v some' =
    let waiting : pi.nread ≢ pi.nwrite = ground arith in
    let less : count pi ≡ suc (count (get pi).1) = omega arith in
    (
      record { room = v.room; reads = omega arith; writes = v.writes; bounded = omega arith },
      ap (bytes_from pi.ring pi.nread) less
          ∙ ap (λ bs. (get pi).0 ∷ bs) (bytes_from-mod pi.ring _ _ _ (omega arith)),
    )

-- The queue is empty exactly if the counters are equal.
pub is_empty-contents : (pi : Pipe) → IsValid pi → is_empty pi ≡ true → contents pi ≡ []
is_empty-contents pi v e =
    let none' : count pi ≡ 0 = ground arith in ap (bytes_from pi.ring pi.nread) none'
