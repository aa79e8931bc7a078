-- ===== src/Console/Ring.antt =====
-- The ring of kernel/console.c as two lists: the bytes that readers may take, and the line being typed.
use operating_system_se.Base.{
  ℕ, zero, suc, ◌+◌, ◌%◌, ◌^◌, ◌≤◌, ◌<◌, ◌≡◌, ◌≢◌, refl, ap, ap₂, ◌∙◌, List, [], ◌∷◌, ◌++◌, arith,
  get_or, set, length,
}
use operating_system_se.Pipe.{u32}
use operating_system_se.Pipe.Ring.{get_or-set_self, get_or-set_ne}
use operating_system_se.Console.{Console, buf_size}

-- `n` bytes of the ring from position `p` on.
abbrev pub span : List ℕ → ℕ → ℕ → List ℕ
span d p zero = []
span d p (suc n) = get_or d (p % buf_size) 0 ∷ span d (p + 1) n

pub length-span : (d : List ℕ) (p n : ℕ) → length (span d p n) ≡ n
length-span d p zero = refl
length-span d p (suc n) = ap suc (length-span d (p + 1) n)

-- The positions repeat after 128, which divides 2^32.
pub span-mod : (d : List ℕ) (p q n : ℕ) → p % buf_size ≡ q % buf_size → span d p n ≡ span d q n
span-mod d p q zero e = refl
span-mod d p q (suc n) e =
    ap₂ ◌∷◌ (ap (λ i. get_or d i 0) e) (span-mod d (p + 1) (q + 1) n (omega arith))

pub span-append : (d : List ℕ) (p m n : ℕ) → span d p m ++ span d (p + m) n ≡ span d p (m + n)
span-append d p zero n =
    let e : p + 0 ≡ p = omega arith in let e' : 0 + n ≡ n = omega arith in rw (e, e') refl
span-append d p (suc m) n =
    let e : p + suc m ≡ p + 1 + m = omega arith in
    let e' : suc m + n ≡ suc (m + n) = omega arith in
    rw (e, e') (ap (λ bs. get_or d (p % buf_size) 0 ∷ bs) (span-append d (p + 1) m n))

pub get_or-span :
    (d : List ℕ) (p n k : ℕ) → k < n → get_or (span d p n) k 0 ≡ get_or d ((p + k) % buf_size) 0
get_or-span d p zero k h = absurd (omega arith)
get_or-span d p (suc n) zero h = ap (λ i. get_or d i 0) (omega arith)
get_or-span d p (suc n) (suc k) h =
    get_or-span d (p + 1) n k (omega arith) ∙ ap (λ i. get_or d i 0) (omega arith)

-- A byte stored outside of the bytes, and one stored just past them.
pub span-set_ne :
    (d : List ℕ) (p n k i ch : ℕ)
    → n + k < buf_size
    → i ≡ (p + n + k) % buf_size
    → span (set d i ch) p n ≡ span d p n
span-set_ne d p zero k i ch h e = refl
span-set_ne d p (suc n) k i ch h e =
    ap₂ ◌∷◌ (get_or-set_ne d i (p % buf_size) ch 0 (omega arith))
      (span-set_ne d (p + 1) n k i ch (omega arith) (omega arith))

pub span-set :
    (d : List ℕ) (p n i ch : ℕ)
    → length d ≡ buf_size
    → n < buf_size
    → i ≡ (p + n) % buf_size
    → span (set d i ch) p (suc n) ≡ span d p n ++ (ch ∷ [])
span-set d p zero i ch l h e =
    ap₂ ◌∷◌
      (ap (λ j. get_or (set d i ch) j 0) (omega arith) ∙ get_or-set_self d i ch 0 (omega arith))
      refl
span-set d p (suc n) i ch l h e =
    ap₂ ◌∷◌ (get_or-set_ne d i (p % buf_size) ch 0 (omega arith))
      (span-set d (p + 1) n i ch l (omega arith) (omega arith))

-- The console as the bytes that are ready, and the line that is not yet complete. No newline is in that.
pub record Holds (c : Console) (ready line : List ℕ) : Type 0 where
  pub room : length c.buf ≡ buf_size
  pub reads : c.r < 2 ^ 32
  pub writes : c.w ≡ u32 (c.r + length ready)
  pub edits : c.e ≡ u32 (c.r + length ready + length line)
  pub bounded : length ready + length line ≤ buf_size
  pub is_ready : ready ≡ span c.buf c.r (length ready)
  pub is_line : line ≡ span c.buf (c.r + length ready) (length line)
  pub open_line : (k : ℕ) → k < length line → get_or line k 0 ≢ 10
