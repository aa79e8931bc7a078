-- ===== src/Fs/Path/Element.antt =====
-- What `skipelem` (kernel/fs.c) takes from a path.
use operating_system_se.Base.{
  ℕ, zero, suc, ◌+◌, ◌-◌, ◌≤◌, ◌<◌, ◌≡◌, ◌≢◌, ◌⊎◌, sym, ap, ◌∙◌, ◌&&◌, some, leb, ◌==◌,
  if◌then◌else◌, arith,
}
use operating_system_se.Str.{Bytes, store, memmove}
use operating_system_se.Str.Move.{memmove_lem, within}
use operating_system_se.Fs.Path.{dirsiz, slash, skip_slashes, skip_word, skipelem}

skip_slashes_lem :
    (k fuel : ℕ) (f : Bytes) (p : ℕ)
    → k < fuel
    → ((j : ℕ) → j < k → f (p + j) ≡ slash)
    → f (p + k) ≢ slash
    → skip_slashes fuel f p ≡ p + k
unfolding skip_slashes
skip_slashes_lem k zero f p lt all stop = absurd (omega arith)
skip_slashes_lem zero (suc fuel) f p lt all stop =
    let e : p + 0 ≡ p = omega arith in ground (arith, ap f e)
skip_slashes_lem (suc k) (suc fuel) f p lt all stop =
    let e : p + 0 ≡ p = omega arith in
    let shift : (j : ℕ) → p + 1 + j ≡ p + suc j = λ j. omega arith in
    let rest =
      skip_slashes_lem k fuel f (p + 1) (omega arith)
        (λ j h. ap f (shift j) ∙ all (suc j) (omega arith))
        (λ z. stop (ap f (sym (shift k)) ∙ z)) in
    ground (arith, all 0 (omega arith), ap f e, rest)

skip_word_lem :
    (k fuel : ℕ) (f : Bytes) (p : ℕ)
    → k < fuel
    → ((j : ℕ) → j < k → (f (p + j) ≢ slash) × (f (p + j) ≢ 0))
    → (f (p + k) ≡ slash) ⊎ (f (p + k) ≡ 0)
    → skip_word fuel f p ≡ p + k
unfolding skip_word
skip_word_lem k zero f p lt all stop = absurd (omega arith)
skip_word_lem zero (suc fuel) f p lt all stop =
    let e : p + 0 ≡ p = omega arith in ground (arith, ap f e, stop)
skip_word_lem (suc k) (suc fuel) f p lt all stop =
    let e : p + 0 ≡ p = omega arith in
    let shift : (j : ℕ) → f (p + 1 + j) ≡ f (p + suc j) = λ j. ap f (omega arith) in
    let rest =
      skip_word_lem k fuel f (p + 1) (omega arith)
        (λ j h.
          let (x, y) = all (suc j) (omega arith) in
          (λ z. x (sym (shift j) ∙ z), λ z. y (sym (shift j) ∙ z)))
        (ground (arith, shift k, stop)) in
    ground (arith, all 0 (omega arith), ap f e, rest)

-- At `path` there are `a` slashes, an element of `len` characters, `b` slashes, and another character;
-- the 14 bytes at `name` lie apart from these.
pub record IsPath (f : Bytes) (path name a len b : ℕ) : Type 0 where
  pub lead : (j : ℕ) → j < a → f (path + j) ≡ slash
  pub word : (j : ℕ) → j < len → (f (path + a + j) ≢ slash) × (f (path + a + j) ≢ 0)
  pub some_word : 0 < len
  pub ends : (f (path + a + len) ≡ slash) ⊎ (f (path + a + len) ≡ 0)
  pub trail : (j : ℕ) → j < b → f (path + a + len + j) ≡ slash
  pub last : f (path + a + len + b) ≢ slash
  pub apart : (name + dirsiz ≤ path) ⊎ (path + a + len + b < name)

-- What `skipelem` leaves at `name`.
abbrev pub named : Bytes → ℕ → ℕ → ℕ → Bytes
named f name s len =
    if leb dirsiz len then memmove f name s dirsiz else store (memmove f name s len) (name + len) 0

named-get :
    (f : Bytes) (name s len x : ℕ)
    → named f name s len x ≡ (
        if within x name dirsiz && leb x (name + len)
        then (if x == name + len then 0 else f (s + (x - name)))
        else f x)
named-get f name s len x = ground (arith, memmove_lem f name s dirsiz x, memmove_lem f name s len x)

skipelem-parts :
    (f : Bytes) (path name s e len fuel : ℕ)
    → skip_slashes fuel f path ≡ s
    → skip_word fuel f s ≡ e
    → e - s ≡ len
    → f s ≢ 0
    → skipelem fuel f path name
      ≡ (some (skip_slashes fuel (named f name s len) e), named f name s len)
unfolding skipelem
skipelem-parts f path name s e len fuel hs he hl ne = rw hs (rw he (rw hl (ground (arith, ne))))

-- On a path of `a` slashes, an element of `len` characters, `b` slashes and another character, with fuel above
-- each of the three counts and a buffer for the name apart from the path, `skipelem` returns the address after
-- the last of these slashes, and has put the element, cut to 14 characters or else ended by a NUL, at `name`.
pub skipelem_lem :
    (f : Bytes) (path name a len b fuel : ℕ)
    → IsPath f path name a len b
    → a < fuel
    → len < fuel
    → b < fuel
    → skipelem fuel f path name ≡ (some (path + a + len + b), named f name (path + a) len)
skipelem_lem f path name a len b fuel v ha hl hb =
    let s : ℕ = path + a in
    let g : Bytes = named f name s len in
    let same : (j : ℕ) → j ≤ b → g (s + len + j) ≡ f (s + len + j) =
      λ j h. ground (arith, named-get f name s len (s + len + j), v.apart) in
    let rest : skip_slashes fuel g (s + len) ≡ s + len + b =
      skip_slashes_lem b fuel g (s + len) hb (λ j h. same j (omega arith) ∙ v.trail j h)
        (λ z. v.last (sym (same b (omega arith)) ∙ z)) in
    let at : f (s + 0) ≡ f s = ap f (omega arith) in
    let first : (f s ≢ slash) × (f s ≢ 0) = ground (arith, at, v.word 0 v.some_word) in
    let found : skip_slashes fuel f path ≡ s = skip_slashes_lem a fuel f path ha v.lead first.0 in
    let ended : skip_word fuel f s ≡ s + len = skip_word_lem len fuel f s hl v.word v.ends in
    skipelem-parts f path name s (s + len) len fuel found ended (omega arith) first.1
    ∙ ap (λ r. (some r, g)) rest
