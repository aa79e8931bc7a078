-- ===== src/Log/Install.antt =====
-- What recovery (kernel/log.c) makes of a disk.
use operating_system_se.Base.{
  ℕ, suc, ◌+◌, ◌≤◌, ◌<◌, ◌≡◌, refl, ap, ◌∙◌, ◌⊎◌, Bool, true, false, ◌&&◌, List, [], ◌∷◌, ◌++◌, All,
  arith, leb, if◌then◌else◌, take, length,
}
use operating_system_se.Log.{Block, Store, update, decode, encode, log_blocks, install_from, has}

take-append : (xs ys : List ℕ) → take (length xs) (xs ++ ys) ≡ xs
take-append [] ys = refl
take-append (x ∷ xs) ys = ap (λ l. x ∷ l) (take-append xs ys)

-- The header that is written is the header that is read.
pub decode-encode : (bs : List ℕ) (old : Block) → decode (encode bs old) ≡ bs
decode-encode bs old = take-append bs _

module _ (start : ℕ) where
  -- The header and the blocks of the log.
  abbrev pub is_log : ℕ → Bool
  is_log x = leb start x && leb x (start + log_blocks)

  -- The log blocks from entry `tail` on hold what `f` gives for the blocks of the list.
  abbrev pub LogHolds : (ℕ → Block) → (ℕ → Block) → ℕ → List ℕ → Type 0
  LogHolds d f tail [] = Unit
  LogHolds d f tail (b ∷ bs) = (d (start + tail + 1) ≡ f b) × LogHolds d f (tail + 1) bs

  -- A change elsewhere leaves the log as it is.
  pub LogHolds-frame :
      (d e f : ℕ → Block) (tail : ℕ) (bs : List ℕ)
      → ((x : ℕ) → start + tail < x → x ≤ start + tail + length bs → e x ≡ d x)
      → LogHolds d f tail bs
      → LogHolds e f tail bs
  LogHolds-frame d e f tail [] same h = tt
  LogHolds-frame d e f tail (b ∷ bs) same h = (
    same (start + tail + 1) (omega arith) (omega arith) ∙ h.0,
    LogHolds-frame d e f (tail + 1) bs (λ x lo hi. same x (omega arith) (omega arith)) h.1,
  )

  -- Homes of blocks lie outside the log.
  abbrev pub Homes : List ℕ → Type 0
  Homes bs = All (λ b. is_log b ≡ false) bs

  -- `e` is `d` with some of the blocks of the list, at home, replaced by what `f` gives.
  abbrev pub Between : (d f : ℕ → Block) → List ℕ → (ℕ → Block) → Type 0
  Between d f bs e = (x : ℕ) → (e x ≡ d x) ⊎ ((has x bs ≡ true) × (e x ≡ f x))

  -- The store after one entry is installed.
  abbrev pub installed : ℕ → ℕ → Store → Store
  installed tail b s =
      let c = update s.cache b (s.cache (start + tail + 1)) in
      let d = update s.disk b (c b) in record { disk = d; cache = c; crashes = d ∷ s.crashes }

  module _ (f : ℕ → Block) where
    -- Installing an entry at home spares the log.
    holds_on :
        (tail b : ℕ) (bs : List ℕ) (s : Store)
        → tail + suc (length bs) ≤ log_blocks
        → is_log b ≡ false
        → LogHolds s.cache f (tail + 1) bs
        → LogHolds (installed tail b s).cache f (tail + 1) bs
    holds_on tail b bs s fits home h =
        LogHolds-frame s.cache (installed tail b s).cache f (tail + 1) bs (λ y lo hi. ground arith)
          h

    pub install_from-disk :
        (tail : ℕ) (bs : List ℕ) (s : Store) (x : ℕ)
        → tail + length bs ≤ log_blocks
        → Homes bs
        → LogHolds s.cache f tail bs
        → ((install_from start tail bs s).disk x ≡ (if has x bs then f x else s.disk x))
          × ((install_from start tail bs s).cache x ≡ (if has x bs then f x else s.cache x))
    unfolding install_from
    install_from-disk tail [] s x fits homes holds = (refl, refl)
    install_from-disk tail (b ∷ bs) s x fits homes holds =
        let next =
          install_from-disk (tail + 1) bs (installed tail b s) x (omega arith) homes.1
            (holds_on tail b bs s fits homes.0 holds.1) in
        ground (arith, next, holds.0)

    -- Every disk that a crash may leave meanwhile lies between the two.
    pub install_from-crashes :
        (P : (ℕ → Block) → Type 0) (d : ℕ → Block) (all : List ℕ) (tail : ℕ) (bs : List ℕ)
        (s : Store)
        → tail + length bs ≤ log_blocks
        → Homes bs
        → LogHolds s.cache f tail bs
        → ((x : ℕ) → has x bs ≡ true → has x all ≡ true)
        → Between d f all s.disk
        → ((e : ℕ → Block) → Between d f all e → P e)
        → All P s.crashes
        → All P (install_from start tail bs s).crashes
    unfolding install_from
    install_from-crashes P d all tail [] s fits homes holds sub mid good h = h
    install_from-crashes P d all tail (b ∷ bs) s fits homes holds sub mid good h =
        let mid' : Between d f all (installed tail b s).disk =
          λ x. ground (arith, mid x, sub x, holds.0) in
        install_from-crashes P d all (tail + 1) bs (installed tail b s) (omega arith) homes.1
          (holds_on tail b bs s fits homes.0 holds.1) (λ x e. sub x (ground arith)) mid' good
          (good _ mid', h)
