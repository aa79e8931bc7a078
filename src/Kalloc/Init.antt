-- ===== src/Kalloc/Init.antt =====
-- `kinit` and `freerange` of kernel/kalloc.c: which pages are free at the start.
use operating_system_se.Base.{
  ℕ, zero, suc, ◌+◌, ◌-◌, ◌*◌, ◌/◌, ◌%◌, ◌≤◌, ◌<◌, ◌≡◌, Bool, true, ◌&&◌, leb, ltb, false, ◌||◌,
  List, [], ◌∷◌, All, arith, ok, ◌==◌, dec_lt, ◌≢◌,
}
use operating_system_se.Kalloc.{
  Mem, page_size, phystop, pgroundup, freerange_loop, freerange, kinit,
}
use operating_system_se.Kalloc.FreeList.{IsPage, FreeList, kfree-FreeList}

abbrev pub has : ℕ → List ℕ → Bool
has a [] = false
has a (x ∷ xs) = (a == x) || has a xs

-- The free list after the `n` pages from `p` on have been freed.
abbrev freed : ℕ → ℕ → List ℕ → List ℕ
freed p zero xs = xs
freed p (suc n) xs = freed (p + page_size) n (p ∷ xs)

has-freed_old : (a p n : ℕ) (xs : List ℕ) → has a xs ≡ true → has a (freed p n xs) ≡ true
has-freed_old a p zero xs h = h
has-freed_old a p (suc n) xs h = has-freed_old a (p + page_size) n (p ∷ xs) (ground arith)

-- Every aligned address of the range is freed.
has-freed :
    (a p n : ℕ) (xs : List ℕ)
    → a % page_size ≡ 0
    → p % page_size ≡ 0
    → p ≤ a
    → a < p + n * page_size
    → has a (freed p n xs) ≡ true
has-freed a p zero xs al pl lo hi = absurd (omega arith)
has-freed a p (suc n) xs al pl lo hi = elim (dec_lt p a) [
  | yes q ↦ has-freed a (p + page_size) n (p ∷ xs) al (omega arith) (omega arith) (omega arith)
  | no q ↦ has-freed_old a (p + page_size) n (p ∷ xs) (ground arith)
]

-- The address has passed every page of the list.
abbrev Below : ℕ → List ℕ → Type 0
Below p xs = All (λ x. x < p) xs

Below-mono : (p q : ℕ) (xs : List ℕ) → p ≤ q → Below p xs → Below q xs
Below-mono p q [] h b = tt
Below-mono p q (x ∷ xs) h b = (omega arith, Below-mono p q xs h b.1)

Below-ne : (p : ℕ) (xs : List ℕ) → Below p xs → All (λ y. y ≢ p) xs
Below-ne p [] b = tt
Below-ne p (x ∷ xs) b = (omega arith, Below-ne p xs b.1)

-- With more fuel than pages the loop frees them all and does not panic.
freerange_loop-FreeList :
    (kend fuel p n pa_end : ℕ) (m : Mem) (xs : List ℕ)
    → n < fuel
    → (p % page_size ≡ 0) × (kend ≤ p) × (0 < p)
    → (p + n * page_size ≤ pa_end) × (pa_end < p + suc n * page_size) × (pa_end ≤ phystop)
    → FreeList kend m xs
    → Below p xs
    → (m' : Mem) × (freerange_loop kend fuel p pa_end m ≡ ok m') × FreeList kend m' (freed p n xs)
unfolding freerange_loop
freerange_loop-FreeList kend zero p n pa_end m xs lt al range fl b = absurd (omega arith)
freerange_loop-FreeList kend (suc fuel) p zero pa_end m xs lt al range fl b = (m, ground arith, fl)
freerange_loop-FreeList kend (suc fuel) p (suc n) pa_end m xs lt al range fl b =
    let (m1, e1, fl1) = kfree-FreeList kend p m xs fl (omega arith) (Below-ne p xs b) in
    let (m2, e2, fl2) =
      freerange_loop-FreeList kend fuel (p + page_size) n pa_end m1 (p ∷ xs) (omega arith)
        (omega arith) (omega arith) fl1
        (omega arith, Below-mono p (p + page_size) xs (omega arith) b) in
    (m2, ground (arith, e1, e2), fl2)

-- The aligned addresses between the kernel's end and the end of memory.
abbrev pub is_page : ℕ → ℕ → Bool
is_page kend a = (a % page_size == 0) && (leb kend a && ltb a phystop)

has-is_page :
    (kend a : ℕ) (xs : List ℕ) → All (IsPage kend) xs → has a xs ≡ true → is_page kend a ≡ true
has-is_page kend a [] ps h = cc
has-is_page kend a (x ∷ xs) ps h = ground (arith, has-is_page kend a xs ps.1)

-- `kinit`, started with an empty free list, does not panic; afterwards the free list holds exactly
-- the aligned pages between the kernel's end and the end of memory, each once.
pub kinit-FreeList :
    (kend : ℕ) (m : Mem)
    → 0 < kend
    → kend ≤ phystop
    → m.freelist ≡ 0
    → (m' : Mem) × (xs : List ℕ) × (kinit kend m ≡ ok m')
      × FreeList kend m' xs
      × ((a : ℕ) → has a xs ≡ is_page kend a)
unfolding kinit freerange pgroundup
kinit-FreeList kend m pos fits empty =
    let p : ℕ = pgroundup kend in
    let n : ℕ = (phystop - p) / page_size in
    let (m', e, fl) =
      freerange_loop-FreeList kend (phystop / page_size + 1) p n phystop m [] (omega arith)
        (omega arith) (omega arith) (record { chain = empty; pages = tt; distinct = tt }) tt in
    let every = λ (a : ℕ) (pg : IsPage kend a).
      has-freed a p n [] pg.0 (omega arith) (omega arith) (omega arith) in
    (
      m',
      freed p n [],
      e,
      fl,
      λ a. ground (arith, every a, has-is_page kend a (freed p n []) fl.pages),
    )
