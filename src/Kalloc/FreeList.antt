-- ===== src/Kalloc/FreeList.antt =====
-- The free list of kernel/kalloc.c as a list of pages: what `kalloc` and `kfree` do to it.
use operating_system_se.Base.{
  ℕ, ◌%◌, ◌≤◌, ◌<◌, ◌≡◌, ◌≢◌, refl, List, [], ◌∷◌, All, arith, ok, ◌==◌, false,
}
use operating_system_se.Kalloc.{Mem, page_size, phystop, fill_page, store_word, kalloc, kfree}

-- From `p` the words of the free pages lead through `xs` to null.
abbrev pub Chain : (ℕ → ℕ) → ℕ → List ℕ → Type 0
Chain f p [] = p ≡ 0
Chain f p (x ∷ xs) = (p ≡ x) × Chain f (f x) xs

-- An address that the allocator manages, and not null.
abbrev pub IsPage : ℕ → ℕ → Type 0
IsPage kend a = (a % page_size ≡ 0) × (kend ≤ a) × (a < phystop) × (0 < a)

abbrev pub Distinct : List ℕ → Type 0
Distinct [] = Unit
Distinct (x ∷ xs) = All (λ y. y ≢ x) xs × Distinct xs

-- The free list holds the pages `xs`, in this order, each once.
pub record FreeList (kend : ℕ) (m : Mem) (xs : List ℕ) : Type 0 where
  pub chain : Chain m.word m.freelist xs
  pub pages : All (IsPage kend) xs
  pub distinct : Distinct xs

-- Two memories that agree on the pages of `xs` chain them alike.
Chain-frame :
    (f g : ℕ → ℕ) (p : ℕ) (xs : List ℕ) → Chain f p xs → All (λ x. g x ≡ f x) xs → Chain g p xs
Chain-frame f g p [] c a = c
Chain-frame f g p (x ∷ xs) c a = (c.0, Chain-frame f g (g x) xs (rw a.0 c.1) a.1)

-- A write to one page spares the others.
fill-frame :
    (kend : ℕ) (f : ℕ → ℕ) (pa c : ℕ) (xs : List ℕ)
    → pa % page_size ≡ 0
    → All (IsPage kend) xs
    → All (λ y. y ≢ pa) xs
    → All (λ x. fill_page f pa c x ≡ f x) xs
unfolding fill_page
fill-frame kend f pa c [] al ps ds = tt
fill-frame kend f pa c (x ∷ xs) al ps ds = (ground arith, fill-frame kend f pa c xs al ps.1 ds.1)

store-frame :
    (f g : ℕ → ℕ) (pa v : ℕ) (xs : List ℕ)
    → All (λ y. y ≢ pa) xs
    → All (λ x. f x ≡ g x) xs
    → All (λ x. store_word f pa v x ≡ g x) xs
unfolding store_word
store-frame f g pa v [] ds a = tt
store-frame f g pa v (x ∷ xs) ds a = (ground arith, store-frame f g pa v xs ds.1 a.1)

-- Freeing a page that is not free does not panic, and puts it at the front of the free list.
pub kfree-FreeList :
    (kend pa : ℕ) (m : Mem) (xs : List ℕ)
    → FreeList kend m xs
    → IsPage kend pa
    → All (λ y. y ≢ pa) xs
    → (m' : Mem) × (kfree kend pa m ≡ ok m') × FreeList kend m' (pa ∷ xs)
unfolding kfree store_word
kfree-FreeList kend pa m xs fl pg new = (
  record { word = store_word (fill_page m.word pa 1) pa m.freelist; freelist = pa },
  ground arith,
  record {
    chain = (refl, Chain-frame m.word _ _ xs (rw here fl.chain) frame);
    pages = (pg, fl.pages);
    distinct = (new, fl.distinct);
  },
)
  where
    frame : All (λ x. store_word (fill_page m.word pa 1) pa m.freelist x ≡ m.word x) xs
    frame = store-frame _ _ pa _ xs new (fill-frame kend m.word pa 1 xs pg.0 fl.pages new)

    here : store_word (fill_page m.word pa 1) pa m.freelist pa ≡ m.freelist
    here = ground arith

-- `kfree` stops the machine at an address that is not aligned, below the kernel's end, or above
-- the end of memory.
pub kfree-panics :
    (kend pa : ℕ) (m m' : Mem)
    → kfree kend pa m ≡ ok m'
    → (pa % page_size ≡ 0) × (kend ≤ pa) × (pa < phystop) × (m'.freelist ≡ pa)
unfolding kfree
kfree-panics kend pa m m' h = ground arith

-- On an empty free list `kalloc` returns null and changes nothing.
pub kalloc-nil : (kend : ℕ) (m : Mem) → FreeList kend m [] → kalloc m ≡ (0, m)
unfolding kalloc
kalloc-nil kend m fl = ground (arith, fl.chain)

-- On a free list that starts with `x`, `kalloc` returns `x` and leaves the rest free.
pub kalloc-cons :
    (kend x : ℕ) (m : Mem) (xs : List ℕ)
    → FreeList kend m (x ∷ xs)
    → ((kalloc m).0 ≡ x) × FreeList kend (kalloc m).1 xs
unfolding kalloc
kalloc-cons kend x m xs fl =
    rw (here, full)
      (
        refl,
        record {
          chain =
              Chain-frame m.word _ _ xs fl.chain.1
                (fill-frame kend m.word x 5 xs fl.pages.0.0 fl.pages.1 fl.distinct.0);
          pages = fl.pages.1;
          distinct = fl.distinct.1;
        },
      )
  where
    here : m.freelist ≡ x
    here = fl.chain.0

    full : (x == 0) ≡ false
    full = ground arith
