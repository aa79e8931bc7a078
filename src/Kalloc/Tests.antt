-- ===== src/Kalloc/Tests.antt =====
-- The theorems about kernel/kalloc.c at concrete inputs.
use operating_system_se.Base.{ℕ, ◌≡◌, refl, List, [], ◌∷◌, arith, ok}
use operating_system_se.Kalloc.{Mem, kinit}
use operating_system_se.Kalloc.FreeList.{FreeList}
use operating_system_se.Kalloc.Init.{has, is_page, kinit-FreeList}

abbrev kernel_end : ℕ
kernel_end = 0x8002_0000

abbrev none_free : Mem
none_free = record { word = λ _. 0; freelist = 0 }

abbrev one_free : Mem
one_free = record { word = λ _. 0; freelist = 0x8002_1000 }

one_free-FreeList : FreeList kernel_end one_free (0x8002_1000 ∷ [])
one_free-FreeList = record { chain = (refl, refl); pages = (omega arith, tt); distinct = (tt, tt) }

kinit-FreeList_example :
    (m' : Mem) × (xs : List ℕ) × (kinit kernel_end none_free ≡ ok m')
    × FreeList kernel_end m' xs
    × ((a : ℕ) → has a xs ≡ is_page kernel_end a)
kinit-FreeList_example = kinit-FreeList kernel_end none_free (omega arith) (omega arith) refl
