-- ===== src/Bio/Lookup.antt =====
-- `bget` (kernel/bio.c): what it finds, and that it never caches a block twice.
use operating_system_se.Base.{
  ℕ, zero, suc, ◌+◌, ◌≤◌, ◌≡◌, ◌≢◌, refl, ◌⊎◌, inl, inr, true, ◌&&◌, Option, none, some, List, [],
  ◌∷◌, ◌++◌, All, arith, ◌==◌, if◌then◌else◌, ok, get_elem?, Option-cases, Bool-cases,
}
use operating_system_se.Bio.{Buf, is_for, find_cached, recycled, recycle, bget}

-- How many buffers are for a block.
abbrev pub count : ℕ → ℕ → List Buf → ℕ
count d k [] = 0
count d k (b ∷ bs) = (if is_for d k b then 1 else 0) + count d k bs

-- Each block of a device is cached at most once. (Buffers that were never used are for device 0.)
abbrev pub IsUnique : List Buf → Type 0
IsUnique bs = (d k : ℕ) → d ≢ 0 → count d k bs ≤ 1

find_cached-count :
    (dev blockno : ℕ) (bs : List Buf) (s : ℕ) (bs' : List Buf) (d k : ℕ)
    → find_cached dev blockno bs ≡ some (s, bs')
    → count d k bs' ≡ count d k bs
unfolding find_cached
find_cached-count dev blockno [] s bs' d k e = cc
find_cached-count dev blockno (b ∷ bs) s bs' d k e =
    let ih = find_cached-count dev blockno bs in
    elim (Bool-cases (is_for dev blockno b)) [
      | inl here ↦ ground arith
      | inr other ↦ elim (Option-cases (find_cached dev blockno bs)) [
        | inl gone ↦ ground arith
        | inr ((t, cs), found) ↦ ground (arith, ih t cs d k found)
      ]
    ]

find_cached-miss :
    (dev blockno : ℕ) (bs : List Buf) → find_cached dev blockno bs ≡ none → count dev blockno bs ≡ 0
unfolding find_cached
find_cached-miss dev blockno [] e = refl
find_cached-miss dev blockno (b ∷ bs) e = elim (Option-cases (find_cached dev blockno bs)) [
  | inl gone ↦ ground (arith, find_cached-miss dev blockno bs gone)
  | inr ((t, cs), found) ↦ ground arith
]

find_cached-hit :
    (dev blockno : ℕ) (bs : List Buf) (s : ℕ) (bs' : List Buf)
    → find_cached dev blockno bs ≡ some (s, bs')
    → 1 ≤ count dev blockno bs
unfolding find_cached
find_cached-hit dev blockno [] s bs' e = absurd (cc)
find_cached-hit dev blockno (b ∷ bs) s bs' e = elim (Option-cases (find_cached dev blockno bs)) [
  | inl gone ↦ ground arith
  | inr ((t, cs), found) ↦ ground (arith, find_cached-hit dev blockno bs t cs found)
]

recycle-count :
    (dev blockno : ℕ) (bs : List Buf) (s : ℕ) (bs' : List Buf) (d k : ℕ)
    → recycle dev blockno bs ≡ some (s, bs')
    → count d k bs' ≤ count d k bs + (if (dev == d) && (blockno == k) then 1 else 0)
unfolding recycle
recycle-count dev blockno [] s bs' d k e = absurd (cc)
recycle-count dev blockno (b ∷ bs) s bs' d k e = elim (Option-cases (recycle dev blockno bs)) [
  | inl gone ↦ ground arith
  | inr ((t, cs), found) ↦ ground (arith, recycle-count dev blockno bs t cs d k found)
]

-- If each block of each device but 0 is cached at most once, this still holds after `bget`.
pub bget-IsUnique :
    (dev blockno : ℕ) (bs : List Buf) (s : ℕ) (bs' : List Buf)
    → IsUnique bs
    → bget dev blockno bs ≡ ok (s, bs')
    → IsUnique bs'
unfolding bget
bget-IsUnique dev blockno bs s bs' u e d k ne = elim (Option-cases (find_cached dev blockno bs)) [
  | inl gone ↦ elim (Option-cases (recycle dev blockno bs)) [
    | inl full ↦ ground arith
    | inr ((t, cs), found) ↦ ground (
      arith,
      recycle-count dev blockno bs t cs d k found,
      find_cached-miss dev blockno bs gone,
      u d k ne,
    )
  ]
  | inr ((t, cs), found) ↦ ground (arith, find_cached-count dev blockno bs t cs d k found, u d k ne)
]

-- What `bget` makes of a buffer in use: it stays where it is, with one more reference if it is the
-- buffer that was asked for.
abbrev pub Kept : ℕ → ℕ → Buf → Option Buf → Type 0
Kept dev blockno b r =
    (r ≡ some b) ⊎ ((is_for dev blockno b ≡ true) × (r ≡ some (record b { refcnt = b.refcnt + 1 })))

find_cached-Kept :
    (dev blockno : ℕ) (bs : List Buf) (s : ℕ) (bs' : List Buf) (i : ℕ) (b : Buf)
    → find_cached dev blockno bs ≡ some (s, bs')
    → get_elem? bs i ≡ some b
    → Kept dev blockno b (get_elem? bs' i)
unfolding find_cached
find_cached-Kept dev blockno [] s bs' i b e g = absurd (cc)
find_cached-Kept dev blockno (c ∷ bs) s bs' zero b e g =
    elim (Option-cases (find_cached dev blockno bs)) [
      | inl gone ↦ ground arith
      | inr ((t, cs), found) ↦ ground arith
    ]
find_cached-Kept dev blockno (c ∷ bs) s bs' (suc i) b e g =
    elim (Option-cases (find_cached dev blockno bs)) [
      | inl gone ↦ ground arith
      | inr ((t, cs), found) ↦ ground (arith, find_cached-Kept dev blockno bs t cs i b found g)
    ]

-- A buffer that is not recycled, or the last one of those that nobody uses.
recycle-Kept :
    (dev blockno : ℕ) (bs : List Buf) (s : ℕ) (bs' : List Buf) (i : ℕ) (b : Buf)
    → recycle dev blockno bs ≡ some (s, bs')
    → get_elem? bs i ≡ some b
    → b.refcnt ≢ 0
    → get_elem? bs' i ≡ some b
unfolding recycle
recycle-Kept dev blockno [] s bs' i b e g ne = absurd (cc)
recycle-Kept dev blockno (c ∷ bs) s bs' zero b e g ne =
    elim (Option-cases (recycle dev blockno bs)) [
      | inl gone ↦ ground arith
      | inr ((t, cs), found) ↦ ground arith
    ]
recycle-Kept dev blockno (c ∷ bs) s bs' (suc i) b e g ne =
    elim (Option-cases (recycle dev blockno bs)) [
      | inl gone ↦ ground arith
      | inr ((t, cs), found) ↦ ground (arith, recycle-Kept dev blockno bs t cs i b found g ne)
    ]

-- `bget` does not recycle a buffer with references: it stays in its place unchanged, or, if it is for the
-- block asked for, with one more reference.
pub bget-Kept :
    (dev blockno : ℕ) (bs : List Buf) (s : ℕ) (bs' : List Buf) (i : ℕ) (b : Buf)
    → bget dev blockno bs ≡ ok (s, bs')
    → get_elem? bs i ≡ some b
    → b.refcnt ≢ 0
    → Kept dev blockno b (get_elem? bs' i)
unfolding bget
bget-Kept dev blockno bs s bs' i b e g ne = elim (Option-cases (find_cached dev blockno bs)) [
  | inl gone ↦ elim (Option-cases (recycle dev blockno bs)) [
    | inl full ↦ ground arith
    | inr ((t, cs), found) ↦ inl (ground (arith, recycle-Kept dev blockno bs t cs i b found g ne))
  ]
  | inr ((t, cs), found) ↦ ground (arith, find_cached-Kept dev blockno bs t cs i b found g)
]

-- The buffer that is recycled is the least recently used one without references, and is now for the block.
pub record Evicted (dev blockno : ℕ) (bs : List Buf) (s : ℕ) (bs' : List Buf) : Type 0 where
  pub before : List Buf
  pub victim : Buf
  pub after : List Buf
  pub named : victim.slot ≡ s
  pub unused : victim.refcnt ≡ 0
  pub older_used : All (λ b. b.refcnt ≢ 0) after
  pub was : bs ≡ before ++ (victim ∷ after)
  pub is : bs' ≡ before ++ (recycled dev blockno victim ∷ after)

recycle-none :
    (dev blockno : ℕ) (bs : List Buf) → recycle dev blockno bs ≡ none → All (λ b. b.refcnt ≢ 0) bs
unfolding recycle
recycle-none dev blockno [] e = tt
recycle-none dev blockno (b ∷ bs) e = elim (Option-cases (recycle dev blockno bs)) [
  | inl gone ↦ (ground arith, recycle-none dev blockno bs gone)
  | inr ((t, cs), found) ↦ absurd (ground arith)
]

recycle-Evicted :
    (dev blockno : ℕ) (bs : List Buf) (s : ℕ) (bs' : List Buf)
    → recycle dev blockno bs ≡ some (s, bs')
    → Evicted dev blockno bs s bs'
unfolding recycle
recycle-Evicted dev blockno [] s bs' e = absurd (cc)
recycle-Evicted dev blockno (b ∷ bs) s bs' e = elim (Option-cases (recycle dev blockno bs)) [
  | inl gone ↦ record {
    before = [];
    victim = b;
    after = bs;
    named = ground arith;
    unused = ground arith;
    older_used = recycle-none dev blockno bs gone;
    was = refl;
    is = ground arith;
  }
  | inr ((t, cs), found) ↦
      let r = recycle-Evicted dev blockno bs t cs found in
      record {
        before = b ∷ r.before;
        victim = r.victim;
        after = r.after;
        named = ground (arith, r.named);
        unused = r.unused;
        older_used = r.older_used;
        was = ground (arith, r.was);
        is = ground (arith, r.is);
      }
]

-- For a block that is not cached, a `bget` that returns has recycled the least recently used of the buffers
-- without references, and has changed no other.
pub bget-Evicted :
    (dev blockno : ℕ) (bs : List Buf) (s : ℕ) (bs' : List Buf)
    → bget dev blockno bs ≡ ok (s, bs')
    → count dev blockno bs ≡ 0
    → Evicted dev blockno bs s bs'
unfolding bget
bget-Evicted dev blockno bs s bs' e absent = elim (Option-cases (find_cached dev blockno bs)) [
  | inl gone ↦ elim (Option-cases (recycle dev blockno bs)) [
    | inl full ↦ absurd (ground arith)
    | inr ((t, cs), found) ↦ recycle-Evicted dev blockno bs s bs' (ground arith)
  ]
  | inr ((t, cs), found) ↦ absurd (ground (arith, find_cached-hit dev blockno bs t cs found))
]
