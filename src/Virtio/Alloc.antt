-- ===== src/Virtio/Alloc.antt =====
-- Descriptors are taken and given back (kernel/virtio_disk.c).
use operating_system_se.Base.{
  ℕ, zero, suc, ◌+◌, ◌≤◌, ◌<◌, ◌≡◌, ◌≢◌, ◌⊎◌, inl, inr, refl, ap, sym, ◌∙◌, true, false, Option,
  none, some, List, [], ◌∷◌, ◌++◌, ◌==◌, leb, Outcome, ok, arith, Bool-cases,
}
use operating_system_se.Virtio.{
  num, Disk, Desc, update, alloc_desc_from, alloc_desc, free_desc, free_all, alloc_more,
  alloc3_desc,
}
use operating_system_se.Virtio.Counts.{count_free, count_free-take, count_free-none}

-- What `alloc_desc` returns: a free descriptor, which is in use then; or none, if none is free.
abbrev Allocated : Disk → Option ℕ × Disk → Type 0
Allocated d r =
    ((i : ℕ) × (r ≡ (some i, record d { free = update d.free i false }))
      × (i < num)
      × (d.free i ≡ true))
    ⊎ ((r ≡ (none, d)) × ((i : ℕ) → i < num → d.free i ≡ false))

alloc_desc_from-Allocated :
    (n i : ℕ) (d : Disk)
    → i + n ≡ num
    → ((j : ℕ) → j < i → d.free j ≡ false)
    → Allocated d (alloc_desc_from n i d)
unfolding alloc_desc_from
alloc_desc_from-Allocated zero i d e before = inr (refl, λ j lt. before j (omega arith))
alloc_desc_from-Allocated (suc n) i d e before = elim (Bool-cases (d.free i)) [
  | inl free ↦ rw free (inl (i, refl, omega arith, free))
  | inr used ↦
      rw used (alloc_desc_from-Allocated n (i + 1) d (omega arith) (λ j lt. upto j lt used))
]
  where
    upto : (j : ℕ) → j < i + 1 → d.free i ≡ false → d.free j ≡ false
    upto j lt used = elim (Bool-cases (j == i)) [
      | inl here ↦ (let at : j ≡ i = ground arith in ap d.free at ∙ used)
      | inr there ↦ before j (ground arith)
    ]

alloc_desc-Allocated : (d : Disk) → Allocated d (alloc_desc d)
unfolding alloc_desc
alloc_desc-Allocated d =
    alloc_desc_from-Allocated num 0 d (omega arith) (λ j lt. absurd (omega arith))

-- A descriptor in use is ended.
pub free_desc_lem :
    (i : ℕ) (d : Disk)
    → i < num
    → d.free i ≡ false
    → (g : ℕ → Desc) × (free_desc i d ≡ ok (record d { desc = g; free = update d.free i true }))
      × ((j : ℕ) → j ≢ i → g j ≡ d.desc j)
unfolding free_desc
free_desc_lem i d lt used =
    let inside : leb num i ≡ false = ground arith in
    rw (inside, used) (_, refl, λ j ne. ground arith)

-- The disk is as before but for the descriptors that are free in it.
pub record Restored (d d' : Disk) : Type 0 where
  pub free : (i : ℕ) → d'.free i ≡ d.free i
  pub desc : (i : ℕ) → d.free i ≡ false → d'.desc i ≡ d.desc i
  pub rest : d' ≡ record d { desc = d'.desc; free = d'.free }

-- The three descriptors that are taken were free, and differ.
pub record Three (d : Disk) (h m t : ℕ) : Type 0 where
  pub inside_h : h < num
  pub inside_m : m < num
  pub inside_t : t < num
  pub free_h : d.free h ≡ true
  pub free_m : d.free m ≡ true
  pub free_t : d.free t ≡ true
  pub h_m : h ≢ m
  pub h_t : h ≢ t
  pub m_t : m ≢ t

abbrev pub taken : Disk → (h m t : ℕ) → Disk
taken d h m t = record d { free = update (update (update d.free h false) m false) t false }

count_least :
    (d : Disk) (h m t n : ℕ) → h < n → m < n → t < n → Three d h m t → 3 ≤ count_free d.free n
count_least d h m t n lh lm lt three = omega (
  arith,
  count_free-take d.free h n three.free_h lh,
  count_free-take (update d.free h false) m n (ground (arith, three.h_m, three.free_m)) lm,
  count_free-take (update (update d.free h false) m false) t n
      (ground (arith, three.m_t, three.h_t, three.free_t)) lt,
)

pub free_least : (d : Disk) (h m t : ℕ) → Three d h m t → 3 ≤ count_free d.free num
free_least d h m t three =
    count_least d h m t num three.inside_h three.inside_m three.inside_t three

-- What `alloc3_desc` leaves.
abbrev pub Triple : Disk → Outcome (Option (List ℕ) × Disk) → Type 0
Triple d r =
    ((h : ℕ) × (m : ℕ) × (t : ℕ) × (r ≡ ok (some (h ∷ m ∷ t ∷ []), taken d h m t)) × Three d h m t)
    ⊎ ((d' : Disk) × (r ≡ ok (none, d')) × Restored d d' × (count_free d.free num ≤ 2))

-- A full run takes the first descriptor, the second, the third; one that does not gives back what it took.
without_second :
    (d : Disk) (h : ℕ)
    → h < num
    → d.free h ≡ true
    → ((i : ℕ) → i < num → update d.free h false i ≡ false)
    → (d' : Disk) × (free_all (h ∷ []) (record d { free = update d.free h false }) ≡ ok d')
      × Restored d d'
      × (count_free d.free num ≤ 2)
unfolding free_all
without_second d h lh fh full =
    let d1 : Disk = record d { free = update d.free h false } in
    let (g, e, same) = free_desc_lem h d1 lh (full h lh) in
    let d' : Disk = record d1 { desc = g; free = update d1.free h true } in
    (
      d',
      rw e refl,
      record {
        free = λ i. back i (Bool-cases (i == h));
        desc = λ i used. same i (λ at. ground (arith, ap d.free at));
        rest = refl;
      },
      omega (arith, count_free-take d.free h num fh lh, count_free-none d1.free num full),
    )
  where
    back :
        (i : ℕ)
        → ((i == h) ≡ true) ⊎ ((i == h) ≡ false)
        → update (update d.free h false) h true i ≡ d.free i
    back i (inl here) = (let at : i ≡ h = ground arith in rw here (sym (ap d.free at ∙ fh)))
    back i (inr there) = rw there refl

without_third :
    (d : Disk) (h m : ℕ)
    → h < num
    → m < num
    → d.free h ≡ true
    → update d.free h false m ≡ true
    → ((i : ℕ) → i < num → update (update d.free h false) m false i ≡ false)
    → (d' : Disk) × (free_all
          (h ∷ m ∷ [])
          (record d { free = update (update d.free h false) m false })
        ≡ ok d')
      × Restored d d'
      × (count_free d.free num ≤ 2)
unfolding free_all
without_third d h m lh lm fh fm full =
    let d2 : Disk = record d { free = update (update d.free h false) m false } in
    let (g, e, same) = free_desc_lem h d2 lh (full h lh) in
    let d3 : Disk = record d2 { desc = g; free = update d2.free h true } in
    let ne : m ≢ h = ground arith in
    let (g', e', same') = free_desc_lem m d3 lm (ground (arith, full m lm)) in
    let d' : Disk = record d3 { desc = g'; free = update d3.free m true } in
    (
      d',
      rw (e, e') refl,
      record {
        free = λ i. back i (Bool-cases (i == h)) (Bool-cases (i == m));
        desc = λ i used.
            same' i (λ at. ground (arith, ap d.free at))
            ∙ same i (λ at. ground (arith, ap d.free at));
        rest = refl;
      },
      omega (
        arith,
        count_free-take d.free h num fh lh,
        count_free-take (update d.free h false) m num fm lm,
        count_free-none d2.free num full,
      ),
    )
  where
    back :
        (i : ℕ)
        → ((i == h) ≡ true) ⊎ ((i == h) ≡ false)
        → ((i == m) ≡ true) ⊎ ((i == m) ≡ false)
        → update (update (update (update d.free h false) m false) h true) m true i ≡ d.free i
    back i (inl here) second = (let at : i ≡ h = ground arith in ground (arith, ap d.free at))
    back i (inr there) (inl here) = (let at : i ≡ m = ground arith in ground (arith, ap d.free at))
    back i (inr there) (inr far) = rw (there, far) refl

more_none :
    (n : ℕ) (idx : List ℕ) (d d' d'' : Disk)
    → alloc_desc d ≡ (none, d')
    → free_all idx d' ≡ ok d''
    → alloc_more (suc n) idx d ≡ ok (none, d'')
unfolding alloc_more
more_none n idx d d' d'' e run = rw (e, alloc_more, e, run) refl

more_some :
    (n i : ℕ) (idx : List ℕ) (d d' : Disk)
    → alloc_desc d ≡ (some i, d')
    → alloc_more (suc n) idx d ≡ alloc_more n (idx ++ (i ∷ [])) d'
unfolding alloc_more
more_some n i idx d d' e = rw (e, alloc_more, e) refl

-- `alloc3_desc` does not panic. It takes three free descriptors, which differ; or, with at most two free, it
-- returns -1 with the same descriptors free and those in use unchanged.
pub alloc3_desc-Triple : (d : Disk) → Triple d (alloc3_desc d)
unfolding alloc3_desc alloc_more free_all
alloc3_desc-Triple d = elim (alloc_desc-Allocated d) [
  | inr (e, full) ↦
      (inr (
        d,
        more_none 2 [] d d d e refl,
        record { free = λ i. refl; desc = λ i used. refl; rest = refl },
        omega (arith, count_free-none d.free num full),
      ))
  | inl (h, e, lh, fh) ↦
      let d1 : Disk = record d { free = update d.free h false } in
      elim (alloc_desc-Allocated d1) [
        | inr (e1, full) ↦
            let (d', run, back, few) = without_second d h lh fh full in
            inr (d', more_some 2 h [] d d1 e ∙ more_none 1 (h ∷ []) d1 d1 d' e1 run, back, few)
        | inl (m, e1, lm, fm) ↦
            let d2 : Disk = record d1 { free = update d1.free m false } in
            elim (alloc_desc-Allocated d2) [
              | inr (e2, full) ↦
                  let (d', run, back, few) = without_third d h m lh lm fh fm full in
                  inr (
                    d',
                    more_some 2 h [] d d1 e
                        ∙ more_some 1 m (h ∷ []) d1 d2 e1
                        ∙ more_none 0 (h ∷ m ∷ []) d2 d2 d' e2 run,
                    back,
                    few,
                  )
              | inl (t, e2, lt, ft) ↦
                  (inl (
                    h,
                    m,
                    t,
                    more_some 2 h [] d d1 e
                        ∙ more_some 1 m (h ∷ []) d1 d2 e1
                        ∙ more_some 0 t (h ∷ m ∷ []) d2 (taken d h m t) e2,
                    record {
                      inside_h = lh;
                      inside_m = lm;
                      inside_t = lt;
                      free_h = fh;
                      free_m = ground arith;
                      free_t = ground arith;
                      h_m = ground arith;
                      h_t = ground arith;
                      m_t = ground arith;
                    },
                  ))
            ]
      ]
]
