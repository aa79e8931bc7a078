-- ===== src/Fs/Itable/Unique.antt =====
-- `iget` (kernel/fs.c) keeps at most one entry in use for an inode.
use operating_system_se.Base.{
  ℕ, zero, suc, ◌+◌, ◌-◌, ◌≤◌, ◌≡◌, ◌≢◌, refl, inl, inr, ◌⊎◌, true, false, if◌then◌else◌, Option,
  none, some, List, [], ◌∷◌, Outcome, ok, panic, get_elem?, modify, arith, get_elem?-modify_self,
  get_elem?-modify_ne, Bool-cases,
}
use operating_system_se.Fs.Itable.{Inode, in_use, Scan, found, empty, iget_scan, remember, iget}

abbrev pub count : ℕ → ℕ → List Inode → ℕ
count d k [] = 0
count d k (ip ∷ ips) = (if in_use d k ip then 1 else 0) + count d k ips

-- At most one entry in use for each inode.
abbrev pub IsUnique : List Inode → Type 0
IsUnique ips = (d k : ℕ) → count d k ips ≤ 1

count-modify :
    (f : Inode → Inode) (ips : List Inode) (i : ℕ) (p : Inode) (d k : ℕ)
    → get_elem? ips i ≡ some p
    → count d k (modify f ips i) + (if in_use d k p then 1 else 0)
      ≡ count d k ips + (if in_use d k (f p) then 1 else 0)
count-modify f [] i p d k e = absurd (cc)
count-modify f (x ∷ ips) zero p d k e = let same : x ≡ p = ground arith in rw same (omega arith)
count-modify f (x ∷ ips) (suc i) p d k e = omega (arith, count-modify f ips i p d k e)

-- What the scan tells of the entries from `k` on.
abbrev pub Scanned : ℕ → ℕ → ℕ → Option ℕ → List Inode → Scan → Type 0
Scanned dev inum k e ips (found i) =
    (k ≤ i) × ((p : Inode) × ((get_elem? ips (i - k) ≡ some p) × (in_use dev inum p ≡ true)))
Scanned dev inum k e ips (empty none) = count dev inum ips ≡ 0
Scanned dev inum k e ips (empty (some i)) =
    (count dev inum ips ≡ 0)
    × ((e ≡ some i) ⊎ ((k ≤ i) × ((p : Inode) × ((get_elem? ips (i - k) ≡ some p) × (p.ref ≡ 0)))))

Scanned-here :
    (dev inum k : ℕ) (e : Option ℕ) (ip : Inode) (ips : List Inode)
    → in_use dev inum ip ≡ true
    → Scanned dev inum k e (ip ∷ ips) (found k)
Scanned-here dev inum k e ip ips h =
    let at : k - k ≡ 0 = omega arith in (omega arith, (ip, (rw at refl, h)))

Scanned-cons :
    (dev inum k : ℕ) (e : Option ℕ) (ip : Inode) (ips : List Inode) (r : Scan)
    → in_use dev inum ip ≡ false
    → Scanned dev inum (k + 1) (remember k ip e) ips r
    → Scanned dev inum k e (ip ∷ ips) r
Scanned-cons dev inum k e ip ips (found i) h s =
    let at : i - k ≡ suc (i - (k + 1)) = omega (arith, s.0) in
    (omega (arith, s.0), (s.1.0, (rw at s.1.1.0, s.1.1.1)))
Scanned-cons dev inum k e ip ips (empty none) h s = ground arith
Scanned-cons dev inum k e ip ips (empty (some i)) h s = (
  ground (arith, s.0),
  elim s.1 [
    | inl now ↦ remembered e now
    | inr (le, (p, (at, free))) ↦
        let at' : i - k ≡ suc (i - (k + 1)) = omega (arith, le) in
        inr (omega (arith, le), (p, (rw at' at, free)))
  ],
)
  where
    remembered :
        (e : Option ℕ)
        → remember k ip e ≡ some i
        → (e ≡ some i)
          ⊎ ((k ≤ i) × ((p : Inode) × ((get_elem? (ip ∷ ips) (i - k) ≡ some p) × (p.ref ≡ 0))))
    remembered (some j) r = inl r
    remembered none r =
        let same : i ≡ k = ground arith in
        let at : i - k ≡ 0 = omega arith in inr (omega arith, (ip, (rw at refl, ground arith)))

iget_scan-Scanned :
    (dev inum k : ℕ) (e : Option ℕ) (ips : List Inode)
    → Scanned dev inum k e ips (iget_scan dev inum k e ips)
unfolding iget_scan
iget_scan-Scanned dev inum k none [] = refl
iget_scan-Scanned dev inum k (some j) [] = (refl, inl refl)
iget_scan-Scanned dev inum k e (ip ∷ ips) = elim (Bool-cases (in_use dev inum ip)) [
  | inl here ↦ rw here (Scanned-here dev inum k e ip ips here)
  | inr other ↦ rw other (
      Scanned-cons dev inum k e ip ips _ other
        (iget_scan-Scanned dev inum (k + 1) (remember k ip e) ips))
]

-- What `iget` makes of the table.
pub record Referenced (dev inum : ℕ) (ips : List Inode) (i : ℕ) (ips' : List Inode) : Type 0 where
  pub entry : Inode
  pub at : get_elem? ips' i ≡ some entry
  pub used : in_use dev inum entry ≡ true
  pub others : (j : ℕ) → i ≢ j → get_elem? ips' j ≡ get_elem? ips j
  pub unique : IsUnique ips → IsUnique ips'

Referenced-modify :
    (f : Inode → Inode) (dev inum : ℕ) (ips : List Inode) (i : ℕ) (p : Inode)
    → get_elem? ips i ≡ some p
    → in_use dev inum (f p) ≡ true
    → ((d k : ℕ) → in_use d k (f p) ≡ true → (in_use d k p ≡ true) ⊎ (count d k ips ≡ 0))
    → Referenced dev inum ips i (modify f ips i)
Referenced-modify f dev inum ips i p at used old = record {
  entry = f p;
  at = get_elem?-modify_self f ips i p at;
  used = used;
  others = λ j ne. get_elem?-modify_ne f ips ne;
  unique = λ u d k. ground (arith, count-modify f ips i p d k at, old d k, u d k);
}

-- An `iget` that returns gives an entry in use for the inode that was asked for, changes no other entry,
-- and keeps the entries in use unique if they were.
pub iget-Referenced :
    (dev inum : ℕ) (ips : List Inode) (i : ℕ) (ips' : List Inode)
    → iget dev inum ips ≡ ok (i, ips')
    → Referenced dev inum ips i ips'
unfolding iget
iget-Referenced dev inum ips i ips' e =
    from_scan (iget_scan dev inum 0 none ips) (iget_scan-Scanned dev inum 0 none ips) e
  where
    raise : Inode → Inode
    raise ip = record ip { ref = ip.ref + 1 }

    fresh : Inode → Inode
    fresh ip = record ip { dev = dev; inum = inum; ref = 1; valid = false }

    outcome : Scan → Outcome (ℕ × List Inode)
    outcome (found j) = ok (j, modify raise ips j)
    outcome (empty none) = panic "iget: no inodes"
    outcome (empty (some j)) = ok (j, modify fresh ips j)

    done :
        (j : ℕ) (out : List Inode)
        → ◌≡◌ {A = Outcome (ℕ × List Inode)} (ok (j, out)) (ok (i, ips'))
        → Referenced dev inum ips j out
        → Referenced dev inum ips i ips'
    done j out h r = let same : j ≡ i = cc in let same' : out ≡ ips' = cc in rw (← same, ← same') r

    from_scan :
        (r : Scan)
        → Scanned dev inum 0 none ips r
        → outcome r ≡ ok (i, ips')
        → Referenced dev inum ips i ips'
    from_scan (found j) s h =
        let (le, (p, (at, used))) = s in
        let same : j - 0 ≡ j = omega arith in
        let at' : get_elem? ips j ≡ some p = rw (← same) at in
        done j (modify raise ips j) h (
          Referenced-modify raise dev inum ips j p at' (ground (arith, used))
            (λ d k e. inl (ground arith)))
    from_scan (empty none) s h = absurd (cc)
    from_scan (empty (some j)) s h = elim s.1 [
      | inl now ↦ absurd (cc)
      | inr (le, (p, (at, free))) ↦
          let same : j - 0 ≡ j = omega arith in
          let at' : get_elem? ips j ≡ some p = rw (← same) at in
          done j (modify fresh ips j) h (
            Referenced-modify fresh dev inum ips j p at' (ground arith)
              (λ d k e. inr (ground (arith, s.0))))
    ]
