-- ===== src/File/Table.antt =====
-- Reference counts of open files (kernel/file.c).
use operating_system_se.Base.{
  ℕ, zero, suc, ◌+◌, ◌-◌, ◌≤◌, ◌<◌, ◌≡◌, ◌≢◌, ◌↔◌, refl, inl, inr, none, some, List, [], ◌∷◌, ◌==◌,
  if◌then◌else◌, ok, get_elem?, All, set, arith, Option-cases, ap, sym, ℕ_discrete,
}
use operating_system_se.File.{
  File, fd_none, closing, nothing, filealloc_from, filealloc, filedup, fileclose,
}

-- `filealloc` gives the first file without references, and takes one reference to it.
pub record Allocated (fs : List File) (i : ℕ) (fs' : List File) : Type 0 where
  pub file : File
  pub was : get_elem? fs i ≡ some file
  pub free : file.ref ≡ 0
  pub now : fs' ≡ set fs i (record file { ref = 1 })
  pub first : (j : ℕ) (g : File) → get_elem? fs j ≡ some g → g.ref ≡ 0 → i ≤ j

Allocated-cons :
    (f : File) (fs : List File) (i : ℕ) (fs' : List File)
    → f.ref ≢ 0
    → Allocated fs i fs'
    → Allocated (f ∷ fs) (suc i) (f ∷ fs')
Allocated-cons f fs i fs' used a = record {
  file = a.file;
  was = a.was;
  free = a.free;
  now = ap (λ l. f ∷ l) a.now;
  first = least;
}
  where
    least : (j : ℕ) (g : File) → get_elem? (f ∷ fs) j ≡ some g → g.ref ≡ 0 → suc i ≤ j
    least zero g e z = ground arith
    least (suc j) g e z = omega (arith, a.first j g e z)

filealloc_from-Allocated :
    (k j : ℕ) (fs fs' : List File)
    → filealloc_from k fs ≡ some (j, fs')
    → (k ≤ j) × Allocated fs (j - k) fs'
unfolding filealloc_from
filealloc_from-Allocated k j [] fs' e = absurd (cc)
filealloc_from-Allocated k j (f ∷ fs) fs' e = elim (ℕ_discrete f.ref 0) [
  | yes free ↦
      let at : j - k ≡ 0 = ground arith in
      let e' : record f { ref = 1 } ∷ fs ≡ fs' = ground arith in
      (
        ground arith,
        rw at (record {
          file = f;
          was = refl;
          free = free;
          now = sym e';
          first = λ j g h z. omega arith;
        }),
      )
  | no used ↦ elim (Option-cases (filealloc_from (k + 1) fs)) [
    | inl gone ↦ absurd (ground arith)
    | inr ((t, cs), found) ↦
        let (le, rest) = filealloc_from-Allocated (k + 1) t fs cs found in
        let at : j - k ≡ suc (t - (k + 1)) = ground arith in
        let e' : f ∷ cs ≡ fs' = ground arith in
        (ground arith, rw (at, ← e') (Allocated-cons f fs (t - (k + 1)) cs used rest))
  ]
]

-- If `filealloc` returns a file, it is the first one without references; it now has one, and no other file
-- has changed.
pub filealloc-Allocated :
    (fs : List File) (i : ℕ) (fs' : List File) → filealloc fs ≡ some (i, fs') → Allocated fs i fs'
unfolding filealloc
filealloc-Allocated fs i fs' e =
    let same : i - 0 ≡ i = omega arith in rw (← same) (filealloc_from-Allocated 0 i fs fs' e).1

filealloc_from-none :
    (k : ℕ) (fs : List File) → (filealloc_from k fs ≡ none) ↔ All (λ f. f.ref ≢ 0) fs
unfolding filealloc_from
filealloc_from-none k [] = (λ e. tt, λ h. refl)
filealloc_from-none k (f ∷ fs) =
    let ih = filealloc_from-none (k + 1) fs in
    elim (Option-cases (filealloc_from (k + 1) fs)) [
      | inl gone ↦ (λ e. (ground arith, ih.0 gone), λ h. ground arith)
      | inr ((j, cs), found) ↦ (λ e. absurd (ground arith), λ h. absurd (ground (arith, ih.1 h.1)))
    ]

-- `filealloc` fails exactly if every file has references.
pub filealloc-none_iff : (fs : List File) → (filealloc fs ≡ none) ↔ All (λ f. f.ref ≢ 0) fs
unfolding filealloc
filealloc-none_iff fs = filealloc_from-none 0 fs

-- `fileclose` of a file with references drops one; only the last one frees the entry and closes what is behind.
pub fileclose-last :
    (f : File)
    → 0 < f.ref
    → fileclose f
      ≡ ok (
        if f.ref == 1 then record f { ref = 0; type = fd_none } else record f { ref = f.ref - 1 },
        if f.ref == 1 then closing f else nothing,
      )
unfolding fileclose
fileclose-last f h = ground arith

-- A `fileclose` after a successful `filedup` gives back the file as it was, and closes nothing.
pub fileclose-filedup : (f g : File) → filedup f ≡ ok g → fileclose g ≡ ok (f, nothing)
unfolding fileclose filedup
fileclose-filedup f g e = ground arith
