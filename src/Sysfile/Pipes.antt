-- ===== src/Sysfile/Pipes.antt =====
-- `pipealloc` and `sys_pipe` (kernel/pipe.c, kernel/sysfile.c).
use operating_system_se.Base.{
  ℕ, ◌+◌, ◌<◌, ◌≡◌, ◌⊎◌, inl, inr, refl, ap, sym, ◌∙◌, true, false, Option, none, some, List, [],
  ◌∷◌, ok, ◌>>=◌, get_elem?, arith, Option-cases,
}
use operating_system_se.File.{File, filealloc}
use operating_system_se.Sysfile.Fds.{Fds, deref_file, put_file, pipe_end, undo_files, pipealloc}
use operating_system_se.Sysfile.Counts.{
  holds, Counted, bump, exists_file, change_file, bump_self, deref_run, fileclose_at-Counted,
}
use operating_system_se.Sysfile.Slots.{filealloc-Counted}

-- References from elsewhere, one for each of the files.
abbrev pub bumps : List ℕ → (ℕ → ℕ) → ℕ → ℕ
bumps [] others = others
bumps (f ∷ fs) others = bump f (bumps fs others)

pub Counted-same : (o1 o2 : ℕ → ℕ) (s : Fds) → ((j : ℕ) → o2 j ≡ o1 j) → Counted o1 s → Counted o2 s
Counted-same o1 o2 s same counted = record {
  refs = λ j x e. counted.refs j x e ∙ ap (λ n. holds j s.ofile + n) (sym (same j));
  inside = λ j pos_j. counted.inside j (omega (arith, pos_j, same j));
}

pub bump_swap :
    (f g : ℕ) (others : ℕ → ℕ) (j : ℕ) → bump f (bump g others) j ≡ bump g (bump f others) j
bump_swap f g others j = omega arith

undo_files-Counted :
    (others : ℕ → ℕ) (fs : List ℕ) (s : Fds)
    → Counted (bumps fs others) s
    → (s' : Fds) × (undo_files fs s ≡ ok s') × (s'.ofile ≡ s.ofile) × Counted others s'
unfolding undo_files
undo_files-Counted others [] s counted = (s, refl, refl, counted)
undo_files-Counted others (f ∷ fs) s counted =
    let (x, y, was, run, after) = fileclose_at-Counted (bumps fs others) s f counted in
    let (s', rest, same, done) = undo_files-Counted others fs (put_file f y s) after in
    (s', ap (λ o. o >>= λ (c, t). undo_files fs t) run ∙ rest, same, done)

-- The file that a reference from elsewhere shows.
held_file :
    (others : ℕ → ℕ) (s : Fds) (f : ℕ)
    → Counted others s
    → 0 < others f
    → (x : File) × (get_elem? s.files f ≡ some x)
held_file others s f counted held = exists_file s.files f (counted.inside f (omega (arith, held)))

-- A change of a file that keeps its references.
keep_refs :
    (others : ℕ → ℕ) (s : Fds) (f : ℕ) (x y : File)
    → Counted others s
    → get_elem? s.files f ≡ some x
    → y.ref ≡ x.ref
    → Counted others (put_file f y s)
keep_refs others s f x y counted e same =
    change_file others others s f x y counted e (same ∙ counted.refs f x e) (λ j ne. refl)

-- What `pipealloc` leaves: two files with a reference each from the call, or the counts as they were.
abbrev pub Piped : (ℕ → ℕ) → Option ℕ → Fds → Type 0
Piped others page s =
    ((s' : Fds) × (pipealloc page s ≡ ok (none, s')) × (s'.ofile ≡ s.ofile) × Counted others s')
    ⊎ ((r : ℕ) × (w : ℕ) × (s' : Fds) × (pipealloc page s ≡ ok (some (r, w), s'))
        × (s'.ofile ≡ s.ofile)
        × Counted (bump w (bump r others)) s')

alloc_no_first :
    (page : Option ℕ) (s : Fds) → filealloc s.files ≡ none → pipealloc page s ≡ ok (none, s)
unfolding pipealloc
alloc_no_first page s e = rw (pipealloc, e) refl

alloc_no_second :
    (page : Option ℕ) (s s' : Fds) (r : ℕ) (fs : List File)
    → filealloc s.files ≡ some (r, fs)
    → filealloc fs ≡ none
    → undo_files (r ∷ []) (record s { files = fs }) ≡ ok s'
    → pipealloc page s ≡ ok (none, s')
unfolding pipealloc
alloc_no_second page s s' r fs e e1 run = rw (pipealloc, e, e1, run) refl

alloc_no_page :
    (s s' : Fds) (r w : ℕ) (fs fs2 : List File)
    → filealloc s.files ≡ some (r, fs)
    → filealloc fs ≡ some (w, fs2)
    → undo_files (r ∷ w ∷ []) (record s { files = fs2 }) ≡ ok s'
    → pipealloc none s ≡ ok (none, s')
unfolding pipealloc
alloc_no_page s s' r w fs fs2 e e1 run = rw (pipealloc, e, e1, run) refl

alloc_all :
    (pi : ℕ) (s : Fds) (r w : ℕ) (fs fs2 : List File) (f0 f1 : File)
    → filealloc s.files ≡ some (r, fs)
    → filealloc fs ≡ some (w, fs2)
    → deref_file r (record s { files = fs2 }) ≡ ok f0
    → deref_file w (put_file r (pipe_end pi false f0) (record s { files = fs2 })) ≡ ok f1
    → pipealloc (some pi) s
      ≡ ok (
        some (r, w),
        put_file w
            (pipe_end pi true f1)
            (put_file r (pipe_end pi false f0) (record s { files = fs2 })),
      )
unfolding pipealloc
alloc_all pi s r w fs fs2 f0 f1 e e1 d0 d1 = rw (pipealloc, e, e1, d0, d1) refl

pub pipealloc-Piped :
    (others : ℕ → ℕ) (page : Option ℕ) (s : Fds) → Counted others s → Piped others page s
pipealloc-Piped others page s counted = elim (Option-cases (filealloc s.files)) [
  | inl full ↦ inl (s, alloc_no_first page s full, refl, counted)
  | inr ((r, fs), e) ↦
      let s1 : Fds = record s { files = fs } in
      let c1 = filealloc-Counted others s r fs counted e in
      elim (Option-cases (filealloc fs)) [
        | inl full ↦
            let (s', run, same, after) = undo_files-Counted others (r ∷ []) s1 c1 in
            inl (s', alloc_no_second page s s' r fs e full run, same, after)
        | inr ((w, fs2), e1) ↦
            let s2 : Fds = record s { files = fs2 } in
            let c2 = filealloc-Counted (bump r others) s1 w fs2 c1 e1 in
            elim (Option-cases page) [
              | inl gone ↦
                  let c2' =
                    Counted-same (bump w (bump r others)) (bump r (bump w others)) s2
                      (bump_swap r w others) c2 in
                  let (s', run, same, after) = undo_files-Counted others (r ∷ w ∷ []) s2 c2' in
                  inl (s', rw gone (alloc_no_page s s' r w fs fs2 e e1 run), same, after)
              | inr (pi, got) ↦
                  let (f0, d0) =
                    held_file (bump w (bump r others)) s2 r c2
                      (omega (arith, bump_self r others)) in
                  let s3 = put_file r (pipe_end pi false f0) s2 in
                  let c3 =
                    keep_refs (bump w (bump r others)) s2 r f0 (pipe_end pi false f0) c2 d0 refl in
                  let (f1, d1) =
                    held_file (bump w (bump r others)) s3 w c3
                      (omega (arith, bump_self w (bump r others))) in
                  inr (
                    r,
                    w,
                    put_file w (pipe_end pi true f1) s3,
                    rw got (
                        alloc_all pi s r w fs fs2 f0 f1 e e1 (deref_run s2 r f0 d0)
                          (deref_run s3 w f1 d1)),
                    refl,
                    keep_refs (bump w (bump r others)) s3 w f1 (pipe_end pi true f1) c3 d1 refl,
                  )
            ]
      ]
]
