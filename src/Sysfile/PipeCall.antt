-- ===== src/Sysfile/PipeCall.antt =====
-- `sys_pipe` (kernel/sysfile.c).
use operating_system_se.Base.{
  ℕ, ◌≡◌, ◌⊎◌, inl, inr, refl, ap, sym, subst, ◌∙◌, Bool, Option, none, some, List, [],
  if◌then◌else◌, ok, get_elem?, set, pos, negsuc, Bool-cases, Option-cases,
}
use operating_system_se.File.{Closing}
use operating_system_se.Sysfile.Fds.{
  Fds, put_fd, fdalloc, pipealloc, close_both, pipe_fail, pipe_fds, sys_pipe,
}
use operating_system_se.Sysfile.Counts.{Counted, bump}
use operating_system_se.Sysfile.Slots.{install, fdalloc_lem}
use operating_system_se.Sysfile.Pipes.{Counted-same, bump_swap, pipealloc-Piped}
use operating_system_se.Sysfile.Back.{set_back, both_back, close_both-Counted}

-- What `sys_pipe` does: two descriptors show the two files of the pipe; or it fails, and no descriptor has changed.
abbrev pub PipeCalled : (ℕ → ℕ) → Option ℕ → Bool → Fds → Type 0
PipeCalled others page copied s =
    ((cs : List Closing) × (s' : Fds) × (sys_pipe page copied s ≡ ok (negsuc 0, (cs, s')))
      × (s'.ofile ≡ s.ofile)
      × Counted others s')
    ⊎ ((rf : ℕ) × (wf : ℕ) × (fd0 : ℕ) × (fd1 : ℕ) × (s' : Fds) × (sys_pipe page copied s
          ≡ ok (pos 0, ([], s')))
        × (get_elem? s.ofile fd0 ≡ some none)
        × (get_elem? (set s.ofile fd0 (some rf)) fd1 ≡ some none)
        × (s'.ofile ≡ set (set s.ofile fd0 (some rf)) fd1 (some wf))
        × Counted others s')

pipe_none :
    (page : Option ℕ) (copied : Bool) (s s1 : Fds)
    → pipealloc page s ≡ ok (none, s1)
    → sys_pipe page copied s ≡ ok (negsuc 0, ([], s1))
unfolding sys_pipe
pipe_none page copied s s1 e = rw (sys_pipe, e) refl

pipe_some :
    (page : Option ℕ) (copied : Bool) (s s1 : Fds) (rf wf : ℕ)
    → pipealloc page s ≡ ok (some (rf, wf), s1)
    → sys_pipe page copied s ≡ pipe_fds rf wf copied s1
unfolding sys_pipe
pipe_some page copied s s1 rf wf e = rw (sys_pipe, e) refl

fail_run :
    (rf wf : ℕ) (s s' : Fds) (cs : List Closing)
    → close_both rf wf s ≡ ok (cs, s')
    → pipe_fail rf wf s ≡ ok (negsuc 0, (cs, s'))
unfolding pipe_fail
fail_run rf wf s s' cs run = rw (pipe_fail, run) refl

pipe_no_first :
    (copied : Bool) (s : Fds) (rf wf : ℕ)
    → fdalloc rf s ≡ none
    → pipe_fds rf wf copied s ≡ pipe_fail rf wf s
unfolding pipe_fds
pipe_no_first copied s rf wf e = rw (pipe_fds, e) refl

pipe_no_second :
    (copied : Bool) (s s1 : Fds) (rf wf fd0 : ℕ)
    → fdalloc rf s ≡ some (fd0, s1)
    → fdalloc wf s1 ≡ none
    → pipe_fds rf wf copied s ≡ pipe_fail rf wf (put_fd fd0 none s1)
unfolding pipe_fds
pipe_no_second copied s s1 rf wf fd0 e e1 = rw (pipe_fds, e, e1) refl

pipe_both :
    (copied : Bool) (s s1 s2 : Fds) (rf wf fd0 fd1 : ℕ)
    → fdalloc rf s ≡ some (fd0, s1)
    → fdalloc wf s1 ≡ some (fd1, s2)
    → pipe_fds rf wf copied s ≡ (
        if copied
        then ok (pos 0, ([], s2))
        else pipe_fail rf wf (put_fd fd1 none (put_fd fd0 none s2)))
unfolding pipe_fds
pipe_both copied s s1 s2 rf wf fd0 fd1 e e1 = rw (pipe_fds, e, e1) refl

-- The error paths, from a state with the descriptors as they were.
failed :
    (others : ℕ → ℕ) (rf wf : ℕ) (s s1 t : Fds)
    → Counted (bump wf (bump rf others)) s1
    → s1.ofile ≡ s.ofile
    → t ≡ s1
    → (cs : List Closing) × (s' : Fds) × (pipe_fail rf wf t ≡ ok (negsuc 0, (cs, s')))
      × (s'.ofile ≡ s.ofile)
      × Counted others s'
failed others rf wf s s1 t counted same back =
    let (cs, s', run, keep, done) = close_both-Counted others rf wf s1 counted in
    (cs, s', ap (pipe_fail rf wf) back ∙ fail_run rf wf s1 s' cs run, keep ∙ same, done)

-- `pipe_fds` in the same words.
abbrev FdsCalled : (ℕ → ℕ) → (rf wf : ℕ) → Bool → Fds → Fds → Type 0
FdsCalled others rf wf copied s s1 =
    ((cs : List Closing) × (s' : Fds) × (pipe_fds rf wf copied s1 ≡ ok (negsuc 0, (cs, s')))
      × (s'.ofile ≡ s.ofile)
      × Counted others s')
    ⊎ ((fd0 : ℕ) × (fd1 : ℕ) × (s' : Fds) × (pipe_fds rf wf copied s1 ≡ ok (pos 0, ([], s')))
        × (get_elem? s.ofile fd0 ≡ some none)
        × (get_elem? (set s.ofile fd0 (some rf)) fd1 ≡ some none)
        × (s'.ofile ≡ set (set s.ofile fd0 (some rf)) fd1 (some wf))
        × Counted others s')

pipe_fds-FdsCalled :
    (others : ℕ → ℕ) (rf wf : ℕ) (copied : Bool) (s s1 : Fds)
    → Counted (bump wf (bump rf others)) s1
    → s1.ofile ≡ s.ofile
    → FdsCalled others rf wf copied s s1
pipe_fds-FdsCalled others rf wf copied s s1 counted same = elim (Option-cases (fdalloc rf s1)) [
  | inl full ↦
      let (cs, s', run, keep, done) = failed others rf wf s s1 s1 counted same refl in
      inl (cs, s', pipe_no_first copied s1 rf wf full ∙ run, keep, done)
  | inr ((fd0, s2), e1) ↦
      let (null, at) = fdalloc_lem rf s1 fd0 s2 e1 in
      elim (Option-cases (fdalloc wf s2)) [
        | inl full ↦
            let back : put_fd fd0 none s2 ≡ s1 =
              ap (put_fd fd0 none) at
              ∙ ap (λ l. record s1 { ofile = l }) (set_back s1.ofile fd0 none (some rf) null) in
            let (cs, s', run, keep, done) =
              failed others rf wf s s1 (put_fd fd0 none s2) counted same back in
            inl (cs, s', pipe_no_second copied s1 s2 rf wf fd0 e1 full ∙ run, keep, done)
        | inr ((fd1, s3), e2) ↦
            let (null1, at1) = fdalloc_lem wf s2 fd1 s3 e2 in
            let null1' : get_elem? (set s1.ofile fd0 (some rf)) fd1 ≡ some none =
              ap (λ t. get_elem? (Fds.ofile t) fd1) (sym at) ∙ null1 in
            let now : s3 ≡ put_fd fd1 (some wf) (put_fd fd0 (some rf) s1) =
              at1 ∙ ap (put_fd fd1 (some wf)) at in
            let both = pipe_both copied s1 s2 s3 rf wf fd0 fd1 e1 e2 in
            elim (Bool-cases copied) [
              | inr fails ↦
                  let back : put_fd fd1 none (put_fd fd0 none s3) ≡ s1 =
                    ap (λ t. put_fd fd1 none (put_fd fd0 none t)) now
                    ∙ ap (λ l. record s1 { ofile = l })
                        (both_back s1.ofile fd0 fd1 rf wf null null1') in
                  let (cs, s', run, keep, done) =
                    failed others rf wf s s1 (put_fd fd1 none (put_fd fd0 none s3)) counted same
                      back in
                  inl (
                    cs,
                    s',
                    both
                        ∙ ap
                            (λ b.
                              if b
                              then ok (pos 0, ([], s3))
                              else pipe_fail rf wf (put_fd fd1 none (put_fd fd0 none s3)))
                            fails
                        ∙ run,
                    keep,
                    done,
                  )
              | inl works ↦
                  let swapped =
                    Counted-same (bump wf (bump rf others)) (bump rf (bump wf others)) s1
                      (bump_swap rf wf others) counted in
                  let first = install (bump wf others) s1 rf fd0 swapped null in
                  inr (
                    fd0,
                    fd1,
                    s3,
                    both
                        ∙ ap
                            (λ b.
                              if b
                              then ok (pos 0, ([], s3))
                              else pipe_fail rf wf (put_fd fd1 none (put_fd fd0 none s3)))
                            works,
                    ap (λ l. get_elem? l fd0) (sym same) ∙ null,
                    ap (λ l. get_elem? (set l fd0 (some rf)) fd1) (sym same) ∙ null1',
                    ap Fds.ofile now ∙ ap (λ l. set (set l fd0 (some rf)) fd1 (some wf)) same,
                    subst (Counted others) (sym now)
                        (install others (put_fd fd0 (some rf) s1) wf fd1 first null1'),
                  )
            ]
      ]
]

-- If the references of every file are those of the descriptors and of others, `sys_pipe` does not panic, and
-- they are so after it. Either it fails, in whichever of its calls, and no descriptor has changed; or it returns
-- 0, and two descriptors that were null show the two files of the pipe.
pub sys_pipe-PipeCalled :
    (others : ℕ → ℕ) (page : Option ℕ) (copied : Bool) (s : Fds)
    → Counted others s
    → PipeCalled others page copied s
sys_pipe-PipeCalled others page copied s counted = elim (pipealloc-Piped others page s counted) [
  | inl (s1, e, same, after) ↦ inl ([], s1, pipe_none page copied s s1 e, same, after)
  | inr (rf, wf, s1, e, same, after) ↦
      elim (pipe_fds-FdsCalled others rf wf copied s s1 after same) [
        | inl (cs, s', run, keep, done) ↦
            inl (cs, s', pipe_some page copied s s1 rf wf e ∙ run, keep, done)
        | inr (fd0, fd1, s', run, null, null1, now, done) ↦
            inr (
              rf,
              wf,
              fd0,
              fd1,
              s',
              pipe_some page copied s s1 rf wf e ∙ run,
              null,
              null1,
              now,
              done,
            )
      ]
]
