-- ===== src/Sysfile/Calls.antt =====
-- `sys_dup` and `sys_close` (kernel/sysfile.c).
use operating_system_se.Base.{
  ℕ, ◌+◌, ◌≡◌, ◌⊎◌, inl, inr, refl, ap, ◌∙◌, none, some, ◌==◌, if◌then◌else◌, ok, get_elem?, set, ℤ,
  pos, negsuc, arith, Option-cases,
}
use operating_system_se.File.{File, closing, Closing, nothing}
use operating_system_se.Sysfile.Fds.{
  Fds, put_file, put_fd, argfd, fdalloc, filedup_at, fileclose_at, sys_dup, sys_close,
}
use operating_system_se.Sysfile.Counts.{
  holds, Counted, bump, exists_file, change_file, bump_self, bump_other, dup_run,
  fileclose_at-Counted,
}
use operating_system_se.Sysfile.Slots.{install, uninstall, fdalloc_lem, argfd_lem, held_pos}

-- What `sys_dup` does: the first null descriptor shows the same file, which has one reference more; or nothing.
abbrev pub Dupped : (ℕ → ℕ) → ℤ → Fds → Type 0
Dupped others n s =
    (sys_dup n s ≡ ok (negsuc 0, s))
    ⊎ ((fd0 : ℕ) × (fd : ℕ) × (f : ℕ) × (s' : Fds) × (argfd n s ≡ some (fd0, f))
        × (get_elem? s.ofile fd ≡ some none)
        × (s'.ofile ≡ set s.ofile fd (some f))
        × (sys_dup n s ≡ ok (pos fd, s'))
        × Counted others s')

dup_none : (n : ℤ) (s : Fds) → argfd n s ≡ none → sys_dup n s ≡ ok (negsuc 0, s)
unfolding sys_dup
dup_none n s e = rw (sys_dup, e) refl

dup_full :
    (n : ℤ) (s : Fds) (fd0 f : ℕ)
    → argfd n s ≡ some (fd0, f)
    → fdalloc f s ≡ none
    → sys_dup n s ≡ ok (negsuc 0, s)
unfolding sys_dup
dup_full n s fd0 f e full = rw (sys_dup, e, full) refl

dup_more :
    (n : ℤ) (s s1 s2 : Fds) (fd0 f fd : ℕ)
    → argfd n s ≡ some (fd0, f)
    → fdalloc f s ≡ some (fd, s1)
    → filedup_at f s1 ≡ ok s2
    → sys_dup n s ≡ ok (pos fd, s2)
unfolding sys_dup
dup_more n s s1 s2 fd0 f fd e found run = rw (sys_dup, e, found, run) refl

-- If the references of every file are those of the descriptors and of others, `sys_dup` does not panic. Either
-- it returns -1 and changes nothing, or it returns a descriptor that was null and shows the same file now, no
-- other descriptor has changed, and the references of every file are right again.
pub sys_dup-Dupped : (others : ℕ → ℕ) (n : ℤ) (s : Fds) → Counted others s → Dupped others n s
sys_dup-Dupped others n s counted = elim (Option-cases (argfd n s)) [
  | inl gone ↦ inl (dup_none n s gone)
  | inr ((fd0, f), e) ↦ elim (Option-cases (fdalloc f s)) [
    | inl full ↦ inl (dup_full n s fd0 f e full)
    | inr ((fd, s1), found) ↦
        let (null, at) = fdalloc_lem f s fd s1 found in
        let held = held_pos s.ofile fd0 f (argfd_lem n s fd0 f e) in
        let (x, file) = exists_file s.files f (counted.inside f (omega (arith, held))) in
        let y : File = record x { ref = x.ref + 1 } in
        let r = counted.refs f x file in
        let more =
          change_file others (bump f others) s f x y counted file
            (omega (arith, r, bump_self f others)) (bump_other f others) in
        let run : filedup_at f s1 ≡ ok (put_file f y (put_fd fd (some f) s)) =
          ap (filedup_at f) at ∙ dup_run (put_fd fd (some f) s) f x file (omega (arith, r, held)) in
        inr (
          fd0,
          fd,
          f,
          put_file f y (put_fd fd (some f) s),
          e,
          null,
          refl,
          dup_more n s s1 (put_file f y (put_fd fd (some f) s)) fd0 f fd e found run,
          install others (put_file f y s) f fd more null,
        )
  ]
]

-- What `sys_close` does: nothing; or the descriptor is null, and the file loses a reference. What is behind it is
-- after_close if it was the last.
abbrev pub Closed : (ℕ → ℕ) → ℤ → Fds → Type 0
Closed others n s =
    ((argfd n s ≡ none) × (sys_close n s ≡ ok (negsuc 0, (nothing, s))))
    ⊎ ((fd : ℕ) × (f : ℕ) × (x : File) × (s' : Fds) × (argfd n s ≡ some (fd, f))
        × (get_elem? s.files f ≡ some x)
        × (s'.ofile ≡ set s.ofile fd none)
        × (sys_close n s
            ≡ ok (pos 0, (if holds f s'.ofile + others f == 0 then closing x else nothing, s')))
        × Counted others s')

close_none : (n : ℤ) (s : Fds) → argfd n s ≡ none → sys_close n s ≡ ok (negsuc 0, (nothing, s))
unfolding sys_close
close_none n s e = rw (sys_close, e) refl

close_one :
    (n : ℤ) (s s1 : Fds) (fd f : ℕ) (c : Closing)
    → argfd n s ≡ some (fd, f)
    → fileclose_at f (put_fd fd none s) ≡ ok (c, s1)
    → sys_close n s ≡ ok (pos 0, (c, s1))
unfolding sys_close
close_one n s s1 fd f c e run = rw (sys_close, e, run) refl

-- If the references of every file are those of the descriptors and of others, `sys_close` does not panic. It
-- returns -1 and changes nothing if the descriptor is not open; else it makes the descriptor null, the
-- references of every file are right again, and the pipe or inode behind the file is closed exactly if no
-- descriptor and no other holds the file any more.
pub sys_close-Closed : (others : ℕ → ℕ) (n : ℤ) (s : Fds) → Counted others s → Closed others n s
sys_close-Closed others n s counted = elim (Option-cases (argfd n s)) [
  | inl gone ↦ inl (gone, close_none n s gone)
  | inr ((fd, f), e) ↦
      let t = put_fd fd none s in
      let (x, y, was, run, after) =
        fileclose_at-Counted others t f (uninstall others s f fd counted (argfd_lem n s fd f e)) in
      inr (
        fd,
        f,
        x,
        put_file f y t,
        e,
        was,
        refl,
        close_one n s (put_file f y t) fd f
            (if holds f t.ofile + others f == 0 then closing x else nothing) e run,
        after,
      )
]
