-- ===== src/Sysfile/Fds.antt =====
-- File descriptors (`argfd`, `fdalloc`, `sys_dup`, `sys_close`, `sys_pipe` in kernel/sysfile.c, `pipealloc`
-- in kernel/pipe.c). What a close does to the pipe or the inode is returned as a value.
use operating_system_se.Base.{
  ℕ, ◌+◌, Bool, true, false, Option, none, some, List, [], ◌∷◌, leb, if◌then◌else◌, Outcome, ok,
  panic, ◌>>=◌, get_elem?, set, ℤ, pos, negsuc,
}
use operating_system_se.Proc.{nofile}
use operating_system_se.File.{File, fd_pipe, filealloc, filedup, fileclose, Closing, nothing}

-- The table of open files, and the process's descriptors: an index in that table, or null.
pub record Fds : Type 0 where
  pub files : List File
  pub ofile : List (Option ℕ)

-- The file that a pointer shows; a null pointer is a fault.
abbrev pub deref_file : ℕ → Fds → Outcome File
deref_file f s = elim (get_elem? s.files f) [ some x ↦ ok x | none ↦ panic "null file" ]

abbrev pub put_file : ℕ → File → Fds → Fds
put_file f x s = record s { files = set s.files f x }

abbrev pub put_fd : ℕ → Option ℕ → Fds → Fds
put_fd fd o s = record s { ofile = set s.ofile fd o }

-- The file of an open descriptor.
abbrev pub at_fd : ℕ → Fds → Option (ℕ × ℕ)
at_fd fd s = elim (get_elem? s.ofile fd) [
  | none ↦ none
  | some none ↦ none
  | some (some f) ↦ some (fd, f)
]

-- `argfd`: the descriptor and its file, none for -1.
unfoldable pub argfd : ℤ → Fds → Option (ℕ × ℕ)
argfd (pos fd) s = if leb nofile fd then none else at_fd fd s
argfd (negsuc n) s = none

-- The loop of `fdalloc` from descriptor `fd` on.
unfoldable pub fdalloc_from : ℕ → ℕ → List (Option ℕ) → Option (ℕ × List (Option ℕ))
fdalloc_from f fd [] = none
fdalloc_from f fd (none ∷ os) = some (fd, some f ∷ os)
fdalloc_from f fd (some g ∷ os) = elim (fdalloc_from f (fd + 1) os) [
  | none ↦ none
  | some (i, os') ↦ some (i, some g ∷ os')
]

-- `fdalloc`: none for -1.
unfoldable pub fdalloc : ℕ → Fds → Option (ℕ × Fds)
unfolding fdalloc_from
fdalloc f s = elim (fdalloc_from f 0 s.ofile) [
  | none ↦ none
  | some (fd, os) ↦ some (fd, record s { ofile = os })
]

-- filedup(f) and fileclose(f).
unfoldable pub filedup_at : ℕ → Fds → Outcome Fds
filedup_at f s = do x ← deref_file f s; y ← filedup x; ok (put_file f y s)

unfoldable pub fileclose_at : ℕ → Fds → Outcome (Closing × Fds)
fileclose_at f s = do x ← deref_file f s; (y, c) ← fileclose x; ok (c, put_file f y s)

unfoldable pub sys_dup : ℤ → Fds → Outcome (ℤ × Fds)
sys_dup n s = elim (argfd n s) [
  | none ↦ ok (negsuc 0, s)
  | some (fd0, f) ↦ elim (fdalloc f s) [
    | none ↦ ok (negsuc 0, s)
    | some (fd, s1) ↦ (filedup_at f s1 >>= λ s2. ok (pos fd, s2))
  ]
]

-- `sys_close`, and what is left to close.
unfoldable pub sys_close : ℤ → Fds → Outcome (ℤ × (Closing × Fds))
sys_close n s = elim (argfd n s) [
  | none ↦ ok (negsuc 0, (nothing, s))
  | some (fd, f) ↦ (fileclose_at f (put_fd fd none s) >>= λ (c, s'). ok (pos 0, (c, s')))
]

-- One end of a new pipe.
abbrev pub pipe_end : (pi : ℕ) (writable : Bool) → File → File
pipe_end pi writable f = record f {
  type = fd_pipe;
  readable = if writable then 0 else 1;
  writable = if writable then 1 else 0;
  pipe = pi;
}

-- The path `bad` of `pipealloc` without a pipe, for the files that were allocated. Their type is
-- FD_NONE, so fileclose() has nothing to close but the entries.
unfoldable pub undo_files : List ℕ → Fds → Outcome Fds
undo_files [] s = ok s
undo_files (f ∷ fs) s = fileclose_at f s >>= λ (c, s'). undo_files fs s'

-- `pipealloc`, where `page` is what kalloc() returns: the two files, or none for -1.
unfoldable pub pipealloc : Option ℕ → Fds → Outcome (Option (ℕ × ℕ) × Fds)
pipealloc page s = elim (filealloc s.files) [
  | none ↦ ok (none, s)
  | some (r, fs1) ↦
      let s1 = record s { files = fs1 } in
      elim (filealloc fs1) [
        | none ↦ (undo_files (r ∷ []) s1 >>= λ s'. ok (none, s'))
        | some (w, fs2) ↦
            let s2 = record s1 { files = fs2 } in
            elim page [
              | none ↦ (undo_files (r ∷ w ∷ []) s2 >>= λ s'. ok (none, s'))
              | some pi ↦ do
                f0 ← deref_file r s2
                let s3 = put_file r (pipe_end pi false f0) s2
                f1 ← deref_file w s3
                ok (some (r, w), put_file w (pipe_end pi true f1) s3)
            ]
      ]
]

-- fileclose(rf) and fileclose(wf), and what is left to close.
unfoldable pub close_both : (rf wf : ℕ) → Fds → Outcome (List Closing × Fds)
close_both rf wf s = do
  (c0, s1) ← fileclose_at rf s
  (c1, s2) ← fileclose_at wf s1
  ok (c0 ∷ c1 ∷ [], s2)

-- The error paths of `sys_pipe` once it has the pipe.
unfoldable pub pipe_fail : (rf wf : ℕ) → Fds → Outcome (ℤ × (List Closing × Fds))
pipe_fail rf wf s = close_both rf wf s >>= λ (cs, s'). ok (negsuc 0, (cs, s'))

-- `sys_pipe` once it has the pipe: `copied` says whether both copyout() succeed.
unfoldable pub pipe_fds : (rf wf : ℕ) (copied : Bool) → Fds → Outcome (ℤ × (List Closing × Fds))
pipe_fds rf wf copied s = elim (fdalloc rf s) [
  | none ↦ pipe_fail rf wf s
  | some (fd0, s1) ↦ elim (fdalloc wf s1) [
    | none ↦ pipe_fail rf wf (put_fd fd0 none s1)
    | some (fd1, s2) ↦
        if copied
        then ok (pos 0, ([], s2))
        else pipe_fail rf wf (put_fd fd1 none (put_fd fd0 none s2))
  ]
]

unfoldable pub sys_pipe :
    (page : Option ℕ) (copied : Bool) → Fds → Outcome (ℤ × (List Closing × Fds))
sys_pipe page copied s = pipealloc page s >>= λ (p, s1). elim p [
  | none ↦ ok (negsuc 0, ([], s1))
  | some (rf, wf) ↦ pipe_fds rf wf copied s1
]
