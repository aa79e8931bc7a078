-- ===== src/Sysfile/Tests.antt =====
-- The system calls on descriptors at concrete inputs (kernel/sysfile.c).
use operating_system_se.Base.{
  ℕ, zero, suc, ◌+◌, ◌<◌, ◌≡◌, refl, ap, sym, true, false, none, some, [], ◌∷◌, ◌==◌, if◌then◌else◌,
  ok_of, get_elem?, set, length, pos, negsuc, arith,
}
use operating_system_se.File.{File, fd_none, filealloc, filedup, fileclose, nothing}
use operating_system_se.Sysfile.Fds.{
  Fds, argfd, fdalloc_from, fdalloc, filedup_at, fileclose_at, sys_dup, sys_close, pipealloc,
  pipe_fds, sys_pipe,
}
use operating_system_se.Sysfile.Counts.{holds, Counted}
use operating_system_se.File.{FileType, fd_inode, filealloc_from}
use operating_system_se.Sysfile.Calls.{Dupped, sys_dup-Dupped, Closed, sys_close-Closed}
use operating_system_se.Sysfile.PipeCall.{PipeCalled, sys_pipe-PipeCalled}

abbrev file : FileType → ℕ → File
file t ref = record {
  type = t;
  ref = ref;
  readable = 1;
  writable = 1;
  pipe = 9;
  ip = 8;
  off = 0;
  major = 0;
}

-- Descriptors 0 and 2 show file 1, which another process has open as well; files 0, 2 and 3 are free.
abbrev two_open : Fds
two_open = record {
  files = file fd_none 0 ∷ file fd_inode 3 ∷ file fd_none 0 ∷ file fd_none 0 ∷ [];
  ofile = some 1 ∷ none ∷ some 1 ∷ none ∷ [];
}

abbrev elsewhere : ℕ → ℕ
elsewhere j = if j == 1 then 1 else 0

two_open-Counted : Counted elsewhere two_open
two_open-Counted = record { refs = refs; inside = inside }
  where
    refs :
        (j : ℕ) (x : File)
        → get_elem? two_open.files j ≡ some x
        → x.ref ≡ holds j two_open.ofile + elsewhere j
    refs zero x e = ap (λ o. elim o [ some z ↦ File.ref z | none ↦ 0 ]) (sym e)
    refs (suc zero) x e = ap (λ o. elim o [ some z ↦ File.ref z | none ↦ 0 ]) (sym e)
    refs (suc (suc zero)) x e = ap (λ o. elim o [ some z ↦ File.ref z | none ↦ 0 ]) (sym e)
    refs (suc (suc (suc zero))) x e = ap (λ o. elim o [ some z ↦ File.ref z | none ↦ 0 ]) (sym e)
    refs (suc (suc (suc (suc j)))) x e = absurd cc

    inside : (j : ℕ) → 0 < holds j two_open.ofile + elsewhere j → j < length two_open.files
    inside j h = ground arith

dups_to_1 : (ok_of (sys_dup (pos 2) two_open) (negsuc 9, two_open)).0 ≡ pos 1
unfolding sys_dup argfd fdalloc fdalloc_from filedup_at filedup
dups_to_1 = refl

closes_one :
    (ok_of (sys_close (pos 0) two_open) (negsuc 9, (nothing, two_open))).1.1.files
    ≡ set two_open.files 1 (file fd_inode 2)
unfolding sys_close argfd fileclose_at fileclose
closes_one = refl

pipes_1_3 :
    (ok_of (sys_pipe (some 7) true two_open) (negsuc 9, ([], two_open))).1.1.ofile
    ≡ some 1 ∷ some 0 ∷ some 1 ∷ some 2 ∷ []
unfolding sys_pipe pipealloc filealloc filealloc_from pipe_fds fdalloc fdalloc_from
pipes_1_3 = refl

sys_dup-Dupped_example : Dupped elsewhere (pos 2) two_open
sys_dup-Dupped_example = sys_dup-Dupped elsewhere (pos 2) two_open two_open-Counted

sys_close-Closed_example : Closed elsewhere (pos 0) two_open
sys_close-Closed_example = sys_close-Closed elsewhere (pos 0) two_open two_open-Counted

sys_pipe-PipeCalled_example : PipeCalled elsewhere (some 7) false two_open
sys_pipe-PipeCalled_example = sys_pipe-PipeCalled elsewhere (some 7) false two_open two_open-Counted
