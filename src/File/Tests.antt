-- ===== src/File/Tests.antt =====
-- The theorems on kernel/file.c at concrete inputs.
use operating_system_se.Base.{ℕ, ◌+◌, ◌≡◌, refl, some, [], ◌∷◌, ok, ℤ, pos}
use operating_system_se.File.{
  File, FileType, fd_none, fd_pipe, fd_inode, filealloc, filealloc_from, filedup,
}

abbrev file : FileType → ℕ → File
file t ref = record {
  type = t;
  ref = ref;
  readable = 1;
  writable = 1;
  pipe = 9;
  ip = 8;
  off = 100;
  major = 0;
}

allocates :
    filealloc (file fd_inode 2 ∷ file fd_none 0 ∷ [])
    ≡ some (1, file fd_inode 2 ∷ file fd_none 1 ∷ [])
unfolding filealloc filealloc_from
allocates = refl

dups : filedup (file fd_pipe 1) ≡ ok (file fd_pipe 2)
unfolding filedup
dups = refl

-- An inode that only counts its transactions.
abbrev counting : ℕ → ℕ → ℕ → ℕ → ℤ × ℕ
counting i off n ip = (pos n, ip + 1)
