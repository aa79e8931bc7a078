-- ===== src/Fs/Tests.antt =====
-- The theorems on kernel/fs.c at concrete inputs.
use operating_system_se.Base.{ℕ, ◌≡◌, refl, inl, arith, ◌==◌, if◌then◌else◌, [], ◌∷◌, false, ok}
use operating_system_se.Str.{Bytes}
use operating_system_se.Fs.Path.Element.{IsPath}
use operating_system_se.Fs.Itable.{Inode, iget, iget_scan}
use operating_system_se.Fs.Itable.Unique.{Referenced, iget-Referenced}

-- "/a//b" at address 100; the name goes to address 10.
abbrev path : Bytes
path x =
    if x == 100
    then 47
    else if x == 101
    then 97
    else if x == 102
    then 47
    else if x == 103
    then 47
    else if x == 104
    then 98
    else 0

path-IsPath : IsPath path 100 10 1 1 2
path-IsPath = record {
  lead = λ j h. ground arith;
  word = λ j h. ground arith;
  some_word = omega arith;
  ends = inl refl;
  trail = λ j h. ground arith;
  last = ground arith;
  apart = inl (omega arith);
}

abbrev entry : ℕ → ℕ → Inode
entry inum ref = record {
  dev = 1;
  inum = inum;
  ref = ref;
  valid = false;
  type = 0;
  major = 0;
  minor = 0;
  nlink = 0;
  size = 0;
  addrs = [];
}

gets : iget 1 7 (entry 3 1 ∷ entry 4 0 ∷ []) ≡ ok (1, entry 3 1 ∷ entry 7 1 ∷ [])
unfolding iget iget_scan
gets = refl

iget-Referenced_example : Referenced 1 7 (entry 3 1 ∷ entry 4 0 ∷ []) 1 (entry 3 1 ∷ entry 7 1 ∷ [])
iget-Referenced_example = iget-Referenced 1 7 (entry 3 1 ∷ entry 4 0 ∷ []) 1 _ gets
