-- ===== src/Bio/Tests.antt =====
-- The theorems on kernel/bio.c at a small cache.
use operating_system_se.Base.{ℕ, ◌≡◌, refl, arith, List, [], ◌∷◌, ok, true, false}
use operating_system_se.Bio.{
  Buf, find_cached, recycle, bget, unlink, brelse, holdingsleep, releasesleep,
}
use operating_system_se.Bio.Lookup.{IsUnique, bget-IsUnique}

-- A buffer of device 1 that process 5 has locked.
abbrev buf : ℕ → ℕ → ℕ → Buf
buf slot blockno refcnt = record {
  slot = slot;
  valid = true;
  dev = 1;
  blockno = blockno;
  lock = record { locked = 1; pid = 5 };
  refcnt = refcnt;
  bytes = [];
}

abbrev cache : List Buf
cache = buf 0 3 1 ∷ buf 1 4 0 ∷ buf 2 6 2 ∷ []

abbrev refilled : List Buf
refilled = buf 0 3 1 ∷ (record (buf 1 9 1) { valid = false }) ∷ buf 2 6 2 ∷ []

gets : bget 1 9 cache ≡ ok (1, refilled)
unfolding bget find_cached recycle
gets = refl

cache-IsUnique : IsUnique cache
cache-IsUnique d k ne = ground arith

bget-IsUnique_example : IsUnique refilled
bget-IsUnique_example = bget-IsUnique 1 9 cache 1 refilled cache-IsUnique gets

abbrev released : Buf
released = record (buf 0 3 0) { lock = record { locked = 0; pid = 0 } }

releases :
    brelse 5 2 (buf 1 4 0 ∷ buf 2 3 1 ∷ []) ≡ ok (record released { slot = 2 } ∷ buf 1 4 0 ∷ [])
unfolding brelse unlink holdingsleep releasesleep
releases = refl
