-- ===== src/Str.antt =====
-- kernel/string.c. Memory is a function from addresses to bytes; a C string is read from an address.
-- Counts are numbers below 2^32 (`uint`) or 2^31 (`int`).
pub mod Move
pub mod Compare
pub mod Copy
mod Tests
use operating_system_se.Base.{
  ℕ, zero, suc, ◌+◌, ◌-◌, ◌%◌, ◌≡◌, Bool, true, false, ◌&&◌, not, ltb, ◌==◌, if◌then◌else◌, ℤ, pos,
  sub_ℕ,
}

abbrev pub Bytes : Type 0
Bytes = ℕ → ℕ

abbrev pub store : Bytes → ℕ → ℕ → Bytes
store f p v a = if a == p then v else f a

-- for(i = 0; i < n; i++) cdst[i] = c: `n` rounds from address `p`; a char is one byte.
unfoldable pub memset : Bytes → ℕ → ℕ → ℕ → Bytes
memset f p c zero = f
memset f p c (suc n) = memset (store f p (c % 256)) (p + 1) c n

unfoldable pub memcmp : Bytes → ℕ → ℕ → ℕ → ℤ
memcmp f p q zero = pos 0
memcmp f p q (suc n) =
    let rest = memcmp f (p + 1) (q + 1) n in if not (f p == f q) then sub_ℕ (f p) (f q) else rest

-- while(n-- > 0) *d++ = *s++;
unfoldable pub move_up : Bytes → ℕ → ℕ → ℕ → Bytes
move_up f d s zero = f
move_up f d s (suc n) = move_up (store f d (f s)) (d + 1) (s + 1) n

-- while(n-- > 0) *--d = *--s;
unfoldable pub move_down : Bytes → ℕ → ℕ → ℕ → Bytes
move_down f d s zero = f
move_down f d s (suc n) = move_down (store f (d - 1) (f (s - 1))) (d - 1) (s - 1) n

unfoldable pub memmove : Bytes → ℕ → ℕ → ℕ → Bytes
unfolding move_up move_down
memmove f d s n =
    if n == 0
    then f
    else if ltb s d && ltb d (s + n)
    then move_down f (d + n) (s + n) n
    else move_up f d s n

unfoldable pub memcpy : Bytes → ℕ → ℕ → ℕ → Bytes
unfolding memmove
memcpy f d s n = memmove f d s n

unfoldable pub strncmp : Bytes → ℕ → ℕ → ℕ → ℤ
strncmp f p q zero = pos 0
strncmp f p q (suc n) =
    let rest = strncmp f (p + 1) (q + 1) n in
    if not (f p == 0) && f p == f q then rest else sub_ℕ (f p) (f q)

-- while(n-- > 0) *s++ = 0;
unfoldable pub pad : Bytes → ℕ → ℕ → Bytes
pad f s zero = f
pad f s (suc n) = pad (store f s 0) (s + 1) n

-- The first loop copies up to and with the NUL; what is left of `n` is padded.
unfoldable pub strncpy : Bytes → ℕ → ℕ → ℕ → Bytes
unfolding pad
strncpy f s t zero = f
strncpy f s t (suc n) =
    let f' = store f s (f t) in
    let rest = strncpy f' (s + 1) (t + 1) n in if f t == 0 then pad f' (s + 1) n else rest

-- The loop of `safestrcpy`, with `n - 1` bytes to go, and the final NUL.
unfoldable pub safestrcpy_loop : Bytes → ℕ → ℕ → ℕ → Bytes
safestrcpy_loop f s t zero = store f s 0
safestrcpy_loop f s t (suc n) =
    let f' = store f s (f t) in
    let rest = safestrcpy_loop f' (s + 1) (t + 1) n in if f t == 0 then store f' (s + 1) 0 else rest

unfoldable pub safestrcpy : Bytes → ℕ → ℕ → ℕ → Bytes
unfolding safestrcpy_loop
safestrcpy f s t zero = f
safestrcpy f s t (suc n) = safestrcpy_loop f s t n

-- for(n = 0; s[n]; n++), on fuel: the count so far, when the fuel runs out.
unfoldable pub strlen : ℕ → Bytes → ℕ → ℕ
strlen zero f s = 0
strlen (suc fuel) f s = let rest = suc (strlen fuel f (s + 1)) in if f s == 0 then 0 else rest
