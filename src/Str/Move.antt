-- ===== src/Str/Move.antt =====
-- `memset` and `memmove` of kernel/string.c against what they are for.
use operating_system_se.Base.{
  ℕ, zero, suc, ◌+◌, ◌-◌, ◌%◌, ◌≤◌, ◌≡◌, ◌⊎◌, Bool, ◌&&◌, arith, ltb, leb, if◌then◌else◌,
}
use operating_system_se.Str.{Bytes, store, memset, move_up, move_down, memmove}

-- Whether address `a` is one of the `n` from `d` on.
abbrev pub within : ℕ → ℕ → ℕ → Bool
within a d n = leb d a && ltb a (d + n)

-- `memset` writes the byte to the `n` addresses from `p` on, and nowhere else.
pub memset_lem :
    (f : Bytes) (p c n a : ℕ) → memset f p c n a ≡ (if within a p n then c % 256 else f a)
unfolding memset
memset_lem f p c zero a = ground arith
memset_lem f p c (suc n) a = ground (arith, memset_lem (store f p (c % 256)) (p + 1) c n a)

move_up_lem :
    (f : Bytes) (d s n a : ℕ)
    → (d ≤ s) ⊎ (s + n ≤ d)
    → move_up f d s n a ≡ (if within a d n then f (s + (a - d)) else f a)
unfolding move_up
move_up_lem f d s zero a h = ground arith
move_up_lem f d s (suc n) a h = ground (arith, move_up_lem (store f d (f s)) (d + 1) (s + 1) n a)

move_down_lem :
    (f : Bytes) (d s n a : ℕ)
    → s ≤ d
    → n ≤ s
    → move_down f d s n a ≡ (if within a (d - n) n then f (s - n + (a - (d - n))) else f a)
unfolding move_down
move_down_lem f d s zero a h k = ground arith
move_down_lem f d s (suc n) a h k =
    ground (arith, move_down_lem (store f (d - 1) (f (s - 1))) (d - 1) (s - 1) n a)

-- `memmove` copies the `n` bytes from `s` on, as they were before the call, to `d`, and changes no
-- other byte, also where the two ranges overlap.
pub memmove_lem :
    (f : Bytes) (d s n a : ℕ) → memmove f d s n a ≡ (if within a d n then f (s + (a - d)) else f a)
unfolding memmove
memmove_lem f d s n a = ground (arith, move_up_lem f d s n a, move_down_lem f (d + n) (s + n) n a)
