-- ===== src/Fs/Path.antt =====
-- `skipelem` and `namecmp` of kernel/fs.c, on the memory of kernel/string.c.
pub mod Element
use operating_system_se.Base.{
  ℕ, zero, suc, ◌+◌, ◌-◌, ◌≡◌, not, ◌&&◌, Option, none, some, leb, ◌==◌, if◌then◌else◌, ℤ,
}
use operating_system_se.Str.{Bytes, store, memmove, strncmp}

abbrev pub dirsiz : ℕ
dirsiz = 14

-- The character '/'
abbrev pub slash : ℕ
slash = 47

-- while(*path == '/') path++;
unfoldable pub skip_slashes : ℕ → Bytes → ℕ → ℕ
skip_slashes zero f p = p
skip_slashes (suc fuel) f p =
    let rest = skip_slashes fuel f (p + 1) in if f p == slash then rest else p

-- while(*path != '/' && *path != 0) path++;
unfoldable pub skip_word : ℕ → Bytes → ℕ → ℕ
skip_word zero f p = p
skip_word (suc fuel) f p =
    let rest = skip_word fuel f (p + 1) in if not (f p == slash) && not (f p == 0) then rest else p

-- The path after its first element, if there is one, and the memory with the element at `name`.
unfoldable pub skipelem : ℕ → Bytes → ℕ → ℕ → Option ℕ × Bytes
skipelem fuel f path name =
    let s = skip_slashes fuel f path in
    if f s == 0
    then (none, f)
    else let e = skip_word fuel f s in
      let g =
        if leb dirsiz (e - s)
        then memmove f name s dirsiz
        else store (memmove f name s (e - s)) (name + (e - s)) 0 in
      (some (skip_slashes fuel g e), g)

unfoldable pub namecmp : Bytes → ℕ → ℕ → ℤ
unfolding strncmp
namecmp f s t = strncmp f s t dirsiz
