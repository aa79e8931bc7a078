-- ===== src/Fs/Volume.antt =====
-- The blocks of the one disk as kernel/fs.c sees them through bread(): arrays of bytes, and the blocks
-- that were handed to log_write(). Numbers of two and four bytes lie in them the low byte first.
pub mod Words
use operating_system_se.Base.{
  ℕ, zero, suc, ◌+◌, ◌-◌, ◌*◌, ◌/◌, ◌%◌, ◌≡◌, ◌&&◌, List, [], ◌∷◌, ◌++◌, leb, ltb, ◌==◌,
  if◌then◌else◌,
}

-- BSIZE, and BPB, the bits of a block
abbrev pub bsize : ℕ
bsize = 1024

abbrev pub bpb : ℕ
bpb = 8192

-- struct superblock, the fields that kernel/fs.c uses after start-up.
pub record Superblock : Type 0 where
  pub size : ℕ
  pub ninodes : ℕ
  pub inodestart : ℕ
  pub bmapstart : ℕ

pub record Volume : Type 0 where
  pub bytes : ℕ → ℕ → ℕ
  pub logged : List ℕ

-- The block `b` becomes `f`, and is logged.
abbrev pub put_block : ℕ → (ℕ → ℕ) → Volume → Volume
put_block b f v = record {
  bytes = λ x. if x == b then f else v.bytes x;
  logged = v.logged ++ (b ∷ []);
}

-- A byte of a block is assigned.
abbrev pub put_byte : (ℕ → ℕ) → ℕ → ℕ → ℕ → ℕ
put_byte f o c x = if x == o then c else f x

-- Numbers of two bytes and of four bytes at an offset.
unfoldable pub get_16 : (ℕ → ℕ) → ℕ → ℕ
get_16 f o = f o + 256 * f (o + 1)

unfoldable pub put_16 : (ℕ → ℕ) → ℕ → ℕ → ℕ → ℕ
put_16 f o v x = if x == o then v % 256 else if x == o + 1 then v / 256 % 256 else f x

unfoldable pub get_32 : (ℕ → ℕ) → ℕ → ℕ
get_32 f o = f o + 256 * f (o + 1) + 65536 * f (o + 2) + 16777216 * f (o + 3)

unfoldable pub put_32 : (ℕ → ℕ) → ℕ → ℕ → ℕ → ℕ
put_32 f o v x =
    if x == o
    then v % 256
    else if x == o + 1
    then v / 256 % 256
    else if x == o + 2
    then v / 65536 % 256
    else if x == o + 3
    then v / 16777216 % 256
    else f x
