-- ===== src/Fs/Content.antt =====
-- The bytes of an inode (`readi` and `writei`, kernel/fs.c). uint is a number below 2^32.
pub mod Rounds
pub mod Read
pub mod Store
pub mod Write
pub mod WriteLoop
pub mod RoundTrip
pub mod Free
pub mod FreeLoops
pub mod Truncate
use operating_system_se.Base.{
  ℕ, zero, suc, ◌+◌, ◌-◌, ◌*◌, ◌/◌, ◌%◌, ◌^◌, ◌≡◌, ◌||◌, Bool, true, false, not, ◌&&◌, List, [],
  ◌∷◌, ltb, leb, ◌==◌, if◌then◌else◌, get_or, min, length, Outcome, ok, panic, ◌>>=◌, ℤ, pos,
  negsuc,
}
use operating_system_se.Fs.Volume.{Superblock, Volume, put_block, bsize}
use operating_system_se.Fs.Itable.{Inode}
use operating_system_se.Fs.Dinode.{iupdate}
use operating_system_se.Fs.Blocks.{bmap}

-- MAXFILE * BSIZE
abbrev pub max_size : ℕ
max_size = (12 + 256) * 1024

-- The `m` bytes from offset `o` on, and a block with bytes put over it.
abbrev pub slice : (ℕ → ℕ) → ℕ → ℕ → List ℕ
slice f o zero = []
slice f o (suc m) = f o ∷ slice f (o + 1) m

abbrev pub overlay : (ℕ → ℕ) → ℕ → List ℕ → ℕ → ℕ
overlay f o bs x = if leb o x && ltb x (o + length bs) then get_or bs (x - o) 0 else f x

-- m = min(n - tot, BSIZE - off % BSIZE)
abbrev pub chunk : (left off : ℕ) → ℕ
chunk left off = min left (bsize - off % bsize)

-- What a call leaves: its result, the state `U` of the memory that it copies to, the inode, the disk.
pub record Reading (U : Type 0) : Type 0 where
  pub result : ℤ
  pub dest : U
  pub ip : Inode
  pub volume : Volume

pub record Writing : Type 0 where
  pub count : ℕ
  pub off : ℕ
  pub ip : Inode
  pub volume : Volume

module _ (sb : Superblock) where
  module _ {U : Type 0} where
    -- The loop of `readi` with `left` = n - tot bytes to go, for at most `fuel` rounds. `copyout dst bs u` is
    -- the memory after a copy of bytes to address `dst`, and whether it succeeded.
    unfoldable pub readi_loop :
        (ℕ → List ℕ → U → U × Bool)
        → (fuel left tot off dst : ℕ) → U
        → Inode
        → Volume
        → Outcome (Reading U)
    readi_loop copyout zero left tot off dst u ip v =
        ok (record { result = pos tot; dest = u; ip = ip; volume = v })
    readi_loop copyout (suc fuel) left tot off dst u ip v =
        let stop : ℤ → U → Inode → Volume → Outcome (Reading U) =
          λ r u' ip' v'. ok (record { result = r; dest = u'; ip = ip'; volume = v' }) in
        let m = chunk left off in
        let round : Outcome (Reading U) = bmap sb (off / bsize) ip v >>= λ (addr, (ip', v')).
        let out = copyout dst (slice (v'.bytes addr) (off % bsize) m) u in
        let rest = readi_loop copyout fuel (left - m) (tot + m) (off + m) (dst + m) out.0 ip' v' in
        if addr == 0
        then stop (pos tot) u ip' v'
        else if out.1
        then rest
        else stop (negsuc 0) out.0 ip' v' in
        if left == 0 then stop (pos tot) u ip v else round

    unfoldable pub readi :
        (ℕ → List ℕ → U → U × Bool) → (dst off n : ℕ) → U → Inode → Volume → Outcome (Reading U)
    unfolding readi_loop
    readi copyout dst off n u ip v =
        let n' = if ltb ip.size (off + n) then ip.size - off else n in
        if ltb ip.size off || ltb ((off + n) % 2 ^ 32) off
        then ok (record { result = pos 0; dest = u; ip = ip; volume = v })
        else readi_loop copyout n' n' 0 off dst u ip v

  -- The loop of `writei`. `copyin src m` are the bytes that a copy of `m` bytes from address `src` brings, and
  -- whether it succeeded; a copy that fails may have brought some.
  unfoldable pub writei_loop :
      (ℕ → ℕ → List ℕ × Bool) → (fuel left tot off src : ℕ) → Inode → Volume → Outcome Writing
  writei_loop copyin zero left tot off src ip v =
      ok (record { count = tot; off = off; ip = ip; volume = v })
  writei_loop copyin (suc fuel) left tot off src ip v =
      let stop : Inode → Volume → Outcome Writing =
        λ ip' v'. ok (record { count = tot; off = off; ip = ip'; volume = v' }) in
      let m = chunk left off in
      let got = copyin src m in
      let round : Outcome Writing = bmap sb (off / bsize) ip v >>= λ (addr, (ip', v')).
      let f = overlay (v'.bytes addr) (off % bsize) got.0 in
      let spoiled : Volume = record v' { bytes = λ x. if x == addr then f else v'.bytes x } in
      let rest =
        writei_loop copyin fuel (left - m) (tot + m) (off + m) (src + m) ip'
          (put_block addr f v') in
      if addr == 0 then stop ip' v' else if got.1 then rest else stop ip' spoiled in
      if left == 0 then stop ip v else round

  -- The result, the inode and the disk.
  unfoldable pub writei :
      (ℕ → ℕ → List ℕ × Bool) → (src off n : ℕ) → Inode → Volume → Outcome (ℤ × (Inode × Volume))
  unfolding writei_loop iupdate
  writei copyin src off n ip v =
      let finish : Writing → Outcome (ℤ × (Inode × Volume)) = λ w.
        let ip' : Inode = record w.ip { size = if ltb w.ip.size w.off then w.off else w.ip.size } in
        ok (pos w.count, (ip', iupdate sb ip' w.volume)) in
      if ltb ip.size off || ltb ((off + n) % 2 ^ 32) off
      then ok (negsuc 0, (ip, v))
      else if ltb max_size ((off + n) % 2 ^ 32)
      then ok (negsuc 0, (ip, v))
      else (writei_loop copyin n n 0 off src ip v >>= finish)
