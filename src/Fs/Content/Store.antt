-- ===== src/Fs/Content/Store.antt =====
-- A block of a file is written: what `writei` and `iupdate` (kernel/fs.c) do to the bytes of the file.
use operating_system_se.Base.{
  ℕ, zero, suc, ◌+◌, ◌-◌, ◌/◌, ◌%◌, ◌<◌, ◌≡◌, ◌≢◌, inl, inr, refl, ap, sym, ◌∙◌, subst, Bool, true,
  false, ◌&&◌, length, ltb, leb, ◌==◌, if◌then◌else◌, get_or, arith, Bool-cases, ℕ_discrete, ==_ne,
}
use operating_system_se.Fs.Volume.{Superblock, Volume, bsize, put_block}
use operating_system_se.Fs.Itable.{Inode}
use operating_system_se.Fs.Bitmap.Refine.{is_free, AreBytes}
use operating_system_se.Fs.Blocks.{ndirect}
use operating_system_se.Fs.Blocks.Owned.{IsOwned, Extends, New-ne, put_block-Extends}
use operating_system_se.Fs.Blocks.Map.{addr_of}
use operating_system_se.Fs.Blocks.Stable.{Mapped}
use operating_system_se.Fs.Content.{max_size, slice, overlay}
use operating_system_se.Fs.Content.Rounds.{read_at, byte_of, IsWell}

-- The function `f` with the bytes `source src`, `source (src + 1)`, ... in its place from `off` on, `k` of them.
abbrev pub written : (ℕ → ℕ) → (src off k : ℕ) → (ℕ → ℕ) → ℕ → ℕ
written source src off k f x =
    if leb off x && ltb x (off + k) then source (src + (x - off)) else f x

pub length-slice : (f : ℕ → ℕ) (o m : ℕ) → length (slice f o m) ≡ m
length-slice f o zero = refl
length-slice f o (suc m) = ap suc (length-slice f (o + 1) m)

get_or-slice : (f : ℕ → ℕ) (o m j : ℕ) → j < m → get_or (slice f o m) j 0 ≡ f (o + j)
get_or-slice f o zero j h = absurd (omega arith)
get_or-slice f o (suc m) zero h = ap f (omega arith)
get_or-slice f o (suc m) (suc j) h = get_or-slice f (o + 1) m j (omega arith) ∙ ap f (omega arith)

pub overlay-written :
    (g source : ℕ → ℕ) (src o m y : ℕ)
    → overlay g o (slice source src m) y ≡ written source src o m g y
overlay-written g source src o m y =
    let n = length-slice source src m in
    elim (Bool-cases (leb o y && ltb y (o + m))) [
      | inl within ↦ rw (n, within) (get_or-slice source src m (y - o) (ground arith))
      | inr out ↦ rw (n, out) refl
    ]

module _ (sb : Superblock) where
  -- Block `b` is not one of the file's.
  pub record IsApart (b : ℕ) (ip : Inode) (v : Volume) : Type 0 where
    pub owned : IsOwned sb v b
    pub from_addrs : (k : ℕ) → k < 268 → addr_of ip v k ≢ b
    pub from_indirect : get_or ip.addrs ndirect 0 ≢ b

  -- A block that is not the indirect block is written: the map of addresses stays.
  pub addr_of-put_block :
      (b : ℕ) (f : ℕ → ℕ) (ip : Inode) (v : Volume) (k : ℕ)
      → get_or ip.addrs ndirect 0 ≢ b
      → addr_of ip (put_block b f v) k ≡ addr_of ip v k
  addr_of-put_block b f ip v k ne =
      let other : (get_or ip.addrs ndirect 0 == b) ≡ false = ==_ne _ b ne in rw other refl

  pub put_block-IsWell :
      (b : ℕ) (f : ℕ → ℕ) (ip : Inode) (v : Volume)
      → IsWell sb ip v
      → IsOwned sb v b
      → get_or ip.addrs ndirect 0 ≢ b
      → AreBytes f
      → IsWell sb ip (put_block b f v)
  put_block-IsWell b f ip v w own ne bs =
      let ext : Extends sb b v (put_block b f v) = put_block-Extends sb b f v w.sound own bs in
      let same : (k : ℕ) → addr_of ip (put_block b f v) k ≡ addr_of ip v k =
        λ k. addr_of-put_block b f ip v k ne in
      record {
        sound = ext.sound;
        file = record {
          slots = w.file.slots;
          indirect = λ z. ext.keeps_owned (get_or ip.addrs ndirect 0) (w.file.indirect z);
        };
        owned = λ k hk z.
            subst (IsOwned sb (put_block b f v)) (sym (same k))
              (ext.keeps_owned (addr_of ip v k) (w.owned k hk (λ y. z (same k ∙ y))));
        apart =
            λ j k hj hk z e. w.apart j k hj hk (λ y. z (same j ∙ y)) (sym (same j) ∙ e ∙ same k);
        clear = λ k hk z e. w.clear k hk (λ y. z (same k ∙ y)) (sym (same k) ∙ e);
      }

  -- The block is not one of the file's: its bytes stay.
  pub byte_of-put_apart :
      (b : ℕ) (f : ℕ → ℕ) (ip : Inode) (v : Volume) (x : ℕ)
      → IsApart b ip v
      → x < max_size
      → byte_of ip (put_block b f v) x ≡ byte_of ip v x
  byte_of-put_apart b f ip v x home hx =
      let same = addr_of-put_block b f ip v (x / bsize) home.from_indirect in
      let other : (addr_of ip v (x / bsize) == b) ≡ false =
        ==_ne (addr_of ip v (x / bsize)) b (home.from_addrs (x / bsize) (omega arith)) in
      rw (same, other) refl

  -- The block is block `q` of the file.
  pub byte_of-put_block :
      (q : ℕ) (f : ℕ → ℕ) (ip : Inode) (v : Volume) (x : ℕ)
      → IsWell sb ip v
      → q < 268
      → addr_of ip v q ≢ 0
      → x < max_size
      → byte_of ip (put_block (addr_of ip v q) f v) x
        ≡ (if x / bsize == q then f (x % bsize) else byte_of ip v x)
  byte_of-put_block q f ip v x w hq ne hx =
      let k : ℕ = x / bsize in
      let same : addr_of ip (put_block (addr_of ip v q) f v) k ≡ addr_of ip v k =
        addr_of-put_block (addr_of ip v q) f ip v k (λ e. w.clear q hq ne (sym e)) in
      ap (λ c. read_at c (put_block (addr_of ip v q) f v) (x % bsize)) same
      ∙ put_read_at (addr_of ip v q) (addr_of ip v k) f v (x % bsize) (k == q) ne
          (λ e. ground (arith, w.apart q k hq (omega arith) ne (sym e)))
          (λ e. ap (addr_of ip v) (ground (arith, e)))
    where
      put_read_at :
          (b c : ℕ) (f : ℕ → ℕ) (v : Volume) (o : ℕ) (t : Bool)
          → b ≢ 0
          → (c ≡ b → t ≡ true)
          → (t ≡ true → c ≡ b)
          → read_at c (put_block b f v) o ≡ (if t then f o else read_at c v o)
      put_read_at b c f v o t ne to from = elim (Bool-cases t) [
        | inl here ↦
            let at : c ≡ b = from here in
            let full : (b == 0) ≡ false = ==_ne b 0 ne in
            let self : (b == b) ≡ true = ground arith in rw (at, here, full, self) refl
        | inr there ↦
            let other : (c == b) ≡ false = ==_ne c b (λ e. ground (arith, to e, there)) in
            rw (other, there) refl
      ]

  -- A call of `bmap` keeps a block apart from the file.
  pub Mapped-IsApart :
      (b bn : ℕ) (ip : Inode) (v : Volume) (a : ℕ) (ip' : Inode) (v' : Volume)
      → IsApart b ip v
      → b ≢ 0
      → bn < 268
      → Mapped sb bn ip v a ip' v'
      → IsApart b ip' v'
  Mapped-IsApart b bn ip v a ip' v' home nz lt m = record {
    owned = m.extends.keeps_owned b home.owned;
    from_addrs = λ k hk e. elim (ℕ_discrete k bn) [
      | no other ↦
          let t : (k == bn) ≡ false = ==_ne k bn other in
          home.from_addrs k hk (sym (rw t at (m.addrs k hk)) ∙ e)
      | yes here ↦
          let t : (k == bn) ≡ true = ground arith in
          let now : addr_of ip' v' k ≡ a = rw t at (m.addrs k hk) in
          elim (ℕ_discrete (addr_of ip v bn) 0) [
            | no there ↦ home.from_addrs bn lt (sym (m.again there).0 ∙ sym now ∙ e)
            | yes empty ↦
                let (new, off) = m.new empty (λ z. nz (sym e ∙ now ∙ z)) in
                New-ne sb v a v' b new home.owned (sym e ∙ now)
          ]
    ];
    from_indirect = λ e. elim m.indirect [
      | inl same ↦ home.from_indirect (sym same ∙ e)
      | inr (free, own) ↦ ground (arith, home.owned.used, free, ap (is_free sb v) e)
    ];
  }
