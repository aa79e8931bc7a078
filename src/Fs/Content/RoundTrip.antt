-- ===== src/Fs/Content/RoundTrip.antt =====
-- `writei` as a whole, and `readi` after it (kernel/fs.c).
use operating_system_se.Base.{
  ℕ, zero, suc, ◌+◌, ◌/◌, ◌%◌, ◌^◌, ◌≤◌, ◌<◌, ◌≡◌, ◌≢◌, ◌⊎◌, inl, inr, refl, ap, ap₂, sym, ◌∙◌,
  subst, true, false, ◌&&◌, List, [], ◌∷◌, ltb, leb, ◌==◌, ◌||◌, if◌then◌else◌, ok, pos, arith,
  Bool-cases,
}
use operating_system_se.Fs.Volume.{Superblock, Volume, bsize, put_block}
use operating_system_se.Fs.Itable.{Inode}
use operating_system_se.Fs.Dinode.{iblock, ioffset, put_dinode, put_words, iupdate}
use operating_system_se.Fs.Bitmap.{bblock}
use operating_system_se.Fs.Bitmap.Refine.{is_free, AreBytes}
use operating_system_se.Fs.Blocks.Owned.{IsSound, IsOwned, Extends, put_block-Extends, IsFull}
use operating_system_se.Fs.Blocks.Map.{addr_of}
use operating_system_se.Fs.Volume.Words.{put_16-byte, put_32-byte}
use operating_system_se.Fs.Content.{max_size, slice, Reading, writei, readi}
use operating_system_se.Fs.Content.Rounds.{byte_of, IsWell}
use operating_system_se.Fs.Content.Read.{file_bytes, Copies, readi-Read}
use operating_system_se.Fs.Content.Store.{
  written, IsApart, addr_of-put_block, put_block-IsWell, byte_of-put_apart,
}
use operating_system_se.Fs.Content.Write.{IsReady}
use operating_system_se.Fs.Content.WriteLoop.{writei_loop-Wrote}

put_words-byte : (ws : List ℕ) (f : ℕ → ℕ) (o : ℕ) → AreBytes f → AreBytes (put_words f o ws)
unfolding put_words
put_words-byte [] f o h = h
put_words-byte (w ∷ ws) f o h = put_words-byte ws _ (o + 4) (λ x. put_32-byte f o w x (h x))

put_dinode-byte : (f : ℕ → ℕ) (o : ℕ) (ip : Inode) → AreBytes f → AreBytes (put_dinode f o ip)
unfolding put_dinode
put_dinode-byte f o ip h = put_words-byte ip.addrs _ (o + 12) (λ x.
    put_32-byte _ (o + 8) ip.size x (
      put_16-byte _ (o + 6) ip.nlink x (
        put_16-byte _ (o + 4) ip.minor x
          (put_16-byte _ (o + 2) ip.major x (put_16-byte f o ip.type x (h x))))))

pub iupdate-free :
    (sb : Superblock) (ip : Inode) (v : Volume)
    → IsSound sb v
    → IsOwned sb v (iblock sb ip.inum)
    → IsSound sb (iupdate sb ip v)
      × ((c : ℕ) → c < sb.size → is_free sb (iupdate sb ip v) c ≡ is_free sb v c)
unfolding iupdate
iupdate-free sb ip v s own =
    let b : ℕ = iblock sb ip.inum in
    let f : ℕ → ℕ = put_dinode (v.bytes b) (ioffset ip.inum) ip in
    let fs : AreBytes f = put_dinode-byte (v.bytes b) (ioffset ip.inum) ip (s.bitmap.bytes b) in
    let ext : Extends sb b v (put_block b f v) = put_block-Extends sb b f v s own fs in
    (
      ext.sound,
      (λ c lt.
          (let ne : (bblock sb c == b) ≡ false = ground (arith, own.plain c lt) in rw ne refl)),
    )

module _ (sb : Superblock) (source : ℕ → ℕ) where
  -- `n` bytes from `src` on were to be written at `off`: `k` of them are in their place in the file, all unless
  -- no block is free any more. The other bytes of the file stay.
  pub record Written (off n src : ℕ) (ip : Inode) (v : Volume) (k : ℕ) (ip' : Inode) (v' : Volume)
      : Type 0 where
    pub bounded : k ≤ n
    pub size : ip'.size ≡ (if ltb ip.size (off + k) then off + k else ip.size)
    pub ready : IsReady sb source (iblock sb ip.inum) ip' v'
    pub bytes :
        (x : ℕ) → x < max_size → byte_of ip' v' x ≡ written source src off k (byte_of ip v) x
    pub backed : (x : ℕ) → off ≤ x → x < off + k → addr_of ip' v' (x / bsize) ≢ 0
    pub whole : (k ≡ n) ⊎ IsFull sb v'

  -- The inode is written to its place on disk.
  iupdate-IsReady :
      (home s : ℕ) (ip : Inode) (v : Volume)
      → home ≡ iblock sb ip.inum
      → IsReady sb source home ip v
      → IsReady sb source home (record ip { size = s }) (iupdate sb (record ip { size = s }) v)
  unfolding iupdate
  iupdate-IsReady home s ip v at ready =
      let jp : Inode = record ip { size = s } in
      let b : ℕ = iblock sb ip.inum in
      let f : ℕ → ℕ = put_dinode (v.bytes b) (ioffset ip.inum) jp in
      let fs : AreBytes f =
        put_dinode-byte (v.bytes b) (ioffset ip.inum) jp (ready.well.sound.bitmap.bytes b) in
      let home' : IsApart sb b ip v = subst (λ c. IsApart sb c ip v) at ready.apart in
      let ext : Extends sb b v (put_block b f v) =
        put_block-Extends sb b f v ready.well.sound home'.owned fs in
      let well : IsWell sb ip (put_block b f v) =
        put_block-IsWell sb b f ip v ready.well home'.owned home'.from_indirect fs in
      record {
        well = record {
          sound = well.sound;
          file = record { slots = well.file.slots; indirect = well.file.indirect };
          owned = well.owned;
          apart = well.apart;
          clear = well.clear;
        };
        apart = record {
          owned = ext.keeps_owned home ready.apart.owned;
          from_addrs = λ k hk e.
              ready.apart.from_addrs k hk
                (sym (addr_of-put_block sb b f ip v k home'.from_indirect) ∙ e);
          from_indirect = ready.apart.from_indirect;
        };
      }

  addr_of-iupdate :
      (s : ℕ) (ip : Inode) (v : Volume) (k : ℕ)
      → IsApart sb (iblock sb ip.inum) ip v
      → addr_of (record ip { size = s }) (iupdate sb (record ip { size = s }) v) k ≡ addr_of ip v k
  unfolding iupdate
  addr_of-iupdate s ip v k home =
      addr_of-put_block sb (iblock sb ip.inum) _ ip v k home.from_indirect

  byte_of-iupdate :
      (s : ℕ) (ip : Inode) (v : Volume) (x : ℕ)
      → IsApart sb (iblock sb ip.inum) ip v
      → x < max_size
      → byte_of (record ip { size = s }) (iupdate sb (record ip { size = s }) v) x ≡ byte_of ip v x
  unfolding iupdate
  byte_of-iupdate s ip v x home hx = byte_of-put_apart sb (iblock sb ip.inum) _ ip v x home hx

  -- On a well-formed file with an offset that is not past its end, bytes that end within the largest file, and
  -- copies that do not fail, `writei` returns a count `k`: that many bytes are in their place in the file, all `n`
  -- unless no block is free any more. The other bytes stay, the size grows to the end of what was written, and
  -- the file is well-formed.
  pub writei-Written :
      (src off n : ℕ) (ip : Inode) (v : Volume)
      → IsReady sb source (iblock sb ip.inum) ip v
      → iblock sb ip.inum ≢ 0
      → AreBytes source
      → off ≤ ip.size
      → off + n ≤ max_size
      → (k : ℕ) × (ip' : Inode) × (v' : Volume) × (writei sb
            (λ a m. (slice source a m, true))
            src
            off
            n
            ip
            v
          ≡ ok (pos k, (ip', v')))
        × Written off n src ip v k ip' v'
  unfolding writei
  writei-Written src off n ip v ready nz bs ho hn =
      let home : ℕ = iblock sb ip.inum in
      let inside : (ltb ip.size off || ltb ((off + n) % 2 ^ 32) off) ≡ false = ground arith in
      let fits : ltb max_size ((off + n) % 2 ^ 32) ≡ false = ground arith in
      let (r, run, t) =
        writei_loop-Wrote sb source home n n 0 off src ip v ready nz bs hn (omega arith) in
      let s : ℕ = if ltb r.ip.size r.off then r.off else r.ip.size in
      let jp : Inode = record r.ip { size = s } in
      let at : home ≡ iblock sb r.ip.inum = ap (λ (i : Inode). iblock sb i.inum) (sym t.rest) in
      let home' : IsApart sb (iblock sb r.ip.inum) r.ip r.volume =
        subst (λ c. IsApart sb c r.ip r.volume) at t.ready.apart in
      let same : (q : ℕ) → addr_of jp (iupdate sb jp r.volume) q ≡ addr_of r.ip r.volume q =
        λ q. addr_of-iupdate s r.ip r.volume q home' in
      let own : IsOwned sb r.volume (iblock sb jp.inum) = home'.owned in
      let updated = iupdate-free sb jp r.volume t.ready.well.sound own in
      let end : r.off ≡ off + t.k = t.end in
      let old : r.ip.size ≡ ip.size = ap (λ (i : Inode). i.size) t.rest in
      let ready' = iupdate-IsReady home s r.ip r.volume at t.ready in
      rw (inside, fits, run)
        (
          t.k,
          jp,
          iupdate sb jp r.volume,
          ap (λ c. ok (pos c, (jp, iupdate sb jp r.volume))) (t.count ∙ omega arith),
          record {
            bounded = t.bounded;
            size = rw (end, old) refl;
            ready = ready';
            bytes = λ x hx. byte_of-iupdate s r.ip r.volume x home' hx ∙ t.bytes x hx;
            backed = λ x lo hi z. t.backed x lo hi (sym (same (x / bsize)) ∙ z);
            whole = elim t.whole [
              | inl all ↦ inl all
              | inr (z, full) ↦ inr (λ c lt. updated.1 c lt ∙ full c lt)
            ];
          },
        )

file_bytes-slice :
    (source : ℕ → ℕ) (ip : Inode) (v : Volume) (off src n : ℕ)
    → ((j : ℕ) → j < n → byte_of ip v (off + j) ≡ source (src + j))
    → file_bytes ip v off n ≡ slice source src n
file_bytes-slice source ip v off src zero h = refl
file_bytes-slice source ip v off src (suc n) h =
    ap₂ (λ b bs. b ∷ bs)
      (ap (byte_of ip v) (omega arith) ∙ h 0 (omega arith) ∙ ap source (omega arith))
      (file_bytes-slice source ip v (off + 1) (src + 1) n (λ j lt.
        ap (byte_of ip v) (omega arith) ∙ h (j + 1) (omega arith) ∙ ap source (omega arith)))

read_back :
    (sb : Superblock) (source : ℕ → ℕ) {U : Type 0} (put : ℕ → List ℕ → U → U) (src off n dst : ℕ)
    (u : U) (ip : Inode) (v : Volume) (k : ℕ) (ip' : Inode) (v' : Volume)
    → Copies sb put
    → Written sb source off n src ip v k ip' v'
    → off ≤ ip.size
    → ip.size ≤ max_size
    → off + n ≤ max_size
    → (r : Reading U) × (readi sb (λ a bs w. (put a bs w, true)) dst off k u ip' v' ≡ ok r)
      × (r.result ≡ pos k)
      × (r.dest ≡ put dst (slice source src k) u)
read_back sb source put src off n dst u ip v k ip' v' cp t ho hs hn =
    let low : off + k ≤ ip'.size = ground (arith, t.size) in
    let high : ip'.size ≤ max_size = ground (arith, t.size, t.bounded) in
    let (r, run, d) =
      readi-Read sb put dst off k u ip' v' cp t.ready.well high (omega (arith, low))
        (omega (arith, t.bounded)) in
    let le : d.k ≤ k = omega (arith, d.bounded) in
    let all : d.k ≡ k = elim d.whole [
      | inl e ↦ omega (arith, e, low)
      | inr (z, full) ↦ elim (Bool-cases (ltb d.k k)) [
        | inl less ↦ absurd (
            d.grows ((off + d.k) / bsize) (omega (arith, t.bounded, le, less_lem d.k k less))
              (t.backed (off + d.k) (omega arith) (ground arith)) z)
        | inr same ↦ ground (arith, le)
      ]
    ] in
    let at : (j : ℕ) → j < k → byte_of ip' v' (off + j) ≡ source (src + j) =
      λ j lt. t.bytes (off + j) (omega (arith, t.bounded)) ∙ within j lt in
    (
      r,
      run,
      d.result ∙ ap pos (omega (arith, all)),
      d.dest
          ∙ ap (λ m. put dst (file_bytes ip' v' off m) u) all
          ∙ ap (λ xs. put dst xs u) (file_bytes-slice source ip' v' off src k at),
    )
  where
    less_lem : (a b : ℕ) → ltb a b ≡ true → a < b
    less_lem a b e = ground arith

    within : (j : ℕ) → j < k → written source src off k (byte_of ip v) (off + j) ≡ source (src + j)
    within j lt =
        let test : (leb off (off + j) && ltb (off + j) (off + k)) ≡ true = ground arith in
        rw test (ap source (omega arith))

-- Under the conditions of `writei-Written`, and with a size within the largest file, `readi` of the `k` bytes that
-- `writei` counted returns `k` and delivers the bytes that were written; all `n` were unless no block is free any
-- more.
pub readi-writei :
    (sb : Superblock) (source : ℕ → ℕ) {U : Type 0} (put : ℕ → List ℕ → U → U) (src off n dst : ℕ)
    (u : U) (ip : Inode) (v : Volume)
    → Copies sb put
    → IsReady sb source (iblock sb ip.inum) ip v
    → iblock sb ip.inum ≢ 0
    → AreBytes source
    → off ≤ ip.size
    → ip.size ≤ max_size
    → off + n ≤ max_size
    → (k : ℕ) × (ip' : Inode) × (v' : Volume) × (r : Reading U) × (writei sb
          (λ a m. (slice source a m, true))
          src
          off
          n
          ip
          v
        ≡ ok (pos k, (ip', v')))
      × (readi sb (λ a bs w. (put a bs w, true)) dst off k u ip' v' ≡ ok r)
      × (r.result ≡ pos k)
      × (r.dest ≡ put dst (slice source src k) u)
      × ((k ≡ n) ⊎ IsFull sb v')
readi-writei sb source put src off n dst u ip v cp ready nz bs ho hs hn =
    let (k, ip', v', wrote, t) = writei-Written sb source src off n ip v ready nz bs ho hn in
    let (r, read, count, text) =
      read_back sb source put src off n dst u ip v k ip' v' cp t ho hs hn in
    (k, ip', v', r, wrote, read, count, text, t.whole)
