-- ===== src/Fs/Content/Truncate.antt =====
-- `itrunc` (kernel/fs.c) and the set of free blocks.
use operating_system_se.Base.{
  ℕ, ◌+◌, ◌-◌, ◌*◌, ◌≤◌, ◌<◌, ◌≡◌, ◌≢◌, ◌⊎◌, inl, inr, refl, ap, sym, ◌∙◌, subst, Bool, true, false,
  not, ◌&&◌, ltb, ◌==◌, ◌||◌, if◌then◌else◌, get_or, set, ok, ◌>>=◌, arith, Bool-cases, ==_ne,
}
use operating_system_se.Fs.Volume.{Superblock, Volume, get_32}
use operating_system_se.Fs.Itable.{Inode}
use operating_system_se.Fs.Dinode.{iblock, iupdate}
use operating_system_se.Fs.Bitmap.Refine.{is_free}
use operating_system_se.Fs.Blocks.{ndirect, nindirect}
use operating_system_se.Fs.Blocks.Owned.{IsSound, IsOwned}
use operating_system_se.Fs.Blocks.Map.{addr_of}
use operating_system_se.Fs.Bitmap.{bfree}
use operating_system_se.Fs.Blocks.{free_direct, free_indirect, itrunc}
use operating_system_se.Fs.Content.Rounds.{IsWell}
use operating_system_se.Fs.Content.Free.{
  among, among-false, among-same, among-append, among-empty, Frees, Frees-trans, Frees-IsOwned,
  AreOwned,
}
use operating_system_se.Fs.Content.Store.{IsApart}
use operating_system_se.Fs.Content.RoundTrip.{iupdate-free}
use operating_system_se.Fs.Content.FreeLoops.{
  Cleared, cleared_slot, free_direct-Frees, indirect-Frees,
}

module _ (sb : Superblock) where
  direct_owned :
      (ip : Inode) (v : Volume)
      → IsWell sb ip v
      → AreOwned sb (λ k. get_or ip.addrs k 0) 0 ndirect v
  direct_owned ip v w =
      let same : (k : ℕ) → k < ndirect → addr_of ip v k ≡ get_or ip.addrs k 0 =
        λ k lt. (let t : ltb k ndirect ≡ true = ground arith in rw t refl) in
      record {
        owned = λ k lo hi ne.
            subst (IsOwned sb v) (same k (omega arith))
              (w.owned k (omega arith) (λ z. ne (sym (same k (omega arith)) ∙ z)));
        apart = λ j k lj hj lk hk ne e.
            w.apart j k (omega arith) (omega arith) (λ z. ne (sym (same j (omega arith)) ∙ z))
              (same j (omega arith) ∙ e ∙ sym (same k (omega arith)));
      }

  -- The entries of the indirect block once the direct blocks are free.
  indirect_owned :
      (ip : Inode) (v w : Volume)
      → IsWell sb ip v
      → get_or ip.addrs ndirect 0 ≢ 0
      → Frees sb (among (λ k. get_or ip.addrs k 0) 0 ndirect) v w
      → AreOwned sb (λ k. get_32 (v.bytes (get_or ip.addrs ndirect 0)) (k * 4)) 0 nindirect w
  indirect_owned ip v w h ne f =
      let same : (k : ℕ)
          → addr_of ip v (ndirect + k) ≡ get_32 (v.bytes (get_or ip.addrs ndirect 0)) (k * 4) =
        λ k.
          let t : ltb (ndirect + k) ndirect ≡ false = ground arith in
          let nz : (get_or ip.addrs ndirect 0 == 0) ≡ false = ==_ne _ 0 ne in
          let e : ndirect + k - ndirect ≡ k = omega arith in rw (t, nz, e) refl in
      let direct : (k : ℕ) → k < ndirect → addr_of ip v k ≡ get_or ip.addrs k 0 =
        λ k lt. (let t : ltb k ndirect ≡ true = ground arith in rw t refl) in
      record {
        owned = λ k lo hi nz.
            let full : addr_of ip v (ndirect + k) ≢ 0 = λ z. nz (sym (same k) ∙ z) in
            let own : IsOwned sb v (addr_of ip v (ndirect + k)) =
              h.owned (ndirect + k) (omega arith) full in
            Frees-IsOwned sb _ v w _ f
              (among-false (λ j. get_or ip.addrs j 0) 0 ndirect _
                (λ j lj hj nj e. omega_apart j k (omega arith) (
                  h.apart j (ndirect + k) (omega arith) (omega arith)
                    (λ z. nj (sym (direct j (omega arith)) ∙ z))
                    (direct j (omega arith) ∙ e ∙ sym (same k)))))
              (subst (IsOwned sb v) (same k) own);
        apart = λ j k lj hj lk hk nz e. omega_same j k (
            h.apart (ndirect + j) (ndirect + k) (omega arith) (omega arith)
              (λ z. nz (sym (same j) ∙ z)) (same j ∙ e ∙ sym (same k)));
      }
    where
      omega_apart : (j k : ℕ) → j < ndirect → j ≢ ndirect + k
      omega_apart j k lt = omega arith

      omega_same : (j k : ℕ) → ndirect + j ≡ ndirect + k → j ≡ k
      omega_same j k e = omega arith

  -- The blocks of the file: those that it maps, and the indirect block.
  unfoldable pub in_file : Inode → Volume → ℕ → Bool
  in_file ip v c =
      among (addr_of ip v) 0 (ndirect + nindirect) c
      || (not (get_or ip.addrs ndirect 0 == 0) && (c == get_or ip.addrs ndirect 0))

  in_file-parts :
      (ip : Inode) (v : Volume) (c : ℕ)
      → (among (λ k. get_or ip.addrs k 0) 0 ndirect c
          || (not (get_or ip.addrs ndirect 0 == 0)
              && (among (λ k. get_32 (v.bytes (get_or ip.addrs ndirect 0)) (k * 4)) 0 nindirect c
                  || (c == get_or ip.addrs ndirect 0))))
        ≡ in_file ip v c
  unfolding in_file
  in_file-parts ip v c =
      let g : ℕ → ℕ = λ k. get_or ip.addrs k 0 in
      let e : ℕ → ℕ = λ k. get_32 (v.bytes (get_or ip.addrs ndirect 0)) (k * 4) in
      let whole = among-append (addr_of ip v) 0 ndirect nindirect c in
      let first : among (addr_of ip v) 0 ndirect c ≡ among g 0 ndirect c =
        among-same g (addr_of ip v) 0 0 ndirect c
          (λ k lt. (let t : ltb (0 + k) ndirect ≡ true = ground arith in rw t refl)) in
      let second : among (addr_of ip v) (0 + ndirect) nindirect c
          ≡ (not (get_or ip.addrs ndirect 0 == 0) && among e 0 nindirect c) =
        later (Bool-cases (get_or ip.addrs ndirect 0 == 0)) in
      rw (whole, first, second) (ground arith)
    where
      later :
          ((get_or ip.addrs ndirect 0 == 0) ≡ true) ⊎ ((get_or ip.addrs ndirect 0 == 0) ≡ false)
          → among (addr_of ip v) (0 + ndirect) nindirect c ≡ (
              not (get_or ip.addrs ndirect 0 == 0)
              && among (λ k. get_32 (v.bytes (get_or ip.addrs ndirect 0)) (k * 4)) 0 nindirect c)
      later (inl z) =
          among-empty (addr_of ip v) (0 + ndirect) nindirect c
            (λ k lo hi. (let t : ltb k ndirect ≡ false = ground arith in rw (t, z) refl))
          ∙ rw z refl
      later (inr ne) =
          among-same (λ k. get_32 (v.bytes (get_or ip.addrs ndirect 0)) (k * 4)) (addr_of ip v) 0
            (0 + ndirect) nindirect c
            (λ k lt.
              (let t : ltb (0 + ndirect + k) ndirect ≡ false = ground arith in
                let at : 0 + ndirect + k - ndirect ≡ 0 + k = omega arith in rw (t, ne, at) refl))
          ∙ rw ne refl

  pub in_file-apart : (b : ℕ) (ip : Inode) (v : Volume) → IsApart sb b ip v → in_file ip v b ≡ false
  unfolding in_file
  in_file-apart b ip v home =
      let other : (b == get_or ip.addrs ndirect 0) ≡ false =
        ==_ne b _ (λ e. home.from_indirect (sym e)) in
      let none =
        among-false (addr_of ip v) 0 (ndirect + nindirect) b
          (λ k lo hi ne. home.from_addrs k (omega arith)) in
      rw (none, other) (ground arith)

  direct_clear :
      (ip : Inode) (v : Volume) (k : ℕ)
      → IsWell sb ip v
      → k < ndirect
      → get_or ip.addrs k 0 ≢ 0
      → get_or ip.addrs k 0 ≢ get_or ip.addrs ndirect 0
  direct_clear ip v k w lt ne e =
      let t : ltb k ndirect ≡ true = ground arith in
      let same : addr_of ip v k ≡ get_or ip.addrs k 0 = rw t refl in
      w.clear k (omega arith) (λ z. ne (sym same ∙ z)) (same ∙ e)

  entry_clear :
      (ip : Inode) (v : Volume) (k : ℕ)
      → IsWell sb ip v
      → k < nindirect
      → get_or ip.addrs ndirect 0 ≢ 0
      → get_32 (v.bytes (get_or ip.addrs ndirect 0)) (k * 4) ≢ 0
      → get_32 (v.bytes (get_or ip.addrs ndirect 0)) (k * 4) ≢ get_or ip.addrs ndirect 0
  entry_clear ip v k w lt nz ne e =
      let t : ltb (ndirect + k) ndirect ≡ false = ground arith in
      let full : (get_or ip.addrs ndirect 0 == 0) ≡ false = ==_ne _ 0 nz in
      let at : ndirect + k - ndirect ≡ k = omega arith in
      let same : addr_of ip v (ndirect + k) ≡ get_32 (v.bytes (get_or ip.addrs ndirect 0)) (k * 4) =
        rw (t, full, at) refl in
      w.clear (ndirect + k) (omega arith) (λ z. ne (sym same ∙ z)) (same ∙ e)

  itrunc-runs :
      (ip ip1 : Inode) (v v1 v2 : Volume) (blk : ℕ)
      → free_direct sb ndirect 0 ip v ≡ ok (ip1, v1)
      → get_or ip1.addrs ndirect 0 ≡ blk
      → (if blk == 0 then ok v1 else (free_indirect sb blk nindirect 0 v1 >>= λ w. bfree sb blk w))
        ≡ ok v2
      → itrunc sb ip v
        ≡ ok (
          record ip1 { addrs = set ip1.addrs ndirect 0; size = 0 },
          iupdate sb (record ip1 { addrs = set ip1.addrs ndirect 0; size = 0 }) v2,
        )
  unfolding itrunc
  itrunc-runs ip ip1 v v1 v2 blk e1 at e2 = rw (e1, at, e2) refl

  -- All blocks of the file are free.
  all_freed :
      (ip : Inode) (v : Volume)
      → IsWell sb ip v
      → (ip1 : Inode) × (v1 : Volume) × (v2 : Volume) × (free_direct sb ndirect 0 ip v
          ≡ ok (ip1, v1))
        × Cleared sb 0 ndirect ip ip1
        × ((if get_or ip.addrs ndirect 0 == 0
              then ok v1
              else (free_indirect sb (get_or ip.addrs ndirect 0) nindirect 0 v1 >>= λ w.
                  bfree sb (get_or ip.addrs ndirect 0) w))
            ≡ ok v2)
        × Frees sb (in_file ip v) v v2
  all_freed ip v w =
      let blk : ℕ = get_or ip.addrs ndirect 0 in
      let g : ℕ → ℕ = λ k. get_or ip.addrs k 0 in
      let e : ℕ → ℕ = λ k. get_32 (v.bytes blk) (k * 4) in
      let (ip1, v1, run1, f1, cl) =
        free_direct-Frees sb ndirect 0 ip v w.sound (direct_owned ip v w) in
      let (v2, run2, f2) =
        indirect-Frees sb e blk v1 f1.sound
          (λ ne.
            Frees-IsOwned sb (among g 0 ndirect) v v1 blk f1
              (among-false g 0 ndirect blk (λ k lo hi. direct_clear ip v k w (omega arith)))
              (w.file.indirect ne))
          (λ ne k. ap (λ h. get_32 h (k * 4)) (f1.keeps blk (w.file.indirect ne).plain))
          (λ ne. indirect_owned ip v v1 w ne f1) (λ ne k lt. entry_clear ip v k w lt ne) in
      let both =
        Frees-trans sb (among g 0 ndirect)
          (λ c. not (blk == 0) && (among e 0 nindirect c || (c == blk))) v v1 v2 f1 f2 in
      (
        ip1,
        v1,
        v2,
        run1,
        cl,
        run2,
        record {
          sound = both.sound;
          free = λ c. both.free c ∙ ap (λ b. b || is_free sb v c) (in_file-parts ip v c);
          keeps = both.keeps;
        },
      )

  -- On a well-formed file whose own block on disk is not one of its blocks, `itrunc` does not panic: the file has
  -- size 0 and no addresses, its other fields stay, and below the size of the disk exactly the blocks of the file
  -- are free in addition to those that were.
  pub itrunc-Frees :
      (ip : Inode) (v : Volume)
      → IsWell sb ip v
      → IsApart sb (iblock sb ip.inum) ip v
      → (ip' : Inode) × (v' : Volume) × (itrunc sb ip v ≡ ok (ip', v'))
        × (ip' ≡ record ip { addrs = ip'.addrs; size = 0 })
        × ((k : ℕ) → k ≤ ndirect → get_or ip'.addrs k 0 ≡ 0)
        × IsSound sb v'
        × ((c : ℕ) → c < sb.size → is_free sb v' c ≡ (in_file ip v c || is_free sb v c))
  itrunc-Frees ip v w home =
      let (ip1, v1, v2, run1, cl, run2, f) = all_freed ip v w in
      let stays : get_or ip1.addrs ndirect 0 ≡ get_or ip.addrs ndirect 0 =
        ground (arith, cl.slots ndirect) in
      let ip2 : Inode = record ip1 { addrs = set ip1.addrs ndirect 0; size = 0 } in
      let own : IsOwned sb v2 (iblock sb ip.inum) =
        Frees-IsOwned sb (in_file ip v) v v2 (iblock sb ip.inum) f
          (in_file-apart (iblock sb ip.inum) ip v home) home.owned in
      let at : iblock sb ip.inum ≡ iblock sb ip2.inum =
        ap (λ (i : Inode). iblock sb i.inum) (sym cl.rest) in
      let (sound, same) = iupdate-free sb ip2 v2 f.sound (subst (IsOwned sb v2) at own) in
      (
        ip2,
        iupdate sb ip2 v2,
        itrunc-runs ip ip1 v v1 v2 (get_or ip.addrs ndirect 0) run1 stays run2,
        (let cut : Inode → Inode = λ i. record i { addrs = set ip1.addrs ndirect 0; size = 0 } in
            ap cut cl.rest),
        (λ k le. ground (arith, cl.slots k, cleared_slot sb ndirect k ip1.addrs)),
        sound,
        (λ c lt. same c lt ∙ f.free c),
      )
