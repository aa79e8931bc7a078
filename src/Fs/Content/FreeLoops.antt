-- ===== src/Fs/Content/FreeLoops.antt =====
-- The two loops of `itrunc` (kernel/fs.c).
use operating_system_se.Base.{
  ℕ, zero, suc, ◌+◌, ◌*◌, ◌≤◌, ◌<◌, ◌≡◌, ◌≢◌, inl, inr, refl, ap, sym, ◌∙◌, subst, false, not, ◌&&◌,
  List, [], ◌∷◌, ltb, leb, ◌==◌, ◌||◌, if◌then◌else◌, get_or, set, ok, ◌>>=◌, arith, Bool-cases,
}
use operating_system_se.Fs.Volume.{Superblock, Volume, get_32}
use operating_system_se.Fs.Itable.{Inode}
use operating_system_se.Fs.Bitmap.{bblock}
use operating_system_se.Fs.Bitmap.Refine.{is_free}
use operating_system_se.Fs.Blocks.{nindirect}
use operating_system_se.Fs.Blocks.Owned.{IsSound, IsOwned}
use operating_system_se.Fs.Bitmap.{bfree}
use operating_system_se.Fs.Blocks.{free_direct, free_indirect}
use operating_system_se.Fs.Blocks.Map.{get_or-set_ne}
use operating_system_se.Fs.Content.Free.{
  among, among-false, among-same, Frees, Frees-refl, Frees-trans, bfree-Frees, bfree_nonzero-Frees,
  Frees-IsOwned, AreOwned, rest_owned,
}

module _ (sb : Superblock) where
  pub free_indirect-Frees :
      (g : ℕ → ℕ) (blk n j : ℕ) (v : Volume)
      → IsSound sb v
      → ((d : ℕ) → d < sb.size → blk ≢ bblock sb d)
      → ((k : ℕ) → get_32 (v.bytes blk) (k * 4) ≡ g k)
      → AreOwned sb g j n v
      → (w : Volume) × (free_indirect sb blk n j v ≡ ok w) × Frees sb (among g j n) v w
  unfolding free_indirect
  free_indirect-Frees g blk zero j v s plain at o = (v, refl, Frees-refl sb v s)
  free_indirect-Frees g blk (suc n) j v s plain at o =
      let (w, run, f) = bfree_nonzero-Frees sb (g j) v s (o.owned j (omega arith) (omega arith)) in
      let (x, rest, t) =
        free_indirect-Frees g blk n (j + 1) w f.sound plain
          (λ k. ap (λ h. get_32 h (k * 4)) (f.keeps blk plain) ∙ at k)
          (rest_owned sb g j n v w o f) in
      rw (at j, run)
        (x, rest, Frees-trans sb (λ c. not (g j == 0) && (c == g j)) (among g (j + 1) n) v w x f t)

  -- The slots i, ..., i + n - 1 are 0, the other fields as they were.
  pub record Cleared (i n : ℕ) (ip ip' : Inode) : Type 0 where
    pub slots :
        (k : ℕ)
        → get_or ip'.addrs k 0 ≡ (if leb i k && ltb k (i + n) then 0 else get_or ip.addrs k 0)
    pub rest : ip' ≡ record ip { addrs = ip'.addrs }

  pub cleared_slot :
      (i k : ℕ) (xs : List ℕ) → get_or (set xs i 0) k 0 ≡ (if k == i then 0 else get_or xs k 0)
  cleared_slot i k [] = elim (Bool-cases (k == i)) [ inl e ↦ rw e refl | inr ne ↦ rw ne refl ]
  cleared_slot zero zero (a ∷ xs) = ground arith
  cleared_slot zero (suc k) (a ∷ xs) = ground arith
  cleared_slot (suc i) zero (a ∷ xs) = ground arith
  cleared_slot (suc i) (suc k) (a ∷ xs) = cleared_slot i k xs ∙ ground arith

  pub free_direct-Frees :
      (n i : ℕ) (ip : Inode) (v : Volume)
      → IsSound sb v
      → AreOwned sb (λ k. get_or ip.addrs k 0) i n v
      → (ip' : Inode) × (w : Volume) × (free_direct sb n i ip v ≡ ok (ip', w))
        × Frees sb (among (λ k. get_or ip.addrs k 0) i n) v w
        × Cleared i n ip ip'
  unfolding free_direct
  free_direct-Frees zero i ip v s o =
      (ip, v, refl, Frees-refl sb v s, record { slots = λ k. ground arith; rest = refl })
  free_direct-Frees (suc n) i ip v s o =
      let g : ℕ → ℕ = λ k. get_or ip.addrs k 0 in
      let jp : Inode = record ip { addrs = set ip.addrs i 0 } in
      let h : ℕ → ℕ = λ k. get_or jp.addrs k 0 in
      let (w, run, f) = bfree_nonzero-Frees sb (g i) v s (o.owned i (omega arith) (omega arith)) in
      let same : (k : ℕ) → i + 1 ≤ k → h k ≡ g k =
        λ k lo. get_or-set_ne ip.addrs i k 0 (omega arith) in
      let o' = rest_owned sb g i n v w o f in
      let owned : AreOwned sb h (i + 1) n w = record {
        owned = λ k lo hi ne.
            subst (IsOwned sb w) (sym (same k lo)) (o'.owned k lo hi (λ z. ne (same k lo ∙ z)));
        apart = λ j k lj hj lk hk ne e.
            o'.apart j k lj hj lk hk (λ z. ne (same j lj ∙ z)) (sym (same j lj) ∙ e ∙ same k lk);
      } in
      let (ip', x, rest, t, cl) = free_direct-Frees n (i + 1) jp w f.sound owned in
      let sets : (c : ℕ) → among h (i + 1) n c ≡ among g (i + 1) n c =
        λ c. among-same g h (i + 1) (i + 1) n c (λ k lt. same (i + 1 + k) (omega arith)) in
      let all = Frees-trans sb (λ c. not (g i == 0) && (c == g i)) (among h (i + 1) n) v w x f t in
      rw run (
        ip',
        x,
        rest,
        record {
          sound = all.sound;
          free = λ c.
              all.free c
              ∙ ap (λ b. ((not (g i == 0) && (c == g i)) || b) || is_free sb v c) (sets c);
          keeps = all.keeps;
        },
        record {
          slots = λ k. ground (arith, cl.slots k, cleared_slot i k ip.addrs);
          rest = cl.rest;
        },
      )

  -- The indirect block `blk`, if there is one, with the entries `g`.
  pub indirect-Frees :
      (g : ℕ → ℕ) (blk : ℕ) (v : Volume)
      → IsSound sb v
      → (blk ≢ 0 → IsOwned sb v blk)
      → (blk ≢ 0 → (k : ℕ) → get_32 (v.bytes blk) (k * 4) ≡ g k)
      → (blk ≢ 0 → AreOwned sb g 0 nindirect v)
      → (blk ≢ 0 → (k : ℕ) → k < nindirect → g k ≢ 0 → g k ≢ blk)
      → (w : Volume) × ((if blk == 0
            then ok v
            else (free_indirect sb blk nindirect 0 v >>= λ w. bfree sb blk w))
          ≡ ok w)
        × Frees sb (λ c. not (blk == 0) && (among g 0 nindirect c || (c == blk))) v w
  indirect-Frees g blk v s own at o apart = elim (Bool-cases (blk == 0)) [
    | inl z ↦ rw z (v, refl, Frees-refl sb v s)
    | inr ne ↦
        let nz : blk ≢ 0 = ground arith in
        let (w, run, f) = free_indirect-Frees g blk nindirect 0 v s (own nz).plain (at nz) (o nz) in
        let out : among g 0 nindirect blk ≡ false =
          among-false g 0 nindirect blk (λ k lo hi. apart nz k (omega arith)) in
        let (x, run', f') =
          bfree-Frees sb blk w f.sound
            (Frees-IsOwned sb (among g 0 nindirect) v w blk f out (own nz)) nz in
        rw (ne, run) (x, run', Frees-trans sb (among g 0 nindirect) (λ c. c == blk) v w x f f')
  ]
