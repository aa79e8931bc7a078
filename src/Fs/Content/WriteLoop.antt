-- ===== src/Fs/Content/WriteLoop.antt =====
-- The rounds of the loop of `writei` (kernel/fs.c).
use operating_system_se.Base.{
  ℕ, zero, suc, ◌+◌, ◌-◌, ◌/◌, ◌%◌, ◌≤◌, ◌<◌, ◌≡◌, ◌≢◌, inl, inr, refl, ap, sym, ◌∙◌, subst, true,
  false, ◌&&◌, ltb, leb, ◌==◌, if◌then◌else◌, get_or, ok, arith, Bool-cases, ==_ne,
}
use operating_system_se.Fs.Volume.{Superblock, Volume, bsize, put_block}
use operating_system_se.Fs.Itable.{Inode}
use operating_system_se.Fs.Bitmap.Refine.{AreBytes}
use operating_system_se.Fs.Blocks.{ndirect}
use operating_system_se.Fs.Blocks.Owned.{IsOwned, Extends, put_block-Extends}
use operating_system_se.Fs.Blocks.Map.{addr_of}
use operating_system_se.Fs.Blocks.Stable.{Mapped, bmap-Mapped}
use operating_system_se.Fs.Content.{max_size, slice, overlay, chunk, Writing, writei_loop}
use operating_system_se.Fs.Content.Rounds.{
  read_at, byte_of, IsWell, Mapped-IsWell, Mapped-byte_of, at_bn, stays_empty,
}
use operating_system_se.Fs.Content.Read.{chunk-bound, chunk-pos}
use operating_system_se.Fs.Content.Store.{
  written, overlay-written, addr_of-put_block, put_block-IsWell, byte_of-put_block, Mapped-IsApart,
}
use operating_system_se.Fs.Content.Write.{IsReady, Wrote, Wrote-stop, Wrote-step, Round}

module _ (sb : Superblock) (source : ℕ → ℕ) (home : ℕ) where
  overlay-byte :
      (f : ℕ → ℕ) (o src m : ℕ)
      → AreBytes f
      → AreBytes source
      → AreBytes (overlay f o (slice source src m))
  overlay-byte f o src m hf hs y =
      let e = overlay-written f source src o m y in rw e (ground (arith, hf y, hs (src + (y - o))))

  -- The bytes of a block in its place in the file.
  place :
      (src off m x : ℕ) (f g : ℕ → ℕ)
      → off % bsize + m ≤ bsize
      → (x / bsize ≡ off / bsize → f (x % bsize) ≡ g x)
      → (if x / bsize == off / bsize then written source src (off % bsize) m f (x % bsize) else g x)
        ≡ written source src off m g x
  place src off m x f g h same = elim (Bool-cases (x / bsize == off / bsize)) [
    | inl here ↦
        let at : x / bsize ≡ off / bsize = ground arith in
        let test : (leb (off % bsize) (x % bsize) && ltb (x % bsize) (off % bsize + m))
            ≡ (leb off x && ltb x (off + m)) =
          ground arith in
        let from : x % bsize - off % bsize ≡ x - off = omega arith in
        rw (here, test, from, same at) refl
    | inr far ↦
        let test : (leb off x && ltb x (off + m)) ≡ false = ground arith in rw (far, test) refl
  ]

  round_bytes :
      (m off src a x : ℕ) (jp : Inode) (w : Volume)
      → IsWell sb jp w
      → off < max_size
      → off % bsize + m ≤ bsize
      → addr_of jp w (off / bsize) ≡ a
      → a ≢ 0
      → x < max_size
      → byte_of jp (put_block a (overlay (w.bytes a) (off % bsize) (slice source src m)) w) x
        ≡ written source src off m (byte_of jp w) x
  round_bytes m off src a x jp w well lt h here ne hx =
      let q : ℕ = off / bsize in
      let f : ℕ → ℕ = overlay (w.bytes a) (off % bsize) (slice source src m) in
      let full : addr_of jp w q ≢ 0 = λ z. ne (sym here ∙ z) in
      let nonzero : (a == 0) ≡ false = ==_ne a 0 ne in
      ap (λ b. byte_of jp (put_block b f w) x) (sym here)
      ∙ byte_of-put_block sb q f jp w x well (omega arith) full hx
      ∙ ap (λ b. if x / bsize == q then b else byte_of jp w x)
          (overlay-written (w.bytes a) source src (off % bsize) m (x % bsize))
      ∙ place src off m x (w.bytes a) (byte_of jp w) h (λ e.
        sym (ap (λ b. read_at b w (x % bsize)) (ap (addr_of jp w) e ∙ here) ∙ rw nonzero refl))

  round_lem :
      (m off src : ℕ) (ip : Inode) (v : Volume) (a : ℕ) (jp : Inode) (w : Volume)
      → IsReady sb source home ip v
      → home ≢ 0
      → AreBytes source
      → a ≢ 0
      → off < max_size
      → off % bsize + m ≤ bsize
      → Mapped sb (off / bsize) ip v a jp w
      → Round sb source home m off src ip v jp
          (put_block a (overlay (w.bytes a) (off % bsize) (slice source src m)) w)
  round_lem m off src ip v a jp w ready nz bs ne lt h mapped =
      let q : ℕ = off / bsize in
      let hq : q < 268 = omega arith in
      let well = Mapped-IsWell sb q ip v a jp w ready.well hq mapped in
      let here = at_bn sb q ip v a jp w ready.well hq mapped in
      let home' = Mapped-IsApart sb home q ip v a jp w ready.apart nz hq mapped in
      let f : ℕ → ℕ = overlay (w.bytes a) (off % bsize) (slice source src m) in
      let full : addr_of jp w q ≢ 0 = λ z. ne (sym here ∙ z) in
      let own : IsOwned sb w a = subst (IsOwned sb w) here (well.owned q hq full) in
      let off_ind : get_or jp.addrs ndirect 0 ≢ a = λ e. well.clear q hq full (here ∙ sym e) in
      let fs : AreBytes f =
        overlay-byte (w.bytes a) (off % bsize) src m (well.sound.bitmap.bytes a) bs in
      let ext : Extends sb a w (put_block a f w) = put_block-Extends sb a f w well.sound own fs in
      let same : (k : ℕ) → addr_of jp (put_block a f w) k ≡ addr_of jp w k =
        λ k. addr_of-put_block sb a f jp w k off_ind in
      record {
        ready = record {
          well = put_block-IsWell sb a f jp w well own off_ind fs;
          apart = record {
            owned = ext.keeps_owned home home'.owned;
            from_addrs = λ k hk e. home'.from_addrs k hk (sym (same k) ∙ e);
            from_indirect = home'.from_indirect;
          };
        };
        bytes = λ x hx.
            round_bytes m off src a x jp w well lt h here ne hx
            ∙ ap (λ b. if leb off x && ltb x (off + m) then source (src + (x - off)) else b)
                (Mapped-byte_of sb q ip v a jp w ready.well hq mapped x hx);
        backed = λ x lo hi z. full (ap (addr_of jp w) (omega arith) ∙ sym (same (x / bsize)) ∙ z);
        grows = λ k hk z e.
            z (stays_empty sb q ip v a jp w ready.well hq mapped k hk (sym (same k) ∙ e));
        rest = mapped.rest;
      }

  pub writei_loop-Wrote :
      (fuel left tot off src : ℕ) (ip : Inode) (v : Volume)
      → IsReady sb source home ip v
      → home ≢ 0
      → AreBytes source
      → off + left ≤ max_size
      → left ≤ fuel
      → (r : Writing) × (writei_loop sb (λ a m. (slice source a m, true)) fuel left tot off src ip v
          ≡ ok r)
        × Wrote sb source home left tot off src ip v r
  unfolding writei_loop
  writei_loop-Wrote zero left tot off src ip v ready nz bs h enough = (
    _,
    refl,
    Wrote-stop sb source home left tot off src ip ip v v ready (λ x hx. refl) (λ q hq ne. ne) refl
        (inl (omega arith)),
  )
  writei_loop-Wrote (suc fuel) left tot off src ip v ready nz bs h enough =
      elim (Bool-cases (left == 0)) [
        | inl done ↦ rw done (
          _,
          refl,
          Wrote-stop sb source home left tot off src ip ip v v ready (λ x hx. refl) (λ q hq ne. ne)
              refl (inl (ground arith)),
        )
        | inr more ↦
            let m : ℕ = chunk left off in
            let some : 1 ≤ left = ground arith in
            let hk : off / bsize < 268 = omega arith in
            let (a, jp, w, e, mapped) =
              bmap-Mapped sb (off / bsize) ip v ready.well.sound ready.well.file hk in
            let well = Mapped-IsWell sb (off / bsize) ip v a jp w ready.well hk mapped in
            let home' = Mapped-IsApart sb home (off / bsize) ip v a jp w ready.apart nz hk mapped in
            let here = at_bn sb (off / bsize) ip v a jp w ready.well hk mapped in
            elim (Bool-cases (a == 0)) [
              | inl hole ↦
                  rw (more, e, hole)
                    (
                      _,
                      refl,
                      Wrote-stop sb source home left tot off src ip jp v w
                          (record { well = well; apart = home' })
                          (Mapped-byte_of sb (off / bsize) ip v a jp w ready.well hk mapped)
                          (λ q hq ne z.
                            ne (
                              stays_empty sb (off / bsize) ip v a jp w ready.well hk mapped q hq z))
                          mapped.rest (inr (here ∙ ground arith, mapped.full (ground arith))),
                    )
              | inr found ↦
                  let f : ℕ → ℕ = overlay (w.bytes a) (off % bsize) (slice source src m) in
                  let one =
                    round_lem m off src ip v a jp w ready nz bs (ground arith) (omega arith)
                      (chunk-bound left off) mapped in
                  let (r, run, t) =
                    writei_loop-Wrote fuel (left - m) (tot + m) (off + m) (src + m) jp
                      (put_block a f w) one.ready nz bs (omega arith)
                      (omega (arith, chunk-pos left off some)) in
                  rw (more, e, found)
                    (
                      r,
                      run,
                      Wrote-step sb source home m left tot off src ip jp v (put_block a f w) r
                          (omega arith) h one t,
                    )
            ]
      ]
