-- ===== src/Fs/Content/Write.antt =====
-- Where the bytes of `writei` (kernel/fs.c) go.
use operating_system_se.Base.{
  ℕ, ◌+◌, ◌-◌, ◌/◌, ◌≤◌, ◌<◌, ◌≡◌, ◌≢◌, ◌⊎◌, inl, inr, refl, ap, sym, ◌∙◌, true, false, ◌&&◌, ltb,
  leb, if◌then◌else◌, arith, Bool-cases,
}
use operating_system_se.Fs.Volume.{Superblock, Volume, bsize}
use operating_system_se.Fs.Itable.{Inode}
use operating_system_se.Fs.Blocks.Owned.{IsFull}
use operating_system_se.Fs.Blocks.Map.{addr_of}
use operating_system_se.Fs.Content.{max_size, Writing}
use operating_system_se.Fs.Content.Rounds.{byte_of, IsWell}
use operating_system_se.Fs.Content.Store.{written, IsApart}

module _ (sb : Superblock) (source : ℕ → ℕ) (home : ℕ) where
  -- A file whose bytes can be written, and a block `home` that is none of its blocks.
  pub record IsReady (ip : Inode) (v : Volume) : Type 0 where
    pub well : IsWell sb ip v
    pub apart : IsApart sb home ip v

  -- What a run of the loop over `left` bytes at `off` leaves: `k` of the bytes are in their place in the file,
  -- all unless the disk has no block left for the next. The other bytes of the file stay.
  pub record Wrote (left tot off src : ℕ) (ip : Inode) (v : Volume) (r : Writing) : Type 0 where
    pub k : ℕ
    pub bounded : k ≤ left
    pub count : r.count ≡ tot + k
    pub end : r.off ≡ off + k
    pub ready : IsReady r.ip r.volume
    pub bytes :
        (x : ℕ) → x < max_size → byte_of r.ip r.volume x ≡ written source src off k (byte_of ip v) x
    pub backed : (x : ℕ) → off ≤ x → x < off + k → addr_of r.ip r.volume (x / bsize) ≢ 0
    pub grows : (q : ℕ) → q < 268 → addr_of ip v q ≢ 0 → addr_of r.ip r.volume q ≢ 0
    pub whole : (k ≡ left) ⊎ ((addr_of r.ip r.volume ((off + k) / bsize) ≡ 0) × IsFull sb r.volume)
    pub rest : r.ip ≡ record ip { addrs = r.ip.addrs }

  pub Wrote-stop :
      (left tot off src : ℕ) (ip jp : Inode) (v w : Volume)
      → IsReady jp w
      → ((x : ℕ) → x < max_size → byte_of jp w x ≡ byte_of ip v x)
      → ((q : ℕ) → q < 268 → addr_of ip v q ≢ 0 → addr_of jp w q ≢ 0)
      → jp ≡ record ip { addrs = jp.addrs }
      → (left ≡ 0) ⊎ ((addr_of jp w (off / bsize) ≡ 0) × IsFull sb w)
      → Wrote left tot off src ip v (record { count = tot; off = off; ip = jp; volume = w })
  Wrote-stop left tot off src ip jp v w ready same grows rest why = record {
    k = 0;
    bounded = omega arith;
    count = omega arith;
    end = omega arith;
    ready = ready;
    bytes = λ x hx.
        let out : (leb off x && ltb x (off + 0)) ≡ false = ground arith in rw out (same x hx);
    backed = λ x lo hi. absurd (omega arith);
    grows = grows;
    whole = elim why [
      | inl z ↦ inl (sym z)
      | inr (z, full) ↦ inr ((let e : off + 0 ≡ off = omega arith in rw e z), full)
    ];
    rest = rest;
  }

  pub written-append :
      (f : ℕ → ℕ) (src off m k x : ℕ)
      → written source (src + m) (off + m) k (written source src off m f) x
        ≡ written source src off (m + k) f x
  written-append f src off m k x = elim (Bool-cases (leb (off + m) x && ltb x (off + m + k))) [
    | inl second ↦
        let all : (leb off x && ltb x (off + (m + k))) ≡ true = ground arith in
        let at : src + m + (x - (off + m)) ≡ src + (x - off) = ground arith in
        rw (second, all, at) refl
    | inr not_second ↦
        let all : (leb off x && ltb x (off + (m + k))) ≡ (leb off x && ltb x (off + m)) =
          ground arith in
        rw (not_second, all) refl
  ]

  -- One round: `m` bytes are written to block off / bsize, which is at address `a`.
  pub record Round (m off src : ℕ) (ip : Inode) (v : Volume) (jp : Inode) (w : Volume)
      : Type 0 where
    pub ready : IsReady jp w
    pub bytes : (x : ℕ) → x < max_size → byte_of jp w x ≡ written source src off m (byte_of ip v) x
    pub backed : (x : ℕ) → off ≤ x → x < off + m → addr_of jp w (x / bsize) ≢ 0
    pub grows : (q : ℕ) → q < 268 → addr_of ip v q ≢ 0 → addr_of jp w q ≢ 0
    pub rest : jp ≡ record ip { addrs = jp.addrs }

  pub Wrote-step :
      (m left tot off src : ℕ) (ip jp : Inode) (v w : Volume) (r : Writing)
      → m ≤ left
      → off + left ≤ max_size
      → Round m off src ip v jp w
      → Wrote (left - m) (tot + m) (off + m) (src + m) jp w r
      → Wrote left tot off src ip v r
  Wrote-step m left tot off src ip jp v w r le h one t = record {
    k = m + t.k;
    bounded = omega (arith, t.bounded);
    count = omega (arith, t.count);
    end = omega (arith, t.end);
    ready = t.ready;
    bytes = λ x hx.
        t.bytes x hx
        ∙ ap
            (λ b.
              if leb (off + m) x && ltb x (off + m + t.k)
              then source (src + m + (x - (off + m)))
              else b)
            (one.bytes x hx)
        ∙ written-append (byte_of ip v) src off m t.k x;
    backed = λ x lo hi. elim (Bool-cases (ltb x (off + m))) [
      | inl first ↦ t.grows (x / bsize) (omega (arith, t.bounded)) (one.backed x lo (ground arith))
      | inr second ↦ t.backed x (ground arith) (omega arith)
    ];
    grows = λ q hq ne. t.grows q hq (one.grows q hq ne);
    whole = elim t.whole [
      | inl all ↦ inl (omega (arith, all))
      | inr (z, full) ↦
          inr ((let e : off + (m + t.k) ≡ off + m + t.k = omega arith in rw e z), full)
    ];
    rest =
        t.rest
        ∙ (let again : Inode → Inode = λ i. record i { addrs = r.ip.addrs } in ap again one.rest);
  }
