-- ===== src/Fs/Content/Read.antt =====
-- The bytes that `readi` (kernel/fs.c) delivers.
use operating_system_se.Base.{
  ℕ, zero, suc, ◌+◌, ◌-◌, ◌*◌, ◌/◌, ◌%◌, ◌^◌, ◌≤◌, ◌<◌, ◌≡◌, ◌≢◌, ◌⊎◌, inl, inr, refl, ap, ap₂, sym,
  ◌∙◌, true, false, List, [], ◌∷◌, ◌++◌, length, ltb, ◌==◌, ◌||◌, if◌then◌else◌, min, ok, pos,
  arith, Bool-cases, ==_ne,
}
use operating_system_se.Fs.Volume.{Superblock, Volume, bsize}
use operating_system_se.Fs.Itable.{Inode}
use operating_system_se.Fs.Blocks.Owned.{IsFull}
use operating_system_se.Fs.Blocks.Map.{addr_of}
use operating_system_se.Fs.Blocks.Stable.{bmap-Mapped}
use operating_system_se.Fs.Content.{max_size, slice, chunk, Reading, readi_loop, readi}
use operating_system_se.Fs.Content.Rounds.{
  byte_of, IsWell, Mapped-IsWell, Mapped-byte_of, at_bn, stays_empty,
}

-- The `n` bytes of a file from offset `x` on.
abbrev pub file_bytes : Inode → Volume → ℕ → ℕ → List ℕ
file_bytes ip v x zero = []
file_bytes ip v x (suc n) = byte_of ip v x ∷ file_bytes ip v (x + 1) n

pub file_bytes-same :
    (ip jp : Inode) (v w : Volume) (x n : ℕ)
    → ((y : ℕ) → y < max_size → byte_of jp w y ≡ byte_of ip v y)
    → x + n ≤ max_size
    → file_bytes jp w x n ≡ file_bytes ip v x n
file_bytes-same ip jp v w x zero same h = refl
file_bytes-same ip jp v w x (suc n) same h =
    ap₂ (λ b bs. b ∷ bs) (same x (omega arith))
      (file_bytes-same ip jp v w (x + 1) n same (omega arith))

file_bytes-append :
    (ip : Inode) (v : Volume) (x m n : ℕ)
    → file_bytes ip v x m ++ file_bytes ip v (x + m) n ≡ file_bytes ip v x (m + n)
file_bytes-append ip v x zero n =
    let e : x + 0 ≡ x = omega arith in let e' : 0 + n ≡ n = omega arith in rw (e, e') refl
file_bytes-append ip v x (suc m) n =
    let e : x + suc m ≡ x + 1 + m = omega arith in
    let e' : suc m + n ≡ suc (m + n) = omega arith in
    rw (e, e') (ap (λ bs. byte_of ip v x ∷ bs) (file_bytes-append ip v (x + 1) m n))

length-file_bytes : (ip : Inode) (v : Volume) (x n : ℕ) → length (file_bytes ip v x n) ≡ n
length-file_bytes ip v x zero = refl
length-file_bytes ip v x (suc n) = ap suc (length-file_bytes ip v (x + 1) n)

-- Within a block, the file's bytes are those of the block.
slice-file_bytes :
    (ip : Inode) (v : Volume) (q o m : ℕ)
    → addr_of ip v q ≢ 0
    → o + m ≤ bsize
    → slice (v.bytes (addr_of ip v q)) o m ≡ file_bytes ip v (q * bsize + o) m
slice-file_bytes ip v q o zero ne h = refl
slice-file_bytes ip v q o (suc m) ne h =
    let block : (q * bsize + o) / bsize ≡ q = omega arith in
    let at : (q * bsize + o) % bsize ≡ o = omega arith in
    let next : q * bsize + o + 1 ≡ q * bsize + (o + 1) = omega arith in
    let full : (addr_of ip v q == 0) ≡ false = ==_ne _ 0 ne in
    rw (block, at, next, full)
      (ap (λ bs. v.bytes (addr_of ip v q) o ∷ bs)
        (slice-file_bytes ip v q (o + 1) m ne (omega arith)))

slice-block :
    (ip : Inode) (v : Volume) (a off m : ℕ)
    → addr_of ip v (off / bsize) ≡ a
    → (a == 0) ≡ false
    → off % bsize + m ≤ bsize
    → slice (v.bytes a) (off % bsize) m ≡ file_bytes ip v off m
slice-block ip v a off m here found h =
    let ne : a ≢ 0 = ground arith in
    ap (λ b. slice (v.bytes b) (off % bsize) m) (sym here)
    ∙ slice-file_bytes ip v (off / bsize) (off % bsize) m (λ z. ne (sym here ∙ z)) h
    ∙ ap (λ x. file_bytes ip v x m) (omega arith)

pub chunk-bound : (left off : ℕ) → off % bsize + chunk left off ≤ bsize
chunk-bound left off = omega arith

pub chunk-pos : (left off : ℕ) → 1 ≤ left → 1 ≤ chunk left off
chunk-pos left off h = omega arith

module _ (sb : Superblock) {U : Type 0} (put : ℕ → List ℕ → U → U) where
  -- A copy of bytes to memory is that of its parts, one after the other.
  pub record Copies : Type 0 where
    pub none : (dst : ℕ) (u : U) → put dst [] u ≡ u
    pub joins :
        (dst : ℕ) (xs ys : List ℕ) (u : U)
        → put (dst + length xs) ys (put dst xs u) ≡ put dst (xs ++ ys) u

  -- What a run of the loop over `left` bytes from `off` on gives: the first `k` of the file's bytes, all
  -- unless a block has no address and none is left for it. The bytes of the file stay.
  pub record Read (left tot off dst : ℕ) (u : U) (ip : Inode) (v : Volume) (r : Reading U)
      : Type 0 where
    pub k : ℕ
    pub bounded : k ≤ left
    pub result : r.result ≡ pos (tot + k)
    pub dest : r.dest ≡ put dst (file_bytes ip v off k) u
    pub well : IsWell sb r.ip r.volume
    pub same : (x : ℕ) → x < max_size → byte_of r.ip r.volume x ≡ byte_of ip v x
    pub grows : (q : ℕ) → q < 268 → addr_of ip v q ≢ 0 → addr_of r.ip r.volume q ≢ 0
    pub whole : (k ≡ left) ⊎ ((addr_of r.ip r.volume ((off + k) / bsize) ≡ 0) × IsFull sb r.volume)

  Read-stop :
      (left tot off dst : ℕ) (u : U) (ip jp : Inode) (v w : Volume)
      → Copies
      → IsWell sb jp w
      → ((x : ℕ) → x < max_size → byte_of jp w x ≡ byte_of ip v x)
      → ((q : ℕ) → q < 268 → addr_of ip v q ≢ 0 → addr_of jp w q ≢ 0)
      → (left ≡ 0) ⊎ ((addr_of jp w (off / bsize) ≡ 0) × IsFull sb w)
      → Read left tot off dst u ip v (record { result = pos tot; dest = u; ip = jp; volume = w })
  Read-stop left tot off dst u ip jp v w cp well same grows why = record {
    k = 0;
    bounded = omega arith;
    result = ap pos (omega arith);
    dest = sym (cp.none dst u);
    well = well;
    same = same;
    grows = grows;
    whole = elim why [
      | inl z ↦ inl (sym z)
      | inr (z, full) ↦ inr ((let e : off + 0 ≡ off = omega arith in rw e z), full)
    ];
  }

  Read-step :
      (m left tot off dst : ℕ) (u : U) (ip jp : Inode) (v w : Volume) (r : Reading U)
      → Copies
      → m ≤ left
      → off + left ≤ max_size
      → ((x : ℕ) → x < max_size → byte_of jp w x ≡ byte_of ip v x)
      → ((q : ℕ) → q < 268 → addr_of ip v q ≢ 0 → addr_of jp w q ≢ 0)
      → Read (left - m) (tot + m) (off + m) (dst + m) (put dst (file_bytes jp w off m) u) jp w r
      → Read left tot off dst u ip v r
  Read-step m left tot off dst u ip jp v w r cp le h same grows t =
      let first : file_bytes jp w off m ≡ file_bytes ip v off m =
        file_bytes-same ip jp v w off m same (omega arith) in
      let rest : file_bytes jp w (off + m) t.k ≡ file_bytes ip v (off + m) t.k =
        file_bytes-same ip jp v w (off + m) t.k same (omega (arith, t.bounded)) in
      record {
        k = m + t.k;
        bounded = omega (arith, t.bounded);
        result = t.result ∙ ap pos (omega arith);
        dest =
            t.dest
            ∙ ap₂ (λ bs cs. put (dst + m) cs (put dst bs u)) first rest
            ∙ ap
                (λ n.
                  put (dst + n) (file_bytes ip v (off + m) t.k) (put dst (file_bytes ip v off m) u))
                (sym (length-file_bytes ip v off m))
            ∙ cp.joins dst (file_bytes ip v off m) (file_bytes ip v (off + m) t.k) u
            ∙ ap (λ bs. put dst bs u) (file_bytes-append ip v off m t.k);
        well = t.well;
        same = λ x hx. t.same x hx ∙ same x hx;
        grows = λ q hq ne. t.grows q hq (grows q hq ne);
        whole = elim t.whole [
          | inl all ↦ inl (omega (arith, all))
          | inr (z, full) ↦
              inr ((let e : off + (m + t.k) ≡ off + m + t.k = omega arith in rw e z), full)
        ];
      }

  readi_loop-Read :
      (fuel left tot off dst : ℕ) (u : U) (ip : Inode) (v : Volume)
      → Copies
      → IsWell sb ip v
      → off + left ≤ max_size
      → left ≤ fuel
      → (r : Reading U) × (readi_loop sb (λ a bs w. (put a bs w, true)) fuel left tot off dst u ip v
          ≡ ok r)
        × Read left tot off dst u ip v r
  unfolding readi_loop
  readi_loop-Read zero left tot off dst u ip v cp w h enough = (
    _,
    refl,
    Read-stop left tot off dst u ip ip v v cp w (λ x hx. refl) (λ q hq ne. ne) (inl (omega arith)),
  )
  readi_loop-Read (suc fuel) left tot off dst u ip v cp w h enough = elim (Bool-cases (left == 0)) [
    | inl done ↦ rw done (
      _,
      refl,
      Read-stop left tot off dst u ip ip v v cp w (λ x hx. refl) (λ q hq ne. ne)
          (inl (ground arith)),
    )
    | inr more ↦
        let m : ℕ = chunk left off in
        let some : 1 ≤ left = ground arith in
        let hk : off / bsize < 268 = omega arith in
        let (a, ip', v', e, mapped) = bmap-Mapped sb (off / bsize) ip v w.sound w.file hk in
        let well = Mapped-IsWell sb (off / bsize) ip v a ip' v' w hk mapped in
        let same = Mapped-byte_of sb (off / bsize) ip v a ip' v' w hk mapped in
        let here = at_bn sb (off / bsize) ip v a ip' v' w hk mapped in
        let grows : (q : ℕ) → q < 268 → addr_of ip v q ≢ 0 → addr_of ip' v' q ≢ 0 =
          λ q hq ne z. ne (stays_empty sb (off / bsize) ip v a ip' v' w hk mapped q hq z) in
        elim (Bool-cases (a == 0)) [
          | inl hole ↦
              rw (more, e, hole)
                (
                  _,
                  refl,
                  Read-stop left tot off dst u ip ip' v v' cp well same grows
                      (inr (here ∙ ground arith, mapped.full (ground arith))),
                )
          | inr found ↦
              let bytes : slice (v'.bytes a) (off % bsize) m ≡ file_bytes ip' v' off m =
                slice-block ip' v' a off m here found (chunk-bound left off) in
              let (r, run, t) =
                readi_loop-Read fuel (left - m) (tot + m) (off + m) (dst + m)
                  (put dst (file_bytes ip' v' off m) u) ip' v' cp well (omega arith)
                  (omega (arith, chunk-pos left off some)) in
              rw (more, e, found, bytes)
                (
                  r,
                  run,
                  Read-step m left tot off dst u ip ip' v v' r cp (omega arith) h same grows t,
                )
        ]
  ]

  -- On a well-formed file with an offset that is not past its end and copies that do not fail, `readi` returns a
  -- count `k` of at most min n (size - off) bytes and has copied the file's `k` bytes from the offset on; `k` is all
  -- of these bytes unless a block has no address and none is free. The file's bytes stay.
  pub readi-Read :
      (dst off n : ℕ) (u : U) (ip : Inode) (v : Volume)
      → Copies
      → IsWell sb ip v
      → ip.size ≤ max_size
      → off ≤ ip.size
      → off + n < 2 ^ 32
      → (r : Reading U) × (readi sb (λ a bs w. (put a bs w, true)) dst off n u ip v ≡ ok r)
        × Read (min n (ip.size - off)) 0 off dst u ip v r
  unfolding readi
  readi-Read dst off n u ip v cp w hs ho hn =
      let left : ℕ = min n (ip.size - off) in
      let inside : (ltb ip.size off || ltb ((off + n) % 2 ^ 32) off) ≡ false = ground arith in
      let rest : (if ltb ip.size (off + n) then ip.size - off else n) ≡ left = ground arith in
      let (r, run, t) =
        readi_loop-Read left left 0 off dst u ip v cp w (omega arith) (omega arith) in
      rw (inside, rest) (r, run, t)
