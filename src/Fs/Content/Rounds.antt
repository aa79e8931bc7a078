-- ===== src/Fs/Content/Rounds.antt =====
-- A file as its bytes: what a call of `bmap` (kernel/fs.c) keeps of it.
use operating_system_se.Base.{
  ℕ, ◌/◌, ◌%◌, ◌<◌, ◌≡◌, ◌≢◌, ◌⊎◌, inl, inr, refl, ap, sym, ◌∙◌, subst, true, false, ◌==◌,
  if◌then◌else◌, get_or, arith, Bool-cases, ℕ_discrete,
}
use operating_system_se.Fs.Volume.{Superblock, Volume, bsize}
use operating_system_se.Fs.Itable.{Inode}
use operating_system_se.Fs.Bitmap.Refine.{is_free}
use operating_system_se.Fs.Blocks.{ndirect}
use operating_system_se.Fs.Blocks.Owned.{IsSound, IsOwned, New, New-ne}
use operating_system_se.Fs.Blocks.Map.{addr_of}
use operating_system_se.Fs.Blocks.Stable.{Mapped}
use operating_system_se.Fs.Blocks.Opened.{IsFile}
use operating_system_se.Fs.Content.{max_size}

-- A byte of block `a`; 0 is no block.
abbrev pub read_at : ℕ → Volume → ℕ → ℕ
read_at a v o = if a == 0 then 0 else v.bytes a o

pub read_at-same :
    (a : ℕ) (v v' : Volume) (o : ℕ)
    → (a ≢ 0 → v'.bytes a o ≡ v.bytes a o)
    → read_at a v' o ≡ read_at a v o
read_at-same a v v' o h = elim (Bool-cases (a == 0)) [
  | inl z ↦ rw z refl
  | inr ne ↦ rw ne (h (ground arith))
]

read_at-zero : (a : ℕ) (v : Volume) (o : ℕ) → (a ≢ 0 → v.bytes a o ≡ 0) → read_at a v o ≡ 0
read_at-zero a v o h = elim (Bool-cases (a == 0)) [
  | inl z ↦ rw z refl
  | inr ne ↦ rw ne (h (ground arith))
]

-- Byte `x` of a file: a block without an address reads as zeros.
abbrev pub byte_of : Inode → Volume → ℕ → ℕ
byte_of ip v x = read_at (addr_of ip v (x / bsize)) v (x % bsize)

module _ (sb : Superblock) where
  -- The blocks of the file are in use, and no block has two roles in it.
  pub record IsWell (ip : Inode) (v : Volume) : Type 0 where
    pub sound : IsSound sb v
    pub file : IsFile sb ip v
    pub owned : (k : ℕ) → k < 268 → addr_of ip v k ≢ 0 → IsOwned sb v (addr_of ip v k)
    pub apart :
        (j k : ℕ) → j < 268 → k < 268 → addr_of ip v j ≢ 0 → addr_of ip v j ≡ addr_of ip v k → j ≡ k
    pub clear : (k : ℕ) → k < 268 → addr_of ip v k ≢ 0 → addr_of ip v k ≢ get_or ip.addrs ndirect 0

  module _ (bn : ℕ) (ip : Inode) (v : Volume) (a : ℕ) (ip' : Inode) (v' : Volume) (w : IsWell ip v)
      (lt : bn < 268) (m : Mapped sb bn ip v a ip' v') where
    -- Where an address of the new map comes from.
    abbrev Source : ℕ → Type 0
    Source k =
        ((addr_of ip' v' k ≡ addr_of ip v k) × IsOwned sb v (addr_of ip v k))
        ⊎ ((k ≡ bn)
            × (addr_of ip' v' k ≡ a)
            × (addr_of ip v k ≡ 0)
            × New sb v a v'
            × (a ≢ get_or ip'.addrs ndirect 0))

    at_other : (k : ℕ) → k < 268 → k ≢ bn → addr_of ip' v' k ≡ addr_of ip v k
    at_other k hk ne = let e : (k == bn) ≡ false = ground arith in rw e at (m.addrs k hk)

    pub at_bn : addr_of ip' v' bn ≡ a
    at_bn = let e : (bn == bn) ≡ true = ground arith in rw e at (m.addrs bn lt)

    source : (k : ℕ) → k < 268 → addr_of ip' v' k ≢ 0 → Source k
    source k hk ne = elim (ℕ_discrete k bn) [
      | no other ↦ let same = at_other k hk other in inl (same, w.owned k hk (λ z. ne (same ∙ z)))
      | yes here ↦
          let now : addr_of ip' v' k ≡ a = ap (addr_of ip' v') here ∙ at_bn in
          elim (ℕ_discrete (addr_of ip v bn) 0) [
            | no there ↦
                let was : addr_of ip v k ≡ addr_of ip v bn = ap (addr_of ip v) here in
                inl (now ∙ (m.again there).0 ∙ sym was, w.owned k hk (λ z. there (sym was ∙ z)))
            | yes empty ↦
                let (new, off) = m.new empty (λ z. ne (now ∙ z)) in
                inr (here, now, ap (addr_of ip v) here ∙ empty, new, off)
          ]
    ]

    -- A block that was in use is not the indirect block, if it was not before.
    off_indirect :
        (c : ℕ) → IsOwned sb v c → c ≢ get_or ip.addrs ndirect 0 → c ≢ get_or ip'.addrs ndirect 0
    off_indirect c own ne e = elim m.indirect [
      | inl same ↦ ne (e ∙ same)
      | inr (free, _) ↦ ground (arith, own.used, free, ap (is_free sb v) e)
    ]

    pub Mapped-IsWell : IsWell ip' v'
    Mapped-IsWell = record {
      sound = m.extends.sound;
      file = record {
        slots = m.slots ∙ w.file.slots;
        indirect = λ ne. elim m.indirect [
          | inl same ↦ subst (IsOwned sb v') (sym same) (
              m.extends.keeps_owned (get_or ip.addrs ndirect 0)
                (w.file.indirect (λ z. ne (same ∙ z))))
          | inr (free, own) ↦ own
        ];
      };
      owned = λ k hk ne. elim (source k hk ne) [
        | inl (same, own) ↦
            subst (IsOwned sb v') (sym same) (m.extends.keeps_owned (addr_of ip v k) own)
        | inr (here, now, empty, new, off) ↦ subst (IsOwned sb v') (sym now) new.owned
      ];
      apart = λ j k hj hk ne e. elim (source j hj ne) [
        | inl (same_j, own_j) ↦ elim (source k hk (λ z. ne (e ∙ z))) [
          | inl (same_k, own_k) ↦ w.apart j k hj hk (λ z. ne (same_j ∙ z)) (sym same_j ∙ e ∙ same_k)
          | inr (here, now, empty, new, off) ↦
              absurd (New-ne sb v a v' (addr_of ip v j) new own_j (sym same_j ∙ e ∙ now))
        ]
        | inr (here, now, empty, new, off) ↦ elim (source k hk (λ z. ne (e ∙ z))) [
          | inl (same_k, own_k) ↦
              absurd (New-ne sb v a v' (addr_of ip v k) new own_k (sym same_k ∙ sym e ∙ now))
          | inr (here_k, now_k, empty_k, new_k, off_k) ↦ here ∙ sym here_k
        ]
      ];
      clear = λ k hk ne e. elim (source k hk ne) [
        | inl (same, own) ↦
            off_indirect (addr_of ip v k) own (w.clear k hk (λ z. ne (same ∙ z))) (sym same ∙ e)
        | inr (here, now, empty, new, off) ↦ off (sym now ∙ e)
      ];
    }

    pub stays_empty : (k : ℕ) → k < 268 → addr_of ip' v' k ≡ 0 → addr_of ip v k ≡ 0
    stays_empty k hk z = elim (ℕ_discrete k bn) [
      | no other ↦ sym (at_other k hk other) ∙ z
      | yes here ↦ elim (ℕ_discrete (addr_of ip v bn) 0) [
        | yes empty ↦ ap (addr_of ip v) here ∙ empty
        | no there ↦
            absurd (there (sym (m.again there).0 ∙ sym at_bn ∙ sym (ap (addr_of ip' v') here) ∙ z))
      ]
    ]

    pub Mapped-byte_of : (x : ℕ) → x < max_size → byte_of ip' v' x ≡ byte_of ip v x
    Mapped-byte_of x hx =
        let k : ℕ = x / bsize in
        let hk : k < 268 = omega arith in
        let o : ℕ = x % bsize in
        elim (ℕ_discrete (addr_of ip' v' k) 0) [
          | yes hole ↦
              read_at-zero (addr_of ip' v' k) v' o (λ ne. absurd (ne hole))
              ∙ sym (read_at-zero (addr_of ip v k) v o (λ ne. absurd (ne (stays_empty k hk hole))))
          | no there ↦ elim (source k hk there) [
            | inl (same, own) ↦
                ap (λ b. read_at b v' o) same
                ∙ read_at-same (addr_of ip v k) v v' o
                    (λ ne. ap (λ f. f o) (m.extends.keeps (addr_of ip v k) own (w.clear k hk ne)))
            | inr (here, now, empty, new, off) ↦
                ap (λ b. read_at b v' o) now
                ∙ read_at-zero a v' o (λ ne. new.zero o)
                ∙ sym (read_at-zero (addr_of ip v k) v o (λ ne. absurd (ne empty)))
          ]
        ]
