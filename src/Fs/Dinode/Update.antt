-- ===== src/Fs/Dinode/Update.antt =====
-- `iupdate` and then `ilock` (kernel/fs.c), of the same inode or of another.
use operating_system_se.Base.{
  ℕ, zero, suc, ◌+◌, ◌*◌, ◌^◌, ◌≤◌, ◌<◌, ◌≡◌, ◌≢◌, ◌⊎◌, inl, refl, ap, ap₂, sym, ◌∙◌, true, false,
  List, [], ◌∷◌, All, length, ok, arith,
}
use operating_system_se.Fs.Volume.{Superblock, Volume, get_16, put_16, get_32, put_32}
use operating_system_se.Fs.Volume.Words.{
  get_16-put_16, get_32-put_32, get_16-frame, get_32-frame, put_16-outside, put_32-outside,
}
use operating_system_se.Fs.Itable.{Inode}
use operating_system_se.Fs.Dinode.{
  n_addrs, iblock, ioffset, get_words, put_words, put_dinode, get_dinode, iupdate, ilock,
}

put_words-outside :
    (ws : List ℕ) (f : ℕ → ℕ) (o x : ℕ)
    → (x < o) ⊎ (o + length ws * 4 ≤ x)
    → put_words f o ws x ≡ f x
unfolding put_words
put_words-outside [] f o x h = refl
put_words-outside (w ∷ ws) f o x h =
    put_words-outside ws (put_32 f o w) (o + 4) x (omega arith)
    ∙ put_32-outside f o w x (omega arith)

get_words-frame :
    (n : ℕ) (f g : ℕ → ℕ) (o : ℕ)
    → ((x : ℕ) → o ≤ x → x < o + n * 4 → g x ≡ f x)
    → get_words g o n ≡ get_words f o n
unfolding get_words
get_words-frame zero f g o h = refl
get_words-frame (suc n) f g o h =
    ap₂ (λ w ws. w ∷ ws)
      (get_32-frame f g o (h o (omega arith) (omega arith)) (h (o + 1) (omega arith) (omega arith))
        (h (o + 2) (omega arith) (omega arith)) (h (o + 3) (omega arith) (omega arith)))
      (get_words-frame n f g (o + 4) (λ x lo hi. h x (omega arith) (omega arith)))

get_words-put_words :
    (ws : List ℕ) (f : ℕ → ℕ) (o : ℕ)
    → All (λ w. w < 2 ^ 32) ws
    → get_words (put_words f o ws) o (length ws) ≡ ws
unfolding get_words put_words
get_words-put_words [] f o h = refl
get_words-put_words (w ∷ ws) f o h =
    let keep : (x : ℕ) → x < o + 4 → put_words (put_32 f o w) (o + 4) ws x ≡ put_32 f o w x =
      λ x lt. put_words-outside ws (put_32 f o w) (o + 4) x (inl lt) in
    ap₂ (λ w ws. w ∷ ws)
      (get_32-frame (put_32 f o w) (put_words (put_32 f o w) (o + 4) ws) o (keep o (omega arith))
          (keep (o + 1) (omega arith)) (keep (o + 2) (omega arith)) (keep (o + 3) (omega arith))
        ∙ get_32-put_32 f o w h.0)
      (get_words-put_words ws (put_32 f o w) (o + 4) h.1)

-- The fields fit into struct dinode.
pub record IsStorable (ip : Inode) : Type 0 where
  pub type : ip.type < 2 ^ 16
  pub major : ip.major < 2 ^ 16
  pub minor : ip.minor < 2 ^ 16
  pub nlink : ip.nlink < 2 ^ 16
  pub size : ip.size < 2 ^ 32
  pub count : length ip.addrs ≡ n_addrs
  pub addrs : All (λ w. w < 2 ^ 32) ip.addrs

-- The inode `jp` with the fields of `ip` that are on disk.
abbrev pub with_fields : Inode → Inode → Inode
with_fields ip jp = record jp {
  valid = true;
  type = ip.type;
  major = ip.major;
  minor = ip.minor;
  nlink = ip.nlink;
  size = ip.size;
  addrs = ip.addrs;
}

module _ (f : ℕ → ℕ) (o : ℕ) (ip : Inode) where
  -- The block after each assignment.
  abbrev pub with_type : ℕ → ℕ
  with_type = put_16 f o ip.type

  abbrev with_major : ℕ → ℕ
  with_major = put_16 with_type (o + 2) ip.major

  abbrev with_minor : ℕ → ℕ
  with_minor = put_16 with_major (o + 4) ip.minor

  abbrev with_nlink : ℕ → ℕ
  with_nlink = put_16 with_minor (o + 6) ip.nlink

  abbrev with_size : ℕ → ℕ
  with_size = put_32 with_nlink (o + 8) ip.size

  put_dinode-below : (x : ℕ) → x < o + 12 → put_dinode f o ip x ≡ with_size x
  unfolding put_dinode
  put_dinode-below x h = put_words-outside ip.addrs with_size (o + 12) x (inl h)

  pub put_dinode-outside :
      (x : ℕ) → length ip.addrs ≡ n_addrs → (x < o) ⊎ (o + 64 ≤ x) → put_dinode f o ip x ≡ f x
  unfolding put_dinode
  put_dinode-outside x n h =
      put_words-outside ip.addrs with_size (o + 12) x (omega arith)
      ∙ put_32-outside with_nlink (o + 8) ip.size x (omega arith)
      ∙ put_16-outside with_minor (o + 6) ip.nlink x (omega arith)
      ∙ put_16-outside with_major (o + 4) ip.minor x (omega arith)
      ∙ put_16-outside with_type (o + 2) ip.major x (omega arith)
      ∙ put_16-outside f o ip.type x (omega arith)

  -- The bytes of a field are not touched after it is assigned.
  nlink_stays : (x : ℕ) → x < o + 8 → put_dinode f o ip x ≡ with_nlink x
  nlink_stays x h =
      put_dinode-below x (omega arith) ∙ put_32-outside with_nlink (o + 8) ip.size x (omega arith)

  minor_stays : (x : ℕ) → x < o + 6 → put_dinode f o ip x ≡ with_minor x
  minor_stays x h =
      nlink_stays x (omega arith) ∙ put_16-outside with_minor (o + 6) ip.nlink x (omega arith)

  major_stays : (x : ℕ) → x < o + 4 → put_dinode f o ip x ≡ with_major x
  major_stays x h =
      minor_stays x (omega arith) ∙ put_16-outside with_major (o + 4) ip.minor x (omega arith)

  pub type_stays : (x : ℕ) → x < o + 2 → put_dinode f o ip x ≡ with_type x
  type_stays x h =
      major_stays x (omega arith) ∙ put_16-outside with_type (o + 2) ip.major x (omega arith)

  -- A field of two bytes that stays is read back.
  pub field_16 :
      (g h : ℕ → ℕ) (p v : ℕ)
      → v < 2 ^ 16
      → ((x : ℕ) → x < p + 2 → g x ≡ put_16 h p v x)
      → get_16 g p ≡ v
  field_16 g h p v lt stays =
      get_16-frame (put_16 h p v) g p (stays p (omega arith)) (stays (p + 1) (omega arith))
      ∙ get_16-put_16 h p v lt

  get_size : ip.size < 2 ^ 32 → get_32 (put_dinode f o ip) (o + 8) ≡ ip.size
  get_size h =
      get_32-frame with_size (put_dinode f o ip) (o + 8) (put_dinode-below (o + 8) (omega arith))
        (put_dinode-below (o + 8 + 1) (omega arith)) (put_dinode-below (o + 8 + 2) (omega arith))
        (put_dinode-below (o + 8 + 3) (omega arith))
      ∙ get_32-put_32 with_nlink (o + 8) ip.size h

  get_addrs : IsStorable ip → get_words (put_dinode f o ip) (o + 12) n_addrs ≡ ip.addrs
  unfolding put_dinode
  get_addrs h =
      ap (get_words (put_words with_size (o + 12) ip.addrs) (o + 12)) (sym h.count)
      ∙ get_words-put_words ip.addrs with_size (o + 12) h.addrs

  pub get_dinode-put_dinode :
      (jp : Inode) → IsStorable ip → get_dinode (put_dinode f o ip) o jp ≡ with_fields ip jp
  unfolding get_dinode
  get_dinode-put_dinode jp h =
      let g : ℕ → ℕ = put_dinode f o ip in
      let t : get_16 g o ≡ ip.type = field_16 g f o ip.type h.type (λ x lt. type_stays x lt) in
      let a : get_16 g (o + 2) ≡ ip.major =
        field_16 g with_type (o + 2) ip.major h.major (λ x lt. major_stays x (omega arith)) in
      let i : get_16 g (o + 4) ≡ ip.minor =
        field_16 g with_major (o + 4) ip.minor h.minor (λ x lt. minor_stays x (omega arith)) in
      let n : get_16 g (o + 6) ≡ ip.nlink =
        field_16 g with_minor (o + 6) ip.nlink h.nlink (λ x lt. nlink_stays x (omega arith)) in
      rw (t, a, i, n, get_size h.size, get_addrs h) refl

get_dinode-frame :
    (f g : ℕ → ℕ) (o : ℕ) (jp : Inode)
    → ((x : ℕ) → o ≤ x → x < o + 64 → g x ≡ f x)
    → get_dinode g o jp ≡ get_dinode f o jp
unfolding get_dinode
get_dinode-frame f g o jp h =
    let same : (p : ℕ) → o ≤ p → p + 1 < o + 64 → get_16 g p ≡ get_16 f p =
      λ p lo hi. get_16-frame f g p (h p lo (omega arith)) (h (p + 1) (omega arith) hi) in
    let size : get_32 g (o + 8) ≡ get_32 f (o + 8) =
      get_32-frame f g (o + 8) (h (o + 8) (omega arith) (omega arith))
        (h (o + 8 + 1) (omega arith) (omega arith)) (h (o + 8 + 2) (omega arith) (omega arith))
        (h (o + 8 + 3) (omega arith) (omega arith)) in
    let addrs : get_words g (o + 12) n_addrs ≡ get_words f (o + 12) n_addrs =
      get_words-frame n_addrs f g (o + 12) (λ x lo hi. h x (omega arith) (omega arith)) in
    rw
      (
        same o (omega arith) (omega arith),
        same (o + 2) (omega arith) (omega arith),
        same (o + 4) (omega arith) (omega arith),
        same (o + 6) (omega arith) (omega arith),
        size,
        addrs,
      )
      refl

-- An inode with a type whose fields fit is written by `iupdate`: `ilock` of an entry for the same inode that is
-- not valid and has a reference gives the fields that were written.
pub ilock-iupdate :
    (sb : Superblock) (ip jp : Inode) (v : Volume)
    → IsStorable ip
    → ip.type ≢ 0
    → jp.inum ≡ ip.inum
    → jp.valid ≡ false
    → 0 < jp.ref
    → ilock sb (iupdate sb ip v) jp ≡ ok (with_fields ip jp)
unfolding ilock iupdate
ilock-iupdate sb ip jp v h typed same stale held =
    let b = iblock sb ip.inum in
    let o = ioffset ip.inum in
    let now : (iupdate sb ip v).bytes (iblock sb jp.inum) ≡ put_dinode (v.bytes b) o ip =
      ground (arith, same) in
    let loaded =
      ap₂ (λ f o. get_dinode f o jp) now (ap ioffset same)
      ∙ get_dinode-put_dinode (v.bytes b) o ip jp h in
    rw loaded (ground arith)

-- `iupdate` of an inode whose fields fit does not change what `ilock` gives for another inode.
pub ilock-iupdate_ne :
    (sb : Superblock) (ip jp : Inode) (v : Volume)
    → IsStorable ip
    → jp.inum ≢ ip.inum
    → ilock sb (iupdate sb ip v) jp ≡ ilock sb v jp
unfolding ilock iupdate
ilock-iupdate_ne sb ip jp v h ne =
    let b = iblock sb jp.inum in
    let o = ioffset jp.inum in
    let stays : get_dinode ((iupdate sb ip v).bytes b) o jp ≡ get_dinode (v.bytes b) o jp =
      get_dinode-frame (v.bytes b) ((iupdate sb ip v).bytes b) o jp (λ x lo hi.
        ground (arith, put_dinode-outside (v.bytes b) (ioffset ip.inum) ip x h.count)) in
    rw stays refl
