-- ===== src/Fs/Blocks/Stable.antt =====
-- `bmap` (kernel/fs.c) as a change of the map from a file's blocks to addresses.
use operating_system_se.Base.{
  ℕ, ◌+◌, ◌-◌, ◌*◌, ◌≤◌, ◌<◌, ◌≡◌, ◌≢◌, ◌⊎◌, inl, inr, refl, ap, sym, ◌∙◌, subst, length-set, true,
  false, length, ltb, leb, ◌==◌, if◌then◌else◌, get_or, set, ok, arith, Bool-cases,
}
use operating_system_se.Fs.Volume.{Superblock, Volume, get_32}
use operating_system_se.Fs.Itable.{Inode}
use operating_system_se.Fs.Bitmap.Refine.{is_free}
use operating_system_se.Fs.Blocks.{ndirect, nindirect, slot_block, indirect_block, bmap}
use operating_system_se.Fs.Blocks.Owned.{
  IsSound, IsOwned, Extends, Extends-refl, Extends-trans, New, New-ne, Fresh, IsFull,
}
use operating_system_se.Fs.Blocks.Map.{
  addr_of, Given, kept, fresh, none_left, slot_block-Given, indirect_block-Entered, get_or-set,
  get_or-set_ne, entry_at,
}
use operating_system_se.Fs.Blocks.Opened.{IsFile, Opened, opened}

module _ (sb : Superblock) where
  -- What a call of `bmap` for block `bn` leaves: the address `a` at `bn`, and all others as they were. An
  -- address that was there is returned and nothing changes; a new one is that of a block that was free.
  pub record Mapped (bn : ℕ) (ip : Inode) (v : Volume) (a : ℕ) (ip' : Inode) (v' : Volume)
      : Type 0 where
    pub addrs :
        (k : ℕ)
        → k < ndirect + nindirect
        → addr_of ip' v' k ≡ (if k == bn then a else addr_of ip v k)
    pub again : addr_of ip v bn ≢ 0 → (a ≡ addr_of ip v bn) × ((ip' ≡ ip) × (v' ≡ v))
    pub new : addr_of ip v bn ≡ 0 → a ≢ 0 → New sb v a v' × (a ≢ get_or ip'.addrs ndirect 0)
    pub extends : Extends sb (get_or ip.addrs ndirect 0) v v'
    pub slots : length ip'.addrs ≡ length ip.addrs
    pub indirect :
        (get_or ip'.addrs ndirect 0 ≡ get_or ip.addrs ndirect 0)
        ⊎ ((is_free sb v (get_or ip'.addrs ndirect 0) ≡ true)
            × IsOwned sb v' (get_or ip'.addrs ndirect 0))
    pub rest : ip' ≡ record ip { addrs = ip'.addrs }
    pub full : a ≡ 0 → IsFull sb v'

  -- Nothing changes.
  unchanged :
      (bn : ℕ) (ip : Inode) (v : Volume)
      → IsSound sb v
      → (addr_of ip v bn ≡ 0 → IsFull sb v)
      → Mapped bn ip v (addr_of ip v bn) ip v
  unchanged bn ip v s full = record {
    addrs = λ k lt. entry_at sb (addr_of ip v) k bn (addr_of ip v bn) refl;
    again = λ ne. (refl, (refl, refl));
    new = λ z ne. absurd (ne z);
    extends = Extends-refl sb _ v s;
    slots = refl;
    indirect = inl refl;
    rest = refl;
    full = full;
  }

  direct-Mapped :
      (bn : ℕ) (ip : Inode) (v : Volume)
      → IsSound sb v
      → IsFile sb ip v
      → bn < ndirect
      → Mapped bn ip v
          (slot_block sb bn ip v).0
          (slot_block sb bn ip v).1.0
          (slot_block sb bn ip v).1.1
  direct-Mapped bn ip v s file lt =
      let (g, e) = slot_block-Given sb bn ip v s in
      from_given (slot_block sb bn ip v).0 (slot_block sb bn ip v).1.0 (slot_block sb bn ip v).1.1 g
        e
    where
      same_result :
          (a : ℕ) (ip' : Inode) (w : Volume)
          → a ≡ addr_of ip v bn
          → ip' ≡ ip
          → w ≡ v
          → (addr_of ip v bn ≡ 0 → IsFull sb v)
          → Mapped bn ip v a ip' w
      same_result a ip' w at same_ip same full = rw (at, same_ip, same) (unchanged bn ip v s full)

      apart :
          (a : ℕ) (w : Volume) → Fresh sb v a w → {b : ℕ} → b ≡ get_or ip.addrs ndirect 0 → a ≢ b
      apart a w f {b} e h = elim (Bool-cases (get_or ip.addrs ndirect 0 == 0)) [
        | inl z ↦ ground (arith, f.ne)
        | inr ne ↦
            New-ne sb v a w (get_or ip.addrs ndirect 0) f.new (file.indirect (ground arith))
              (sym e ∙ sym h)
      ]

      -- The indirect block is not the fresh one, and keeps its content.
      file_block :
          (a : ℕ) (w : Volume)
          → Fresh sb v a w
          → (k : ℕ) → get_or ip.addrs ndirect 0 ≢ 0
          → get_32 (w.bytes (get_or ip.addrs ndirect 0)) ((k - ndirect) * 4)
            ≡ get_32 (v.bytes (get_or ip.addrs ndirect 0)) ((k - ndirect) * 4)
      file_block a w f k ne =
          ap (λ g. get_32 g ((k - ndirect) * 4))
            ((f.extends 0).keeps (get_or ip.addrs ndirect 0) (file.indirect ne) ne)

      mapped :
          (a : ℕ) (w : Volume)
          → Fresh sb v a w
          → (k : ℕ)
          → (get_or ip.addrs ndirect 0 ≢ 0
              → get_32 (w.bytes (get_or ip.addrs ndirect 0)) ((k - ndirect) * 4)
                ≡ get_32 (v.bytes (get_or ip.addrs ndirect 0)) ((k - ndirect) * 4))
          → addr_of (record ip { addrs = set ip.addrs bn a }) w k
            ≡ (if k == bn then a else addr_of ip v k)
      mapped a w f k same =
          let last = get_or-set_ne ip.addrs bn ndirect a (omega arith) in
          elim (Bool-cases (k == bn)) [
            | inl here ↦
                let at : k ≡ bn = ground arith in
                let direct : ltb k ndirect ≡ true = ground arith in
                let now : get_or (set ip.addrs bn a) k 0 ≡ a =
                  ap (λ j. get_or (set ip.addrs bn a) j 0) at
                  ∙ get_or-set ip.addrs bn a (omega (arith, file.slots)) in
                rw (direct, here) now
            | inr other ↦
                let ne : k ≢ bn = ground arith in
                rw (other, last) (ground (arith, get_or-set_ne ip.addrs bn k a ne, same))
          ]

      from_given :
          (a : ℕ) (ip' : Inode) (w : Volume)
          → Given sb v (get_or ip.addrs bn 0) a w
          → ip'
            ≡ (if a == get_or ip.addrs bn 0 then ip else record ip { addrs = set ip.addrs bn a })
          → Mapped bn ip v a ip' w
      from_given a ip' w (kept there at same) e =
          let ip_same : ip' ≡ ip = ground arith in
          same_result a ip' w (ground (arith, at)) ip_same same (λ z. absurd (ground arith))
      from_given a ip' w (none_left empty at same full) e =
          let ip_same : ip' ≡ ip = ground arith in
          same_result a ip' w (ground (arith, at)) ip_same same (λ z. full)
      from_given a ip' w (fresh empty f) e =
          let ip_new : ip' ≡ record ip { addrs = set ip.addrs bn a } = ground (arith, f.ne) in
          rw ip_new (record {
            addrs = λ k hk. mapped a w f k (file_block a w f k);
            again = λ ne. absurd (ground arith);
            new = λ z ne. (f.new, apart a w f (get_or-set_ne ip.addrs bn ndirect a (omega arith)));
            extends = f.extends _;
            slots = length-set ip.addrs bn a;
            indirect = inl (get_or-set_ne ip.addrs bn ndirect a (omega arith));
            rest = refl;
            full = λ z. absurd (f.ne z);
          })

  -- The address of a block behind an indirect block.
  addr_of-indirect :
      (ip : Inode) (v : Volume) (blk k : ℕ)
      → get_or ip.addrs ndirect 0 ≡ blk
      → blk ≢ 0
      → ndirect ≤ k
      → addr_of ip v k ≡ get_32 (v.bytes blk) ((k - ndirect) * 4)
  addr_of-indirect ip v blk k at ne le =
      ground (arith, ap (λ b. get_32 (v.bytes b) ((k - ndirect) * 4)) at)

  indirect-Mapped :
      (bn : ℕ) (ip : Inode) (v : Volume) (blk : ℕ) (ip1 : Inode) (v1 : Volume)
      → blk ≢ 0
      → ndirect ≤ bn
      → Opened sb ip v blk ip1 v1
      → Mapped bn ip v
          (indirect_block sb blk (bn - ndirect) v1).0
          ip1
          (indirect_block sb blk (bn - ndirect) v1).1
  indirect-Mapped bn ip v blk ip1 v1 ne le o =
      let a : ℕ = (indirect_block sb blk (bn - ndirect) v1).0 in
      let w : Volume = (indirect_block sb blk (bn - ndirect) v1).1 in
      let t = indirect_block-Entered sb blk (bn - ndirect) v1 o.sound (o.owned ne) in
      let before : addr_of ip v bn ≡ get_32 (v1.bytes blk) ((bn - ndirect) * 4) =
        ground (arith, o.entries ne (bn - ndirect)) in
      record {
        addrs = λ k hk. elim (Bool-cases (ltb k ndirect)) [
          | inl low ↦ ground (arith, o.direct k)
          | inr high ↦
              addr_of-indirect ip1 w blk k o.slot ne (ground arith)
              ∙ t.entries (k - ndirect)
              ∙ ground (arith, o.entries ne (k - ndirect))
        ];
        again = λ there.
            let slot_there : get_or ip.addrs ndirect 0 ≢ 0 = λ z. there (ground arith) in
            let (same_ip, same_v) = o.still slot_there in
            let (same_a, same_w) = t.again (λ z. there (before ∙ z)) in
            (same_a ∙ sym before, (same_ip, same_w ∙ same_v));
        new = λ empty got.
            let n = t.new (sym before ∙ empty) got in
            (
              record {
                inside = n.inside;
                was_free = (o.extends 0).frees a n.inside n.was_free;
                owned = n.owned;
                zero = n.zero;
              },
              λ e. New-ne sb v1 a w blk n (o.owned ne) (sym o.slot ∙ sym e),
            );
        extends = grown (indirect_block sb blk (bn - ndirect) v1).1 t.extends;
        slots = o.slots;
        indirect = elim o.new_slot [
          | inl same ↦ inl same
          | inr (z, free) ↦ inr (
            subst (λ b. is_free sb v b ≡ true) (sym o.slot) free,
            subst (IsOwned sb w) (sym o.slot) (t.extends.keeps_owned blk (o.owned ne)),
          )
        ];
        rest = o.rest;
        full = t.full;
      }
    where
      grown : (w : Volume) → Extends sb blk v1 w → Extends sb (get_or ip.addrs ndirect 0) v w
      grown w e =
          let both : Extends sb blk v w = Extends-trans sb blk v v1 w (o.extends blk) e in
          record {
            sound = e.sound;
            keeps = λ c own n. both.keeps c own (other c own n);
            keeps_owned = both.keeps_owned;
            frees = both.frees;
          }
        where
          other : (c : ℕ) → IsOwned sb v c → c ≢ get_or ip.addrs ndirect 0 → c ≢ blk
          other c own n e = elim o.new_slot [
            | inl same ↦ n (e ∙ sym o.slot ∙ same)
            | inr (z, free) ↦ ground (arith, own.used, free, ap (is_free sb v) e)
          ]

  -- No block was left for the indirect block.
  full-Mapped :
      (bn : ℕ) (ip : Inode) (v : Volume) (blk : ℕ) (ip1 : Inode) (v1 : Volume)
      → blk ≡ 0
      → ndirect ≤ bn
      → Opened sb ip v blk ip1 v1
      → Mapped bn ip v 0 ip1 v1
  full-Mapped bn ip v blk ip1 v1 z le o =
      let empty = o.was_none z in
      let slot : get_or ip1.addrs ndirect 0 ≡ 0 = o.slot ∙ z in
      record {
        addrs = λ k hk. ground (arith, o.direct k);
        again = λ there. absurd (ground arith);
        new = λ e ne. absurd (ne refl);
        extends = o.extends _;
        slots = o.slots;
        indirect = inl (slot ∙ sym empty);
        rest = o.rest;
        full = λ e. o.full z;
      }

  -- On a sound volume, for a file and a block number below 268, `bmap` does not panic: the map of addresses
  -- has the returned one at this number and is the old one elsewhere. An address that was there is returned and
  -- nothing changes; a new one is that of a block that was free and is zero; 0 means that no block is free. Blocks in
  -- use keep their content, but for the indirect block.
  pub bmap-Mapped :
      (bn : ℕ) (ip : Inode) (v : Volume)
      → IsSound sb v
      → IsFile sb ip v
      → bn < ndirect + nindirect
      → (a : ℕ) × (ip' : Inode) × (v' : Volume) × (bmap sb bn ip v ≡ ok (a, (ip', v')))
        × Mapped bn ip v a ip' v'
  unfolding bmap
  bmap-Mapped bn ip v s file lt = elim (Bool-cases (ltb bn ndirect)) [
    | inl direct ↦ rw direct (_, _, _, refl, direct-Mapped bn ip v s file (ground arith))
    | inr far ↦
        let (g, e) = slot_block-Given sb ndirect ip v s in
        let blk : ℕ = (slot_block sb ndirect ip v).0 in
        let ip1 : Inode = (slot_block sb ndirect ip v).1.0 in
        let v1 : Volume = (slot_block sb ndirect ip v).1.1 in
        let o = opened sb ip v blk ip1 v1 s file g e in
        let range : leb nindirect (bn - ndirect) ≡ false = ground arith in
        elim (Bool-cases (blk == 0)) [
          | inl gone ↦
              rw (far, range, gone)
                (_, _, _, refl, full-Mapped bn ip v blk ip1 v1 (ground arith) (ground arith) o)
          | inr there ↦
              rw (far, range, there)
                (_, _, _, refl, indirect-Mapped bn ip v blk ip1 v1 (ground arith) (ground arith) o)
        ]
  ]
