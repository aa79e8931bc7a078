-- ===== src/Fs/DiskTests.antt =====
-- The theorems on the disk (kernel/fs.c) at a small disk: ten blocks, of which 0 to 4 are in use, inodes in
-- block 3 and the bitmap in block 2.
use operating_system_se.Base.{
  ℕ, zero, suc, ◌%◌, ◌^◌, All, ◌≤◌, ◌<◌, ◌≡◌, ◌≢◌, ◌⊎◌, ◌∙◌, ◌&&◌, ◌||◌, refl, sym, ap, inl, inr,
  arith, ◌==◌, if◌then◌else◌, List, [], ◌∷◌, ◌++◌, false, true, replicate, ok, pos, get_or,
}
use mathlib.Core.List.{append-nil, append_assoc}
use operating_system_se.Fs.Volume.{Superblock, Volume}
use operating_system_se.Fs.Itable.{Inode}
use operating_system_se.Fs.Bitmap.{bit_free, balloc}
use operating_system_se.Fs.Bitmap.Refine.{is_free, IsBitmap, Allocates, balloc-Allocates}
use operating_system_se.Fs.Dinode.{iupdate, ilock}
use operating_system_se.Fs.Dinode.Update.{IsStorable, ilock-iupdate}
use operating_system_se.Fs.Blocks.{bmap, itrunc, ndirect}
use operating_system_se.Fs.Blocks.Owned.{IsSound, IsOwned, IsFull}
use operating_system_se.Fs.Blocks.Map.{addr_of}
use operating_system_se.Fs.Blocks.Stable.{Mapped, bmap-Mapped}
use operating_system_se.Fs.Content.{slice, Reading, readi, writei}
use operating_system_se.Fs.Content.Rounds.{IsWell}
use operating_system_se.Fs.Content.Read.{Copies}
use operating_system_se.Fs.Content.Store.{IsApart}
use operating_system_se.Fs.Content.RoundTrip.{Written, writei-Written, readi-writei}
use operating_system_se.Fs.Refs.{FsState, iput}
use operating_system_se.Fs.Refs.Put.{Freed, iput-Freed}
use operating_system_se.Fs.Content.Truncate.{in_file, itrunc-Frees}

abbrev disk : Superblock
disk = record { size = 10; ninodes = 16; inodestart = 3; bmapstart = 2 }

abbrev volume : Volume
volume = record {
  bytes = λ b o. if (b == 2) && (o == 0) then 31 else if b == 4 then 65 else 0;
  logged = [];
}

-- A file of ten bytes "A" in block 4.
abbrev file : Inode
file = record {
  dev = 1;
  inum = 1;
  ref = 1;
  valid = true;
  type = 2;
  major = 0;
  minor = 0;
  nlink = 1;
  size = 10;
  addrs = 4 ∷ replicate 12 0;
}

volume-IsBitmap : IsBitmap disk volume
unfolding bit_free
volume-IsBitmap = record {
  bytes = λ b o. ground arith;
  own = λ b c hb hc free e.
      let at : c ≡ 2 = omega arith in ground (arith, sym (ap (is_free disk volume) at) ∙ free);
}

volume-IsSound : IsSound disk volume
unfolding bit_free
volume-IsSound = record { bitmap = volume-IsBitmap; boot = refl; small = omega arith }

-- The blocks in use but for that of the bitmap.
in_use : (b : ℕ) → (b ≡ 3) ⊎ (b ≡ 4) → IsOwned disk volume b
unfolding bit_free
in_use b (inl e) = record {
  inside = omega arith;
  used = ap (is_free disk volume) e;
  plain = λ c h z. omega (arith, e, z);
}
in_use b (inr e) = record {
  inside = omega arith;
  used = ap (is_free disk volume) e;
  plain = λ c h z. omega (arith, e, z);
}

-- Only block 0 of the file has an address.
abbrev zeros : ℕ → List ℕ
zeros n = replicate n 0

zero_slot : (n k : ℕ) → get_or (zeros n) k 0 ≡ 0
zero_slot zero k = refl
zero_slot (suc n) zero = refl
zero_slot (suc n) (suc k) = zero_slot n k

zeros_small : (n : ℕ) → All (λ w. w < 2 ^ 32) (zeros n)
zeros_small zero = tt
zeros_small (suc n) = (omega arith, zeros_small n)

only_first : (k : ℕ) → addr_of file volume k ≡ (if k == 0 then 4 else 0)
only_first zero = refl
only_first (suc k) = ground (arith, zero_slot 12 k)

first_of : (k : ℕ) → addr_of file volume k ≢ 0 → k ≡ 0
first_of k ne = ground (arith, only_first k, ne)

file-IsWell : IsWell disk file volume
file-IsWell = record {
  sound = volume-IsSound;
  file = record { slots = refl; indirect = λ ne. absurd (ne refl) };
  owned = λ k h ne. in_use _ (inr (ap (addr_of file volume) (first_of k ne)));
  apart = λ j k hj hk ne e. first_of j ne ∙ sym (first_of k (λ z. ne (e ∙ z)));
  clear = λ k h ne e. ne e;
}

file-IsApart : IsApart disk 3 file volume
file-IsApart = record {
  owned = in_use 3 (inl refl);
  from_addrs = λ k h e. ground (arith, only_first k, e);
  from_indirect = omega arith;
}

balloc-Allocates_example : Allocates disk volume (balloc disk volume)
balloc-Allocates_example = balloc-Allocates disk volume volume-IsBitmap

file-IsStorable : IsStorable file
file-IsStorable = record {
  type = omega arith;
  major = omega arith;
  minor = omega arith;
  nlink = omega arith;
  size = omega arith;
  count = refl;
  addrs = (omega arith, zeros_small 12);
}

abbrev stale : Inode
stale = record file { valid = false; size = 0; addrs = [] }

ilock-iupdate_example : ilock disk (iupdate disk file volume) stale ≡ ok file
ilock-iupdate_example =
    ilock-iupdate disk file stale volume file-IsStorable (omega arith) refl refl (omega arith)

-- Block 5 of the file has no address yet.
bmap-Mapped_example :
    (a : ℕ) × (ip' : Inode) × (v' : Volume) × (bmap disk 5 file volume ≡ ok (a, (ip', v')))
    × Mapped disk 5 file volume a ip' v'
bmap-Mapped_example = bmap-Mapped disk 5 file volume volume-IsSound file-IsWell.file (omega arith)

-- The memory as the list of the bytes that were stored.
abbrev push : ℕ → List ℕ → List ℕ → List ℕ
push a bs u = u ++ bs

push-Copies : Copies disk push
push-Copies = record { none = λ dst u. append-nil u; joins = λ dst xs ys u. append_assoc u xs ys }

-- The bytes 0, 1, 2, ... of the memory are those of their address.
abbrev source : ℕ → ℕ
source a = a % 256

writei-Written_example :
    (k : ℕ) × (ip' : Inode) × (v' : Volume) × (writei disk
        (λ a m. (slice source a m, true))
        300
        8
        2000
        file
        volume
      ≡ ok (pos k, (ip', v')))
    × Written disk source 8 2000 300 file volume k ip' v'
writei-Written_example =
    writei-Written disk source 300 8 2000 file volume
      (record { well = file-IsWell; apart = file-IsApart }) (omega arith) (λ o. omega arith)
      (omega arith) (omega arith)

readi-writei_example :
    (k : ℕ) × (ip' : Inode) × (v' : Volume) × (r : Reading (List ℕ)) × (writei disk
        (λ a m. (slice source a m, true))
        300
        8
        2000
        file
        volume
      ≡ ok (pos k, (ip', v')))
    × (readi disk (λ a bs w. (push a bs w, true)) 500 8 k [] ip' v' ≡ ok r)
    × (r.result ≡ pos k)
    × (r.dest ≡ push 500 (slice source 300 k) [])
    × ((k ≡ 2000) ⊎ IsFull disk v')
readi-writei_example =
    readi-writei disk source push 300 8 2000 500 [] file volume push-Copies
      (record { well = file-IsWell; apart = file-IsApart }) (omega arith) (λ o. omega arith)
      (omega arith) (omega arith) (omega arith)

itrunc-Frees_example :
    (ip' : Inode) × (v' : Volume) × (itrunc disk file volume ≡ ok (ip', v'))
    × (ip' ≡ record file { addrs = ip'.addrs; size = 0 })
    × ((k : ℕ) → k ≤ ndirect → get_or ip'.addrs k 0 ≡ 0)
    × IsSound disk v'
    × ((c : ℕ) → c < 10 → is_free disk v' c ≡ (in_file disk file volume c || is_free disk volume c))
itrunc-Frees_example = itrunc-Frees disk file volume file-IsWell file-IsApart

-- The same file without a link, in the table of inodes.
abbrev gone : Inode
gone = record file { nlink = 0 }

abbrev state : FsState
state = record { inodes = gone ∷ []; volume = volume }

gone-IsWell : IsWell disk gone volume
gone-IsWell = record {
  sound = volume-IsSound;
  file = record { slots = refl; indirect = λ ne. absurd (ne refl) };
  owned = file-IsWell.owned;
  apart = file-IsWell.apart;
  clear = file-IsWell.clear;
}

gone-IsApart : IsApart disk 3 gone volume
gone-IsApart = record {
  owned = file-IsApart.owned;
  from_addrs = file-IsApart.from_addrs;
  from_indirect = file-IsApart.from_indirect;
}

iput-Freed_example : (s : FsState) × (iput disk 0 state ≡ ok s) × Freed disk 0 gone state s
iput-Freed_example = iput-Freed disk 0 gone state refl refl gone-IsWell gone-IsApart
