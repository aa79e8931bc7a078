-- ===== src/Fs/Dir.antt =====
-- Directories (`dirlookup`, `dirlink` in kernel/fs.c): files of entries of 16 bytes, an inode number of
-- two bytes and a name of 14.
use operating_system_se.Base.{
  ℕ, zero, suc, ◌+◌, ◌-◌, ◌*◌, ◌/◌, ◌%◌, Bool, true, false, not, Option, none, some, List, [], ◌∷◌,
  ◌++◌, ltb, ◌==◌, if◌then◌else◌, get_or, take, drop, Outcome, ok, panic, ◌>>=◌, pos, negsuc,
}
use operating_system_se.Str.{Bytes, strncpy}
use operating_system_se.Fs.Volume.{Superblock, Volume}
use operating_system_se.Fs.Itable.{Inode, iget}
use operating_system_se.Fs.Content.{slice, readi, writei}
use operating_system_se.Fs.Path.{dirsiz, namecmp}
use operating_system_se.Fs.Refs.{FsState, deref, put_inode, iput}

-- T_DIR, and sizeof(struct dirent)
abbrev pub t_dir : ℕ
t_dir = 1

abbrev pub dirent_size : ℕ
dirent_size = 16

-- Copies between kernel addresses do not fail. What readi() copies to `de` is the list of the bytes.
abbrev pub to_kernel : ℕ → List ℕ → List ℕ → List ℕ × Bool
to_kernel dst bs u = (u ++ bs, true)

abbrev pub from_kernel : List ℕ → ℕ → ℕ → List ℕ × Bool
from_kernel bs src m = (take m (drop src bs), true)

-- The fields of struct dirent.
abbrev pub de_inum : List ℕ → ℕ
de_inum de = get_or de 0 0 + 256 * get_or de 1 0

-- Two strings of 14 bytes side by side.
abbrev pub beside : Bytes → Bytes → Bytes
beside s t x = if ltb x dirsiz then s x else t (x - dirsiz)

abbrev pub same_name : Bytes → List ℕ → Bool
same_name name de = elim (namecmp (beside name (λ x. get_or de (x + 2) 0)) 0 dirsiz) [
  | pos n ↦ n == 0
  | negsuc n ↦ false
]

-- Where a scan of a directory ends: at an entry with its inode number, or past the last one.
pub record Entry : Type 0 where
  pub inum : ℕ
  pub off : ℕ

module _ (sb : Superblock) where
  -- readi(dp, 0, &de, off, sizeof(de)): the entry, or none where it was not read whole.
  unfoldable pub read_entry : ℕ → Inode → Volume → Outcome (Option (List ℕ) × (Inode × Volume))
  read_entry off ip v = readi sb to_kernel 0 off dirent_size [] ip v >>= λ r.
      let full : Bool = elim r.result [ pos n ↦ n == dirent_size | negsuc n ↦ false ] in
      ok (if full then some r.dest else none, (r.ip, r.volume))

  -- The loop of `dirlookup` from offset `off` on, for at most `fuel` entries.
  unfoldable pub scan_name :
      Bytes → (fuel off : ℕ) → Inode → Volume → Outcome (Option Entry × (Inode × Volume))
  unfolding read_entry namecmp
  scan_name name zero off ip v = ok (none, (ip, v))
  scan_name name (suc fuel) off ip v =
      let round : Outcome (Option Entry × (Inode × Volume)) =
        read_entry off ip v >>= λ (r, (ip', v')).
        let rest = scan_name name fuel (off + dirent_size) ip' v' in
        elim r [
          | none ↦ panic "dirlookup read"
          | some de ↦
              if de_inum de == 0
              then rest
              else if same_name name de
              then ok (some (record { inum = de_inum de; off = off }), (ip', v'))
              else rest
        ] in
      if ltb off ip.size then round else ok (none, (ip, v))

  -- More rounds than a directory of this size has entries.
  abbrev pub entries : Inode → ℕ
  entries ip = ip.size / dirent_size + 1

  -- `dirlookup` in the directory in slot `d`: the slot of the inode found, and the offset of its entry.
  unfoldable pub dirlookup : ℕ → Bytes → FsState → Outcome (Option (ℕ × ℕ) × FsState)
  unfolding scan_name
  dirlookup d name s = deref d s >>= λ dp.
      if not (dp.type == t_dir)
      then panic "dirlookup not DIR"
      else (scan_name name (entries dp) 0 dp s.volume >>= λ (r, (dp', v')).
          let s' = record (put_inode d dp' s) { volume = v' } in
          elim r [
            | none ↦ ok (none, s')
            | some e ↦
                (iget dp'.dev e.inum s'.inodes >>= λ (i, ips).
                ok (some (i, e.off), record s' { inodes = ips }))
          ])

  -- The loop of `dirlink`: the offset of the first empty entry, or of the end.
  unfoldable pub scan_empty : (fuel off : ℕ) → Inode → Volume → Outcome (ℕ × (Inode × Volume))
  unfolding read_entry
  scan_empty zero off ip v = ok (off, (ip, v))
  scan_empty (suc fuel) off ip v =
      let round : Outcome (ℕ × (Inode × Volume)) = read_entry off ip v >>= λ (r, (ip', v')).
      let rest = scan_empty fuel (off + dirent_size) ip' v' in
      elim r [
        | none ↦ panic "dirlink read"
        | some de ↦ if de_inum de == 0 then ok (off, (ip', v')) else rest
      ] in
      if ltb off ip.size then round else ok (off, (ip, v))

  -- strncpy(de.name, name, DIRSIZ), and de.inum = inum, which is an unsigned short.
  unfoldable pub make_entry : Bytes → ℕ → List ℕ
  unfolding strncpy
  make_entry name inum =
      (inum % 256)
      ∷ (inum / 256 % 256)
      ∷ slice (strncpy (beside (λ x. 0) name) 0 dirsiz dirsiz) 0 dirsiz

  -- `dirlink`: true for 0, false for -1.
  unfoldable pub dirlink : ℕ → Bytes → ℕ → FsState → Outcome (Bool × FsState)
  unfolding dirlookup scan_empty make_entry iput
  dirlink d name inum s = dirlookup d name s >>= λ (r, s1). elim r [
    | some (i, off) ↦ (iput sb i s1 >>= λ s2. ok (false, s2))
    | none ↦
        (deref d s1 >>= λ dp. scan_empty (entries dp) 0 dp s1.volume >>= λ (off, (dp1, v1)).
        writei sb (from_kernel (make_entry name inum)) 0 off dirent_size dp1 v1
        >>= λ (n, (dp2, v2)).
            let done : Bool = elim n [ pos k ↦ k == dirent_size | negsuc k ↦ false ] in
            ok (done, record (put_inode d dp2 s1) { volume = v2 }))
  ]
