-- ===== src/Sysfile/Undo.antt =====
-- The error path of `sys_link` (kernel/sysfile.c).
use operating_system_se.Base.{
  ℕ, zero, suc, ◌+◌, ◌-◌, ◌%◌, ◌^◌, ◌<◌, ◌≡◌, ◌≢◌, refl, ap, sym, ◌∙◌, Bool, true, false, none,
  some, List, [], ◌∷◌, ltb, if◌then◌else◌, Outcome, ok, subst, panic, ◌>>=◌, get_elem?, set, length,
  length-set, get_elem?-set_self, lt_of_get_elem?, arith, ==_ne, ◌==◌,
}
use operating_system_se.Str.{Bytes}
use operating_system_se.Fs.Volume.{Superblock, Volume}
use operating_system_se.Fs.Itable.{Inode}
use operating_system_se.Fs.Dinode.{iupdate, ilock}
use operating_system_se.Fs.Dinode.Update.{IsStorable, with_fields, ilock-iupdate}
use operating_system_se.Fs.Refs.{FsState, deref, put_inode, ilock_at, iput, ifree, unlinked}
use operating_system_se.Fs.Dir.{t_dir, dirlink}
use operating_system_se.Fs.Names.{namei, nameiparent}
use operating_system_se.Sysfile.Paths.{
  maxpath, more_links, fewer_links, change_inode, link_bad, link_name, sys_link,
}

deref_run : (i : ℕ) (s : FsState) (ip : Inode) → get_elem? s.inodes i ≡ some ip → deref i s ≡ ok ip
deref_run i s ip e = ap (λ o. elim o [ some jp ↦ ok jp | none ↦ panic "null inode" ]) e

module _ (sb : Superblock) where
  -- The state after a change of the inode.
  abbrev pub changed : (Inode → Inode) → ℕ → Inode → FsState → FsState
  changed f i ip s = record (put_inode i (f ip) s) { volume = iupdate sb (f ip) s.volume }

  change_run :
      (f : Inode → Inode) (i : ℕ) (s : FsState) (ip : Inode)
      → get_elem? s.inodes i ≡ some ip
      → change_inode sb f i s ≡ ok (changed f i ip s)
  unfolding change_inode
  change_run f i s ip e = ap (λ o. o >>= λ jp. ok (changed f i jp s)) (deref_run i s ip e)

  ilock_valid : (v : Volume) (ip : Inode) → ip.valid ≡ true → 0 < ip.ref → ilock sb v ip ≡ ok ip
  unfolding ilock
  ilock_valid v ip valid held =
      (let fine : ltb ip.ref 1 ≡ false = ground arith in rw (fine, valid) refl)

  ilock_run :
      (i : ℕ) (s : FsState) (ip : Inode)
      → get_elem? s.inodes i ≡ some ip
      → ip.valid ≡ true
      → 0 < ip.ref
      → ilock_at sb i s ≡ ok (put_inode i ip s)
  unfolding ilock_at
  ilock_run i s ip e valid held =
      ap (λ o. o >>= λ jp. ilock sb s.volume jp >>= λ jp'. ok (put_inode i jp' s))
        (deref_run i s ip e)
      ∙ ap (λ o. o >>= λ jp'. ok (put_inode i jp' s)) (ilock_valid s.volume ip valid held)

  iput_run :
      (i : ℕ) (s : FsState) (ip : Inode)
      → get_elem? s.inodes i ≡ some ip
      → unlinked sb ip ≡ false
      → iput sb i s ≡ ok (put_inode i (record ip { ref = ip.ref - 1 }) s)
  unfolding iput
  iput_run i s ip e linked =
      ap
        (λ o. o >>= λ jp.
          (if unlinked sb jp then ifree sb jp s.volume else ok (jp, s.volume)) >>= λ (jp', v').
          ok (record { inodes = set s.inodes i (record jp' { ref = jp'.ref - 1 }); volume = v' }))
        (deref_run i s ip e)
      ∙ ap
          (λ b. (if b then ifree sb ip s.volume else ok (ip, s.volume)) >>= λ (jp', v').
            ok (record { inodes = set s.inodes i (record jp' { ref = jp'.ref - 1 }); volume = v' }))
          linked

same_number : (m n : ℕ) → m ≡ n → (m == n) ≡ true
same_number m n e = ground arith

set_twice : (l : List Inode) (i : ℕ) (x y : Inode) → set (set l i x) i y ≡ set l i y
set_twice [] i x y = refl
set_twice (z ∷ l) zero x y = refl
set_twice (z ∷ l) (suc i) x y = ap (λ r. z ∷ r) (set_twice l i x y)

fewer-more : (ip : Inode) → ip.nlink < 2 ^ 16 → fewer_links (more_links ip) ≡ ip
fewer-more ip lt =
    (let e : ((ip.nlink + 1) % 2 ^ 16 + (2 ^ 16 - 1)) % 2 ^ 16 ≡ ip.nlink = omega arith in
      rw e refl)

-- What is left of a link that could not be made: the result is false, in memory the inode `ip` is as it was, with
-- one reference less than the `r` that it had, other inodes are those of `s`, and on disk its fields are those
-- from before.
abbrev pub Undone :
    Superblock → ℕ → Bytes → Inode → ℕ → FsState → Outcome (Bool × (Bytes × FsState)) → Type 0
Undone sb i mem ip r s res =
    (s' : FsState) × (res ≡ ok (false, (mem, s')))
    × (s'.inodes ≡ set s.inodes i (record ip { ref = r - 1 }))
    × ((jp : Inode)
        → jp.inum ≡ ip.inum
        → jp.valid ≡ false
        → 0 < jp.ref
        → ilock sb s'.volume jp ≡ ok (with_fields ip jp))

still_there :
    (l : List Inode) (i : ℕ) (x y : Inode)
    → i < length l
    → get_elem? (set (set l i x) i y) i ≡ some y
still_there l i x y lt = get_elem?-set_self (set l i x) i y (rw (length-set l i x) lt)

has_links : (sb : Superblock) (ip : Inode) → ip.nlink ≢ 0 → unlinked sb ip ≡ false
has_links sb ip linked = ground arith

link_bad_run :
    (sb : Superblock) (i : ℕ) (mem : Bytes) (s s1 s2 s3 : FsState)
    → ilock_at sb i s ≡ ok s1
    → change_inode sb fewer_links i s1 ≡ ok s2
    → iput sb i s2 ≡ ok s3
    → link_bad sb i mem s ≡ ok (false, (mem, s3))
unfolding link_bad
link_bad_run sb i mem s s1 s2 s3 e1 e2 e3 =
    ap
      (λ o. o >>= λ a.
        change_inode sb fewer_links i a >>= λ b. iput sb i b >>= λ c. ok (false, (mem, c)))
      e1
    ∙ ap (λ o. o >>= λ b. iput sb i b >>= λ c. ok (false, (mem, c))) e2
    ∙ ap (λ o. o >>= λ c. ok (false, (mem, c))) e3

counted-Undone :
    (sb : Superblock) (i : ℕ) (mem : Bytes) (ip : Inode) (r : ℕ) (t1 : FsState)
    → get_elem? t1.inodes i ≡ some (more_links (record ip { ref = r }))
    → ip.valid ≡ true
    → 0 < r
    → ip.nlink ≢ 0
    → ip.type ≢ 0
    → IsStorable ip
    → Undone sb i mem ip r t1 (link_bad sb i mem t1)
counted-Undone sb i mem ip r t1 at1 valid some_ref linked typed storable =
    let kp : Inode = record ip { ref = r } in
    let m = more_links kp in
    let lt = lt_of_get_elem? t1.inodes i m at1 in
    let same : fewer_links m ≡ kp = fewer-more kp storable.nlink in
    let t2 = put_inode i m t1 in
    let t3 : FsState = record (put_inode i kp t2) { volume = iupdate sb kp t1.volume } in
    let t4 = put_inode i (record ip { ref = r - 1 }) t3 in
    let at2 = get_elem?-set_self t1.inodes i m lt in
    let at3 = still_there t1.inodes i m kp lt in
    let run2 =
      change_run sb fewer_links i t2 m at2
      ∙ ap (λ x. ok (record (put_inode i x t2) { volume = iupdate sb x t1.volume })) same in
    (
      t4,
      link_bad_run sb i mem t1 t2 t3 t4 (ilock_run sb i t1 m at1 valid some_ref) run2
          (iput_run sb i t3 kp at3 (has_links sb kp linked)),
      ap (λ l. set l i (record ip { ref = r - 1 })) (set_twice t1.inodes i m kp)
          ∙ set_twice t1.inodes i kp (record ip { ref = r - 1 }),
      λ jp num stale ref.
          ilock-iupdate sb kp jp t1.volume
            (record {
              type = storable.type;
              major = storable.major;
              minor = storable.minor;
              nlink = storable.nlink;
              size = storable.size;
              count = storable.count;
              addrs = storable.addrs;
            })
            typed num stale ref,
    )

-- How `sys_link` comes to `bad`, from the state in which it has counted the link: there is no directory for the
-- new name; or the directory, in slot `d`, is on another device; or the entry cannot be made, since the name is
-- taken or the disk is full. The last two give the directory back.
pub data Fails (sb : Superblock) (i new name cwd : ℕ) (mem : Bytes) (s : FsState)
    : Bytes → FsState → Type 0 where
  no_parent :
      {mem' : Bytes} {s' : FsState}
      → nameiparent sb maxpath new name cwd mem s ≡ ok (none, (mem', s'))
      → Fails sb i new name cwd mem s mem' s'
  other_device :
      {mem' : Bytes} {s3 : FsState} (s1 s2 : FsState) (d : ℕ) (dp ip : Inode)
      → nameiparent sb maxpath new name cwd mem s ≡ ok (some d, (mem', s1))
      → ilock_at sb d s1 ≡ ok s2
      → get_elem? s2.inodes d ≡ some dp
      → get_elem? s2.inodes i ≡ some ip
      → dp.dev ≢ ip.dev
      → iput sb d s2 ≡ ok s3
      → Fails sb i new name cwd mem s mem' s3
  no_entry :
      {mem' : Bytes} {s4 : FsState} (s1 s2 s3 : FsState) (d : ℕ) (dp ip : Inode)
      → nameiparent sb maxpath new name cwd mem s ≡ ok (some d, (mem', s1))
      → ilock_at sb d s1 ≡ ok s2
      → get_elem? s2.inodes d ≡ some dp
      → get_elem? s2.inodes i ≡ some ip
      → dp.dev ≡ ip.dev
      → dirlink sb d (λ x. mem' (name + x)) ip.inum s2 ≡ ok (false, s3)
      → iput sb d s3 ≡ ok s4
      → Fails sb i new name cwd mem s mem' s4

link_name-bad :
    (sb : Superblock) (i new name cwd : ℕ) (mem mem' : Bytes) (s s' : FsState)
    → Fails sb i new name cwd mem s mem' s'
    → link_name sb i new name cwd mem s ≡ link_bad sb i mem' s'
unfolding link_name
link_name-bad sb i new name cwd mem mem' s s' (no_parent none_there) = rw none_there refl
link_name-bad sb i new name cwd mem mem' s s'
      (other_device s1 s2 d dp ip found lock at_d at_i differ put) =
    rw
      (found, lock, deref_run d s2 dp at_d, deref_run i s2 ip at_i, ==_ne dp.dev ip.dev differ, put)
      refl
link_name-bad sb i new name cwd mem mem' s s'
      (no_entry s1 s2 s3 d dp ip found lock at_d at_i same full put) =
    rw
      (
        found,
        lock,
        deref_run d s2 dp at_d,
        deref_run i s2 ip at_i,
        same_number dp.dev ip.dev same,
        full,
        put,
      )
      refl

sys_link-name :
    (sb : Superblock) (old new name cwd i : ℕ) (mem mem1 : Bytes) (s s1 s2 : FsState) (ip : Inode)
    → namei sb maxpath old name cwd mem s ≡ ok (some i, (mem1, s1))
    → ilock_at sb i s1 ≡ ok s2
    → get_elem? s2.inodes i ≡ some ip
    → ip.type ≢ t_dir
    → sys_link sb (some old) (some new) name cwd mem s
      ≡ link_name sb i new name cwd mem1 (changed sb more_links i ip s2)
unfolding sys_link
sys_link-name sb old new name cwd i mem mem1 s s1 s2 ip found lock here file =
    rw
      (
        found,
        lock,
        deref_run i s2 ip here,
        ==_ne ip.type t_dir file,
        change_run sb more_links i s2 ip here,
      )
      refl

-- `sys_link` finds, in slot `i`, a file that is no directory, whose fields fit the disk and which has a link, counts
-- the new link, and comes to `bad` in one of the ways of `Fails`, in which the inode has kept the counted link and
-- has `r` references, one or more. Then the call returns -1 and the count is undone: in memory the inode is as it was,
-- without the reference of the call, other inodes are as the failure left them, and what ilock() of the inode
-- reads from disk are the fields from before.
pub sys_link-Undone :
    (sb : Superblock) (old new name cwd i r : ℕ) (mem mem1 mem2 : Bytes) (s s1 s2 s3 : FsState)
    (ip : Inode)
    → namei sb maxpath old name cwd mem s ≡ ok (some i, (mem1, s1))
    → ilock_at sb i s1 ≡ ok s2
    → get_elem? s2.inodes i ≡ some ip
    → ip.type ≢ t_dir
    → ip.type ≢ 0
    → ip.valid ≡ true
    → ip.nlink ≢ 0
    → IsStorable ip
    → Fails sb i new name cwd mem1 (changed sb more_links i ip s2) mem2 s3
    → get_elem? s3.inodes i ≡ some (more_links (record ip { ref = r }))
    → 0 < r
    → Undone sb i mem2 ip r s3 (sys_link sb (some old) (some new) name cwd mem s)
sys_link-Undone sb old new name cwd i r mem mem1 mem2 s s1 s2 s3 ip found lock here file typed valid
      linked storable fails kept some_ref =
    subst (Undone sb i mem2 ip r s3)
      (sym (
        sys_link-name sb old new name cwd i mem mem1 s s1 s2 ip found lock here file
        ∙ link_name-bad sb i new name cwd mem1 mem2 (changed sb more_links i ip s2) s3 fails))
      (counted-Undone sb i mem2 ip r s3 kept valid some_ref linked typed storable)
