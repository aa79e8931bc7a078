-- ===== src/Sysfile/Counts.antt =====
-- The reference counts of open files against the descriptors that hold them (kernel/sysfile.c, kernel/file.c).
use operating_system_se.Base.{
  ℕ, zero, suc, ◌+◌, ◌-◌, ◌≤◌, ◌<◌, ◌≡◌, ◌≢◌, inl, inr, refl, ap, sym, ◌∙◌, false, Option, none,
  some, List, [], ◌∷◌, ltb, ◌==◌, if◌then◌else◌, ok, panic, ◌>>=◌, get_elem?, set, length,
  length-set, get_elem?-set_self, get_elem?-set_ne, lt_of_get_elem?, arith, Bool-cases,
  Option-cases, same_ref,
}
use operating_system_se.File.{File, fd_none, filedup, fileclose, closing, nothing}
use operating_system_se.File.Table.{fileclose-last}
use operating_system_se.Sysfile.Fds.{
  Fds, deref_file, put_file, fdalloc_from, filedup_at, fileclose_at,
}

-- How many of the descriptors show file `f`.
abbrev pub holds : ℕ → List (Option ℕ) → ℕ
holds f [] = 0
holds f (o ∷ os) = (if same_ref o (some f) then 1 else 0) + holds f os

-- Every open file has the references of the process's descriptors, and `others` from elsewhere: the other
-- processes, and calls that are under way.
pub record Counted (others : ℕ → ℕ) (s : Fds) : Type 0 where
  pub refs : (j : ℕ) (x : File) → get_elem? s.files j ≡ some x → x.ref ≡ holds j s.ofile + others j
  pub inside : (j : ℕ) → 0 < holds j s.ofile + others j → j < length s.files

pub holds-set :
    (os : List (Option ℕ)) (i : ℕ) (old new : Option ℕ) (f : ℕ)
    → get_elem? os i ≡ some old
    → holds f (set os i new) + (if same_ref old (some f) then 1 else 0)
      ≡ holds f os + (if same_ref new (some f) then 1 else 0)
holds-set [] i old new f e = absurd cc
holds-set (o ∷ os) zero old new f e = (let same : o ≡ old = cc in rw (← same) (omega arith))
holds-set (o ∷ os) (suc i) old new f e = omega (arith, holds-set os i old new f e)

-- What `fdalloc` finds: the first null pointer, where it stores the file.
pub fdalloc_from-set :
    (f k : ℕ) (os : List (Option ℕ)) (i : ℕ) (os' : List (Option ℕ))
    → fdalloc_from f k os ≡ some (i, os')
    → (k ≤ i) × (get_elem? os (i - k) ≡ some none) × (os' ≡ set os (i - k) (some f))
unfolding fdalloc_from
fdalloc_from-set f k [] i os' e = absurd cc
fdalloc_from-set f k (none ∷ os) i os' e =
    (let at : k ≡ i = ground arith in
      let z : i - k ≡ 0 = omega arith in
      let eq : some f ∷ os ≡ os' = ground arith in (omega arith, rw z refl, rw z (sym eq)))
fdalloc_from-set f k (some g ∷ os) i os' e = elim (Option-cases (fdalloc_from f (k + 1) os)) [
  | inl gone ↦ absurd (ground arith)
  | inr ((j, rest), found) ↦
      (let (le, was, now) = fdalloc_from-set f (k + 1) os j rest found in
        let at : j ≡ i = ground arith in
        let eq : some g ∷ rest ≡ os' = ground arith in
        let z : i - k ≡ suc (j - (k + 1)) = omega (arith, le) in
        (omega (arith, le), rw z was, rw z (sym eq ∙ ap (λ l. some g ∷ l) now)))
]

-- One more reference from elsewhere.
abbrev pub bump : ℕ → (ℕ → ℕ) → ℕ → ℕ
bump f others j = (if j == f then 1 else 0) + others j

pub exists_file : (fs : List File) (j : ℕ) → j < length fs → (x : File) × (get_elem? fs j ≡ some x)
exists_file [] j lt = absurd (omega arith)
exists_file (x ∷ fs) zero lt = (x, refl)
exists_file (x ∷ fs) (suc j) lt = exists_file fs j (omega arith)

some_inj : {A : Type 0} {x y : A} → some x ≡ some y → x ≡ y
some_inj e = cc

-- A change of one file that keeps the counts right.
pub change_file :
    (others others1 : ℕ → ℕ) (s : Fds) (f : ℕ) (x y : File)
    → Counted others s
    → get_elem? s.files f ≡ some x
    → y.ref ≡ holds f s.ofile + others1 f
    → ((j : ℕ) → j ≢ f → others1 j ≡ others j)
    → Counted others1 (put_file f y s)
change_file others others1 s f x y counted was now same = record { refs = refs; inside = inside }
  where
    lt : f < length s.files
    lt = lt_of_get_elem? s.files f x was

    refs :
        (j : ℕ) (z : File)
        → get_elem? (set s.files f y) j ≡ some z
        → z.ref ≡ holds j s.ofile + others1 j
    refs j z e = elim (Bool-cases (j == f)) [
      | inl here ↦
          (let at : j ≡ f = ground arith in
            let z_y : z ≡ y =
              some_inj
                (sym e ∙ ap (get_elem? (set s.files f y)) at ∙ get_elem?-set_self s.files f y lt) in
            ap File.ref z_y ∙ now ∙ ap (λ i. holds i s.ofile + others1 i) (sym at))
      | inr off ↦
          (let ne : f ≢ j = ground arith in
            counted.refs j z (sym (get_elem?-set_ne s.files y ne) ∙ e)
            ∙ ap (λ n. holds j s.ofile + n) (sym (same j (λ q. ne (sym q)))))
    ]

    inside : (j : ℕ) → 0 < holds j s.ofile + others1 j → j < length (set s.files f y)
    inside j pos_j = elim (Bool-cases (j == f)) [
      | inl here ↦ (let at : j ≡ f = ground arith in rw (length-set s.files f y, at) lt)
      | inr off ↦
          (let ne : j ≢ f = ground arith in
            rw (length-set s.files f y) (counted.inside j (omega (arith, pos_j, same j ne))))
    ]

pub bump_self : (f : ℕ) (others : ℕ → ℕ) → bump f others f ≡ others f + 1
bump_self f others = ground arith

pub bump_other : (f : ℕ) (others : ℕ → ℕ) (j : ℕ) → j ≢ f → bump f others j ≡ others j
bump_other f others j ne = ground arith

pub deref_run : (s : Fds) (f : ℕ) (x : File) → get_elem? s.files f ≡ some x → deref_file f s ≡ ok x
deref_run s f x e = ap (λ o. elim o [ some z ↦ ok z | none ↦ panic "null file" ]) e

pub dup_run :
    (s : Fds) (f : ℕ) (x : File)
    → get_elem? s.files f ≡ some x
    → 0 < x.ref
    → filedup_at f s ≡ ok (put_file f (record x { ref = x.ref + 1 }) s)
unfolding filedup_at filedup
dup_run s f x e used =
    (let fine : ltb x.ref 1 ≡ false = ground arith in
      ap (λ o. o >>= λ z. filedup z >>= λ y. ok (put_file f y s)) (deref_run s f x e)
      ∙ rw fine refl)

-- What a close leaves of a file.
abbrev pub after_close : File → File
after_close x =
    if x.ref == 1 then record x { ref = 0; type = fd_none } else record x { ref = x.ref - 1 }

pub close_run :
    (s : Fds) (f : ℕ) (x : File)
    → get_elem? s.files f ≡ some x
    → 0 < x.ref
    → fileclose_at f s
      ≡ ok (if x.ref == 1 then closing x else nothing, put_file f (after_close x) s)
unfolding fileclose_at
close_run s f x e used =
    ap (λ o. o >>= λ z. fileclose z >>= λ (y, c). ok (c, put_file f y s)) (deref_run s f x e)
    ∙ ap (λ o. o >>= λ (y, c). ok (c, put_file f y s)) (fileclose-last x used)

-- filedup() of a file that has references.
pub filedup_at-Counted :
    (others : ℕ → ℕ) (s : Fds) (f : ℕ)
    → Counted others s
    → 0 < holds f s.ofile + others f
    → (y : File) × (filedup_at f s ≡ ok (put_file f y s)) × Counted (bump f others) (put_file f y s)
filedup_at-Counted others s f counted used =
    let (x, e) = exists_file s.files f (counted.inside f used) in
    let r = counted.refs f x e in
    let y : File = record x { ref = x.ref + 1 } in
    (
      y,
      dup_run s f x e (omega (arith, r, used)),
      change_file others (bump f others) s f x y counted e (omega (arith, r, bump_self f others))
          (bump_other f others),
    )

-- fileclose() of a reference from elsewhere: what is behind the file is after_close exactly with the last reference.
pub fileclose_at-Counted :
    (others : ℕ → ℕ) (s : Fds) (f : ℕ)
    → Counted (bump f others) s
    → (x : File) × (y : File) × (get_elem? s.files f ≡ some x)
      × (fileclose_at f s
          ≡ ok (if holds f s.ofile + others f == 0 then closing x else nothing, put_file f y s))
      × Counted others (put_file f y s)
fileclose_at-Counted others s f counted =
    let (x, e) = exists_file s.files f (counted.inside f (omega (arith, bump_self f others))) in
    let r = counted.refs f x e in
    let one : x.ref ≡ (holds f s.ofile + others f) + 1 = omega (arith, r, bump_self f others) in
    let last : (x.ref == 1) ≡ (holds f s.ofile + others f == 0) = ground (arith, one) in
    let y_ref : (after_close x).ref ≡ holds f s.ofile + others f = ground (arith, one) in
    (
      x,
      after_close x,
      e,
      close_run s f x e (omega (arith, one))
          ∙ ap (λ b. ok (if b then closing x else nothing, put_file f (after_close x) s)) last,
      change_file (bump f others) others s f x (after_close x) counted e y_ref
          (λ j ne. sym (bump_other f others j ne)),
    )
