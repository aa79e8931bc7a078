-- ===== src/Sysfile/Slots.antt =====
-- Descriptors taken and given back, and files allocated (kernel/sysfile.c, kernel/file.c).
use operating_system_se.Base.{
  ℕ, zero, suc, ◌+◌, ◌-◌, ◌<◌, ◌≡◌, inl, inr, ap, sym, subst, ◌∙◌, Option, none, some, List, [],
  ◌∷◌, leb, ◌==◌, if◌then◌else◌, get_elem?, set, ℤ, pos, negsuc, arith, Bool-cases, Option-cases,
  same_ref,
}
use operating_system_se.File.{File, filealloc}
use operating_system_se.File.Table.{filealloc-Allocated}
use operating_system_se.Proc.{nofile}
use operating_system_se.Sysfile.Fds.{Fds, put_fd, at_fd, argfd, fdalloc_from, fdalloc}
use operating_system_se.Sysfile.Counts.{
  holds, Counted, holds-set, fdalloc_from-set, bump, change_file, bump_self, bump_other,
}

change_fd :
    (others others1 : ℕ → ℕ) (s : Fds) (fd : ℕ) (new : Option ℕ)
    → Counted others s
    → ((j : ℕ) → holds j (set s.ofile fd new) + others1 j ≡ holds j s.ofile + others j)
    → Counted others1 (put_fd fd new s)
change_fd others others1 s fd new counted same = record {
  refs = λ j x e. counted.refs j x e ∙ sym (same j);
  inside = λ j pos_j. counted.inside j (omega (arith, pos_j, same j));
}

flag_swap :
    (f j : ℕ) → ◌≡◌ {A = ℕ} (if same_ref (some f) (some j) then 1 else 0) (if j == f then 1 else 0)
flag_swap f j = ground arith

-- A reference becomes a descriptor's, and a descriptor's one is left over.
pub install :
    (others : ℕ → ℕ) (s : Fds) (f fd : ℕ)
    → Counted (bump f others) s
    → get_elem? s.ofile fd ≡ some none
    → Counted others (put_fd fd (some f) s)
install others s f fd counted e =
    change_fd (bump f others) others s fd (some f) counted
      (λ j. omega (arith, holds-set s.ofile fd none (some f) j e, flag_swap f j))

pub uninstall :
    (others : ℕ → ℕ) (s : Fds) (f fd : ℕ)
    → Counted others s
    → get_elem? s.ofile fd ≡ some (some f)
    → Counted (bump f others) (put_fd fd none s)
uninstall others s f fd counted e =
    change_fd others (bump f others) s fd none counted
      (λ j. omega (arith, holds-set s.ofile fd (some f) none j e, flag_swap f j))

pub fdalloc_lem :
    (f : ℕ) (s : Fds) (fd : ℕ) (s1 : Fds)
    → fdalloc f s ≡ some (fd, s1)
    → (get_elem? s.ofile fd ≡ some none) × (s1 ≡ put_fd fd (some f) s)
unfolding fdalloc
fdalloc_lem f s fd s1 e = elim (Option-cases (fdalloc_from f 0 s.ofile)) [
  | inl gone ↦ absurd (ground arith)
  | inr ((i, os), found) ↦
      (let (le, was, now) = fdalloc_from-set f 0 s.ofile i os found in
        let both =
          sym (
            ap (λ o. elim o [ none ↦ none | some (k, l) ↦ some (k, record s { ofile = l }) ]) found)
          ∙ e in
        let at : i ≡ fd = ap number both in
        let eq : record s { ofile = os } ≡ s1 = ap state both in
        let z : i - 0 ≡ fd = omega (arith, at) in
        (
          subst (λ n. get_elem? s.ofile n ≡ some none) z was,
          sym eq ∙ ap (λ l. record s { ofile = l }) (now ∙ ap (λ n. set s.ofile n (some f)) z),
        ))
]
  where
    number : Option (ℕ × Fds) → ℕ
    number none = 0
    number (some (k, t)) = k

    state : Option (ℕ × Fds) → Fds
    state none = s
    state (some (k, t)) = t

-- An open descriptor of the process.
pub argfd_lem :
    (n : ℤ) (s : Fds) (fd f : ℕ) → argfd n s ≡ some (fd, f) → get_elem? s.ofile fd ≡ some (some f)
unfolding argfd
argfd_lem (negsuc n) s fd f e = absurd cc
argfd_lem (pos n) s fd f e = elim (Bool-cases (leb nofile n)) [
  | inl out ↦ absurd (ground arith)
  | inr within ↦ at_fd_lem n s fd f (sym (ap (λ b. if b then none else at_fd n s) within) ∙ e)
]
  where
    at_fd_lem :
        (n : ℕ) (s : Fds) (fd f : ℕ)
        → at_fd n s ≡ some (fd, f)
        → get_elem? s.ofile fd ≡ some (some f)
    at_fd_lem n s fd f e = elim (Option-cases (get_elem? s.ofile n)) [
      | inl gone ↦ absurd (ground arith)
      | inr (none, found) ↦ absurd (ground arith)
      | inr (some g, found) ↦
          (let a : n ≡ fd = ground arith in let b : g ≡ f = ground arith in rw (← a, ← b) found)
    ]

pub held_pos : (os : List (Option ℕ)) (i f : ℕ) → get_elem? os i ≡ some (some f) → 0 < holds f os
held_pos [] i f e = absurd cc
held_pos (o ∷ os) zero f e = (let same : o ≡ some f = cc in ground (arith, same))
held_pos (o ∷ os) (suc i) f e = omega (arith, held_pos os i f e)

-- A file that filealloc() returns has one reference, from the call.
pub filealloc-Counted :
    (others : ℕ → ℕ) (s : Fds) (i : ℕ) (fs : List File)
    → Counted others s
    → filealloc s.files ≡ some (i, fs)
    → Counted (bump i others) (record s { files = fs })
filealloc-Counted others s i fs counted e =
    let a = filealloc-Allocated s.files i fs e in
    let none_yet = counted.refs i a.file a.was in
    subst (λ l. Counted (bump i others) (record s { files = l })) (sym a.now)
      (change_file others (bump i others) s i a.file (record a.file { ref = 1 }) counted a.was
        (omega (arith, none_yet, a.free, bump_self i others)) (bump_other i others))
