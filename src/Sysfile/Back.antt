-- ===== src/Sysfile/Back.antt =====
-- Descriptors and files given back (`sys_pipe` in kernel/sysfile.c).
use operating_system_se.Base.{
  ℕ, zero, suc, ◌≡◌, ◌≢◌, refl, ap, sym, ◌∙◌, Option, none, some, List, [], ◌∷◌, ok, get_elem?, set,
  get_elem?-set_self, get_elem?-set_ne, lt_of_get_elem?,
}
use operating_system_se.File.{Closing}
use operating_system_se.Sysfile.Fds.{Fds, put_file, fileclose_at, close_both}
use operating_system_se.Sysfile.Counts.{Counted, bump, fileclose_at-Counted}
use operating_system_se.Sysfile.Pipes.{Counted-same, bump_swap}

pub set_back :
    {A : Type 0} (os : List A) (i : ℕ) (old new : A)
    → get_elem? os i ≡ some old
    → set (set os i new) i old ≡ os
set_back [] i old new e = refl
set_back (o ∷ os) zero old new e = (let same : o ≡ old = cc in ap (λ x. x ∷ os) (sym same))
set_back (o ∷ os) (suc i) old new e = ap (λ l. o ∷ l) (set_back os i old new e)

set_swap :
    {A : Type 0} (os : List A) (i j : ℕ) (x y : A)
    → i ≢ j
    → set (set os i x) j y ≡ set (set os j y) i x
set_swap [] i j x y ne = refl
set_swap (o ∷ os) zero zero x y ne = absurd (ne refl)
set_swap (o ∷ os) zero (suc j) x y ne = refl
set_swap (o ∷ os) (suc i) zero x y ne = refl
set_swap (o ∷ os) (suc i) (suc j) x y ne =
    ap (λ l. o ∷ l) (set_swap os i j x y (λ e. ne (ap suc e)))

-- Two descriptors taken and given back.
pub both_back :
    (os : List (Option ℕ)) (i j f g : ℕ)
    → get_elem? os i ≡ some none
    → get_elem? (set os i (some f)) j ≡ some none
    → set (set (set (set os i (some f)) j (some g)) i none) j none ≡ os
both_back os i j f g at_i at_j =
    let lt = lt_of_get_elem? os i none at_i in
    let ne : j ≢ i = λ e.
      clash
        (sym (ap (get_elem? (set os i (some f))) e ∙ get_elem?-set_self os i (some f) lt) ∙ at_j) in
    ap (λ l. set l j none)
      (set_swap (set os i (some f)) j i (some g) none ne
        ∙ ap (λ l. set l j (some g)) (set_back os i none (some f) at_i))
    ∙ set_back os j none (some g) (sym (get_elem?-set_ne os (some f) (λ e. ne (sym e))) ∙ at_j)
  where
    clash : some (some f) ≡ some none → ⊥
    clash e = cc

two_closed :
    (rf wf : ℕ) (s s1 s2 : Fds) (c c1 : Closing)
    → fileclose_at rf s ≡ ok (c, s1)
    → fileclose_at wf s1 ≡ ok (c1, s2)
    → close_both rf wf s ≡ ok (c ∷ c1 ∷ [], s2)
unfolding close_both
two_closed rf wf s s1 s2 c c1 e e1 = rw (close_both, e, e1) refl

pub close_both-Counted :
    (others : ℕ → ℕ) (rf wf : ℕ) (s : Fds)
    → Counted (bump wf (bump rf others)) s
    → (cs : List Closing) × (s' : Fds) × (close_both rf wf s ≡ ok (cs, s'))
      × (s'.ofile ≡ s.ofile)
      × Counted others s'
close_both-Counted others rf wf s counted =
    let swapped =
      Counted-same (bump wf (bump rf others)) (bump rf (bump wf others)) s (bump_swap rf wf others)
        counted in
    let (x, y, was, run, after) = fileclose_at-Counted (bump wf others) s rf swapped in
    let (x1, y1, was1, run1, after1) = fileclose_at-Counted others (put_file rf y s) wf after in
    (
      _,
      put_file wf y1 (put_file rf y s),
      two_closed rf wf s (put_file rf y s) (put_file wf y1 (put_file rf y s)) _ _ run run1,
      refl,
      after1,
    )
