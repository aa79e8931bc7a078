-- ===== src/Bio/Release.antt =====
-- `brelse` (kernel/bio.c) moves a buffer, and neither drops nor doubles one.
use operating_system_se.Base.{
  ℕ, ◌+◌, ◌-◌, ◌≡◌, refl, inl, inr, some, List, [], ◌∷◌, arith, if◌then◌else◌, ok, Option-cases,
}
use operating_system_se.Bio.{Buf, is_for, change, unlink, brelse, releasesleep}
use operating_system_se.Bio.Lookup.{count}

unlink-count :
    (s : ℕ) (bs : List Buf) (x : Buf) (bs' : List Buf) (d k : ℕ)
    → unlink s bs ≡ some (x, bs')
    → (if is_for d k x then 1 else 0) + count d k bs' ≡ count d k bs
unfolding unlink
unlink-count s [] x bs' d k e = absurd (cc)
unlink-count s (b ∷ bs) x bs' d k e = elim (Option-cases (unlink s bs)) [
  | inl gone ↦ ground arith
  | inr ((t, cs), found) ↦ ground (arith, unlink-count s bs t cs d k found)
]

change-count :
    (s : ℕ) (bs : List Buf) (x y : Buf) (bs' : List Buf) (d k : ℕ)
    → unlink s bs ≡ some (x, bs')
    → is_for d k y ≡ is_for d k x
    → count d k (change s (λ _. y) bs) ≡ count d k bs
unfolding unlink change
change-count s [] x y bs' d k e same = refl
change-count s (b ∷ bs) x y bs' d k e same = elim (Option-cases (unlink s bs)) [
  | inl gone ↦ ground arith
  | inr ((t, cs), found) ↦ ground (arith, change-count s bs t y cs d k found)
]

-- `brelse` leaves every block cached as often as it was.
pub brelse-count :
    (pid s : ℕ) (bs bs' : List Buf) (d k : ℕ)
    → brelse pid s bs ≡ ok bs'
    → count d k bs' ≡ count d k bs
unfolding brelse
brelse-count pid s bs bs' d k e = elim (Option-cases (unlink s bs)) [
  | inl gone ↦ absurd (ground arith)
  | inr ((b, others), found) ↦
      let freed : Buf = record b { lock = releasesleep b.lock; refcnt = b.refcnt - 1 } in
      ground (
        arith,
        unlink-count s bs b others d k found,
        change-count s bs b freed others d k found refl,
      )
]
