-- ===== src/Virtio/Phases.antt =====
-- Assignments to the arrays of the driver, and to the phase of a request (kernel/virtio_disk.c).
use operating_system_se.Base.{
  ℕ, ◌+◌, ◌<◌, ◌≡◌, ◌≢◌, inl, inr, refl, ap, sym, ◌∙◌, Bool, true, false, ◌==◌, arith, Bool-cases,
}
use operating_system_se.Virtio.{Disk, update}
use operating_system_se.Virtio.Counts.{
  count_free, count_free-take, count_free-give, count_free-same,
}
use operating_system_se.Virtio.Requests.{Phase, Req, Flight, Laid, Owns, Marked, Held}

pub bools_differ : true ≢ false
bools_differ e = ground arith

pub update-here {ℓ} : {A : Type ℓ} (f : ℕ → A) (i : ℕ) (v : A) → update f i v i ≡ v
update-here f i v = ground arith

pub update-other {ℓ} : {A : Type ℓ} (f : ℕ → A) (i j : ℕ) (v : A) → j ≢ i → update f i v j ≡ f j
update-other f i j v ne = ground arith

pub update-others {ℓ} :
    {A : Type ℓ} (f : ℕ → A) (i j k l : ℕ) (u v w : A)
    → j ≢ i
    → j ≢ k
    → j ≢ l
    → update (update (update f i u) k v) l w j ≡ f j
update-others f i j k l u v w ni nk nl = ground arith

pub of_parts :
    (d : Disk) (f : Flight) (h : ℕ) (p : Phase) (r : Req)
    → f.req h ≡ r
    → f.phase h ≡ p
    → Laid d h r
    → Owns f.owner h r
    → Marked d h p r
    → Held d f h
of_parts d f h p r er ep laid owns marked = record {
  laid = rw er laid;
  owns = rw er owns;
  marked = rw (er, ep) marked;
}

-- A test of the phases after one of them changes.
pub phase_update :
    (q : Phase → Bool) (f : ℕ → Phase) (h : ℕ) (p : Phase) (k : ℕ)
    → q (update f h p k) ≡ update (λ j. q (f j)) h (q p) k
phase_update q f h p k = elim (Bool-cases (k == h)) [ inl at ↦ rw at refl | inr off ↦ rw off refl ]

phases_count :
    (q : Phase → Bool) (f : ℕ → Phase) (h : ℕ) (p : Phase) (k : ℕ)
    → count_free (λ j. q (update f h p j)) k ≡ count_free (update (λ j. q (f j)) h (q p)) k
phases_count q f h p k =
    count_free-same (update (λ j. q (f j)) h (q p)) (λ j. q (update f h p j)) k
      (λ j lt. phase_update q f h p j)

pub phase_more :
    (q : Phase → Bool) (f : ℕ → Phase) (h : ℕ) (p : Phase) (k : ℕ)
    → q (f h) ≡ false
    → q p ≡ true
    → h < k
    → count_free (λ j. q (update f h p j)) k ≡ count_free (λ j. q (f j)) k + 1
phase_more q f h p k was now lt =
    phases_count q f h p k
    ∙ ap (λ b. count_free (update (λ j. q (f j)) h b) k) now
    ∙ count_free-give (λ j. q (f j)) h k was lt

pub phase_less :
    (q : Phase → Bool) (f : ℕ → Phase) (h : ℕ) (p : Phase) (k : ℕ)
    → q (f h) ≡ true
    → q p ≡ false
    → h < k
    → count_free (λ j. q (update f h p j)) k + 1 ≡ count_free (λ j. q (f j)) k
phase_less q f h p k was now lt =
    ap (λ n. n + 1)
      (phases_count q f h p k ∙ ap (λ b. count_free (update (λ j. q (f j)) h b) k) now)
    ∙ count_free-take (λ j. q (f j)) h k was lt

pub phase_kept :
    (q : Phase → Bool) (f : ℕ → Phase) (h : ℕ) (p : Phase) (k : ℕ)
    → q (f h) ≡ q p
    → q (update f h p k) ≡ q (f k)
phase_kept q f h p k e = elim (Bool-cases (k == h)) [
  | inl at ↦ (let here : k ≡ h = ground arith in rw at (sym e ∙ ap (λ i. q (f i)) (sym here)))
  | inr off ↦ rw off refl
]

pub phase_even :
    (q : Phase → Bool) (f : ℕ → Phase) (h : ℕ) (p : Phase) (k : ℕ)
    → q (f h) ≡ q p
    → count_free (λ j. q (update f h p j)) k ≡ count_free (λ j. q (f j)) k
phase_even q f h p k e =
    count_free-same (λ j. q (f j)) (λ j. q (update f h p j)) k (λ j lt. phase_kept q f h p j e)
