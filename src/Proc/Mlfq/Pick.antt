-- ===== src/Proc/Mlfq/Pick.antt =====
-- Which process the scan of `scheduler` (kernel/proc.c) chooses.
use operating_system_se.Base.{
  ℕ, zero, suc, ◌+◌, ◌≤◌, ◌<◌, ◌≡◌, ◌≢◌, refl, ◌⊎◌, inl, inr, Bool, true, false, ◌&&◌, none, some,
  List, [], ◌∷◌, arith, ◌==◌, Bool-cases, Option-cases, get_elem?,
}
use operating_system_se.Proc.{runnable, Proc, is_runnable}
use operating_system_se.Proc.Mlfq.{mlfq_levels, scan_level, scan_levels, pick}

-- Index `d` holds the first RUNNABLE process of the level.
record FirstAt (level : ℕ) (ps : List Proc) (d : ℕ) : Type 0 where
  at : Proc
  here : get_elem? ps d ≡ some at
  ready : at.state ≡ runnable
  on_level : at.queue_level ≡ level
  first :
      (j : ℕ) (q : Proc)
      → get_elem? ps j ≡ some q
      → q.state ≡ runnable
      → q.queue_level ≡ level
      → d ≤ j

-- No RUNNABLE process stands on the level.
abbrev NoneAt : ℕ → List Proc → Type 0
NoneAt level ps =
    (j : ℕ) (q : Proc) → get_elem? ps j ≡ some q → q.state ≡ runnable → q.queue_level ≡ level → ⊥

abbrev hit : ℕ → Proc → Bool
hit level p = is_runnable p.state && p.queue_level == level

NoneAt-cons :
    (level : ℕ) (p : Proc) (ps : List Proc)
    → hit level p ≡ false
    → NoneAt level ps
    → NoneAt level (p ∷ ps)
NoneAt-cons level p ps miss h zero q e r l = ground arith
NoneAt-cons level p ps miss h (suc j) q e r l = h j q e r l

FirstAt-cons :
    (level : ℕ) (p : Proc) (ps : List Proc) (d : ℕ)
    → hit level p ≡ false
    → FirstAt level ps d
    → FirstAt level (p ∷ ps) (suc d)
FirstAt-cons level p ps d miss f = record {
  at = f.at;
  here = f.here;
  ready = f.ready;
  on_level = f.on_level;
  first = later;
}
  where
    later :
        (j : ℕ) (q : Proc)
        → get_elem? (p ∷ ps) j ≡ some q
        → q.state ≡ runnable
        → q.queue_level ≡ level
        → suc d ≤ j
    later zero q e r l = ground arith
    later (suc j) q e r l = omega (arith, f.first j q e r l)

FirstAt-here :
    (level : ℕ) (p : Proc) (ps : List Proc) → hit level p ≡ true → FirstAt level (p ∷ ps) 0
FirstAt-here level p ps h = record {
  at = p;
  here = refl;
  ready = ground arith;
  on_level = ground arith;
  first = λ j q e r l. omega arith;
}

scan_level-some :
    (level i : ℕ) (ps : List Proc) (k : ℕ)
    → scan_level level i ps ≡ some k
    → (d : ℕ) × (k ≡ i + d) × FirstAt level ps d
unfolding scan_level
scan_level-some level i [] k e = absurd (cc)
scan_level-some level i (p ∷ ps) k e = elim (Bool-cases (hit level p)) [
  | inl h ↦ (0, ground arith, FirstAt-here level p ps h)
  | inr h ↦
      let (d, eq, f) = scan_level-some level (i + 1) ps k (ground arith) in
      (suc d, omega arith, FirstAt-cons level p ps d h f)
]

scan_level-none : (level i : ℕ) (ps : List Proc) → scan_level level i ps ≡ none → NoneAt level ps
unfolding scan_level
scan_level-none level i [] e = λ j q g r l. cc
scan_level-none level i (p ∷ ps) e = elim (Bool-cases (hit level p)) [
  | inl h ↦ absurd (ground arith)
  | inr h ↦ NoneAt-cons level p ps h (scan_level-none level (i + 1) ps (ground arith))
]

-- The process at index `i` is RUNNABLE, on one of the levels from `lo` up to before `hi`, and before
-- every other such process by level, then by index.
pub record IsBest (lo hi : ℕ) (ps : List Proc) (i : ℕ) : Type 0 where
  pub at : Proc
  pub here : get_elem? ps i ≡ some at
  pub ready : at.state ≡ runnable
  pub low : lo ≤ at.queue_level
  pub high : at.queue_level < hi
  pub best :
      (j : ℕ) (q : Proc)
      → get_elem? ps j ≡ some q
      → q.state ≡ runnable
      → lo ≤ q.queue_level
      → (at.queue_level < q.queue_level) ⊎ ((at.queue_level ≡ q.queue_level) × (i ≤ j))

scan_levels-some :
    (n level : ℕ) (ps : List Proc) (i : ℕ)
    → scan_levels n level ps ≡ some i
    → IsBest level (level + n) ps i
unfolding scan_levels
scan_levels-some zero level ps i e = absurd (cc)
scan_levels-some (suc n) level ps i e = elim (Option-cases (scan_level level 0 ps)) [
  | inl gone ↦
      let b = scan_levels-some n (level + 1) ps i (ground arith) in
      let skip = scan_level-none level 0 ps gone in
      record {
        at = b.at;
        here = b.here;
        ready = b.ready;
        low = omega (arith, b.low);
        high = omega (arith, b.high);
        best = λ j q g r l. ground (arith, b.best j q g r, skip j q g r);
      }
  | inr (k, found) ↦
      let (d, eq, f) = scan_level-some level 0 ps k found in
      let e' : i ≡ d = ground arith in
      record {
        at = f.at;
        here = rw e' f.here;
        ready = f.ready;
        low = omega (arith, f.on_level);
        high = omega (arith, f.on_level);
        best = λ j q g r l. ground (arith, f.first j q g r, f.on_level);
      }
]

scan_levels-none :
    (n level : ℕ) (ps : List Proc)
    → scan_levels n level ps ≡ none
    → (j : ℕ) (q : Proc) → get_elem? ps j ≡ some q
    → q.state ≡ runnable
    → level ≤ q.queue_level
    → level + n ≤ q.queue_level
unfolding scan_levels
scan_levels-none zero level ps e j q g r l = omega arith
scan_levels-none (suc n) level ps e j q g r l = elim (Option-cases (scan_level level 0 ps)) [
  | inl gone ↦
      let more : scan_levels n (level + 1) ps ≡ none = ground arith in
      ground (
        arith,
        scan_levels-none n (level + 1) ps more j q g r,
        scan_level-none level 0 ps gone j q g r,
      )
  | inr (k, found) ↦ absurd (ground arith)
]

-- The process that the scan chooses is RUNNABLE, no RUNNABLE process stands on a level of higher
-- priority, and it has the least index of those on its level.
pub pick-IsBest : (ps : List Proc) (i : ℕ) → pick ps ≡ some i → IsBest 0 mlfq_levels ps i
unfolding pick
pick-IsBest ps i e = scan_levels-some mlfq_levels 0 ps i e

-- If the scan chooses none, no process on one of the three levels is RUNNABLE.
pub pick-none :
    (ps : List Proc) (j : ℕ) (q : Proc)
    → pick ps ≡ none
    → get_elem? ps j ≡ some q
    → q.queue_level < mlfq_levels
    → q.state ≢ runnable
unfolding pick
pick-none ps j q e g l r = omega (arith, scan_levels-none mlfq_levels 0 ps e j q g r (omega arith))
