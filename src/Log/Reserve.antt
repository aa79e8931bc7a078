-- ===== src/Log/Reserve.antt =====
-- The space of the log (kernel/log.c): what `begin_op` reserves is enough for MAXOPBLOCKS
-- distinct blocks of each operation (kernel/param.h).
use operating_system_se.Base.{
  ℕ, zero, suc, ◌+◌, ◌*◌, ◌≤◌, ◌≡◌, refl, sym, ◌∙◌, Bool, true, false, List, [], ◌∷◌, ◌++◌, All,
  arith, ◌==◌, if◌then◌else◌, length, some, get_elem?, set, All-set, All-get, not, subst, ◌-◌,
  length-set, length-append, ok, ◌<◌, ◌⊎◌, inl, inr, ap, Bool-cases,
}
use operating_system_se.Log.{
  Trans, begun, begin_op, end_op, end_commit, log_write, has, log_blocks, max_op_blocks,
}

-- For each running operation, the distinct blocks that it has logged.
abbrev pub Ops : Type 0
Ops = List (List ℕ)

-- The operation logs `b`: a block that it has logged before does not count again.
abbrev pub noted : ℕ → List ℕ → List ℕ
noted b used = if has b used then used else b ∷ used

abbrev pub remove : ℕ → Ops → Ops
remove i [] = []
remove zero (u ∷ os) = os
remove (suc i) (u ∷ os) = u ∷ remove i os

-- How many more distinct blocks the operations may log.
abbrev pub left : Ops → ℕ
left [] = 0
left (u ∷ os) = (max_op_blocks - length u) + left os

-- A call of the log's functions by one of the operations, of which each logs at most MAXOPBLOCKS
-- distinct blocks, each any number of times, or the end of a commit.
pub data Step : Trans → Ops → Trans → Ops → Type 0 where
  begins : {t t' : Trans} {os : Ops} → begin_op t ≡ begun t' → Step t os t' ([] ∷ os)
  writes :
      {t t' : Trans} {os : Ops} (i b : ℕ) (used : List ℕ) (pin : Bool)
      → get_elem? os i ≡ some used
      → length (noted b used) ≤ max_op_blocks
      → log_write b t ≡ ok (t', pin)
      → Step t os t' (set os i (noted b used))
  ends :
      {t t' : Trans} {os : Ops} (i : ℕ) (used : List ℕ) (last : Bool)
      → get_elem? os i ≡ some used
      → end_op t ≡ ok (t', last)
      → Step t os t' (remove i os)
  commits : {t : Trans} {os : Ops} → t.committing ≡ true → Step t os (end_commit t) os

-- The states that the log reaches, from the empty one.
pub data Reaches : Trans → Ops → Type 0 where
  start : Reaches (record { outstanding = 0; committing = false; blocks = [] }) []
  next : {t t' : Trans} {os os' : Ops} → Reaches t os → Step t os t' os' → Reaches t' os'

abbrev Logged : List ℕ → List ℕ → Type 0
Logged blocks used = All (λ b. has b blocks ≡ true) used

abbrev IsBounded : List ℕ → Type 0
IsBounded used = length used ≤ max_op_blocks

pub record IsReserved (t : Trans) (os : Ops) : Type 0 where
  pub counted : length os ≡ t.outstanding
  pub bounded : All IsBounded os
  pub inside : All (Logged t.blocks) os
  pub space : length t.blocks + left os ≤ log_blocks
  pub alone : t.committing ≡ true → t.outstanding ≡ 0

left_le : (os : Ops) → left os ≤ length os * max_op_blocks
left_le [] = omega arith
left_le (u ∷ os) = omega (arith, left_le os)

left-set :
    (os : Ops) (i : ℕ) (u v : List ℕ)
    → get_elem? os i ≡ some u
    → left (set os i v) + (max_op_blocks - length u) ≡ left os + (max_op_blocks - length v)
left-set [] i u v e = ground arith
left-set (x ∷ os) zero u v e = ground arith
left-set (x ∷ os) (suc i) u v e = omega (arith, left-set os i u v e)

left-remove :
    (os : Ops) (i : ℕ) (u : List ℕ)
    → get_elem? os i ≡ some u
    → left (remove i os) + (max_op_blocks - length u) ≡ left os
left-remove [] i u e = ground arith
left-remove (x ∷ os) zero u e = ground arith
left-remove (x ∷ os) (suc i) u e = omega (arith, left-remove os i u e)

length-remove :
    (os : Ops) (i : ℕ) (u : List ℕ) → get_elem? os i ≡ some u → length (remove i os) + 1 ≡ length os
length-remove [] i u e = ground arith
length-remove (x ∷ os) zero u e = ground arith
length-remove (x ∷ os) (suc i) u e = omega (arith, length-remove os i u e)

All-remove : (P : List ℕ → Type 0) (os : Ops) (i : ℕ) → All P os → All P (remove i os)
All-remove P [] i h = tt
All-remove P (x ∷ os) zero h = h.1
All-remove P (x ∷ os) (suc i) h = (h.0, All-remove P os i h.1)

some_running : (os : Ops) (i : ℕ) (u : List ℕ) → get_elem? os i ≡ some u → 1 ≤ length os
some_running os i u e = omega (arith, length-remove os i u e)

has-append : (b : ℕ) (xs ys : List ℕ) → has b xs ≡ true → has b (xs ++ ys) ≡ true
has-append b [] ys h = absurd (cc)
has-append b (x ∷ xs) ys h = ground (arith, has-append b xs ys)

has_last : (b : ℕ) (xs : List ℕ) → has b (xs ++ (b ∷ [])) ≡ true
has_last b [] = ground arith
has_last b (x ∷ xs) = ground (arith, has_last b xs)

Logged-has :
    (b : ℕ) (blocks used : List ℕ) → Logged blocks used → has b used ≡ true → has b blocks ≡ true
Logged-has b blocks [] h e = absurd (cc)
Logged-has b blocks (x ∷ used) h e = ground (arith, h.0, Logged-has b blocks used h.1)

Logged-append : (xs ys used : List ℕ) → Logged xs used → Logged (xs ++ ys) used
Logged-append xs ys [] h = tt
Logged-append xs ys (b ∷ used) h = (has-append b xs ys h.0, Logged-append xs ys used h.1)

All-Logged-append : (xs ys : List ℕ) (os : Ops) → All (Logged xs) os → All (Logged (xs ++ ys)) os
All-Logged-append xs ys [] h = tt
All-Logged-append xs ys (u ∷ os) h = (Logged-append xs ys u h.0, All-Logged-append xs ys os h.1)

no_ops : (os : Ops) (P : List ℕ → Type 0) → length os ≡ 0 → All P os
no_ops [] P e = tt
no_ops (u ∷ os) P e = absurd (omega arith)

set_same : (os : Ops) (i : ℕ) (u : List ℕ) → get_elem? os i ≡ some u → set os i u ≡ os
set_same [] i u e = refl
set_same (x ∷ os) zero u e = ground arith
set_same (x ∷ os) (suc i) u e = ap (λ l. x ∷ l) (set_same os i u e)

begin_op-fields :
    (t t' : Trans)
    → begin_op t ≡ begun t'
    → (t.committing ≡ false)
      × ((length t.blocks + (t.outstanding + 1) * max_op_blocks ≤ log_blocks)
          × (t' ≡ record {
            outstanding = t.outstanding + 1;
            committing = t.committing;
            blocks = t.blocks;
          }))
unfolding begin_op
begin_op-fields t t' e = ground arith

begin_op-IsReserved :
    (t t' : Trans) (os : Ops) → IsReserved t os → begin_op t ≡ begun t' → IsReserved t' ([] ∷ os)
begin_op-IsReserved t t' os r e =
    let f = begin_op-fields t t' e in
    subst (λ u. IsReserved u ([] ∷ os)) (sym f.1.1)
      record {
        counted = omega (arith, r.counted);
        bounded = (omega arith, r.bounded);
        inside = (tt, r.inside);
        space = omega (arith, f.1.0, left_le os, r.counted);
        alone = λ c. ground (arith, f.0);
      }

-- What a `log_write` that does not panic does.
log_write-fields :
    (b : ℕ) (t t' : Trans) (pin : Bool)
    → log_write b t ≡ ok (t', pin)
    → ((has b t.blocks ≡ true) × (t' ≡ t))
      ⊎ ((has b t.blocks ≡ false) × (t' ≡ record t { blocks = t.blocks ++ (b ∷ []) }))
unfolding log_write
log_write-fields b t t' pin e = ground arith

-- A block that was in the log.
absorbed-IsReserved :
    (t : Trans) (os : Ops) (i b : ℕ) (used : List ℕ)
    → IsReserved t os
    → get_elem? os i ≡ some used
    → length (noted b used) ≤ max_op_blocks
    → has b t.blocks ≡ true
    → IsReserved t (set os i (noted b used))
absorbed-IsReserved t os i b used r h room hit = record {
  counted = length-set os i (noted b used) ∙ r.counted;
  bounded = All-set IsBounded os i (noted b used) r.bounded room;
  inside =
      All-set (Logged t.blocks) os i (noted b used) r.inside
        (note (Bool-cases (has b used)) (All-get (Logged t.blocks) os i used r.inside h));
  space = ground (arith, left-set os i used (noted b used) h, r.space);
  alone = r.alone;
}
  where
    note :
        (has b used ≡ true) ⊎ (has b used ≡ false)
        → Logged t.blocks used
        → Logged t.blocks (noted b used)
    note (inl again) l = rw again l
    note (inr new) l = rw new (hit, l)

-- A block that was not: no operation has logged it.
appended-IsReserved :
    (t : Trans) (os : Ops) (i b : ℕ) (used : List ℕ)
    → IsReserved t os
    → get_elem? os i ≡ some used
    → length (noted b used) ≤ max_op_blocks
    → has b t.blocks ≡ false
    → IsReserved (record t { blocks = t.blocks ++ (b ∷ []) }) (set os i (noted b used))
appended-IsReserved t os i b used r h room miss =
    let old = All-get (Logged t.blocks) os i used r.inside h in
    let new : has b used ≡ false = ground (arith, Logged-has b t.blocks used old) in
    let shape : noted b used ≡ b ∷ used = rw new refl in
    let size = length-append t.blocks (b ∷ []) in
    record {
      counted = length-set os i (noted b used) ∙ r.counted;
      bounded = All-set IsBounded os i (noted b used) r.bounded room;
      inside =
          All-set (Logged (t.blocks ++ (b ∷ []))) os i (noted b used)
            (All-Logged-append t.blocks (b ∷ []) os r.inside)
            (subst (Logged (t.blocks ++ (b ∷ []))) (sym shape)
              (has_last b t.blocks, Logged-append t.blocks (b ∷ []) used old));
      space =
          omega (arith, left-set os i used (noted b used) h, r.space, size, ap length shape, room);
      alone = r.alone;
    }

log_write-IsReserved :
    (t t' : Trans) (os : Ops) (i b : ℕ) (used : List ℕ) (pin : Bool)
    → IsReserved t os
    → get_elem? os i ≡ some used
    → length (noted b used) ≤ max_op_blocks
    → log_write b t ≡ ok (t', pin)
    → IsReserved t' (set os i (noted b used))
log_write-IsReserved t t' os i b used pin r h room e = elim (log_write-fields b t t' pin e) [
  | inl (hit, same) ↦
      subst (λ u. IsReserved u (set os i (noted b used))) (sym same)
        (absorbed-IsReserved t os i b used r h room hit)
  | inr (miss, longer) ↦
      subst (λ u. IsReserved u (set os i (noted b used))) (sym longer)
        (appended-IsReserved t os i b used r h room miss)
]

end_op-fields :
    (t t' : Trans) (last : Bool)
    → end_op t ≡ ok (t', last)
    → (t.committing ≡ false)
      × ((t'.outstanding ≡ t.outstanding - 1)
          × ((t'.blocks ≡ t.blocks) × (t'.committing ≡ (t.outstanding == 1))))
unfolding end_op
end_op-fields t t' last e = ground arith

end_op-IsReserved :
    (t t' : Trans) (os : Ops) (i : ℕ) (used : List ℕ) (last : Bool)
    → IsReserved t os
    → get_elem? os i ≡ some used
    → end_op t ≡ ok (t', last)
    → IsReserved t' (remove i os)
end_op-IsReserved t t' os i used last r h e =
    let f = end_op-fields t t' last e in
    record {
      counted = omega (arith, length-remove os i used h, f.1.0, r.counted);
      bounded = All-remove IsBounded os i r.bounded;
      inside =
          subst (λ l. All (Logged l) (remove i os)) (sym f.1.1.0)
            (All-remove (Logged t.blocks) os i r.inside);
      space = ground (arith, f.1.1.0, left-remove os i used h, r.space);
      alone = λ c. ground (arith, f.1.0, f.1.1.1);
    }

end_commit-IsReserved :
    (t : Trans) (os : Ops) → IsReserved t os → t.committing ≡ true → IsReserved (end_commit t) os
unfolding end_commit
end_commit-IsReserved t os r c = record {
  counted = r.counted;
  bounded = r.bounded;
  inside = no_ops os (Logged []) (r.counted ∙ r.alone c);
  space = omega (arith, r.space);
  alone = λ d. ground arith;
}

Step-IsReserved :
    (t t' : Trans) (os os' : Ops) → IsReserved t os → Step t os t' os' → IsReserved t' os'
Step-IsReserved t t' os os' r (begins e) = begin_op-IsReserved t t' os r e
Step-IsReserved t t' os os' r (writes i b used pin h room e) =
    log_write-IsReserved t t' os i b used pin r h room e
Step-IsReserved t t' os os' r (ends i used last h e) = end_op-IsReserved t t' os i used last r h e
Step-IsReserved t t' os os' r (commits c) = end_commit-IsReserved t os r c

pub Reaches-IsReserved : (t : Trans) (os : Ops) → Reaches t os → IsReserved t os
Reaches-IsReserved t os start = record {
  counted = refl;
  bounded = tt;
  inside = tt;
  space = omega arith;
  alone = λ c. refl;
}
Reaches-IsReserved t os (next r st) = Step-IsReserved _ t _ os (Reaches-IsReserved _ _ r) st

left_pos :
    (os : Ops) (i : ℕ) (u : List ℕ)
    → get_elem? os i ≡ some u
    → length u < max_op_blocks
    → 1 ≤ left os
left_pos os i u e lt = omega (arith, left-remove os i u e)

-- In every state that the log reaches while each operation logs at most MAXOPBLOCKS distinct blocks, each as
-- often as it likes, a `log_write` by an operation that has logged fewer than MAXOPBLOCKS distinct blocks
-- does not panic, whether the block is new or not: it adds the block at the end and pins it, or leaves the log
-- as it is if the block is in it.
pub Reaches-log_write :
    (t : Trans) (os : Ops) (i b : ℕ) (used : List ℕ)
    → Reaches t os
    → get_elem? os i ≡ some used
    → length used < max_op_blocks
    → log_write b t
      ≡ ok (
        if has b t.blocks then t else record t { blocks = t.blocks ++ (b ∷ []) },
        not (has b t.blocks),
      )
unfolding log_write
Reaches-log_write t os i b used r h room =
    let v = Reaches-IsReserved t os r in
    ground (arith, v.counted, v.space, left_pos os i used h room, some_running os i used h)

-- In every state that the log reaches, `end_op` of a running operation does not panic, and starts a commit
-- exactly if that operation is the last.
pub Reaches-end_op :
    (t : Trans) (os : Ops) (i : ℕ) (used : List ℕ)
    → Reaches t os
    → get_elem? os i ≡ some used
    → end_op t
      ≡ ok (
        record t { outstanding = t.outstanding - 1; committing = t.outstanding == 1 },
        t.outstanding == 1,
      )
unfolding end_op
Reaches-end_op t os i used r h =
    let v = Reaches-IsReserved t os r in
    ground (arith, v.counted, v.alone, some_running os i used h)
