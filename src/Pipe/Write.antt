-- ===== src/Pipe/Write.antt =====
-- What `pipewrite` (kernel/pipe.c) puts into the pipe.
use operating_system_se.Base.{
  ℕ, zero, suc, ◌+◌, ◌≤◌, ◌≡◌, refl, sym, ap, ap₂, ◌∙◌, inl, inr, Bool, ◌||◌, not, Option, none,
  some, List, [], ◌∷◌, ◌++◌, arith, Bool-cases, Option-cases,
}
use mathlib.Core.List.{append_assoc, append-nil}
use operating_system_se.Pipe.{Pipe, is_full, put, WriteEnd, hung_up, blocked, finished, write_loop}
use operating_system_se.Pipe.Ring.{IsValid, contents, put-contents}

abbrev pub byte_of : Option ℕ → ℕ
byte_of none = 0
byte_of (some b) = b

-- The bytes at the `n` user addresses from `a` on; a fault counts as 0.
abbrev pub user_bytes : (ℕ → Option ℕ) → ℕ → ℕ → List ℕ
user_bytes copyin a zero = []
user_bytes copyin a (suc n) = byte_of (copyin a) ∷ user_bytes copyin (a + 1) n

-- The rounds that copied a byte.
abbrev pub progress : WriteEnd → ℕ
progress (hung_up i) = i
progress (blocked i) = i
progress (finished i) = i

-- After a run of the loop from `i` on with `k` rounds to go, the pipe is valid and its ends are as
-- before; it holds `moved` more bytes, those of the user's addresses from addr + i on, in order; and
-- `i` has grown by `moved`.
pub record Wrote (copyin : ℕ → Option ℕ) (addr k i : ℕ) (pi : Pipe) (out : WriteEnd × Pipe)
    : Type 0 where
  pub valid : IsValid out.1
  pub moved : ℕ
  pub limit : moved ≤ k
  pub count : progress out.0 ≡ i + moved
  pub bytes : contents out.1 ≡ contents pi ++ user_bytes copyin (addr + i) moved
  pub reader : out.1.readopen ≡ pi.readopen
  pub writer : out.1.writeopen ≡ pi.writeopen

module _ (copyin : ℕ → Option ℕ) (killed : ℕ → Bool) (addr : ℕ) where
  Wrote-stop :
      (k i : ℕ) (pi : Pipe) (e : WriteEnd)
      → IsValid pi
      → progress e ≡ i
      → Wrote copyin addr k i pi (e, pi)
  Wrote-stop k i pi e v p = record {
    valid = v;
    moved = 0;
    limit = omega arith;
    count = omega arith;
    bytes = sym (append-nil (contents pi));
    reader = refl;
    writer = refl;
  }

  Wrote-cons :
      (k i ch : ℕ) (pi : Pipe) (out : WriteEnd × Pipe)
      → contents (put ch pi) ≡ contents pi ++ (ch ∷ [])
      → copyin (addr + i) ≡ some ch
      → Wrote copyin addr k (i + 1) (put ch pi) out
      → Wrote copyin addr (suc k) i pi out
  unfolding put
  Wrote-cons k i ch pi out app got w =
      let next : addr + (i + 1) ≡ addr + i + 1 = omega arith in
      record {
        valid = w.valid;
        moved = suc w.moved;
        limit = omega (arith, w.limit);
        count = omega (arith, w.count);
        bytes =
            w.bytes
            ∙ ap₂ ◌++◌ app (ap (λ a. user_bytes copyin a w.moved) next)
            ∙ append_assoc (contents pi) (ch ∷ []) _
            ∙ ap (λ b. contents pi ++ (byte_of b ∷ user_bytes copyin (addr + i + 1) w.moved))
                (sym got);
        reader = w.reader;
        writer = w.writer;
      }

  -- However its loop ends, `pipewrite` has appended to a valid pipe exactly the user's bytes that it
  -- counts, in order, and no more than it was asked for.
  pub write_loop-Wrote :
      (k i : ℕ) (pi : Pipe)
      → IsValid pi
      → Wrote copyin addr k i pi (write_loop copyin killed addr k i pi)
  unfolding write_loop
  write_loop-Wrote zero i pi v = Wrote-stop zero i pi (finished i) v refl
  write_loop-Wrote (suc k) i pi v = elim (Bool-cases (not pi.readopen || killed i)) [
    | inl shut ↦ rw shut (Wrote-stop (suc k) i pi (hung_up i) v refl)
    | inr open' ↦ elim (Bool-cases (is_full pi)) [
      | inl full ↦ rw (open', full) (Wrote-stop (suc k) i pi (blocked i) v refl)
      | inr room ↦ elim (Option-cases (copyin (addr + i))) [
        | inl fault ↦ rw (open', room, fault) (Wrote-stop (suc k) i pi (finished i) v refl)
        | inr (ch, got) ↦
            let (v', app) = put-contents ch pi v room in
            rw (open', room, got)
              (Wrote-cons k i ch pi _ app got (write_loop-Wrote k (i + 1) (put ch pi) v'))
      ]
    ]
  ]
