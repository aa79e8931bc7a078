-- ===== src/Virtio/Answer.antt =====
-- The requests across an answer of the device and an interrupt (kernel/virtio_disk.c).
use operating_system_se.Base.{
  ℕ, zero, suc, ◌+◌, ◌*◌, ◌%◌, ◌^◌, ◌≤◌, ◌<◌, ◌≡◌, ◌≢◌, ◌⊎◌, inl, inr, refl, ap, sym, ◌∙◌, Bool,
  true, false, List, [], ◌∷◌, ◌++◌, ◌==◌, if◌then◌else◌, arith, Bool-cases, subst, length,
  length-append,
}
use operating_system_se.Virtio.{num, Disk, update}
use operating_system_se.Virtio.Counts.{count_free}
use operating_system_se.Virtio.Phases.{
  update-here, update-other, of_parts, phase_update, phase_more, phase_kept, phase_even,
}
use operating_system_se.Virtio.Requests.{
  Phase, published, completed, is_busy, is_awaiting, is_completed, Flight, Held, elem, Span,
  answers, IsValid,
}
use operating_system_se.Virtio.Interrupt.{Ring-append}

-- The device has done the request at head `h`: its status is 0, and it has an number_at in the used ring.
abbrev pub answer : ℕ → Disk → Disk
answer h d = record d {
  info_status = update d.info_status h 0;
  used_ring = update d.used_ring (d.used_end % num) h;
  used_end = (d.used_end + 1) % 2 ^ 16;
}

abbrev pub answered_by : ℕ → Flight → Flight
answered_by h f = record f { phase = update f.phase h completed; queue = f.queue ++ (h ∷ []) }

pub count_bound : (p : ℕ → Bool) (k : ℕ) → count_free p k ≤ k
unfolding count_free
count_bound p zero = omega arith
count_bound p (suc k) = ground (arith, count_bound p k)

elem-append :
    (k h : ℕ) (hs : List ℕ) → elem k (hs ++ (h ∷ [])) ≡ (if k == h then true else elem k hs)
elem-append k h [] = refl
elem-append k h (j ∷ hs) = elim (Bool-cases (k == j)) [
  | inl at ↦ elim (Bool-cases (k == h)) [ inl e ↦ rw (at, e) refl | inr e ↦ rw (at, e) refl ]
  | inr off ↦ rw off (elem-append k h hs)
]

answer-Span :
    (d : Disk) (h : ℕ) (hs : List ℕ)
    → Span d hs
    → length hs < num
    → Span (answer h d) (hs ++ (h ∷ []))
answer-Span d h hs span lt = record {
  inside_start = span.inside_start;
  at_end = omega (arith, span.at_end, length-append hs (h ∷ []));
  entries =
      Ring-append d.used_ring d.used_idx d.used_end h hs (omega (arith, span.at_end)) lt
        span.entries;
}

busy_published :
    (p : Phase)
    → p ≡ published
    → (is_busy p ≡ true) × ((is_completed p ≡ false) × (is_awaiting p ≡ true))
busy_published p e = rw e (refl, (refl, refl))

pub answer-IsValid :
    (d : Disk) (f : Flight) (h : ℕ)
    → IsValid d f
    → f.phase h ≡ published
    → IsValid (answer h d) (answered_by h f)
answer-IsValid d f h valid e =
    let (busy, (more, waits)) = busy_published (f.phase h) e in
    let lt : h < num = (valid.held h busy).owns.inside_head in
    let one : answers (answered_by h f) ≡ answers f + 1 =
      phase_more is_completed f.phase h completed num more refl lt in
    let short : length f.queue < num = omega (
      arith,
      one,
      valid.answered,
      count_bound (λ j. is_completed ((answered_by h f).phase j)) num,
    ) in
    record {
      held = λ k. held k (Bool-cases (k == h));
      free_owner = valid.free_owner;
      apart = λ j k bj bk.
          valid.apart j k (sym (phase_kept is_busy f.phase h completed j busy) ∙ bj)
            (sym (phase_kept is_busy f.phase h completed k busy) ∙ bk);
      queued = λ k.
          elem-append k h f.queue
          ∙ ap (λ b. if k == h then true else b) (valid.queued k)
          ∙ sym (phase_update is_completed f.phase h completed k);
      span = answer-Span d h f.queue valid.span short;
      counted =
          ap (λ n. count_free d.free num + 3 * n) (phase_even is_busy f.phase h completed num busy)
          ∙ valid.counted;
      answered = omega (arith, one, valid.answered, length-append f.queue (h ∷ []));
    }
  where
    held :
        (k : ℕ)
        → ((k == h) ≡ true) ⊎ ((k == h) ≡ false)
        → is_busy (update f.phase h completed k) ≡ true
        → Held (answer h d) (answered_by h f) k
    held k (inl at) busy =
        (let here : k ≡ h = ground arith in
          let (busy', (more, waits)) = busy_published (f.phase h) e in
          let old = valid.held h busy' in
          subst (Held (answer h d) (answered_by h f)) (sym here) (
            of_parts (answer h d) (answered_by h f) h completed (f.req h) refl
              (update-here f.phase h completed)
              (record {
                at_head = old.laid.at_head;
                at_middle = old.laid.at_middle;
                at_last = old.laid.at_last;
                at_ops = old.laid.at_ops;
                at_info = old.laid.at_info;
              })
              old.owns
              (record {
                waits = old.marked.waits ∙ waits;
                status = λ done. update-here d.info_status h 0;
              })))
    held k (inr off) busy =
        (let ne : k ≢ h = ground arith in
          let old =
            valid.held k (ap is_busy (sym (update-other f.phase h k completed ne)) ∙ busy) in
          of_parts (answer h d) (answered_by h f) k (f.phase k) (f.req k) refl
            (update-other f.phase h k completed ne)
            (record {
              at_head = old.laid.at_head;
              at_middle = old.laid.at_middle;
              at_last = old.laid.at_last;
              at_ops = old.laid.at_ops;
              at_info = old.laid.at_info;
            })
            old.owns
            (record {
              waits = old.marked.waits;
              status = λ done. update-other d.info_status h k 0 ne ∙ old.marked.status done;
            }))
