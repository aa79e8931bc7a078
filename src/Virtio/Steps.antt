-- ===== src/Virtio/Steps.antt =====
-- Every state that the driver and the device reach (kernel/virtio_disk.c).
use operating_system_se.Base.{
  ℕ, ◌+◌, ◌*◌, ◌^◌, ◌<◌, ◌≡◌, inl, inr, refl, ap, sym, ◌∙◌, Bool, true, false, Option, none, some,
  List, [], ◌∷◌, Outcome, ok, arith, subst, length, get_or, panic,
}
use operating_system_se.Virtio.{num, Disk, Desc, alloc3_desc, rw_start, rw_end, virtio_disk_intr}
use operating_system_se.Virtio.Counts.{count_free, count_free-same}
use operating_system_se.Virtio.Alloc.{Restored, taken, alloc3_desc-Triple}
use operating_system_se.Virtio.Requests.{is_busy, is_completed, Flight, is_none, in_flight, IsValid}
use operating_system_se.Virtio.Phases.{bools_differ}
use operating_system_se.Virtio.Submit.{started, submitted, req_of}
use operating_system_se.Virtio.Start.{submit-IsValid}
use operating_system_se.Virtio.Answer.{count_bound, answer-IsValid}
use operating_system_se.Virtio.Seen.{seen_by, handled-IsValid, handler_runs}
use operating_system_se.Virtio.Over.{finished, ended-IsValid, rw_end-runs}
use operating_system_se.Virtio.Machine.{
  Machine, initial, Unused, Step, starts, waits, answers_one, interrupts, ends, Reaches, start,
  more,
}

initial-IsValid : IsValid initial.disk initial.flight
unfolding count_free
initial-IsValid = record {
  held = λ h b. absurd (bools_differ (sym b));
  free_owner = λ i lt. refl;
  apart = λ j k b. absurd (bools_differ (sym b));
  queued = λ h. refl;
  span = record { inside_start = omega arith; at_end = refl; entries = tt };
  counted = refl;
  answered = refl;
}

-- `rw_start` from what `alloc3_desc` gives.
pub start_some :
    (b blockno : ℕ) (write : Bool) (d : Disk) (h m t : ℕ)
    → alloc3_desc d ≡ ok (some (h ∷ m ∷ t ∷ []), taken d h m t)
    → rw_start b blockno write d ≡ ok (some (h ∷ m ∷ t ∷ []), submitted d h m t b blockno write)
unfolding rw_start
start_some b blockno write d h m t e = rw e refl

pub start_none :
    (b blockno : ℕ) (write : Bool) (d d' : Disk)
    → alloc3_desc d ≡ ok (none, d')
    → rw_start b blockno write d ≡ ok (none, d')
unfolding rw_start
start_none b blockno write d d' e = rw e refl

restored_desc :
    (d : Disk) (f : Flight) (g : ℕ → Desc) (fr : ℕ → Bool)
    → IsValid d f
    → ((i : ℕ) → fr i ≡ d.free i)
    → ((i : ℕ) → d.free i ≡ false → g i ≡ d.desc i)
    → IsValid (record d { desc = g; free = fr }) f
restored_desc d f g fr valid same_free same_desc = record {
  held = λ k b.
      let old = valid.held k b in
      let own = old.owns in
      let used =
        λ (i : ℕ) (lt : i < num) (o : f.owner i ≡ some k). valid.free_owner i lt ∙ ap is_none o in
      record {
        laid = record {
          at_head = same_desc k (used k own.inside_head own.own_head) ∙ old.laid.at_head;
          at_middle =
              same_desc (f.req k).middle (used (f.req k).middle own.inside_middle own.own_middle)
              ∙ old.laid.at_middle;
          at_last =
              same_desc (f.req k).last (used (f.req k).last own.inside_last own.own_last)
              ∙ old.laid.at_last;
          at_ops = old.laid.at_ops;
          at_info = old.laid.at_info;
        };
        owns = own;
        marked = record { waits = old.marked.waits; status = old.marked.status };
      };
  free_owner = λ i lt. same_free i ∙ valid.free_owner i lt;
  apart = valid.apart;
  queued = valid.queued;
  span = record {
    inside_start = valid.span.inside_start;
    at_end = valid.span.at_end;
    entries = valid.span.entries;
  };
  counted =
      ap (λ n. n + 3 * in_flight f) (count_free-same d.free fr num (λ i lt. same_free i))
      ∙ valid.counted;
  answered = valid.answered;
}

Restored-IsValid : (d d' : Disk) (f : Flight) → IsValid d f → Restored d d' → IsValid d' f
Restored-IsValid d d' f valid back =
    subst (λ x. IsValid x f) (sym back.rest)
      (restored_desc d f d'.desc d'.free valid back.free back.desc)

-- The parts of a result.
abbrev got : Outcome (Option (List ℕ) × Disk) → List ℕ × Disk
got (ok (some idx, d)) = (idx, d)
got (ok (none, d)) = ([], d)
got (panic m) = ([], initial.disk)

abbrev was_started : Outcome (Option (List ℕ) × Disk) → Bool
was_started (ok (some idx, d)) = true
was_started (ok (none, d)) = false
was_started (panic m) = false

abbrev disk_of : Outcome Disk → Disk
disk_of (ok d) = d
disk_of (panic m) = initial.disk

abbrev number_at : List ℕ × Disk → ℕ → ℕ
number_at (idx, d) i = get_or idx i 0

starts-IsValid :
    (d : Disk) (f : Flight) (b blockno : ℕ) (write : Bool) (h m t : ℕ) (d' : Disk)
    → IsValid d f
    → Unused b f
    → rw_start b blockno write d ≡ ok (some (h ∷ m ∷ t ∷ []), d')
    → IsValid d' (started f h (req_of m t b blockno write))
starts-IsValid d f b blockno write h m t d' valid fresh e = elim (alloc3_desc-Triple d) [
  | inr (d2, run, back, few) ↦
      absurd (bools_differ (ap was_started (sym e ∙ start_none b blockno write d d2 run)))
  | inl (h0, m0, t0, run, three) ↦
      let both = sym (start_some b blockno write d h0 m0 t0 run) ∙ e in
      let eh : h0 ≡ h = ap (λ r. number_at (got r) 0) both in
      let em : m0 ≡ m = ap (λ r. number_at (got r) 1) both in
      let et : t0 ≡ t = ap (λ r. number_at (got r) 2) both in
      let ed : submitted d h0 m0 t0 b blockno write ≡ d' = ap (λ r. (got r).1) both in
      subst (λ x. IsValid x (started f h (req_of m t b blockno write))) ed
        (subst
          (λ x.
            IsValid (submitted d h0 m0 t0 b blockno write)
              (started f x (req_of m t b blockno write)))
          eh
          (subst
            (λ x.
              IsValid (submitted d h0 m0 t0 b blockno write)
                (started f h0 (req_of x t b blockno write)))
            em
            (subst
              (λ x.
                IsValid (submitted d h0 m0 t0 b blockno write)
                  (started f h0 (req_of m0 x b blockno write)))
              et (submit-IsValid d f h0 m0 t0 b blockno write valid three fresh))))
]

waits-IsValid :
    (d : Disk) (f : Flight) (b blockno : ℕ) (write : Bool) (d' : Disk)
    → IsValid d f
    → rw_start b blockno write d ≡ ok (none, d')
    → IsValid d' f
waits-IsValid d f b blockno write d' valid e = elim (alloc3_desc-Triple d) [
  | inl (h, m, t, run, three) ↦
      absurd (bools_differ (ap was_started (sym (start_some b blockno write d h m t run) ∙ e)))
  | inr (d2, run, back, few) ↦
      subst (λ x. IsValid x f) (ap (λ r. (got r).1) (sym (start_none b blockno write d d2 run) ∙ e))
        (Restored-IsValid d d2 f valid back)
]

pub queue_short : (d : Disk) (f : Flight) → IsValid d f → length f.queue < 2 ^ 16
queue_short d f valid =
    omega (arith, valid.answered, count_bound (λ h. is_completed (f.phase h)) num)

interrupts-IsValid :
    (d : Disk) (f : Flight) (d' : Disk)
    → IsValid d f
    → virtio_disk_intr d ≡ ok d'
    → IsValid d' (seen_by f)
interrupts-IsValid d f d' valid e =
    subst (λ x. IsValid x (seen_by f))
      (ap disk_of (sym (handler_runs d f valid (queue_short d f valid)) ∙ e))
      (handled-IsValid d f valid)

ends-IsValid :
    (d : Disk) (f : Flight) (h : ℕ) (d' : Disk)
    → IsValid d f
    → is_busy (f.phase h) ≡ true
    → d.pending (f.req h).buf ≡ false
    → rw_end h d ≡ ok d'
    → IsValid d' (finished h f)
ends-IsValid d f h d' valid busy over e =
    let (g, run, same) = rw_end-runs d f h valid busy in
    subst (λ x. IsValid x (finished h f)) (ap disk_of (sym run ∙ e))
      (ended-IsValid d f h g valid busy over same)

Step-IsValid : (s t : Machine) → IsValid s.disk s.flight → Step s t → IsValid t.disk t.flight
Step-IsValid _ _ valid (starts s b blockno write h m t d fresh e) =
    starts-IsValid s.disk s.flight b blockno write h m t d valid fresh e
Step-IsValid _ _ valid (waits s b blockno write d e) =
    waits-IsValid s.disk s.flight b blockno write d valid e
Step-IsValid _ _ valid (answers_one s h e) = answer-IsValid s.disk s.flight h valid e
Step-IsValid _ _ valid (interrupts s d e) = interrupts-IsValid s.disk s.flight d valid e
Step-IsValid _ _ valid (ends s h d busy over e) = ends-IsValid s.disk s.flight h d valid busy over e

-- Every state that the driver and the device reach is valid. Each request in flight has three descriptors that
-- belong to no other, chained from its head to its buffer and its status, and no buffer belongs to two; a
-- descriptor is free exactly if no request has it; a buffer is pending until the handler has seen the device's
-- answer; and the used ring holds, in order, the answers not yet seen.
pub Reaches-IsValid : (s : Machine) → Reaches s → IsValid s.disk s.flight
Reaches-IsValid _ start = initial-IsValid
Reaches-IsValid _ (more s t r step) = Step-IsValid s t (Reaches-IsValid s r) step
