-- ===== src/Virtio/Seen.antt =====
-- The requests across `virtio_disk_intr` (kernel/virtio_disk.c).
use operating_system_se.Base.{
  ℕ, ◌+◌, ◌*◌, ◌^◌, ◌<◌, ◌≡◌, ◌≢◌, inl, inr, refl, ap, sym, ◌∙◌, Bool, true, false, some, List, [],
  ◌∷◌, ◌==◌, if◌then◌else◌, ok, arith, Bool-cases, length, All, ==_refl,
}
use operating_system_se.Virtio.{num, Disk, update, virtio_disk_intr}
use operating_system_se.Virtio.Counts.{count_free, count_free-same, count_free-none}
use operating_system_se.Virtio.Phases.{bools_differ, update-other}
use operating_system_se.Virtio.Requests.{
  Phase, idle, published, completed, seen, is_busy, is_awaiting, is_completed, Flight, Held, elem,
  IsValid,
}
use operating_system_se.Virtio.Interrupt.{done_pending, intr-run}

done_pending-false :
    (buf : ℕ → ℕ) (hs : List ℕ) (p : ℕ → Bool) (b : ℕ)
    → p b ≡ false
    → done_pending buf hs p b ≡ false
done_pending-false buf [] p b e = e
done_pending-false buf (h ∷ hs) p b e =
    done_pending-false buf hs (update p (buf h) false) b (ground arith)

done_pending-in :
    (buf : ℕ → ℕ) (hs : List ℕ) (p : ℕ → Bool) (h : ℕ)
    → elem h hs ≡ true
    → done_pending buf hs p (buf h) ≡ false
done_pending-in buf [] p h e = absurd (ground arith)
done_pending-in buf (k ∷ hs) p h e = elim (Bool-cases (h == k)) [
  | inl at ↦
      (let here : h ≡ k = ground arith in
        done_pending-false buf hs (update p (buf k) false) (buf h)
          (update-at p (buf k) (buf h) (ap buf here)))
  | inr off ↦ done_pending-in buf hs (update p (buf k) false) h (ground arith)
]
  where
    update-at : (p : ℕ → Bool) (i j : ℕ) → j ≡ i → update p i false j ≡ false
    update-at p i j e = ground arith

done_pending-other :
    (buf : ℕ → ℕ) (hs : List ℕ) (p : ℕ → Bool) (b : ℕ)
    → ((h : ℕ) → elem h hs ≡ true → buf h ≢ b)
    → done_pending buf hs p b ≡ p b
done_pending-other buf [] p b far = refl
done_pending-other buf (k ∷ hs) p b far =
    done_pending-other buf hs (update p (buf k) false) b (λ h e. far h (later h e))
    ∙ update-other p (buf k) b false (λ e. far k (rw (==_refl k) refl) (sym e))
  where
    later : (h : ℕ) → elem h hs ≡ true → elem h (k ∷ hs) ≡ true
    later h e = ground arith

each_elem : (P : ℕ → Type 0) (hs : List ℕ) → ((h : ℕ) → elem h hs ≡ true → P h) → All P hs
each_elem P [] f = tt
each_elem P (h ∷ hs) f = (f h (rw (==_refl h) refl), each_elem P hs (λ k e. f k (later k e)))
  where
    later : (k : ℕ) → elem k hs ≡ true → elem k (h ∷ hs) ≡ true
    later k e = ground arith

done_busy : (p : Phase) → is_completed p ≡ true → is_busy p ≡ true
done_busy idle e = e
done_busy published e = refl
done_busy completed e = refl
done_busy seen e = refl

-- After the handler has seen every answer.
abbrev pub seen_by : Flight → Flight
seen_by f = record f { phase = λ h. if elem h f.queue then seen else f.phase h; queue = [] }

abbrev pub handled : Disk → Flight → Disk
handled d f = record d {
  pending = done_pending (λ h. (f.req h).buf) f.queue d.pending;
  used_idx = d.used_end;
}

seen_busy :
    (d : Disk) (f : Flight) (k : ℕ)
    → IsValid d f
    → is_busy ((seen_by f).phase k) ≡ is_busy (f.phase k)
seen_busy d f k valid = elim (Bool-cases (elem k f.queue)) [
  | inl inside ↦ rw inside (sym (done_busy (f.phase k) (sym (valid.queued k) ∙ inside)))
  | inr outside ↦ rw outside refl
]

pub seen_pending :
    (d : Disk) (f : Flight) (k : ℕ)
    → IsValid d f
    → is_busy (f.phase k) ≡ true
    → (handled d f).pending (f.req k).buf ≡ is_awaiting ((seen_by f).phase k)
seen_pending d f k valid busy = elim (Bool-cases (elem k f.queue)) [
  | inl inside ↦ rw inside (done_pending-in (λ h. (f.req h).buf) f.queue d.pending k inside)
  | inr outside ↦ rw outside (
      done_pending-other (λ h. (f.req h).buf) f.queue d.pending (f.req k).buf
        (λ h e same. bools_differ (
          sym e
          ∙ ap (λ i. elem i f.queue)
              (valid.apart h k (done_busy (f.phase h) (sym (valid.queued h) ∙ e)) busy same)
          ∙ outside))
      ∙ (valid.held k busy).marked.waits)
]

none_done :
    (d : Disk) (f : Flight) (k : ℕ) → IsValid d f → is_completed ((seen_by f).phase k) ≡ false
none_done d f k valid = elim (Bool-cases (elem k f.queue)) [
  | inl inside ↦ rw inside refl
  | inr outside ↦ rw outside (sym (valid.queued k) ∙ outside)
]

pub handled-IsValid : (d : Disk) (f : Flight) → IsValid d f → IsValid (handled d f) (seen_by f)
handled-IsValid d f valid = record {
  held = held;
  free_owner = valid.free_owner;
  apart = λ j k bj bk.
      valid.apart j k (sym (seen_busy d f j valid) ∙ bj) (sym (seen_busy d f k valid) ∙ bk);
  queued = λ k. sym (none_done d f k valid);
  span = record {
    inside_start = omega (arith, valid.span.at_end);
    at_end = omega (arith, valid.span.at_end);
    entries = tt;
  };
  counted =
      ap (λ n. count_free d.free num + 3 * n)
        (count_free-same (λ k. is_busy (f.phase k)) (λ k. is_busy ((seen_by f).phase k)) num
          (λ k lt. seen_busy d f k valid))
      ∙ valid.counted;
  answered =
      count_free-none (λ k. is_completed ((seen_by f).phase k)) num (λ k lt. none_done d f k valid);
}
  where
    held : (k : ℕ) → is_busy ((seen_by f).phase k) ≡ true → Held (handled d f) (seen_by f) k
    held k b =
        (let busy = sym (seen_busy d f k valid) ∙ b in
          let old = valid.held k busy in
          record {
            laid = record {
              at_head = old.laid.at_head;
              at_middle = old.laid.at_middle;
              at_last = old.laid.at_last;
              at_ops = old.laid.at_ops;
              at_info = old.laid.at_info;
            };
            owns = old.owns;
            marked = record {
              waits = seen_pending d f k valid busy;
              status = λ done. absurd (bools_differ (sym done ∙ none_done d f k valid));
            };
          })

-- The handler runs to its end.
pub handler_runs :
    (d : Disk) (f : Flight)
    → IsValid d f
    → length f.queue < 2 ^ 16
    → virtio_disk_intr d ≡ ok (handled d f)
handler_runs d f valid short =
    intr-run f.queue d (λ h. (f.req h).buf) valid.span short
      (each_elem (λ h. (d.info_status h ≡ 0) × (d.info_b h ≡ some (f.req h).buf)) f.queue
        (λ h e.
          let done = sym (valid.queued h) ∙ e in
          let old = valid.held h (done_busy (f.phase h) done) in
          (old.marked.status done, old.laid.at_info)))
