-- ===== src/Virtio/Safe.antt =====
-- What the driver does in every state that it reaches (kernel/virtio_disk.c).
use operating_system_se.Base.{
  ℕ, ◌+◌, ◌*◌, ◌≤◌, ◌≡◌, ◌⊎◌, inl, inr, refl, sym, ◌∙◌, Bool, true, false, none, some, [], ◌∷◌, ok,
  arith, Bool-cases,
}
use operating_system_se.Virtio.{num, Disk, rw_start, rw_end, virtio_disk_intr}
use operating_system_se.Virtio.Counts.{count_free}
use operating_system_se.Virtio.Alloc.{free_least, Restored, Three, alloc3_desc-Triple}
use operating_system_se.Virtio.Requests.{
  Phase, idle, published, completed, seen, is_busy, elem, is_awaiting, is_completed, Flight,
  in_flight, IsValid,
}
use operating_system_se.Virtio.Submit.{submitted}
use operating_system_se.Virtio.Seen.{seen_pending, seen_by, handled, handler_runs}
use operating_system_se.Virtio.Finish.{ended}
use operating_system_se.Virtio.Phases.{phase_less}
use operating_system_se.Virtio.Over.{finished, ended-IsValid, rw_end-runs}
use operating_system_se.Virtio.Machine.{Machine, Reaches}
use operating_system_se.Virtio.Steps.{Reaches-IsValid, start_some, start_none, queue_short}

-- What a call of `virtio_disk_rw` does before it first sleeps.
abbrev pub Started : Machine → (b blockno : ℕ) → Bool → Type 0
Started s b blockno write =
    ((h : ℕ) × (m : ℕ) × (t : ℕ) × (rw_start b blockno write s.disk
        ≡ ok (some (h ∷ m ∷ t ∷ []), submitted s.disk h m t b blockno write))
      × Three s.disk h m t
      × (in_flight s.flight ≤ 1))
    ⊎ ((d : Disk) × (rw_start b blockno write s.disk ≡ ok (none, d))
        × Restored s.disk d
        × (in_flight s.flight ≡ 2))

-- In every state that the driver and the device reach, `virtio_disk_rw` does not panic before it first sleeps.
-- Either it takes three free descriptors, which differ, and publishes its request, and at most one request was
-- in flight; or it sleeps, with the disk as it was but for what free descriptors contain, and exactly two
-- requests are in flight.
pub rw_start-Started :
    (s : Machine) (b blockno : ℕ) (write : Bool) → Reaches s → Started s b blockno write
rw_start-Started s b blockno write r =
    let counted = (Reaches-IsValid s r).counted in
    elim (alloc3_desc-Triple s.disk) [
      | inl (h, m, t, run, three) ↦ inl (
        h,
        m,
        t,
        start_some b blockno write s.disk h m t run,
        three,
        omega (arith, counted, free_least s.disk h m t three),
      )
      | inr (d, run, back, few) ↦
          inr (d, start_none b blockno write s.disk d run, back, omega (arith, counted, few))
    ]

abbrev is_published : Phase → Bool
is_published idle = false
is_published published = true
is_published completed = false
is_published seen = false

-- What `virtio_disk_intr` leaves.
abbrev pub Cleared : Machine → Disk → Type 0
Cleared s d =
    (virtio_disk_intr s.disk ≡ ok d)
    × (d.used_idx ≡ s.disk.used_end)
    × ((h : ℕ)
        → is_busy (s.flight.phase h) ≡ true
        → d.pending (s.flight.req h).buf ≡ is_published (s.flight.phase h))

not_published : (p : Phase) → is_completed p ≡ true → false ≡ is_published p
not_published idle e = refl
not_published published e = e
not_published completed e = refl
not_published seen e = refl

still_published : (p : Phase) → is_completed p ≡ false → is_awaiting p ≡ is_published p
still_published idle e = refl
still_published published e = refl
still_published completed e = e
still_published seen e = refl

waiting :
    (d : Disk) (f : Flight) (h : ℕ)
    → IsValid d f
    → is_awaiting ((seen_by f).phase h) ≡ is_published (f.phase h)
waiting d f h valid = elim (Bool-cases (elem h f.queue)) [
  | inl inside ↦ rw inside (not_published (f.phase h) (sym (valid.queued h) ∙ inside))
  | inr outside ↦ rw outside (still_published (f.phase h) (sym (valid.queued h) ∙ outside))
]

-- In every state that the driver and the device reach, `virtio_disk_intr` does not panic and runs to its end: it
-- has seen every entry of the used ring, and of the buffers of the requests in flight exactly those stay pending
-- whose request the device has not answered.
pub virtio_disk_intr-Cleared : (s : Machine) → Reaches s → (d : Disk) × Cleared s d
virtio_disk_intr-Cleared s r =
    let valid = Reaches-IsValid s r in
    (
      handled s.disk s.flight,
      (
        handler_runs s.disk s.flight valid (queue_short s.disk s.flight valid),
        refl,
        λ h busy. seen_pending s.disk s.flight h valid busy ∙ waiting s.disk s.flight h valid,
      ),
    )

-- What the end of the call for the request at head `h` leaves.
abbrev pub Ended : Machine → ℕ → Disk → Type 0
Ended s h d =
    (rw_end h s.disk ≡ ok d)
    × (count_free d.free num ≡ count_free s.disk.free num + 3)
    × IsValid d (finished h s.flight)

three_more :
    (free free' n n' : ℕ)
    → free + 3 * n ≡ num
    → free' + 3 * n' ≡ num
    → n' + 1 ≡ n
    → free' ≡ free + 3
three_more free free' n n' e e' one = omega arith

-- In every state that the driver and the device reach, for a request in flight whose buffer is not pending, the
-- end of `virtio_disk_rw` does not panic, makes three descriptors free, and keeps the invariant `IsValid`
-- without this request.
pub rw_end-Ended :
    (s : Machine) (h : ℕ)
    → Reaches s
    → is_busy (s.flight.phase h) ≡ true
    → s.disk.pending (s.flight.req h).buf ≡ false
    → (d : Disk) × Ended s h d
rw_end-Ended s h r busy over =
    let valid = Reaches-IsValid s r in
    let (g, run, same) = rw_end-runs s.disk s.flight h valid busy in
    let d' = ended g h (s.flight.req h) s.disk in
    let after = ended-IsValid s.disk s.flight h g valid busy over same in
    let fewer : in_flight (finished h s.flight) + 1 ≡ in_flight s.flight =
      phase_less is_busy s.flight.phase h idle num busy refl (valid.held h busy).owns.inside_head in
    let more : count_free d'.free num ≡ count_free s.disk.free num + 3 =
      three_more (count_free s.disk.free num) (count_free d'.free num) (in_flight s.flight)
        (in_flight (finished h s.flight)) valid.counted after.counted fewer in
    (d', (run, more, after))
