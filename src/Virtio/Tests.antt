-- ===== src/Virtio/Tests.antt =====
-- Runs of the driver (kernel/virtio_disk.c).
use operating_system_se.Base.{◌+◌, ◌^◌, ◌≡◌, refl, sym, true, false, some, [], ◌∷◌, ok}
use operating_system_se.Virtio.{
  Disk, alloc_desc_from, alloc_desc, alloc_more, alloc3_desc, submit, rw_start, intr_loop,
  virtio_disk_intr,
}
use operating_system_se.Virtio.Requests.{IsValid}
use operating_system_se.Virtio.Phases.{bools_differ}
use operating_system_se.Virtio.Submit.{started, submitted, req_of}
use operating_system_se.Virtio.Answer.{answer, answered_by}
use operating_system_se.Virtio.Seen.{seen_by, handled}
use operating_system_se.Virtio.Machine.{
  Machine, initial, Step, starts, answers_one, interrupts, Reaches, start, more,
}
use operating_system_se.Virtio.Steps.{Reaches-IsValid}
use operating_system_se.Virtio.Safe.{
  Started, rw_start-Started, Cleared, virtio_disk_intr-Cleared, Ended, rw_end-Ended,
}
use operating_system_se.Virtio.Init.{Device, negotiate, probe, virtio_disk_init}

-- A write of block 3 from buffer 5.
abbrev one_published : Machine
one_published = record {
  disk = submitted initial.disk 0 1 2 5 3 true;
  flight = started initial.flight 0 (req_of 1 2 5 3 true);
}

starts_3 : Step initial one_published
unfolding rw_start alloc3_desc alloc_more alloc_desc alloc_desc_from
starts_3 =
    starts initial 5 3 true 0 1 2 one_published.disk (λ h b. absurd (bools_differ (sym b))) refl

reaches_one : Reaches one_published
reaches_one = more initial one_published start starts_3

abbrev one_answered : Machine
one_answered = record {
  disk = answer 0 one_published.disk;
  flight = answered_by 0 one_published.flight;
}

reaches_answer : Reaches one_answered
unfolding submit
reaches_answer = more one_published one_answered reaches_one (answers_one one_published 0 refl)

abbrev one_seen : Machine
one_seen = record {
  disk = handled one_answered.disk one_answered.flight;
  flight = seen_by one_answered.flight;
}

runs_seen : virtio_disk_intr one_answered.disk ≡ ok one_seen.disk
unfolding submit intr_loop virtio_disk_intr
runs_seen = refl

reaches_seen : Reaches one_seen
reaches_seen =
    more one_answered one_seen reaches_answer (interrupts one_answered one_seen.disk runs_seen)

rw_start-Started_example : Started one_published 6 4 false
rw_start-Started_example = rw_start-Started one_published 6 4 false reaches_one

virtio_disk_intr-Cleared_example : (d : Disk) × Cleared one_answered d
virtio_disk_intr-Cleared_example = virtio_disk_intr-Cleared one_answered reaches_answer

seen_waits : one_seen.disk.pending 5 ≡ false
unfolding submit
seen_waits = refl

rw_end-Ended_example : (d : Disk) × Ended one_seen 0 d
rw_end-Ended_example = rw_end-Ended one_seen 0 reaches_seen refl seen_waits

Reaches-IsValid_example : IsValid one_seen.disk one_seen.flight
Reaches-IsValid_example = Reaches-IsValid one_seen reaches_seen

-- A disk that QEMU shows.
abbrev device : Device
device = record {
  magic = 1953655158;
  version = 2;
  device_id = 2;
  vendor_id = 1431127377;
  features = 2 ^ 28 + 2 ^ 9 + 2 ^ 5;
  status = 11;
  queue_ready = 0;
  queue_num_max = 1024;
}

writes :
    virtio_disk_init (some 4096) (some 8192) (some 12288) device
    ≡ ok (
        (112, 0)
        ∷ (112, 1)
        ∷ (112, 3)
        ∷ (32, 512)
        ∷ (112, 11)
        ∷ (48, 0)
        ∷ (56, 8)
        ∷ (128, 4096)
        ∷ (132, 0)
        ∷ (144, 8192)
        ∷ (148, 0)
        ∷ (160, 12288)
        ∷ (164, 0)
        ∷ (68, 1)
        ∷ (112, 15)
        ∷ [])
unfolding virtio_disk_init probe negotiate
writes = refl
