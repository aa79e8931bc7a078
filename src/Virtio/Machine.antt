-- ===== src/Virtio/Machine.antt =====
-- The driver and the device as a system (kernel/virtio_disk.c): calls of `virtio_disk_rw` up to their sleeps,
-- answers of the device, interrupts and ends of calls, in any order.
use operating_system_se.Base.{ℕ, ◌≡◌, ◌≢◌, Bool, true, false, none, some, [], ◌∷◌, ok}
use operating_system_se.Virtio.{Disk, nowhere, rw_start, rw_end, virtio_disk_intr}
use operating_system_se.Virtio.Requests.{idle, published, is_busy, Flight}
use operating_system_se.Virtio.Submit.{started, req_of}
use operating_system_se.Virtio.Answer.{answer, answered_by}
use operating_system_se.Virtio.Seen.{seen_by}
use operating_system_se.Virtio.Over.{finished}

pub record Machine : Type 0 where
  pub disk : Disk
  pub flight : Flight

-- After `virtio_disk_init`: all the memory is zero, and every descriptor is free.
abbrev pub initial : Machine
initial = record {
  disk = record {
    desc = λ i. record { addr = nowhere; len = 0; flags = 0; next = 0 };
    avail_ring = λ i. 0;
    avail_idx = 0;
    used_ring = λ i. 0;
    used_end = 0;
    free = λ i. true;
    used_idx = 0;
    info_b = λ i. none;
    info_status = λ i. 0;
    ops = λ i. record { type = 0; reserved = 0; sector = 0 };
    pending = λ b. false;
  };
  flight = record {
    phase = λ h. idle;
    req = λ h. record { middle = 0; last = 0; buf = 0; block = 0; write = false };
    owner = λ i. none;
    queue = [];
  };
}

-- No request in flight is for the buffer: its caller holds the buffer's sleeplock.
abbrev pub Unused : ℕ → Flight → Type 0
Unused b f = (h : ℕ) → is_busy (f.phase h) ≡ true → (f.req h).buf ≢ b

pub data Step : Machine → Machine → Type 0 where
  -- A call gets its descriptors and publishes its request.
  starts :
      (s : Machine) (b blockno : ℕ) (write : Bool) (h m t : ℕ) (d : Disk)
      → Unused b s.flight
      → rw_start b blockno write s.disk ≡ ok (some (h ∷ m ∷ t ∷ []), d)
      → Step s (record { disk = d; flight = started s.flight h (req_of m t b blockno write) })
  -- A call finds too few descriptors, and sleeps.
  waits :
      (s : Machine) (b blockno : ℕ) (write : Bool) (d : Disk)
      → rw_start b blockno write s.disk ≡ ok (none, d)
      → Step s (record { disk = d; flight = s.flight })
  -- The device has done a request.
  answers_one :
      (s : Machine) (h : ℕ)
      → s.flight.phase h ≡ published
      → Step s (record { disk = answer h s.disk; flight = answered_by h s.flight })
  -- The interrupt.
  interrupts :
      (s : Machine) (d : Disk)
      → virtio_disk_intr s.disk ≡ ok d
      → Step s (record { disk = d; flight = seen_by s.flight })
  -- A call wakes up, its buffer is not pending, and it ends.
  ends :
      (s : Machine) (h : ℕ) (d : Disk)
      → is_busy (s.flight.phase h) ≡ true
      → s.disk.pending (s.flight.req h).buf ≡ false
      → rw_end h s.disk ≡ ok d
      → Step s (record { disk = d; flight = finished h s.flight })

pub data Reaches : Machine → Type 0 where
  start : Reaches initial
  more : (s t : Machine) → Reaches s → Step s t → Reaches t
