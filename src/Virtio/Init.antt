-- ===== src/Virtio/Init.antt =====
-- `virtio_disk_init` (kernel/virtio_disk.c): what it reads from the device, and what it writes to the device's
-- registers.
use operating_system_se.Base.{
  ℕ, ◌+◌, ◌-◌, ◌/◌, ◌%◌, ◌^◌, not, ◌||◌, Option, some, List, [], ◌∷◌, ◌++◌, ltb, ◌==◌,
  if◌then◌else◌, Outcome, ok, panic,
}
use operating_system_se.Virtio.{num}

-- The registers that the driver reads, the status after feature negotiation among them.
pub record Device : Type 0 where
  pub magic : ℕ
  pub version : ℕ
  pub device_id : ℕ
  pub vendor_id : ℕ
  pub features : ℕ
  pub status : ℕ
  pub queue_ready : ℕ
  pub queue_num_max : ℕ

-- features &= ~(1 << k)
abbrev pub without_bit : ℕ → ℕ → ℕ
without_bit k f = if f / 2 ^ k % 2 == 1 then f - 2 ^ k else f

-- VIRTIO_BLK_F_RO, _SCSI, _CONFIG_WCE, _MQ, VIRTIO_F_ANY_LAYOUT, VIRTIO_RING_F_EVENT_IDX, _INDIRECT_DESC
unfoldable pub negotiate : ℕ → ℕ
negotiate f = without_bit 28 (
    without_bit 29
      (without_bit 27 (without_bit 12 (without_bit 11 (without_bit 7 (without_bit 5 f))))))

-- The tests before the queue's memory is allocated.
unfoldable pub probe : Device → Outcome (List (ℕ × ℕ))
probe d =
    if not (d.magic == 1953655158)
      || (not (d.version == 2) || (not (d.device_id == 2) || not (d.vendor_id == 1431127377)))
    then panic "could not find virtio disk"
    else if d.status / 8 % 2 == 0
    then panic "virtio disk FEATURES_OK unset"
    else if not (d.queue_ready == 0)
    then panic "virtio disk should not be ready"
    else if d.queue_num_max == 0
    then panic "virtio disk has no queue 0"
    else if ltb d.queue_num_max num
    then panic "virtio disk max queue too short"
    else ok ((112, 0) ∷ (112, 1) ∷ (112, 3) ∷ (32, negotiate d.features) ∷ (112, 11) ∷ (48, 0) ∷ [])

-- The low and the high half of an address, in two registers.
abbrev pub halves : (reg addr : ℕ) → List (ℕ × ℕ)
halves reg addr = (reg, addr % 2 ^ 32) ∷ (reg + 4, addr / 2 ^ 32) ∷ []

-- DRIVER_OK is bit 2 of the status.
abbrev pub driver_ok : ℕ → ℕ
driver_ok status = if status / 4 % 2 == 1 then status else status + 4

-- `virtio_disk_init`, with the pages that kalloc() gives for the descriptors and the two rings: the writes, in
-- their order. It zeroes the pages, and makes every descriptor free.
unfoldable pub virtio_disk_init : (desc avail used : Option ℕ) → Device → Outcome (List (ℕ × ℕ))
unfolding probe
virtio_disk_init (some desc) (some avail) (some used) d = elim (probe d) [
  | panic m ↦ panic m
  | ok ws ↦ ok (
      ws
      ++ ((56, num) ∷ [])
      ++ halves 128 desc
      ++ halves 144 avail
      ++ halves 160 used
      ++ ((68, 1) ∷ (112, driver_ok d.status) ∷ []))
]
virtio_disk_init desc avail used d = elim (probe d) [
  | panic m ↦ panic m
  | ok ws ↦ panic "virtio disk kalloc"
]
