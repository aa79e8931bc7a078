-- ===== src/Virtio.antt =====
-- kernel/virtio_disk.c: the descriptors, the two rings and the book-keeping that the driver shares with the
-- device. Arrays are functions of the index, a pointer to a buffer is its number, and `pending` is the field
-- `disk` of the buffers. The driver's lock makes what `virtio_disk_rw` does up to its next sleep() one step.
pub mod Counts
pub mod Alloc
pub mod Requests
pub mod Phases
pub mod Submit
pub mod Start
pub mod Finish
pub mod Over
pub mod Interrupt
pub mod Answer
pub mod Seen
pub mod Machine
pub mod Steps
pub mod Safe
pub mod Init
mod Tests
use Prim.Native.Nat.{bit_and, bit_or}
use operating_system_se.Base.{
  ℕ, zero, suc, ◌+◌, ◌-◌, ◌*◌, ◌%◌, ◌^◌, Bool, true, false, not, Option, none, some, List, [], ◌∷◌,
  ◌++◌, leb, ◌==◌, if◌then◌else◌, get_or, Outcome, ok, panic, ◌>>=◌,
}

-- NUM
abbrev pub num : ℕ
num = 8

-- VRING_DESC_F_NEXT and VRING_DESC_F_WRITE
abbrev pub flag_next : ℕ
flag_next = 1

abbrev pub flag_write : ℕ
flag_write = 2

-- Where a descriptor points: null, disk.ops[i], the bytes of a buffer, disk.info[i].status.
pub data Target : Type 0 where
  nowhere : Target
  request : ℕ → Target
  contents : ℕ → Target
  status_of : ℕ → Target

-- struct virtq_desc
pub record Desc : Type 0 where
  pub addr : Target
  pub len : ℕ
  pub flags : ℕ
  pub next : ℕ

-- struct virtio_blk_req
pub record Request : Type 0 where
  pub type : ℕ
  pub reserved : ℕ
  pub sector : ℕ

-- struct disk, less its lock, with avail->idx, used->idx (`used_end`) and the flags of the buffers.
pub record Disk : Type 0 where
  pub desc : ℕ → Desc
  pub avail_ring : ℕ → ℕ
  pub avail_idx : ℕ
  pub used_ring : ℕ → ℕ
  pub used_end : ℕ
  pub free : ℕ → Bool
  pub used_idx : ℕ
  pub info_b : ℕ → Option ℕ
  pub info_status : ℕ → ℕ
  pub ops : ℕ → Request
  pub pending : ℕ → Bool

-- An array after an assignment.
abbrev pub update {ℓ} : {A : Type ℓ} → (ℕ → A) → ℕ → A → ℕ → A
update f i v x = if x == i then v else f x

-- The loop of `alloc_desc` over the next `n` descriptors.
unfoldable pub alloc_desc_from : (n i : ℕ) → Disk → Option ℕ × Disk
alloc_desc_from zero i d = (none, d)
alloc_desc_from (suc n) i d =
    let rest = alloc_desc_from n (i + 1) d in
    if d.free i then (some i, record d { free = update d.free i false }) else rest

unfoldable pub alloc_desc : Disk → Option ℕ × Disk
unfolding alloc_desc_from
alloc_desc d = alloc_desc_from num 0 d

-- Its wakeup() concerns the processes that `virtio_disk_rw` put to sleep.
unfoldable pub free_desc : ℕ → Disk → Outcome Disk
free_desc i d =
    if leb num i
    then panic "free_desc 1"
    else if d.free i
    then panic "free_desc 2"
    else ok (record d {
      desc = update d.desc i (record { addr = nowhere; len = 0; flags = 0; next = 0 });
      free = update d.free i true;
    })

-- The loop of `free_chain` for at most `fuel` rounds.
unfoldable pub free_chain_for : (fuel i : ℕ) → Disk → Outcome Disk
free_chain_for zero i d = panic "free_desc 2"
free_chain_for (suc fuel) i d = free_desc i d >>= λ d'.
    let rest = free_chain_for fuel (d.desc i).next d' in
    if bit_and (d.desc i).flags flag_next == 0 then ok d' else rest

-- Each round makes a descriptor free that was not, or panics: the ninth would panic.
unfoldable pub free_chain : ℕ → Disk → Outcome Disk
free_chain i d = free_chain_for (num + 1) i d

-- The inner loop of `alloc3_desc`.
unfoldable pub free_all : List ℕ → Disk → Outcome Disk
free_all [] d = ok d
free_all (i ∷ idx) d = free_desc i d >>= λ d'. free_all idx d'

-- The loop of `alloc3_desc` for `n` more descriptors, with those it has: none for -1.
unfoldable pub alloc_more : ℕ → List ℕ → Disk → Outcome (Option (List ℕ) × Disk)
alloc_more zero idx d = ok (some idx, d)
alloc_more (suc n) idx d =
    let (r, d') = alloc_desc d in
    elim r [
      | none ↦ (free_all idx d' >>= λ d''. ok (none, d''))
      | some i ↦ alloc_more n (idx ++ (i ∷ [])) d'
    ]

unfoldable pub alloc3_desc : Disk → Outcome (Option (List ℕ) × Disk)
alloc3_desc d = alloc_more 3 [] d

-- `virtio_disk_rw` from the formatting of the descriptors up to the notification of the device. The product of
-- the block's number is one of uint.
unfoldable pub submit : (b blockno : ℕ) (write : Bool) → List ℕ → Disk → Disk
submit b blockno write idx d =
    let i0 = get_or idx 0 0 in
    let i1 = get_or idx 1 0 in
    let i2 = get_or idx 2 0 in
    let head : Desc = record { addr = request i0; len = 16; flags = flag_next; next = i1 } in
    let middle : Desc = record {
      addr = contents b;
      len = 1024;
      flags = bit_or (if write then 0 else flag_write) flag_next;
      next = i2;
    } in
    let last : Desc = record { addr = status_of i0; len = 1; flags = flag_write; next = 0 } in
    record d {
      ops =
          update d.ops i0
            (record { type = if write then 1 else 0; reserved = 0; sector = blockno * 2 % 2 ^ 32 });
      desc = update (update (update d.desc i0 head) i1 middle) i2 last;
      info_status = update d.info_status i0 255;
      pending = update d.pending b true;
      info_b = update d.info_b i0 (some b);
      avail_ring = update d.avail_ring (d.avail_idx % num) i0;
      avail_idx = (d.avail_idx + 1) % 2 ^ 16;
    }

-- `virtio_disk_rw` up to its first sleep(): for descriptors, with none, or for the end of the request, with
-- its descriptors.
unfoldable pub rw_start : (b blockno : ℕ) (write : Bool) → Disk → Outcome (Option (List ℕ) × Disk)
rw_start b blockno write d = alloc3_desc d >>= λ (r, d'). elim r [
  | none ↦ ok (none, d')
  | some idx ↦ ok (some idx, submit b blockno write idx d')
]

-- `virtio_disk_rw` once the buffer is not pending.
unfoldable pub rw_end : ℕ → Disk → Outcome Disk
rw_end i0 d = free_chain i0 (record d { info_b = update d.info_b i0 none })

-- The loop of `virtio_disk_intr`, `n` rounds at most.
unfoldable pub intr_loop : ℕ → Disk → Outcome Disk
intr_loop zero d = ok d
intr_loop (suc n) d =
    let id = d.used_ring (d.used_idx % num) in
    let rest = λ (b : ℕ).
      intr_loop n
        (record d { pending = update d.pending b false; used_idx = (d.used_idx + 1) % 2 ^ 16 }) in
    if d.used_idx == d.used_end
    then ok d
    else if not (d.info_status id == 0)
    then panic "virtio_disk_intr status"
    else (elim (d.info_b id) [ none ↦ panic "null buffer" | some b ↦ rest b ])

-- used->idx - used_idx rounds are enough: each counts used_idx up. used->idx is read once, at the start: entries
-- that the device adds while the handler runs, which the source may take too, are left for its next call.
unfoldable pub virtio_disk_intr : Disk → Outcome Disk
virtio_disk_intr d = intr_loop ((d.used_end + 2 ^ 16 - d.used_idx) % 2 ^ 16) d
