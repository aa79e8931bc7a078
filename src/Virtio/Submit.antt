-- ===== src/Virtio/Submit.antt =====
-- The requests across `submit`, one by one (kernel/virtio_disk.c).
use operating_system_se.Base.{
  ℕ, ◌<◌, ◌≡◌, ◌≢◌, ap, sym, ◌∙◌, Bool, true, false, some, [], ◌∷◌, arith,
}
use operating_system_se.Virtio.{num, Disk, update, submit}
use operating_system_se.Virtio.Alloc.{Three, taken}
use operating_system_se.Virtio.Phases.{
  bools_differ, update-here, update-other, update-others, of_parts,
}
use operating_system_se.Virtio.Requests.{
  published, is_busy, Req, Flight, is_none, Laid, Held, IsValid,
}

-- A descriptor in use is none of those that are free.
pub used-free :
    (d : Disk) (f : Flight) (i j k : ℕ)
    → IsValid d f
    → i < num
    → f.owner i ≡ some k
    → d.free j ≡ true
    → i ≢ j
used-free d f i j k valid lt own free =
    λ e. bools_differ (sym free ∙ ap d.free (sym e) ∙ valid.free_owner i lt ∙ ap is_none own)

abbrev pub started : Flight → (h : ℕ) → Req → Flight
started f h r = record f {
  phase = update f.phase h published;
  req = update f.req h r;
  owner = update (update (update f.owner h (some h)) r.middle (some h)) r.last (some h);
}

-- The state after a request with the three descriptors.
abbrev pub submitted : Disk → (h m t b blockno : ℕ) → Bool → Disk
submitted d h m t b blockno write = submit b blockno write (h ∷ m ∷ t ∷ []) (taken d h m t)

abbrev pub req_of : (m t b blockno : ℕ) → Bool → Req
req_of m t b blockno write = record {
  middle = m;
  last = t;
  buf = b;
  block = blockno;
  write = write;
}

submit-Laid :
    (d : Disk) (h m t b blockno : ℕ) (write : Bool)
    → Three d h m t
    → Laid (submitted d h m t b blockno write) h (req_of m t b blockno write)
unfolding submit
submit-Laid d h m t b blockno true three = record {
  at_head = ground (arith, three.h_m, three.h_t);
  at_middle = ground (arith, three.m_t);
  at_last = ground arith;
  at_ops = ground arith;
  at_info = ground arith;
}
submit-Laid d h m t b blockno false three = record {
  at_head = ground (arith, three.h_m, three.h_t);
  at_middle = ground (arith, three.m_t);
  at_last = ground arith;
  at_ops = ground arith;
  at_info = ground arith;
}

-- What `submit` leaves as it was for another request.
pub submit-kept :
    (d : Disk) (f : Flight) (h m t b blockno k : ℕ) (write : Bool)
    → IsValid d f
    → Three d h m t
    → is_busy (f.phase k) ≡ true
    → (f.req k).buf ≢ b
    → Held (submitted d h m t b blockno write) (started f h (req_of m t b blockno write)) k
unfolding submit
submit-kept d f h m t b blockno k write valid three busy other =
    let old = valid.held k busy in
    let own = old.owns in
    let r = f.req k in
    let free = λ (i j : ℕ). used-free d f i j k valid in
    let k_h = free k h own.inside_head own.own_head three.free_h in
    let k_m = free k m own.inside_head own.own_head three.free_m in
    let k_t = free k t own.inside_head own.own_head three.free_t in
    let n_h = free r.middle h own.inside_middle own.own_middle three.free_h in
    let n_m = free r.middle m own.inside_middle own.own_middle three.free_m in
    let n_t = free r.middle t own.inside_middle own.own_middle three.free_t in
    let l_h = free r.last h own.inside_last own.own_last three.free_h in
    let l_m = free r.last m own.inside_last own.own_last three.free_m in
    let l_t = free r.last t own.inside_last own.own_last three.free_t in
    of_parts (submitted d h m t b blockno write) (started f h (req_of m t b blockno write)) k
      (f.phase k) r (update-other f.req h k _ k_h) (update-other f.phase h k _ k_h)
      (record {
        at_head = update-others d.desc h k m t _ _ _ k_h k_m k_t ∙ old.laid.at_head;
        at_middle = update-others d.desc h r.middle m t _ _ _ n_h n_m n_t ∙ old.laid.at_middle;
        at_last = update-others d.desc h r.last m t _ _ _ l_h l_m l_t ∙ old.laid.at_last;
        at_ops = update-other d.ops h k _ k_h ∙ old.laid.at_ops;
        at_info = update-other d.info_b h k _ k_h ∙ old.laid.at_info;
      })
      (record {
        inside_head = own.inside_head;
        inside_middle = own.inside_middle;
        inside_last = own.inside_last;
        head_middle = own.head_middle;
        head_last = own.head_last;
        middle_last = own.middle_last;
        own_head = update-others f.owner h k m t _ _ _ k_h k_m k_t ∙ own.own_head;
        own_middle = update-others f.owner h r.middle m t _ _ _ n_h n_m n_t ∙ own.own_middle;
        own_last = update-others f.owner h r.last m t _ _ _ l_h l_m l_t ∙ own.own_last;
      })
      (record {
        waits = update-other d.pending b r.buf _ other ∙ old.marked.waits;
        status = λ done. update-other d.info_status h k _ k_h ∙ old.marked.status done;
      })

pub submit-new :
    (d : Disk) (f : Flight) (h m t b blockno : ℕ) (write : Bool)
    → Three d h m t
    → Held (submitted d h m t b blockno write) (started f h (req_of m t b blockno write)) h
unfolding submit
submit-new d f h m t b blockno write three =
    of_parts (submitted d h m t b blockno write) (started f h (req_of m t b blockno write)) h
      published (req_of m t b blockno write) (update-here f.req h _) (update-here f.phase h _)
      (submit-Laid d h m t b blockno write three)
      (record {
        inside_head = three.inside_h;
        inside_middle = three.inside_m;
        inside_last = three.inside_t;
        own_head = ground (arith, three.h_m, three.h_t);
        own_middle = ground (arith, three.m_t);
        own_last = ground arith;
        head_middle = three.h_m;
        head_last = three.h_t;
        middle_last = three.m_t;
      })
      (record { waits = update-here d.pending b true; status = λ done. absurd (ground arith) })
