-- ===== src/Virtio/Requests.antt =====
-- The requests that the driver has in flight (kernel/virtio_disk.c): for each, its three descriptors, its
-- buffer, and how far it is.
use operating_system_se.Base.{
  ℕ, ◌+◌, ◌*◌, ◌%◌, ◌^◌, ◌<◌, ◌≡◌, ◌≢◌, Bool, true, false, Option, none, some, List, [], ◌∷◌, ◌==◌,
  length, if◌then◌else◌,
}
use operating_system_se.Virtio.{num, request, contents, status_of, Disk, Desc, Request}
use operating_system_se.Virtio.Counts.{count_free}

-- idle: the descriptor heads no request; published: the device has not answered; completed: it has;
-- seen: the interrupt handler has seen the answer.
pub data Phase : Type 0 where
  idle : Phase
  published : Phase
  completed : Phase
  seen : Phase

abbrev pub is_busy : Phase → Bool
is_busy idle = false
is_busy published = true
is_busy completed = true
is_busy seen = true

abbrev pub is_awaiting : Phase → Bool
is_awaiting idle = false
is_awaiting published = true
is_awaiting completed = true
is_awaiting seen = false

abbrev pub is_completed : Phase → Bool
is_completed idle = false
is_completed published = false
is_completed completed = true
is_completed seen = false

-- A call of `virtio_disk_rw`, by the descriptor at the head of its chain.
pub record Req : Type 0 where
  pub middle : ℕ
  pub last : ℕ
  pub buf : ℕ
  pub block : ℕ
  pub write : Bool

-- The requests in flight by their head, the head for which a descriptor is in use, and the heads in the
-- used ring that the driver has not seen.
pub record Flight : Type 0 where
  pub phase : ℕ → Phase
  pub req : ℕ → Req
  pub owner : ℕ → Option ℕ
  pub queue : List ℕ

abbrev pub is_none {ℓ} : {A : Type ℓ} → Option A → Bool
is_none none = true
is_none (some x) = false

-- The chain of descriptors that the device reads.
abbrev pub head_desc : ℕ → Req → Desc
head_desc h r = record { addr = request h; len = 16; flags = 1; next = r.middle }

abbrev pub middle_desc : Req → Desc
middle_desc r = record {
  addr = contents r.buf;
  len = 1024;
  flags = if r.write then 1 else 3;
  next = r.last;
}

abbrev pub last_desc : ℕ → Desc
last_desc h = record { addr = status_of h; len = 1; flags = 2; next = 0 }

abbrev pub request_of : Req → Request
request_of r = record {
  type = if r.write then 1 else 0;
  reserved = 0;
  sector = r.block * 2 % 2 ^ 32;
}

-- The request `r` stands in the disk at head `h`.
pub record Laid (d : Disk) (h : ℕ) (r : Req) : Type 0 where
  pub at_head : d.desc h ≡ head_desc h r
  pub at_middle : d.desc r.middle ≡ middle_desc r
  pub at_last : d.desc r.last ≡ last_desc h
  pub at_ops : d.ops h ≡ request_of r
  pub at_info : d.info_b h ≡ some r.buf

-- The three descriptors of a request are its own.
pub record Owns (owner : ℕ → Option ℕ) (h : ℕ) (r : Req) : Type 0 where
  pub inside_head : h < num
  pub inside_middle : r.middle < num
  pub inside_last : r.last < num
  pub own_head : owner h ≡ some h
  pub own_middle : owner r.middle ≡ some h
  pub own_last : owner r.last ≡ some h
  pub head_middle : h ≢ r.middle
  pub head_last : h ≢ r.last
  pub middle_last : r.middle ≢ r.last

-- The field `disk` of the buffer and the status of the request agree with its phase.
pub record Marked (d : Disk) (h : ℕ) (p : Phase) (r : Req) : Type 0 where
  pub waits : d.pending r.buf ≡ is_awaiting p
  pub status : is_completed p ≡ true → d.info_status h ≡ 0

pub record Held (d : Disk) (f : Flight) (h : ℕ) : Type 0 where
  pub laid : Laid d h (f.req h)
  pub owns : Owns f.owner h (f.req h)
  pub marked : Marked d h (f.phase h) (f.req h)

-- The used ring has the heads `hs` from number_at `i` on.
abbrev pub Ring : (ℕ → ℕ) → ℕ → List ℕ → Type 0
Ring ring i [] = Unit
Ring ring i (h ∷ hs) = (ring (i % num) ≡ h) × Ring ring (i + 1) hs

abbrev pub elem : ℕ → List ℕ → Bool
elem h [] = false
elem h (k ∷ ks) = if h == k then true else elem h ks

-- The two indices, and the entries between them.
pub record Span (d : Disk) (hs : List ℕ) : Type 0 where
  pub inside_start : d.used_idx < 2 ^ 16
  pub at_end : d.used_end ≡ (d.used_idx + length hs) % 2 ^ 16
  pub entries : Ring d.used_ring d.used_idx hs

-- The number of requests in flight.
abbrev pub in_flight : Flight → ℕ
in_flight f = count_free (λ h. is_busy (f.phase h)) num

abbrev pub answers : Flight → ℕ
answers f = count_free (λ h. is_completed (f.phase h)) num

pub record IsValid (d : Disk) (f : Flight) : Type 0 where
  pub held : (h : ℕ) → is_busy (f.phase h) ≡ true → Held d f h
  pub free_owner : (i : ℕ) → i < num → d.free i ≡ is_none (f.owner i)
  pub apart :
      (h k : ℕ)
      → is_busy (f.phase h) ≡ true
      → is_busy (f.phase k) ≡ true
      → (f.req h).buf ≡ (f.req k).buf
      → h ≡ k
  pub queued : (h : ℕ) → elem h f.queue ≡ is_completed (f.phase h)
  pub span : Span d f.queue
  pub counted : count_free d.free num + 3 * in_flight f ≡ num
  pub answered : answers f ≡ length f.queue
