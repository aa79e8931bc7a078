-- ===== src/Virtio/Over.antt =====
-- The requests once one of them is over (kernel/virtio_disk.c).
use operating_system_se.Base.{
  ℕ, ◌+◌, ◌*◌, ◌<◌, ◌≡◌, ◌≢◌, ◌⊎◌, inl, inr, refl, ap, sym, ◌∙◌, Bool, true, false, Option, none,
  some, ◌==◌, ok, arith, Bool-cases,
}
use operating_system_se.Virtio.{num, Disk, Desc, update, rw_end}
use operating_system_se.Virtio.Counts.{count_free, count_free-give}
use operating_system_se.Virtio.Phases.{
  bools_differ, phase_less, update-other, update-others, of_parts, phase_kept, phase_even,
}
use operating_system_se.Virtio.Requests.{
  Phase, idle, published, completed, seen, is_busy, is_awaiting, is_completed, Flight, is_none,
  Held, IsValid,
}
use operating_system_se.Virtio.Finish.{ended, rw_end_lem}

abbrev pub finished : ℕ → Flight → Flight
finished h f = record f {
  phase = update f.phase h idle;
  owner = update (update (update f.owner h none) (f.req h).middle none) (f.req h).last none;
}

own_apart :
    (owner : ℕ → Option ℕ) (i j h k : ℕ) → owner i ≡ some k → owner j ≡ some h → k ≢ h → i ≢ j
own_apart owner i j h k ei ej ne e = ne (inject k h (sym ei ∙ ap owner e ∙ ej))
  where
    inject : (a b : ℕ) → some a ≡ some b → a ≡ b
    inject a b eq = ground arith

balance :
    (a0 a1 a2 a3 c c1 n : ℕ)
    → a1 ≡ a0 + 1
    → a2 ≡ a1 + 1
    → a3 ≡ a2 + 1
    → c1 + 1 ≡ c
    → a0 + 3 * c ≡ n
    → a3 + 3 * c1 ≡ n
balance a0 a1 a2 a3 c c1 n e1 e2 e3 e4 e5 = omega arith

freed_count :
    (free : ℕ → Bool) (phase : ℕ → Phase) (h m t n : ℕ)
    → h < n
    → m < n
    → t < n
    → free h ≡ false
    → free m ≡ false
    → free t ≡ false
    → h ≢ m
    → h ≢ t
    → m ≢ t
    → is_busy (phase h) ≡ true
    → count_free free n + 3 * count_free (λ i. is_busy (phase i)) n ≡ n
    → count_free (update (update (update free h true) m true) t true) n
        + 3 * count_free (λ i. is_busy (update phase h idle i)) n
      ≡ n
freed_count free phase h m t n lh lm lt fh fm ft hm ht mt busy before =
    balance (count_free free n) (count_free (update free h true) n)
      (count_free (update (update free h true) m true) n)
      (count_free (update (update (update free h true) m true) t true) n)
      (count_free (λ i. is_busy (phase i)) n) (count_free (λ i. is_busy (update phase h idle i)) n)
      n (count_free-give free h n fh lh)
      (count_free-give (update free h true) m n (update-other free h m true (λ e. hm (sym e)) ∙ fm)
        lm)
      (count_free-give (update (update free h true) m true) t n
        (update-other (update free h true) m t true (λ e. mt (sym e))
          ∙ update-other free h t true (λ e. ht (sym e))
          ∙ ft)
        lt)
      (phase_less is_busy phase h idle n busy refl lh) before

-- What is left as it was for another request.
ended-kept :
    (d : Disk) (f : Flight) (h k : ℕ) (g : ℕ → Desc)
    → IsValid d f
    → is_busy (f.phase h) ≡ true
    → is_busy (f.phase k) ≡ true
    → k ≢ h
    → ((j : ℕ) → j ≢ h → j ≢ (f.req h).middle → j ≢ (f.req h).last → g j ≡ d.desc j)
    → Held (ended g h (f.req h) d) (finished h f) k
ended-kept d f h k g valid busy_h busy ne same =
    let old = valid.held k busy in
    let own = old.owns in
    let gone = (valid.held h busy_h).owns in
    let r = f.req k in
    let far = λ (i j : ℕ). own_apart f.owner i j h k in
    let k_h = far k h own.own_head gone.own_head ne in
    let k_m = far k (f.req h).middle own.own_head gone.own_middle ne in
    let k_t = far k (f.req h).last own.own_head gone.own_last ne in
    let n_h = far r.middle h own.own_middle gone.own_head ne in
    let n_m = far r.middle (f.req h).middle own.own_middle gone.own_middle ne in
    let n_t = far r.middle (f.req h).last own.own_middle gone.own_last ne in
    let l_h = far r.last h own.own_last gone.own_head ne in
    let l_m = far r.last (f.req h).middle own.own_last gone.own_middle ne in
    let l_t = far r.last (f.req h).last own.own_last gone.own_last ne in
    let m = (f.req h).middle in
    let t = (f.req h).last in
    of_parts (ended g h (f.req h) d) (finished h f) k (f.phase k) r refl
      (update-other f.phase h k idle ne)
      (record {
        at_head = same k k_h k_m k_t ∙ old.laid.at_head;
        at_middle = same r.middle n_h n_m n_t ∙ old.laid.at_middle;
        at_last = same r.last l_h l_m l_t ∙ old.laid.at_last;
        at_ops = old.laid.at_ops;
        at_info = update-other d.info_b h k none ne ∙ old.laid.at_info;
      })
      (record {
        inside_head = own.inside_head;
        inside_middle = own.inside_middle;
        inside_last = own.inside_last;
        head_middle = own.head_middle;
        head_last = own.head_last;
        middle_last = own.middle_last;
        own_head = update-others f.owner h k m t none none none k_h k_m k_t ∙ own.own_head;
        own_middle =
            update-others f.owner h r.middle m t none none none n_h n_m n_t ∙ own.own_middle;
        own_last = update-others f.owner h r.last m t none none none l_h l_m l_t ∙ own.own_last;
      })
      (record { waits = old.marked.waits; status = old.marked.status })

in_use :
    (d : Disk) (f : Flight) (i h : ℕ)
    → IsValid d f
    → i < num
    → f.owner i ≡ some h
    → d.free i ≡ false
in_use d f i h valid lt own = valid.free_owner i lt ∙ ap is_none own

still_busy :
    (f : ℕ → Phase) (h k : ℕ)
    → is_busy (update f h idle k) ≡ true
    → (k ≢ h) × (is_busy (f k) ≡ true)
still_busy f h k = elim (Bool-cases (k == h)) [
  | inl at ↦ rw at (λ b. absurd (bools_differ (sym b)))
  | inr off ↦ rw off (λ b. ((λ e. bools_differ (sym (==_same k h e) ∙ off)), b))
]
  where
    ==_same : (a b : ℕ) → a ≡ b → (a == b) ≡ true
    ==_same a b e = ground arith

-- A busy request whose buffer is not pending has been seen.
answered_phase : (p : Phase) → is_busy p ≡ true → is_awaiting p ≡ false → is_completed p ≡ false
answered_phase idle b e = refl
answered_phase published b e = refl
answered_phase completed b e = sym (sym e)
answered_phase seen b e = refl

pub ended-IsValid :
    (d : Disk) (f : Flight) (h : ℕ) (g : ℕ → Desc)
    → IsValid d f
    → is_busy (f.phase h) ≡ true
    → d.pending (f.req h).buf ≡ false
    → ((j : ℕ) → j ≢ h → j ≢ (f.req h).middle → j ≢ (f.req h).last → g j ≡ d.desc j)
    → IsValid (ended g h (f.req h) d) (finished h f)
ended-IsValid d f h g valid busy over same =
    let old = valid.held h busy in
    let own = old.owns in
    let m = (f.req h).middle in
    let t = (f.req h).last in
    let done = answered_phase (f.phase h) busy (sym old.marked.waits ∙ over) in
    record {
      held = λ k b.
          let (ne, was) = still_busy f.phase h k b in ended-kept d f h k g valid busy was ne same;
      free_owner = λ i lt.
          owner i m t (Bool-cases (i == h)) (Bool-cases (i == m)) (Bool-cases (i == t))
            (valid.free_owner i lt);
      apart =
          λ j k bj bk. valid.apart j k (still_busy f.phase h j bj).1 (still_busy f.phase h k bk).1;
      queued = λ k. valid.queued k ∙ sym (phase_kept is_completed f.phase h idle k done);
      span = record {
        inside_start = valid.span.inside_start;
        at_end = valid.span.at_end;
        entries = valid.span.entries;
      };
      counted =
          freed_count d.free f.phase h m t num own.inside_head own.inside_middle own.inside_last
            (in_use d f h h valid own.inside_head own.own_head)
            (in_use d f m h valid own.inside_middle own.own_middle)
            (in_use d f t h valid own.inside_last own.own_last) own.head_middle own.head_last
            own.middle_last busy valid.counted;
      answered = phase_even is_completed f.phase h idle num done ∙ valid.answered;
    }
  where
    owner :
        (i m t : ℕ)
        → ((i == h) ≡ true) ⊎ ((i == h) ≡ false)
        → ((i == m) ≡ true) ⊎ ((i == m) ≡ false)
        → ((i == t) ≡ true) ⊎ ((i == t) ≡ false)
        → d.free i ≡ is_none (f.owner i)
        → update (update (update d.free h true) m true) t true i
          ≡ is_none (update (update (update f.owner h none) m none) t none i)
    owner i m t a b (inl e) old = rw e refl
    owner i m t a (inl e) (inr e') old = rw (e', e) refl
    owner i m t (inl e) (inr e') (inr e'') old = rw (e'', e', e) refl
    owner i m t (inr e) (inr e') (inr e'') old = rw (e'', e', e) old

-- `rw_end` for the request at head `h`.
pub rw_end-runs :
    (d : Disk) (f : Flight) (h : ℕ)
    → IsValid d f
    → is_busy (f.phase h) ≡ true
    → (g : ℕ → Desc) × (rw_end h d ≡ ok (ended g h (f.req h) d))
      × ((j : ℕ) → j ≢ h → j ≢ (f.req h).middle → j ≢ (f.req h).last → g j ≡ d.desc j)
rw_end-runs d f h valid busy =
    let old = valid.held h busy in
    let own = old.owns in
    rw_end_lem h (f.req h) d old.laid own.inside_head own.inside_middle own.inside_last
      (in_use d f h h valid own.inside_head own.own_head)
      (in_use d f (f.req h).middle h valid own.inside_middle own.own_middle)
      (in_use d f (f.req h).last h valid own.inside_last own.own_last) own.head_middle own.head_last
      own.middle_last
