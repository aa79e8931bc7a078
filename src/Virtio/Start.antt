-- ===== src/Virtio/Start.antt =====
-- `virtio_disk_rw` up to its first sleep (kernel/virtio_disk.c).
use operating_system_se.Base.{
  ℕ, ◌+◌, ◌*◌, ◌<◌, ◌≡◌, ◌≢◌, ◌⊎◌, inl, inr, refl, ap, sym, ◌∙◌, Bool, true, false, some, ◌==◌,
  arith, Bool-cases, subst,
}
use operating_system_se.Virtio.{num, Disk, update, submit}
use operating_system_se.Virtio.Counts.{count_free, count_free-take}
use operating_system_se.Virtio.Alloc.{Three, taken}
use operating_system_se.Virtio.Phases.{update-other, phase_more, phase_kept, phase_even}
use operating_system_se.Virtio.Requests.{
  Phase, idle, published, completed, seen, is_busy, is_completed, Req, Flight, is_none, Held,
  IsValid,
}
use operating_system_se.Virtio.Submit.{
  used-free, started, submitted, req_of, submit-kept, submit-new,
}

-- A free descriptor heads no request.
free_idle :
    (d : Disk) (f : Flight) (h : ℕ)
    → IsValid d f
    → h < num
    → d.free h ≡ true
    → is_busy (f.phase h) ≡ false
free_idle d f h valid lt free = elim (Bool-cases (is_busy (f.phase h))) [
  | inr unused ↦ unused
  | inl busy ↦ absurd (used-free d f h h h valid lt (valid.held h busy).owns.own_head free refl)
]

not_busy : (p : Phase) → is_busy p ≡ false → is_completed p ≡ false
not_busy idle e = refl
not_busy published e = refl
not_busy completed e = absurd (ground arith)
not_busy seen e = refl

balance :
    (a0 a1 a2 a3 c c1 n : ℕ)
    → a1 + 1 ≡ a0
    → a2 + 1 ≡ a1
    → a3 + 1 ≡ a2
    → c1 ≡ c + 1
    → a0 + 3 * c ≡ n
    → a3 + 3 * c1 ≡ n
balance a0 a1 a2 a3 c c1 n e1 e2 e3 e4 e5 = omega arith

taken_count :
    (d : Disk) (phase : ℕ → Phase) (h m t n : ℕ)
    → h < n
    → m < n
    → t < n
    → Three d h m t
    → is_busy (phase h) ≡ false
    → count_free d.free n + 3 * count_free (λ i. is_busy (phase i)) n ≡ n
    → count_free (taken d h m t).free n
        + 3 * count_free (λ i. is_busy (update phase h published i)) n
      ≡ n
taken_count d phase h m t n lh lm lt three unused before =
    balance (count_free d.free n) (count_free (update d.free h false) n)
      (count_free (update (update d.free h false) m false) n) (count_free (taken d h m t).free n)
      (count_free (λ i. is_busy (phase i)) n)
      (count_free (λ i. is_busy (update phase h published i)) n) n
      (count_free-take d.free h n three.free_h lh)
      (count_free-take (update d.free h false) m n
        (update-other d.free h m false (λ e. three.h_m (sym e)) ∙ three.free_m) lm)
      (count_free-take (update (update d.free h false) m false) t n
        (update-other (update d.free h false) m t false (λ e. three.m_t (sym e))
          ∙ update-other d.free h t false (λ e. three.h_t (sym e))
          ∙ three.free_t)
        lt)
      (phase_more is_busy phase h published n unused refl lh) before

-- Where two busy heads are the new one or an old one.
same_head :
    (h j k : ℕ) (f : Flight) (r : Req)
    → ((i : ℕ) → is_busy (f.phase i) ≡ true → (f.req i).buf ≢ r.buf)
    → ((i j : ℕ)
        → is_busy (f.phase i) ≡ true
        → is_busy (f.phase j) ≡ true
        → (f.req i).buf ≡ (f.req j).buf
        → i ≡ j)
    → is_busy (update f.phase h published j) ≡ true
    → is_busy (update f.phase h published k) ≡ true
    → (update f.req h r j).buf ≡ (update f.req h r k).buf
    → j ≡ k
same_head h j k f r fresh apart = elim (Bool-cases (j == h)) [
  | inl at ↦ elim (Bool-cases (k == h)) [
    | inl there ↦ λ b1 b2 e. ground arith
    | inr off ↦ rw (at, off) (λ b1 b2 e. absurd (fresh k b2 (sym e)))
  ]
  | inr off ↦ elim (Bool-cases (k == h)) [
    | inl at ↦ rw (at, off) (λ b1 b2 e. absurd (fresh j b1 e))
    | inr far ↦ rw (off, far) (apart j k)
  ]
]

pub submit-IsValid :
    (d : Disk) (f : Flight) (h m t b blockno : ℕ) (write : Bool)
    → IsValid d f
    → Three d h m t
    → ((k : ℕ) → is_busy (f.phase k) ≡ true → (f.req k).buf ≢ b)
    → IsValid (submitted d h m t b blockno write) (started f h (req_of m t b blockno write))
unfolding submit
submit-IsValid d f h m t b blockno write valid three fresh =
    let unused = free_idle d f h valid three.inside_h three.free_h in
    record {
      held = λ k. held k (Bool-cases (k == h));
      free_owner = λ i lt.
          owner i (Bool-cases (i == h)) (Bool-cases (i == m)) (Bool-cases (i == t))
            (valid.free_owner i lt);
      apart = λ j k. same_head h j k f (req_of m t b blockno write) fresh valid.apart;
      queued = λ k.
          valid.queued k
          ∙ sym (phase_kept is_completed f.phase h published k (not_busy (f.phase h) unused));
      span = record {
        inside_start = valid.span.inside_start;
        at_end = valid.span.at_end;
        entries = valid.span.entries;
      };
      counted =
          taken_count d f.phase h m t num three.inside_h three.inside_m three.inside_t three unused
            valid.counted;
      answered =
          phase_even is_completed f.phase h published num (not_busy (f.phase h) unused)
          ∙ valid.answered;
    }
  where
    held :
        (k : ℕ)
        → ((k == h) ≡ true) ⊎ ((k == h) ≡ false)
        → is_busy (update f.phase h published k) ≡ true
        → Held (submitted d h m t b blockno write) (started f h (req_of m t b blockno write)) k
    held k (inl at) busy =
        (let here : k ≡ h = ground arith in
          subst
            (Held (submitted d h m t b blockno write) (started f h (req_of m t b blockno write)))
            (sym here) (submit-new d f h m t b blockno write three))
    held k (inr off) busy =
        (let old : is_busy (f.phase k) ≡ true =
            ap is_busy (sym (update-other f.phase h k published (ground arith))) ∙ busy in
          submit-kept d f h m t b blockno k write valid three old (fresh k old))

    owner :
        (i : ℕ)
        → ((i == h) ≡ true) ⊎ ((i == h) ≡ false)
        → ((i == m) ≡ true) ⊎ ((i == m) ≡ false)
        → ((i == t) ≡ true) ⊎ ((i == t) ≡ false)
        → d.free i ≡ is_none (f.owner i)
        → update (update (update d.free h false) m false) t false i
          ≡ is_none (update (update (update f.owner h (some h)) m (some h)) t (some h) i)
    owner i a b (inl e) old = rw e refl
    owner i a (inl e) (inr e') old = rw (e', e) refl
    owner i (inl e) (inr e') (inr e'') old = rw (e'', e', e) refl
    owner i (inr e) (inr e') (inr e'') old = rw (e'', e', e) old
