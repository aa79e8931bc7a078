-- ===== src/Virtio/Interrupt.antt =====
-- The device's answers, and `virtio_disk_intr` (kernel/virtio_disk.c).
use operating_system_se.Base.{
  ℕ, suc, ◌+◌, ◌-◌, ◌%◌, ◌^◌, ◌<◌, ◌≡◌, ◌≢◌, refl, ap, sym, ◌∙◌, Bool, true, false, some, List, [],
  ◌∷◌, ◌++◌, ◌==◌, ok, arith, length, All, ==_ne,
}
use operating_system_se.Virtio.{num, Disk, update, intr_loop, virtio_disk_intr}
use operating_system_se.Virtio.Phases.{update-other}
use operating_system_se.Virtio.Requests.{Ring, Span}

-- What the ring says depends on the number_at's number up to the size of the ring.
Ring-mod :
    (ring : ℕ → ℕ) (i j : ℕ) (hs : List ℕ) → i % num ≡ j % num → Ring ring i hs → Ring ring j hs
Ring-mod ring i j [] e r = tt
Ring-mod ring i j (h ∷ hs) e (at, rest) =
    (ap ring (sym e) ∙ at, Ring-mod ring (i + 1) (j + 1) hs (omega arith) rest)

-- One more number_at at the end, while the ring is not full.
pub Ring-append :
    (ring : ℕ → ℕ) (i e h : ℕ) (hs : List ℕ)
    → e % num ≡ (i + length hs) % num
    → length hs < num
    → Ring ring i hs
    → Ring (update ring (e % num) h) i (hs ++ (h ∷ []))
Ring-append ring i e h [] at lt r = (rw (==_refl' (i % num) (e % num) (omega arith)) refl, tt)
  where
    ==_refl' : (a b : ℕ) → a ≡ b → (a == b) ≡ true
    ==_refl' a b eq = ground arith
Ring-append ring i e h (k ∷ ks) at lt (here, rest) = (
  update-other ring (e % num) (i % num) h (λ eq. other eq) ∙ here,
  Ring-append ring (i + 1) e h ks (omega arith) (omega arith) rest,
)
  where
    other : i % num ≡ e % num → ⊥
    other eq = omega arith

-- The buffers of the heads are not pending any more.
abbrev pub done_pending : (ℕ → ℕ) → List ℕ → (ℕ → Bool) → ℕ → Bool
done_pending buf [] p = p
done_pending buf (h ∷ hs) p = done_pending buf hs (update p (buf h) false)

intr_step :
    (n : ℕ) (d : Disk) (h b : ℕ)
    → (d.used_idx == d.used_end) ≡ false
    → d.used_ring (d.used_idx % num) ≡ h
    → d.info_status h ≡ 0
    → d.info_b h ≡ some b
    → intr_loop (suc n) d
      ≡ intr_loop n
          (record d { pending = update d.pending b false; used_idx = (d.used_idx + 1) % 2 ^ 16 })
unfolding intr_loop
intr_step n d h b more at good buf = rw (more, at, good, buf) refl

not_last : (i n e : ℕ) → i < 2 ^ 16 → n + 1 < 2 ^ 16 → e ≡ (i + suc n) % 2 ^ 16 → i ≢ e
not_last i n e li ln at = λ same. absurd (omega arith)

intr_loop-run :
    (hs : List ℕ) (d : Disk) (buf : ℕ → ℕ)
    → Span d hs
    → length hs < 2 ^ 16
    → All (λ h. (d.info_status h ≡ 0) × (d.info_b h ≡ some (buf h))) hs
    → intr_loop (length hs) d
      ≡ ok (record d { pending = done_pending buf hs d.pending; used_idx = d.used_end })
unfolding intr_loop
intr_loop-run [] d buf span lt good =
    let e : d.used_end ≡ d.used_idx = omega (arith, span.at_end, span.inside_start) in rw e refl
intr_loop-run (h ∷ hs) d buf span lt ((good, has), rest) =
    let (at, ring) = span.entries in
    let d' : Disk = record d {
      pending = update d.pending (buf h) false;
      used_idx = (d.used_idx + 1) % 2 ^ 16;
    } in
    let span' : Span d' hs = record {
      inside_start = omega arith;
      at_end = omega (arith, span.at_end);
      entries = Ring-mod d.used_ring (d.used_idx + 1) d'.used_idx hs (omega arith) ring;
    } in
    let more : (d.used_idx == d.used_end) ≡ false =
      ==_ne d.used_idx d.used_end
        (not_last d.used_idx (length hs) d.used_end span.inside_start (omega arith) span.at_end) in
    intr_step (length hs) d h (buf h) more at good has
    ∙ intr_loop-run hs d' buf span' (omega arith) rest

pub intr-run :
    (hs : List ℕ) (d : Disk) (buf : ℕ → ℕ)
    → Span d hs
    → length hs < 2 ^ 16
    → All (λ h. (d.info_status h ≡ 0) × (d.info_b h ≡ some (buf h))) hs
    → virtio_disk_intr d
      ≡ ok (record d { pending = done_pending buf hs d.pending; used_idx = d.used_end })
unfolding virtio_disk_intr
intr-run hs d buf span lt good =
    let e : (d.used_end + 2 ^ 16 - d.used_idx) % 2 ^ 16 ≡ length hs =
      omega (arith, span.at_end, span.inside_start) in
    rw e (intr_loop-run hs d buf span lt good)
