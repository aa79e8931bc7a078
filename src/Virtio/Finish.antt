-- ===== src/Virtio/Finish.antt =====
-- The requests across the end of `virtio_disk_rw` (kernel/virtio_disk.c).
use Prim.Native.Nat.{bit_and}
use operating_system_se.Base.{
  ℕ, suc, ◌<◌, ◌≡◌, ◌≢◌, inl, inr, refl, ap, sym, ◌∙◌, true, false, none, ◌==◌, ok, Bool-cases,
}
use operating_system_se.Virtio.{
  num, Disk, Desc, update, flag_next, free_desc, free_chain_for, free_chain, rw_end,
}
use operating_system_se.Virtio.Phases.{update-other}
use operating_system_se.Virtio.Requests.{Req, middle_desc, Laid}
use operating_system_se.Virtio.Alloc.{free_desc_lem}

-- The rounds of `free_chain`: with a next descriptor, and the last.
chain_next :
    (n i : ℕ) (d d' : Disk)
    → free_desc i d ≡ ok d'
    → (bit_and (d.desc i).flags flag_next == 0) ≡ false
    → free_chain_for (suc n) i d ≡ free_chain_for n (d.desc i).next d'
unfolding free_chain_for
chain_next n i d d' e more = rw (e, more) refl

chain_last :
    (n i : ℕ) (d d' : Disk)
    → free_desc i d ≡ ok d'
    → (bit_and (d.desc i).flags flag_next == 0) ≡ true
    → free_chain_for (suc n) i d ≡ ok d'
unfolding free_chain_for
chain_last n i d d' e stop = rw (e, stop) refl

middle_more : (r : Req) → (bit_and (middle_desc r).flags flag_next == 0) ≡ false
middle_more r = elim (Bool-cases r.write) [ inl e ↦ rw e refl | inr e ↦ rw e refl ]

-- The state once the request at head `h` is over, with these descriptors.
abbrev pub ended : (ℕ → Desc) → ℕ → Req → Disk → Disk
ended g h r d = record d {
  desc = g;
  free = update (update (update d.free h true) r.middle true) r.last true;
  info_b = update d.info_b h none;
}

-- `rw_end` frees the three descriptors of the request.
pub rw_end_lem :
    (h : ℕ) (r : Req) (d : Disk)
    → Laid d h r
    → h < num
    → r.middle < num
    → r.last < num
    → d.free h ≡ false
    → d.free r.middle ≡ false
    → d.free r.last ≡ false
    → h ≢ r.middle
    → h ≢ r.last
    → r.middle ≢ r.last
    → (g : ℕ → Desc) × (rw_end h d ≡ ok (ended g h r d))
      × ((j : ℕ) → j ≢ h → j ≢ r.middle → j ≢ r.last → g j ≡ d.desc j)
unfolding rw_end free_chain
rw_end_lem h r d laid lh lm ll fh fm fl hm hl ml =
    let d0 : Disk = record d { info_b = update d.info_b h none } in
    let (g1, e1, k1) = free_desc_lem h d0 lh fh in
    let d1 : Disk = record d0 { desc = g1; free = update d0.free h true } in
    let m1 = k1 r.middle (λ e. hm (sym e)) ∙ laid.at_middle in
    let (g2, e2, k2) =
      free_desc_lem r.middle d1 lm (update-other d.free h r.middle true (λ e. hm (sym e)) ∙ fm) in
    let d2 : Disk = record d1 { desc = g2; free = update d1.free r.middle true } in
    let l2 = k2 r.last (λ e. ml (sym e)) ∙ k1 r.last (λ e. hl (sym e)) ∙ laid.at_last in
    let (g3, e3, k3) = free_desc_lem r.last d2 ll (
      update-other d1.free r.middle r.last true (λ e. ml (sym e))
      ∙ update-other d.free h r.last true (λ e. hl (sym e))
      ∙ fl) in
    let d3 : Disk = record d2 { desc = g3; free = update d2.free r.last true } in
    (
      g3,
      chain_next 8 h d0 d1 e1 (ap (λ x. bit_and (Desc.flags x) flag_next == 0) laid.at_head)
          ∙ ap (λ x. free_chain_for 8 (Desc.next x) d1) laid.at_head
          ∙ chain_next 7 r.middle d1 d2 e2
              (ap (λ x. bit_and (Desc.flags x) flag_next == 0) m1 ∙ middle_more r)
          ∙ ap (λ x. free_chain_for 7 (Desc.next x) d2) m1
          ∙ chain_last 6 r.last d2 d3 e3 (ap (λ x. bit_and (Desc.flags x) flag_next == 0) l2),
      λ j nh nm nl. k3 j nl ∙ k2 j nm ∙ k1 j nh,
    )
