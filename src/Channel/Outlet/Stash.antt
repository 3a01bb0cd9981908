-- ===== src/Channel/Outlet/Stash.antt =====
-- The hashes that `LinkChannelOutlet` of packages/core/src/transport/channel.js keeps for packets that it
-- does not await.
use reticulum_js.Common.{◌≡◌, ◌≢◌, ap, ◌∙◌, arith, Bool, true, false, ◌||◌, List, [], ◌∷◌}
use reticulum_js.Common.Dict.{Key, str_eq_iff, str_eq_refl}
use reticulum_js.Common.KeySet.{has, has-add, has-remove}
use reticulum_js.Channel.Outlet.{
  OutletPacket, Outlet, outlet_send, with_handle, mark_delivered, on_proof, OutletEvent, proves,
  outlet_step, outlet_run,
}
use reticulum_js.Channel.Outlet.Proofs.{with_handle_lem, proof_other}
use reticulum_js.Channel.Outlet.Order.{is_send, is_proof, count_sends, step_lem}

record Stashed (h : Key) (p : Bool) (s : Outlet) : Type 0 where
  listens : s.listening ≡ true
  not_sent : has h s.sent ≡ false
  early : has h s.early_delivered ≡ true

-- A proof of a packet that is not awaited.
stash :
    (h : Key) (s : Outlet)
    → s.listening ≡ true
    → has h s.sent ≡ false
    → Stashed h true (on_proof h s).0
unfolding on_proof mark_delivered
stash h s l n = record {
  listens = ground (arith, l, n);
  not_sent = ground (arith, l, n);
  early = ground (arith, l, n, has-add h h s.early_delivered, str_eq_refl h);
}

stash_send :
    (h k : Key) (p : Bool) (s : Outlet) → k ≢ h → Stashed h p s → Stashed h p (outlet_send k s)
unfolding outlet_send
stash_send h k p s other u = record {
  listens = u.listens;
  not_sent = ground (arith, has-add h k s.sent, str_eq_iff k h, u.not_sent);
  early = ground (arith, has-remove h k s.early_delivered, str_eq_iff k h, u.early);
}

Stashed-step :
    (h : Key) (e : OutletEvent) (p : Bool) (s : Outlet)
    → is_send h e ≡ false
    → Stashed h p s
    → Stashed h (p || is_proof h e) (outlet_step e s)
Stashed-step h =
    step_lem h (Stashed h) (λ k f same p s u. touched k f p s u)
      (λ p s u. stash h s u.listens u.not_sent) other_proof other_send
  where
    touched :
        (k : Key) (f : OutletPacket → OutletPacket) (p : Bool) (s : Outlet)
        → Stashed h p s
        → Stashed h p (with_handle k f s)
    touched k f p s u =
        let (l, se, ea, _) = with_handle_lem h k f s in
        record {
          listens = l ∙ u.listens;
          not_sent = ap (has h) se ∙ u.not_sent;
          early = ap (has h) ea ∙ u.early;
        }

    other_proof :
        (k : Key) (p : Bool) (s : Outlet) → k ≢ h → Stashed h p s → Stashed h p (on_proof k s).0
    other_proof k p s other u =
        let (l, _, se, ea) = proof_other h k s other in
        record { listens = l ∙ u.listens; not_sent = se ∙ u.not_sent; early = ea ∙ u.early }

    other_send :
        (k : Key) (p : Bool) (s : Outlet) → k ≢ h → Stashed h p s → Stashed h p (outlet_send k s)
    other_send k p s other u = stash_send h k p s other u

Stashed-run :
    (h : Key) (events : List OutletEvent) (p : Bool) (s : Outlet)
    → count_sends h events ≡ 0
    → Stashed h p s
    → has h (outlet_run events s).early_delivered ≡ true
unfolding outlet_run
Stashed-run h [] p s none_sent u = u.early
Stashed-run h (e ∷ events) p s none_sent u =
    Stashed-run h events (p || is_proof h e) (outlet_step e s) (ground (arith, none_sent))
      (Stashed-step h e p s (ground (arith, none_sent)) u)

-- While the outlet listens, a proof for a packet that it does not await, one that was delivered already
-- or that another part of the program sent, leaves its hash in the set of early proofs, and the hash
-- stays there through all events in which the outlet does not send a packet of that hash, as long as
-- it is not cleaned up.
pub stray_proof_stays :
    (h : Key) (events : List OutletEvent) (s : Outlet)
    → s.listening ≡ true
    → has h s.sent ≡ false
    → count_sends h events ≡ 0
    → has h (outlet_run (proves h ∷ events) s).early_delivered ≡ true
unfolding outlet_run outlet_step
stray_proof_stays h events s l n none_sent =
    Stashed-run h events true (on_proof h s).0 none_sent (stash h s l n)
