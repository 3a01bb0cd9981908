-- ===== src/Channel/Outlet/Proofs.antt =====
-- Proofs and handles in `LinkChannelOutlet` of packages/core/src/transport/channel.js.
use reticulum_js.Common.{
  ℕ, ◌≡◌, ◌≢◌, refl, ap, ◌∙◌, arith, Bool, true, false, Option, none, some, if◌then◌else◌,
  Option-cases, inl, inr,
}
use reticulum_js.Common.Dict
use reticulum_js.Common.Dict.{Key, Dict, str_eq, str_eq_iff, str_eq_refl}
use reticulum_js.Common.KeySet.{has, has-add, has-remove}
use reticulum_js.Channel.Outlet.{
  OutletPacket, Outlet, new_packet_handle, outlet_send, with_handle, armed, extended,
  mark_delivered, on_proof,
}

-- A packet that was not sent yet, and whether its proof has come.
pub record Unsent (h : Key) (proved : Bool) (s : Outlet) : Type 0 where
  pub listens : s.listening ≡ true
  pub absent : Dict.get h s.handles ≡ none
  pub not_sent : has h s.sent ≡ false
  pub early : has h s.early_delivered ≡ proved

-- A packet that was sent, and whether its proof has come.
pub record Sent (h : Key) (proved : Bool) (s : Outlet) : Type 0 where
  pub listens : s.listening ≡ true
  pub op : OutletPacket
  pub handle : Dict.get h s.handles ≡ some op
  pub marked : op.delivered ≡ proved
  pub awaited : proved ≡ false → has h s.sent ≡ true

abbrev pub map_handle : (OutletPacket → OutletPacket) → Option OutletPacket → Option OutletPacket
map_handle f none = none
map_handle f (some op) = some (f op)

-- What `with_handle` leaves alone, and what it does to the handles.
pub with_handle_lem :
    (h k : Key) (f : OutletPacket → OutletPacket) (s : Outlet)
    → ((with_handle k f s).listening ≡ s.listening)
      × ((with_handle k f s).sent ≡ s.sent)
      × ((with_handle k f s).early_delivered ≡ s.early_delivered)
      × (Dict.get h (with_handle k f s).handles
          ≡ (if str_eq k h then map_handle f (Dict.get h s.handles) else Dict.get h s.handles))
unfolding with_handle
with_handle_lem h k f s = elim (Option-cases (Dict.get k s.handles)) [
  | inl e ↦ ground (arith, e, str_eq_iff k h)
  | inr (op, e) ↦ ground (arith, e, str_eq_iff k h, Dict.get-set k h (f op) s.handles)
]

module _ (h k : Key) (f : OutletPacket → OutletPacket)
    (same : (op : OutletPacket) → (f op).delivered ≡ op.delivered) where
  pub with_handle-Unsent : (p : Bool) (s : Outlet) → Unsent h p s → Unsent h p (with_handle k f s)
  with_handle-Unsent p s u =
      let (l, se, ea, ha) = with_handle_lem h k f s in
      record {
        listens = l ∙ u.listens;
        absent = ha ∙ ground (arith, u.absent);
        not_sent = ap (has h) se ∙ u.not_sent;
        early = ap (has h) ea ∙ u.early;
      }

  pub with_handle-Sent : (p : Bool) (s : Outlet) → Sent h p s → Sent h p (with_handle k f s)
  with_handle-Sent p s u =
      let (l, se, ea, ha) = with_handle_lem h k f s in
      record {
        listens = l ∙ u.listens;
        op = if str_eq k h then f u.op else u.op;
        handle = ha ∙ ground (arith, u.handle);
        marked = ground (arith, same u.op, u.marked);
        awaited = λ e. ap (has h) se ∙ u.awaited e;
      }

pub armed-delivered :
    (callback : Bool) (t : Option ℕ) (op : OutletPacket)
    → (armed callback t op).delivered ≡ op.delivered
unfolding armed
armed-delivered false t op = refl
armed-delivered true t op = ground arith

pub extended-delivered : (t : ℕ) (op : OutletPacket) → (extended t op).delivered ≡ op.delivered
unfolding extended
extended-delivered t op = ground (arith, armed-delivered op.timeout_callback (some t) op)

-- Sending a packet.
pub send-Unsent :
    (h k : Key) (p : Bool) (s : Outlet) → k ≢ h → Unsent h p s → Unsent h p (outlet_send k s)
unfolding outlet_send
send-Unsent h k p s other u = record {
  listens = u.listens;
  absent =
      rw (Dict.get-set_other k h (new_packet_handle (has k s.early_delivered)) s.handles other)
        u.absent;
  not_sent = ground (arith, has-add h k s.sent, str_eq_iff k h, u.not_sent);
  early = ground (arith, has-remove h k s.early_delivered, str_eq_iff k h, u.early);
}

pub send-Sent :
    (h k : Key) (p : Bool) (s : Outlet) → k ≢ h → Sent h p s → Sent h p (outlet_send k s)
unfolding outlet_send
send-Sent h k p s other u = record {
  listens = u.listens;
  op = u.op;
  handle =
      rw (Dict.get-set_other k h (new_packet_handle (has k s.early_delivered)) s.handles other)
        u.handle;
  marked = u.marked;
  awaited = λ e. ground (arith, has-add h k s.sent, u.awaited e);
}

pub send_lem : (h : Key) (p : Bool) (s : Outlet) → Unsent h p s → Sent h p (outlet_send h s)
unfolding outlet_send new_packet_handle
send_lem h p s u = record {
  listens = u.listens;
  op = new_packet_handle (has h s.early_delivered);
  handle = Dict.get-set_self h (new_packet_handle (has h s.early_delivered)) s.handles;
  marked = u.early;
  awaited = λ e. ground (arith, has-add h h s.sent, str_eq_refl h);
}

-- A proof, of this packet or of another.
pub proof_other :
    (h k : Key) (s : Outlet)
    → k ≢ h
    → ((on_proof k s).0.listening ≡ s.listening)
      × (Dict.get h (on_proof k s).0.handles ≡ Dict.get h s.handles)
      × (has h (on_proof k s).0.sent ≡ has h s.sent)
      × (has h (on_proof k s).0.early_delivered ≡ has h s.early_delivered)
unfolding on_proof mark_delivered
proof_other h k s other = elim (Option-cases (Dict.get k s.handles)) [
  | inl e ↦ ground (arith, e, has-add h k s.early_delivered, has-remove h k s.sent, str_eq_iff k h)
  | inr (op, e) ↦ ground (
    arith,
    e,
    has-add h k s.early_delivered,
    has-remove h k s.sent,
    str_eq_iff k h,
    Dict.get-set_other k h (record op { delivered = true; timeout_timer = false }) s.handles other,
  )
]

pub proof-Unsent_other :
    (h k : Key) (p : Bool) (s : Outlet) → k ≢ h → Unsent h p s → Unsent h p (on_proof k s).0
proof-Unsent_other h k p s other u =
    let (l, ha, se, ea) = proof_other h k s other in
    record {
      listens = l ∙ u.listens;
      absent = ha ∙ u.absent;
      not_sent = se ∙ u.not_sent;
      early = ea ∙ u.early;
    }

pub proof-Sent_other :
    (h k : Key) (p : Bool) (s : Outlet) → k ≢ h → Sent h p s → Sent h p (on_proof k s).0
proof-Sent_other h k p s other u =
    let (l, ha, se, ea) = proof_other h k s other in
    record {
      listens = l ∙ u.listens;
      op = u.op;
      handle = ha ∙ u.handle;
      marked = u.marked;
      awaited = λ e. se ∙ u.awaited e;
    }

pub proof-Unsent : (h : Key) (p : Bool) (s : Outlet) → Unsent h p s → Unsent h true (on_proof h s).0
unfolding on_proof mark_delivered
proof-Unsent h p s u = record {
  listens = ground (arith, u.listens, u.not_sent);
  absent = ground (arith, u.listens, u.not_sent, u.absent);
  not_sent = ground (arith, u.listens, u.not_sent);
  early = ground (arith, u.listens, u.not_sent, has-add h h s.early_delivered, str_eq_refl h);
}

-- The handle after a proof.
marked_op : OutletPacket → OutletPacket
marked_op op = if op.delivered then op else record op { delivered = true; timeout_timer = false }

pub proof-Sent : (h : Key) (p : Bool) (s : Outlet) → Sent h p s → Sent h true (on_proof h s).0
unfolding on_proof mark_delivered marked_op
proof-Sent h p s u = record {
  listens = ground (arith, u.listens, u.handle);
  op = marked_op u.op;
  handle = ground (
    arith,
    u.listens,
    u.handle,
    u.marked,
    u.awaited,
    Dict.get-set_self h (record u.op { delivered = true; timeout_timer = false }) s.handles,
  );
  marked = ground arith;
  awaited = λ e. cc;
}
