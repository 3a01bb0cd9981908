-- ===== src/Channel/Outlet/Tests.antt =====
-- Runs of the outlet, and the witnesses.
use reticulum_js.Common.{◌≡◌, refl, true, false, some, List, [], ◌∷◌}
use reticulum_js.Common.Dict
use reticulum_js.Common.Dict.{Key, str_eq}
use reticulum_js.Common.KeySet.{has, add, remove}
use reticulum_js.Channel.Outlet.{
  OutletEvent, new_outlet, new_packet_handle, outlet_send, is_packet_delivered, with_handle, armed,
  timer_fires, set_packet_timeout_callback, set_packet_delivered_callback, extended, extend_timeout,
  mark_delivered, on_proof, clear_timers, cleanup, sends, proves, sets_timeout, sets_delivered,
  extends, fires, outlet_step, outlet_run,
}
use reticulum_js.Channel.Outlet.Order.{proof_is_kept}
use reticulum_js.Channel.Outlet.Stash.{stray_proof_stays}

abbrev packet_a : Key
packet_a = 97 ∷ []

-- The proof comes before the send returns.
abbrev early : List OutletEvent
early =
    proves packet_a
    ∷ sends packet_a
    ∷ sets_delivered packet_a true
    ∷ sets_timeout packet_a true (some 2500)
    ∷ fires packet_a
    ∷ []

-- An armed timer that is extended calls back, once.
timer_run :
    (timer_fires packet_a (
      outlet_run
        (sends packet_a ∷ sets_timeout packet_a true (some 10) ∷ extends packet_a 20 ∷ [])
        new_outlet)).1
    ≡ true
unfolding timer_fires outlet_run outlet_step outlet_send set_packet_timeout_callback extend_timeout
    extended armed with_handle new_packet_handle new_outlet has add remove Dict.get Dict.set str_eq
timer_run = refl

-- A proof that is awaited calls back.
proof_run :
    (on_proof packet_a
      (outlet_run (sends packet_a ∷ sets_delivered packet_a true ∷ []) new_outlet)).1
    ≡ true
unfolding on_proof mark_delivered outlet_run outlet_step outlet_send set_packet_delivered_callback
    with_handle new_packet_handle new_outlet has add remove Dict.get Dict.set str_eq
proof_run = refl

cleanup_run :
    (timer_fires packet_a (
      cleanup
        (outlet_run (sends packet_a ∷ sets_timeout packet_a true (some 10) ∷ []) new_outlet))).1
    ≡ false
unfolding timer_fires cleanup clear_timers outlet_run outlet_step outlet_send
    set_packet_timeout_callback armed with_handle new_packet_handle new_outlet has add remove
    Dict.get Dict.set str_eq
cleanup_run = refl

proof_is_kept_example : is_packet_delivered packet_a (outlet_run early new_outlet) ≡ true
unfolding str_eq
proof_is_kept_example = proof_is_kept packet_a early refl

-- A second proof for a packet that was delivered.
stray_proof_stays_example :
    has packet_a
      (outlet_run
        (proves packet_a ∷ fires packet_a ∷ [])
        (outlet_run (sends packet_a ∷ proves packet_a ∷ []) new_outlet)).early_delivered
    ≡ true
unfolding on_proof mark_delivered outlet_run outlet_step outlet_send new_packet_handle new_outlet
    has add remove Dict.get Dict.set str_eq
stray_proof_stays_example =
    stray_proof_stays packet_a (fires packet_a ∷ [])
      (outlet_run (sends packet_a ∷ proves packet_a ∷ []) new_outlet) refl refl refl
