-- ===== src/MessageStore/Handled.antt =====
-- After `markHandledForPeer` of packages/lxmf/src/message_store.js.
use reticulum_js.Common.{
  ℕ, ◌≡◌, ◌≢◌, refl, sym, ◌∙◌, arith, Bool, true, false, Option, none, some, List, Option-cases,
  inl, inr, All,
}
use reticulum_js.Common.Dict
use reticulum_js.Common.Dict.{Key, Dict, str_eq, str_eq_iff}
use reticulum_js.Common.KeySet
use reticulum_js.Common.KeySet.{has-add, has-remove}
use reticulum_js.Encoding.{to_hex}
use reticulum_js.MessageStore.{PropagationEntry, MessageStore, get_message}
use reticulum_js.MessageStore.Sync.{
  handled, mark_handled_for_peer, is_offered, unhandled_entries_for_peer,
}
use reticulum_js.MessageStore.Sound.{IsSound}
use reticulum_js.MessageStore.Marks.{mark_handled_missing, mark_handled_found}
use reticulum_js.MessageStore.Calls.{Call, calls, IsAdmissible}
use reticulum_js.MessageStore.Sorted.{Among}
use reticulum_js.MessageStore.Offers.{unhandled_entries_lem}
use reticulum_js.MessageStore.Settled.{LeavesAlone, Settled, handled-any, calls-Settled}
use reticulum_js.MessageStore.Marks.{mark_handled-IsSound}

mark_handled-Settles :
    (id peer : List ℕ) (s : MessageStore)
    → Settled (to_hex id) (to_hex peer) (mark_handled_for_peer id peer s).0
mark_handled-Settles id peer s = elim (Option-cases (get_message id s)) [
  | inl e ↦
      rw (mark_handled_missing id peer s e) (λ x there.
        absurd (clash (Dict.get (to_hex id) s.entries) x (unfold get_message in e) there))
  | inr (x, e) ↦ rw (mark_handled_found id peer x s e) (λ y there.
      let same : y ≡ handled (to_hex peer) x =
        ground (arith, there, Dict.get-set_self (to_hex id) (handled (to_hex peer) x) s.entries) in
      rw same (handled-any (to_hex id) (to_hex peer) (to_hex peer) x (inr refl)))
]
  where
    clash : (o : Option PropagationEntry) (y : PropagationEntry) → o ≡ none → o ≡ some y → ⊥
    clash o y a b = cc

offered_waits :
    (peer : Key) (cost : ℕ) (e : PropagationEntry)
    → is_offered peer cost e ≡ true
    → KeySet.has peer e.unhandled_peers ≡ true
unfolding is_offered
offered_waits peer cost e h = ground (arith, h)

-- In a store that is well formed and within its limit, once a message is marked as handled for a peer,
-- then after every sequence of calls that neither add nor import the message, nor mark it or all
-- messages as unhandled for that peer, where no entry that is added or imported has a peer in both of
-- its sets, and the records of each import have different ids and are within the limit together, no
-- offer to the peer is that message.
pub handled_stays :
    (limit : Option ℕ) (id peer : List ℕ) (cs : List Call) (s : MessageStore)
    → IsSound limit s
    → All (IsAdmissible limit) cs
    → All (LeavesAlone (to_hex id) (to_hex peer)) cs
    → (now cost : ℕ) (e : PropagationEntry)
    → Among e
        (unhandled_entries_for_peer now peer cost (calls cs (mark_handled_for_peer id peer s).0))
    → to_hex e.transient_id ≢ to_hex id
handled_stays limit id peer cs s w a l now cost e among same =
    let s' : MessageStore = calls cs (mark_handled_for_peer id peer s).0 in
    let (w', h) =
      calls-Settled (to_hex id) (to_hex peer) limit cs (mark_handled_for_peer id peer s).0
        (mark_handled-IsSound limit id peer s w) a l (mark_handled-Settles id peer s) in
    let (k, at, offered) = ((unhandled_entries_lem now cost peer s' w'.well_formed).1 e).0 among in
    let key : k ≡ to_hex id = (w'.well_formed.all_fit k e at).0 ∙ same in
    no (KeySet.has (to_hex peer) e.unhandled_peers) (offered_waits (to_hex peer) cost e offered)
      (h e (rw (sym key) at))
  where
    no : (b : Bool) → b ≡ true → b ≡ false → ⊥
    no b x y = cc
