-- ===== src/MessageStore/Calls.antt =====
-- Every operation of packages/lxmf/src/message_store.js that changes the store, in sequences.
use reticulum_js.Common.{ℕ, Option, List, [], ◌∷◌, All}
use reticulum_js.MessageStore.{
  PropagationEntry, MessageStore, add_message, remove_message, remove_for_destination, prune,
}
use reticulum_js.MessageStore.Sync.{
  mark_unhandled_for_peer, mark_handled_for_peer, mark_all_unhandled_for_peer,
}
use reticulum_js.MessageStore.Entries.{Apart}
use reticulum_js.MessageStore.Sound.{
  IsSound, add_message-IsSound, remove_message-IsSound, purge-IsSound, prune-IsSound,
}
use reticulum_js.MessageStore.Records.{import_records}
use reticulum_js.MessageStore.Imports.{Importable, import_records-IsSound}
use reticulum_js.MessageStore.Marks.{mark_unhandled-IsSound, mark_handled-IsSound, mark_all-IsSound}

pub data Call : Type 0 where
  adds : ℕ → PropagationEntry → Call
  removes : List ℕ → Call
  purges : List ℕ → List ℕ → Call
  prunes : ℕ → Call
  imports : List PropagationEntry → Call
  marks_unhandled : List ℕ → List ℕ → Call
  marks_handled : List ℕ → List ℕ → Call
  marks_all_unhandled : List ℕ → Call

unfoldable pub call : Call → MessageStore → MessageStore
call (adds now e) s = (add_message now e s).0
call (removes id) s = (remove_message id s).0
call (purges id owner) s = (remove_for_destination id owner s).0
call (prunes now) s = (prune now s).0
call (imports records) s = import_records records s
call (marks_unhandled id peer) s = (mark_unhandled_for_peer id peer s).0
call (marks_handled id peer) s = (mark_handled_for_peer id peer s).0
call (marks_all_unhandled peer) s = (mark_all_unhandled_for_peer peer s).0

unfoldable pub calls : List Call → MessageStore → MessageStore
calls [] s = s
calls (c ∷ cs) s = calls cs (call c s)

-- The entry that a call adds has no peer in both sets, and so for the records that it imports, which
-- have different ids and sizes that are within the limit together.
abbrev pub IsAdmissible : Option ℕ → Call → Type 0
IsAdmissible limit (adds now e) = Apart e
IsAdmissible limit (removes id) = Unit {0}
IsAdmissible limit (purges id owner) = Unit {0}
IsAdmissible limit (prunes now) = Unit {0}
IsAdmissible limit (imports records) = Importable limit records
IsAdmissible limit (marks_unhandled id peer) = Unit {0}
IsAdmissible limit (marks_handled id peer) = Unit {0}
IsAdmissible limit (marks_all_unhandled peer) = Unit {0}

pub call-IsSound :
    (limit : Option ℕ) (c : Call) (s : MessageStore)
    → IsAdmissible limit c
    → IsSound limit s
    → IsSound limit (call c s)
unfolding call
call-IsSound limit (adds now e) s a w = add_message-IsSound limit now e s a w
call-IsSound limit (removes id) s a w = remove_message-IsSound limit id s w
call-IsSound limit (purges id owner) s a w = purge-IsSound limit id owner s w
call-IsSound limit (prunes now) s a w = prune-IsSound limit now s w
call-IsSound limit (imports records) s a w = import_records-IsSound limit records s a w
call-IsSound limit (marks_unhandled id peer) s a w = mark_unhandled-IsSound limit id peer s w
call-IsSound limit (marks_handled id peer) s a w = mark_handled-IsSound limit id peer s w
call-IsSound limit (marks_all_unhandled peer) s a w = mark_all-IsSound limit peer s w

-- From a store that is well formed and within its limit, after every sequence of calls of `add`,
-- `remove`, `removeForDestination`, `prune`, `importRecords` and the three methods that mark peers,
-- where no entry that is added or imported has a peer in both of its sets, and the records of each
-- import have different ids and are within the limit together: each entry stands once, under its
-- transient id, with no peer in both of its sets; the total is the sum of the sizes; and it is within
-- the limit, where there is one.
pub calls-IsSound :
    (limit : Option ℕ) (cs : List Call) (s : MessageStore)
    → All (IsAdmissible limit) cs
    → IsSound limit s
    → IsSound limit (calls cs s)
unfolding calls
calls-IsSound limit [] s a w = w
calls-IsSound limit (c ∷ cs) s a w =
    calls-IsSound limit cs (call c s) a.1 (call-IsSound limit c s a.0 w)
