-- ===== src/MessageStore/Records.antt =====
-- `exportRecords` and `importRecords` of packages/lxmf/src/message_store.js. A record has the fields of
-- its entry, with arrays for the sets; one without them has empty ones.
use reticulum_js.Common.{
  ℕ, ◌+◌, ◌≡◌, refl, ap, ◌∙◌, arith, none, some, List, [], ◌∷◌, ◌++◌, append_assoc, append-nil,
}
use reticulum_js.Common.Dict
use reticulum_js.Common.Dict.{Key, Dict}
use reticulum_js.Common.KeySet
use reticulum_js.Common.Sized.{Distinct, sum_of, set_fresh, get-append_none, get_head, get_later}
use reticulum_js.Encoding.{to_hex}
use reticulum_js.MessageStore.{PropagationEntry, MessageStore, store_entry}
use reticulum_js.MessageStore.Entries.{IsWellFormed}

-- `new Set(keys)`, onto the set so far.
unfoldable pub set_of : List Key → List Key → List Key
set_of seen [] = seen
set_of seen (k ∷ ks) = set_of (KeySet.add k seen) ks

unfoldable pub export_records : Dict PropagationEntry → List PropagationEntry
export_records [] = []
export_records ((k, e) ∷ d) = e ∷ export_records d

unfoldable pub entry_of : PropagationEntry → PropagationEntry
entry_of r = record r {
  handled_peers = set_of [] r.handled_peers;
  unhandled_peers = set_of [] r.unhandled_peers;
}

unfoldable pub import_loop : List PropagationEntry → MessageStore → MessageStore
import_loop [] s = s
import_loop (r ∷ records) s = import_loop records (store_entry (entry_of r) s)

unfoldable pub import_records : List PropagationEntry → MessageStore → MessageStore
import_records records s = import_loop records (record s { entries = []; total_bytes = 0 })

-- A set holds no peer twice.
abbrev pub HasSets : PropagationEntry → Type 0
HasSets e =
    (set_of [] e.handled_peers ≡ e.handled_peers)
    × (set_of [] e.unhandled_peers ≡ e.unhandled_peers)

abbrev size_of : PropagationEntry → ℕ
size_of e = e.size

import_record_lem :
    (k : Key) (e : PropagationEntry) (s : MessageStore)
    → k ≡ to_hex e.transient_id
    → HasSets e
    → Dict.get k s.entries ≡ none
    → store_entry (entry_of e) s
      ≡ record s { entries = s.entries ++ (k, e) ∷ []; total_bytes = s.total_bytes + e.size }
unfolding store_entry entry_of
import_record_lem k e s key sets absent =
    ground (arith, key, sets.0, sets.1, set_fresh k e s.entries absent)

import_loop-export :
    (d : Dict PropagationEntry) (s : MessageStore)
    → ((k : Key) (e : PropagationEntry)
        → Dict.get k d ≡ some e
        → (k ≡ to_hex e.transient_id) × HasSets e)
    → Distinct d
    → ((k : Key) (e : PropagationEntry) → Dict.get k d ≡ some e → Dict.get k s.entries ≡ none)
    → import_loop (export_records d) s
      ≡ record s { entries = s.entries ++ d; total_bytes = s.total_bytes + sum_of size_of d }
unfolding import_loop export_records sum_of
import_loop-export [] s fits h fresh = rw (append-nil s.entries) (ground arith)
import_loop-export ((k, e) ∷ d) s fits h fresh =
    let first = fits k e (get_head k e d) in
    ap (import_loop (export_records d))
      (import_record_lem k e s first.0 first.1 (fresh k e (get_head k e d)))
    ∙ import_loop-export d
        (record s { entries = s.entries ++ (k, e) ∷ []; total_bytes = s.total_bytes + e.size })
        (λ j x found. fits j x (get_later k j e x d h.0 found).1) h.1
        (λ j x found.
          let (other, found') = get_later k j e x d h.0 found in
          get-append_none j k e s.entries (fresh j x found') other)
    ∙ ground (arith, append_assoc s.entries ((k, e) ∷ []) d)

get_empty : (k : Key) → Dict.get {V = PropagationEntry} k [] ≡ none
unfolding Dict.get
get_empty k = refl

-- What a well-formed store exports, where no set of an entry holds a peer twice, is imported again by
-- any store: it then has the same entries in the same order, and counts the same bytes.
pub import_records-export_lem :
    (s t : MessageStore)
    → IsWellFormed s
    → ((k : Key) (e : PropagationEntry) → Dict.get k s.entries ≡ some e → HasSets e)
    → import_records (export_records s.entries) t
      ≡ record t { entries = s.entries; total_bytes = s.total_bytes }
unfolding import_records
import_records-export_lem s t w sets =
    import_loop-export s.entries (record t { entries = []; total_bytes = 0 })
      (λ k e at. ((w.all_fit k e at).0, sets k e at)) w.distinct (λ k e at. get_empty k)
    ∙ ground (arith, w.total)
