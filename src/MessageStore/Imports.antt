-- ===== src/MessageStore/Imports.antt =====
-- `importRecords` of packages/lxmf/src/message_store.js on records with different ids, and the form of
-- the store after it.
use reticulum_js.Common.{ℕ, ◌+◌, ◌≡◌, ◌≢◌, refl, ◌∙◌, arith, Option, none, some, List, [], ◌∷◌, All}
use reticulum_js.Common.Dict
use reticulum_js.Common.Dict.{Key, Dict, get-set_other}
use reticulum_js.Common.Sized.{sum_of}
use reticulum_js.Encoding.{to_hex}
use reticulum_js.MessageStore.{PropagationEntry, MessageStore, store_entry}
use reticulum_js.MessageStore.Records.{entry_of, import_loop, import_records}
use reticulum_js.MessageStore.Entries.{Apart, IsWellFormed, store_entry-IsWellFormed}
use reticulum_js.MessageStore.Heaviest.{Limited}
use reticulum_js.MessageStore.Sound.{IsSound}

unfoldable pub sizes_of : List PropagationEntry → ℕ
sizes_of [] = 0
sizes_of (r ∷ records) = r.size + sizes_of records

-- The ids differ.
abbrev pub NoTwice : List PropagationEntry → Type 0
NoTwice [] = Unit {0}
NoTwice (r ∷ records) =
    All (λ (x : PropagationEntry). to_hex r.transient_id ≢ to_hex x.transient_id) records
    × NoTwice records

-- No record has a peer in both of its lists, the ids differ, and the sizes are within the limit.
abbrev pub Importable : Option ℕ → List PropagationEntry → Type 0
Importable limit records =
    All (λ (r : PropagationEntry). Apart (entry_of r)) records
    × NoTwice records
    × Limited limit (sizes_of records)

abbrev Unseen : List PropagationEntry → MessageStore → Type 0
Unseen records s =
    All (λ (r : PropagationEntry). Dict.get (to_hex r.transient_id) s.entries ≡ none) records

store_entry-Unseen :
    (r : PropagationEntry) (records : List PropagationEntry) (s : MessageStore)
    → All (λ (x : PropagationEntry). to_hex r.transient_id ≢ to_hex x.transient_id) records
    → Unseen records s
    → Unseen records (store_entry (entry_of r) s)
store_entry-Unseen r [] s other h = tt
store_entry-Unseen r (x ∷ records) s other h = (
  unfold store_entry entry_of in
      (get-set_other (to_hex r.transient_id) (to_hex x.transient_id) (entry_of r) s.entries other.0
        ∙ h.0),
  store_entry-Unseen r records s other.1 h.1,
)

loop-IsWellFormed :
    (records : List PropagationEntry) (s : MessageStore)
    → All (λ (r : PropagationEntry). Apart (entry_of r)) records
    → NoTwice records
    → Unseen records s
    → IsWellFormed s
    → IsWellFormed (import_loop records s)
      × ((import_loop records s).total_bytes ≡ s.total_bytes + sizes_of records)
      × ((import_loop records s).storage_limit_bytes ≡ s.storage_limit_bytes)
unfolding import_loop sizes_of
loop-IsWellFormed [] s a n u w = (w, omega arith, refl)
loop-IsWellFormed (r ∷ records) s a n u w =
    let s' : MessageStore = store_entry (entry_of r) s in
    let (w', total, limit) =
      loop-IsWellFormed records s' a.1 n.1 (store_entry-Unseen r records s n.0 u.1)
        (store_entry-IsWellFormed (entry_of r) s (unfold entry_of in u.0) a.0 w) in
    (w', total ∙ counted r s (sizes_of records), limit ∙ unfold store_entry in refl)
  where
    counted :
        (r : PropagationEntry) (s : MessageStore) (n : ℕ)
        → (store_entry (entry_of r) s).total_bytes + n ≡ s.total_bytes + (r.size + n)
    counted r s n = unfold store_entry entry_of in omega arith

no_entry : (k : Key) (e : PropagationEntry) → Dict.get k [] ≢ some e
unfolding Dict.get
no_entry k e h = cc

emptied-IsWellFormed :
    (s : MessageStore) → IsWellFormed (record s { entries = []; total_bytes = 0 })
unfolding sum_of
emptied-IsWellFormed s = record {
  all_fit = λ k e h. absurd (no_entry k e h);
  distinct = tt;
  total = refl;
}

all-Unseen :
    (records : List PropagationEntry) (s : MessageStore)
    → Unseen records (record s { entries = []; total_bytes = 0 })
unfolding Dict.get
all-Unseen [] s = tt
all-Unseen (r ∷ records) s = (refl, all-Unseen records s)

same_number-Limited : (limit : Option ℕ) (m n : ℕ) → m ≡ n → Limited limit n → Limited limit m
same_number-Limited limit m n e h = rw e h

pub import_records-IsSound :
    (limit : Option ℕ) (records : List PropagationEntry) (s : MessageStore)
    → Importable limit records
    → IsSound limit s
    → IsSound limit (import_records records s)
unfolding import_records
import_records-IsSound limit records s (apart, differ, fits) w =
    let (w', total, kept) =
      loop-IsWellFormed records (record s { entries = []; total_bytes = 0 }) apart differ
        (all-Unseen records s) (emptied-IsWellFormed s) in
    record {
      well_formed = w';
      limit_kept = kept ∙ w.limit_kept;
      limited = same_number-Limited limit _ (sizes_of records) (omega (arith, total)) fits;
    }

loop-absent :
    (k : Key) (records : List PropagationEntry) (s : MessageStore)
    → All (λ (r : PropagationEntry). to_hex r.transient_id ≢ k) records
    → Dict.get k s.entries ≡ none
    → Dict.get k (import_loop records s).entries ≡ none
unfolding import_loop
loop-absent k [] s other h = h
loop-absent k (r ∷ records) s other h = loop-absent k records (store_entry (entry_of r) s) other.1 (
    unfold store_entry entry_of in
    (get-set_other (to_hex r.transient_id) k (entry_of r) s.entries other.0 ∙ h))

-- What is not among the records is not there afterwards.
pub import_records-absent :
    (k : Key) (records : List PropagationEntry) (s : MessageStore)
    → All (λ (r : PropagationEntry). to_hex r.transient_id ≢ k) records
    → Dict.get k (import_records records s).entries ≡ none
unfolding import_records Dict.get
import_records-absent k records s other =
    loop-absent k records (record s { entries = []; total_bytes = 0 }) other refl
