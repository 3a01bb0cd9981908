-- ===== src/MessageStore/Ranked.antt =====
-- `_enforceCapacity` of packages/lxmf/src/message_store.js: the order of the entries, and the limit.
use reticulum_js.Common.{
  ℕ, ◌≤◌, ◌≡◌, refl, sym, ap, ◌∙◌, arith, Option, none, some, [], ◌∷◌, leb, if◌then◌else◌,
  Bool-cases, inl, inr,
}
use reticulum_js.Common.Dict
use reticulum_js.Common.Dict.{Key, Dict, str_eq, str_eq_iff, str_eq_refl}
use reticulum_js.Common.Sized.{Distinct, sum_of}
use reticulum_js.MessageStore.{
  PropagationEntry, MessageStore, weight_of, insert_ranked, rank, drop_entry, evict_ranked,
}
use reticulum_js.MessageStore.Entries.{
  IsWellFormed, Within, drop_entry-IsWellFormed, rest_stored, first_stored,
}
use reticulum_js.MessageStore.Keeps.{evict_ranked_stop, evict_ranked_go}

get-insert_ranked :
    (now : ℕ) (j k : Key) (x : PropagationEntry) (d : Dict PropagationEntry)
    → Dict.get k d ≡ none
    → Dict.get j (insert_ranked now (k, x) d) ≡ (if str_eq k j then some x else Dict.get j d)
unfolding Dict.get insert_ranked
get-insert_ranked now j k x [] e = refl
get-insert_ranked now j k x ((i, y) ∷ d) e = ground (
  arith,
  get-insert_ranked now j k x d (ground (arith, e)),
  str_eq_iff k j,
  str_eq_iff i j,
  str_eq_iff i k,
  e,
)

insert_ranked-Distinct :
    (now : ℕ) (k : Key) (x : PropagationEntry) (d : Dict PropagationEntry)
    → Dict.get k d ≡ none
    → Distinct d
    → Distinct (insert_ranked now (k, x) d)
unfolding insert_ranked Dict.get
insert_ranked-Distinct now k x [] e h = (refl, tt)
insert_ranked-Distinct now k x ((i, y) ∷ d) e h =
    elim (Bool-cases (leb (weight_of now y) (weight_of now x))) [
      | inl is ↦ rw is (e, h)
      | inr isnt ↦ rw isnt (
        rw (get-insert_ranked now i k x d (ground (arith, e)))
            (ground (arith, h.0, e, str_eq_iff k i, str_eq_iff i k)),
        insert_ranked-Distinct now k x d (ground (arith, e)) h.1,
      )
    ]

pub get-rank :
    (now : ℕ) (j : Key) (d : Dict PropagationEntry)
    → Distinct d
    → Dict.get j (rank now d) ≡ Dict.get j d
unfolding Dict.get rank
get-rank now j [] h = refl
get-rank now j ((k, x) ∷ d) h =
    get-insert_ranked now j k x (rank now d) (get-rank now k d h.1 ∙ h.0)
    ∙ ground (arith, get-rank now j d h.1)

pub rank-Distinct : (now : ℕ) (d : Dict PropagationEntry) → Distinct d → Distinct (rank now d)
unfolding rank
rank-Distinct now [] h = tt
rank-Distinct now ((k, x) ∷ d) h =
    insert_ranked-Distinct now k x (rank now d) (get-rank now k d h.1 ∙ h.0)
      (rank-Distinct now d h.1)

pub rank-Within :
    (now : ℕ) (d : Dict PropagationEntry)
    → Distinct d
    → Within (rank now d) d × Within d (rank now d)
rank-Within now d h = (λ k e at. sym (get-rank now k d h) ∙ at, λ k e at. get-rank now k d h ∙ at)

-- Once the first entry of a list that has all that is stored is dropped, the rest has it.
pub rest_has :
    (k : Key) (x : PropagationEntry) (d : Dict PropagationEntry) (s : MessageStore)
    → Within s.entries ((k, x) ∷ d)
    → Within (drop_entry k x s).entries d
unfolding drop_entry Dict.get
rest_has k x d s w j y at = ground (
  arith,
  at,
  Dict.get-delete k j s.entries,
  w j y (ground (arith, at, Dict.get-delete k j s.entries)),
)

-- A map of which an empty one has every entry is empty.
nothing_stored : (d : Dict PropagationEntry) → Within d [] → d ≡ []
unfolding Dict.get
nothing_stored [] w = refl
nothing_stored ((k, x) ∷ d) w = absurd (no (w k x (rw (str_eq_refl k) refl)))
  where
    no : ◌≡◌ {A = Option PropagationEntry} none (some x) → ⊥
    no h = cc

pub evict_ranked_lem :
    (limit : ℕ) (d : Dict PropagationEntry) (s : MessageStore)
    → Distinct d
    → Within d s.entries
    → Within s.entries d
    → IsWellFormed s
    → (evict_ranked limit d s).total_bytes ≤ limit
evict_ranked_lem limit [] s h w c wf =
    let empty : s.entries ≡ [] = nothing_stored s.entries c in
    let total = wf.total ∙ ap (sum_of (λ (e : PropagationEntry). e.size)) empty in
    unfold evict_ranked sum_of in omega (arith, total)
evict_ranked_lem limit ((k, x) ∷ d) s h w c wf = elim (Bool-cases (leb s.total_bytes limit)) [
  | inl e ↦ rw (evict_ranked_stop limit ((k, x) ∷ d) s e) (ground arith)
  | inr e ↦ rw (evict_ranked_go limit k x d s e) (
      evict_ranked_lem limit d (drop_entry k x s) h.1 (rest_stored k x d s h w).1
        (rest_has k x d s c) (drop_entry-IsWellFormed k x s (first_stored k x d s.entries w) wf))
]
