-- ===== src/MessageStore/Heaviest.antt =====
-- The entries that `_enforceCapacity` of packages/lxmf/src/message_store.js drops.
use reticulum_js.Common.{
  ℕ, ◌≤◌, ◌≡◌, sym, ap, ◌∙◌, arith, true, false, Option, none, some, [], ◌∷◌, leb, Bool-cases,
  Option-cases, inl, inr, All,
}
use reticulum_js.Common.Dict
use reticulum_js.Common.Dict.{Key, Dict, str_eq, str_eq_iff}
use reticulum_js.Common.Sized.{Distinct}
use reticulum_js.MessageStore.{
  PropagationEntry, MessageStore, weight_of, insert_ranked, rank, drop_entry, evict_ranked,
  enforce_capacity,
}
use reticulum_js.MessageStore.Entries.{
  IsWellFormed, Within, Within-drop_entry, rest_stored, first_stored,
}
use reticulum_js.MessageStore.Keeps.{evict_ranked_stop, evict_ranked_go, evict_ranked_keeps}
use reticulum_js.MessageStore.Ranked.{rank-Distinct, rank-Within, rest_has, evict_ranked_lem}

-- `_enforceCapacity`, case by case.
pub enforce_unlimited :
    (now : ℕ) (s : MessageStore) → s.storage_limit_bytes ≡ none → enforce_capacity now s ≡ s
unfolding enforce_capacity
enforce_unlimited now s e = ground (arith, e)

pub enforce_enough :
    (now limit : ℕ) (s : MessageStore)
    → s.storage_limit_bytes ≡ some limit
    → leb s.total_bytes limit ≡ true
    → enforce_capacity now s ≡ s
unfolding enforce_capacity
enforce_enough now limit s e h = ground (arith, e, h)

pub enforce_over :
    (now limit : ℕ) (s : MessageStore)
    → s.storage_limit_bytes ≡ some limit
    → leb s.total_bytes limit ≡ false
    → enforce_capacity now s ≡ evict_ranked limit (rank now s.entries) s
unfolding enforce_capacity
enforce_over now limit s e h = ground (arith, e, h)

module _ (P : MessageStore → Type 0)
    (keep : (k : Key) (e : PropagationEntry) (s : MessageStore)
      → Dict.get k s.entries ≡ some e
      → P s
      → P (drop_entry k e s)) where
  pub enforce_capacity_keeps :
      (now : ℕ) (s : MessageStore) → Distinct s.entries → P s → P (enforce_capacity now s)
  enforce_capacity_keeps now s h p = elim (Option-cases s.storage_limit_bytes) [
    | inl e ↦ rw (enforce_unlimited now s e) p
    | inr (limit, e) ↦ elim (Bool-cases (leb s.total_bytes limit)) [
      | inl is ↦ rw (enforce_enough now limit s e is) p
      | inr isnt ↦ rw (enforce_over now limit s e isnt) (
          evict_ranked_keeps P keep limit (rank now s.entries) s (rank-Distinct now s.entries h)
            (rank-Within now s.entries h).0 p)
    ]
  ]

-- The number of bytes is within the limit, where there is one.
abbrev pub Limited : Option ℕ → ℕ → Type 0
Limited none n = Unit {0}
Limited (some limit) n = n ≤ limit

free-Limited : (o : Option ℕ) (n : ℕ) → o ≡ none → Limited o n
free-Limited o n e = rw e tt

at-Limited : (o : Option ℕ) (limit n : ℕ) → o ≡ some limit → n ≤ limit → Limited o n
at-Limited o limit n e h = rw e h

pub enforce_capacity-Limited :
    (now : ℕ) (s : MessageStore)
    → IsWellFormed s
    → Limited s.storage_limit_bytes (enforce_capacity now s).total_bytes
enforce_capacity-Limited now s w = elim (Option-cases s.storage_limit_bytes) [
  | inl e ↦ free-Limited s.storage_limit_bytes (enforce_capacity now s).total_bytes e
  | inr (limit, e) ↦
      at-Limited s.storage_limit_bytes limit (enforce_capacity now s).total_bytes e
        (elim (Bool-cases (leb s.total_bytes limit)) [
          | inl is ↦ rw (enforce_enough now limit s e is) (ground arith)
          | inr isnt ↦ rw (enforce_over now limit s e isnt) (
              evict_ranked_lem limit (rank now s.entries) s (rank-Distinct now s.entries w.distinct)
                (rank-Within now s.entries w.distinct).0 (rank-Within now s.entries w.distinct).1 w)
        ])
]

-- In descending order of weight.
abbrev IsRanked : ℕ → Dict PropagationEntry → Type 0
IsRanked now [] = Unit {0}
IsRanked now ((k, x) ∷ d) =
    All (λ (y : Key × PropagationEntry). weight_of now y.1 ≤ weight_of now x) d × IsRanked now d

insert_ranked-All :
    (P : Key × PropagationEntry → Type 0) (now : ℕ) (x : Key × PropagationEntry)
    (d : Dict PropagationEntry)
    → P x
    → All P d
    → All P (insert_ranked now x d)
unfolding insert_ranked
insert_ranked-All P now x [] h hs = (h, tt)
insert_ranked-All P now x (y ∷ ys) h hs =
    elim (Bool-cases (leb (weight_of now y.1) (weight_of now x.1))) [
      | inl e ↦ rw e (h, hs)
      | inr e ↦ rw e (hs.0, insert_ranked-All P now x ys h hs.1)
    ]

lighter-All :
    (now n n' : ℕ) (d : Dict PropagationEntry)
    → n ≤ n'
    → All (λ (y : Key × PropagationEntry). weight_of now y.1 ≤ n) d
    → All (λ (y : Key × PropagationEntry). weight_of now y.1 ≤ n') d
lighter-All now n n' [] le h = tt
lighter-All now n n' (x ∷ d) le h = (omega (arith, h.0), lighter-All now n n' d le h.1)

insert_ranked-IsRanked :
    (now : ℕ) (k : Key) (x : PropagationEntry) (d : Dict PropagationEntry)
    → IsRanked now d
    → IsRanked now (insert_ranked now (k, x) d)
unfolding insert_ranked
insert_ranked-IsRanked now k x [] h = (tt, tt)
insert_ranked-IsRanked now k x ((i, y) ∷ d) h =
    elim (Bool-cases (leb (weight_of now y) (weight_of now x))) [
      | inl e ↦
          let le : weight_of now y ≤ weight_of now x = ground arith in
          rw e ((le, lighter-All now (weight_of now y) (weight_of now x) d le h.0), h)
      | inr e ↦ rw e (
        insert_ranked-All (λ (z : Key × PropagationEntry). weight_of now z.1 ≤ weight_of now y) now
            (k, x) d (ground arith) h.0,
        insert_ranked-IsRanked now k x d h.1,
      )
    ]

rank-IsRanked : (now : ℕ) (d : Dict PropagationEntry) → IsRanked now (rank now d)
unfolding rank
rank-IsRanked now [] = tt
rank-IsRanked now ((k, x) ∷ d) = insert_ranked-IsRanked now k x (rank now d) (rank-IsRanked now d)

All-get :
    (P : PropagationEntry → Type 0) (k : Key) (x : PropagationEntry) (d : Dict PropagationEntry)
    → All (λ (y : Key × PropagationEntry). P y.1) d
    → Dict.get k d ≡ some x
    → P x
unfolding Dict.get
All-get P k x [] h e = absurd (no e)
  where
    no : ◌≡◌ {A = Option PropagationEntry} none (some x) → ⊥
    no a = cc
All-get P k x ((j, y) ∷ d) h e = elim (Bool-cases (str_eq j k)) [
  | inl is ↦ let same : x ≡ y = ground (arith, is, e) in rw same h.0
  | inr isnt ↦ All-get P k x d h.1 (ground (arith, isnt, e))
]

evict_ranked-Within :
    (limit : ℕ) (d : Dict PropagationEntry) (s : MessageStore)
    → Distinct d
    → Within d s.entries
    → Within (evict_ranked limit d s).entries s.entries
evict_ranked-Within limit d s h w =
    evict_ranked_keeps (λ (t : MessageStore). Within t.entries s.entries)
      (λ k e t at p j x there. p j x (Within-drop_entry k e t j x there)) limit d s h w
      (λ j x there. there)

clash : (o : Option PropagationEntry) (x : PropagationEntry) → o ≡ some x → o ≡ none → ⊥
clash o x a b = cc

dropped_is :
    (k i : Key) (x y : PropagationEntry) (s : MessageStore)
    → Dict.get k (drop_entry i y s).entries ≡ none
    → Dict.get k s.entries ≡ some x
    → Dict.get i s.entries ≡ some y
    → x ≡ y
unfolding drop_entry
dropped_is k i x y s absent had at =
    ground (arith, absent, had, at, Dict.get-delete i k s.entries, str_eq_iff i k)

module _ (now limit : ℕ) (k j : Key) (x x' : PropagationEntry) where
  evict_ranked_heaviest :
      (d : Dict PropagationEntry) (s : MessageStore)
      → Distinct d
      → IsRanked now d
      → Within d s.entries
      → Within s.entries d
      → Dict.get k s.entries ≡ some x
      → Dict.get k (evict_ranked limit d s).entries ≡ none
      → Dict.get j (evict_ranked limit d s).entries ≡ some x'
      → weight_of now x' ≤ weight_of now x
  evict_ranked_heaviest [] s h r w c had gone left =
      absurd (clash (Dict.get k s.entries) x had (unfold evict_ranked in gone))
  evict_ranked_heaviest ((i, y) ∷ d) s h r w c had gone left =
      elim (Bool-cases (leb s.total_bytes limit)) [
        | inl e ↦
            let same =
              ap (λ (t : MessageStore). Dict.get k t.entries)
                (evict_ranked_stop limit ((i, y) ∷ d) s e) in
            absurd (clash (Dict.get k s.entries) x had (sym same ∙ gone))
        | inr e ↦
            let on = evict_ranked_go limit i y d s e in
            let gone' = sym (ap (λ (t : MessageStore). Dict.get k t.entries) on) ∙ gone in
            let left' = sym (ap (λ (t : MessageStore). Dict.get j t.entries) on) ∙ left in
            let s' : MessageStore = drop_entry i y s in
            let c' = rest_has i y d s c in
            let w' = (rest_stored i y d s h w).1 in
            elim (Option-cases (Dict.get k s'.entries)) [
              | inr (z, at) ↦
                  let same = sym (Within-drop_entry i y s k z at) ∙ had in
                  evict_ranked_heaviest d s' h.1 r.1 w' c' (ground (arith, at, same)) gone' left'
              | inl absent ↦
                  let is : x ≡ y =
                    dropped_is k i x y s absent had (first_stored i y d s.entries w) in
                  rw is (
                    All-get (λ z. weight_of now z ≤ weight_of now y) j x' d r.0
                      (c' j x' (evict_ranked-Within limit d s' h.1 w' j x' left')))
            ]
      ]

-- In a well-formed store, an entry that is dropped to stay within the limit weighs at least as much as
-- every entry that is left.
pub enforce_capacity_heaviest :
    (now : ℕ) (s : MessageStore) (k j : Key) (x x' : PropagationEntry)
    → IsWellFormed s
    → Dict.get k s.entries ≡ some x
    → Dict.get k (enforce_capacity now s).entries ≡ none
    → Dict.get j (enforce_capacity now s).entries ≡ some x'
    → weight_of now x' ≤ weight_of now x
enforce_capacity_heaviest now s k j x x' w had gone left =
    elim (Option-cases s.storage_limit_bytes) [
      | inl e ↦ absurd (stays (enforce_unlimited now s e))
      | inr (limit, e) ↦ elim (Bool-cases (leb s.total_bytes limit)) [
        | inl is ↦ absurd (stays (enforce_enough now limit s e is))
        | inr isnt ↦
            let on = enforce_over now limit s e isnt in
            evict_ranked_heaviest now limit k j x x' (rank now s.entries) s
              (rank-Distinct now s.entries w.distinct) (rank-IsRanked now s.entries)
              (rank-Within now s.entries w.distinct).0 (rank-Within now s.entries w.distinct).1 had
              (sym (ap (λ (t : MessageStore). Dict.get k t.entries) on) ∙ gone)
              (sym (ap (λ (t : MessageStore). Dict.get j t.entries) on) ∙ left)
      ]
    ]
  where
    stays : enforce_capacity now s ≡ s → ⊥
    stays same =
        clash (Dict.get k s.entries) x had
          (sym (ap (λ (t : MessageStore). Dict.get k t.entries) same) ∙ gone)
