-- ===== src/MessageStore/Keeps.antt =====
-- The two loops of packages/lxmf/src/message_store.js that drop entries, and what they keep.
use reticulum_js.Common.{
  ℕ, ◌≡◌, refl, arith, true, false, some, [], ◌∷◌, ltb, leb, Bool-cases, inl, inr,
}
use reticulum_js.Common.Dict
use reticulum_js.Common.Dict.{Key, Dict}
use reticulum_js.Common.Sized.{Distinct}
use reticulum_js.MessageStore.{PropagationEntry, MessageStore, drop_entry, evict_ranked, prune_aged}
use reticulum_js.MessageStore.Entries.{Within, rest_stored, first_stored}

pub evict_ranked_stop :
    (limit : ℕ) (d : Dict PropagationEntry) (s : MessageStore)
    → leb s.total_bytes limit ≡ true
    → evict_ranked limit d s ≡ s
unfolding evict_ranked
evict_ranked_stop limit [] s e = refl
evict_ranked_stop limit ((k, x) ∷ d) s e = ground (arith, e)

pub evict_ranked_go :
    (limit : ℕ) (k : Key) (x : PropagationEntry) (d : Dict PropagationEntry) (s : MessageStore)
    → leb s.total_bytes limit ≡ false
    → evict_ranked limit ((k, x) ∷ d) s ≡ evict_ranked limit d (drop_entry k x s)
unfolding evict_ranked
evict_ranked_go limit k x d s e = ground (arith, e)

prune_aged_stay :
    (cutoff : ℕ) (k : Key) (x : PropagationEntry) (d : Dict PropagationEntry) (s : MessageStore)
    → ltb x.received cutoff ≡ false
    → prune_aged cutoff ((k, x) ∷ d) s ≡ prune_aged cutoff d s
unfolding prune_aged
prune_aged_stay cutoff k x d s e = ground (arith, e)

prune_aged_go :
    (cutoff : ℕ) (k : Key) (x : PropagationEntry) (d : Dict PropagationEntry) (s : MessageStore)
    → ltb x.received cutoff ≡ true
    → (prune_aged cutoff ((k, x) ∷ d) s).0 ≡ (prune_aged cutoff d (drop_entry k x s)).0
unfolding prune_aged
prune_aged_go cutoff k x d s e = ground (arith, e)

-- What the removal of a stored entry keeps, both loops keep.
module _ (P : MessageStore → Type 0)
    (keep : (k : Key) (e : PropagationEntry) (s : MessageStore)
      → Dict.get k s.entries ≡ some e
      → P s
      → P (drop_entry k e s)) where
  pub evict_ranked_keeps :
      (limit : ℕ) (d : Dict PropagationEntry) (s : MessageStore)
      → Distinct d
      → Within d s.entries
      → P s
      → P (evict_ranked limit d s)
  evict_ranked_keeps limit [] s h w p = unfold evict_ranked in p
  evict_ranked_keeps limit ((k, x) ∷ d) s h w p = elim (Bool-cases (leb s.total_bytes limit)) [
    | inl e ↦ rw (evict_ranked_stop limit ((k, x) ∷ d) s e) p
    | inr e ↦ rw (evict_ranked_go limit k x d s e) (
        evict_ranked_keeps limit d (drop_entry k x s) h.1 (rest_stored k x d s h w).1
          (keep k x s (first_stored k x d s.entries w) p))
  ]

  pub prune_aged_keeps :
      (cutoff : ℕ) (d : Dict PropagationEntry) (s : MessageStore)
      → Distinct d
      → Within d s.entries
      → P s
      → P (prune_aged cutoff d s).0
  prune_aged_keeps cutoff [] s h w p = unfold prune_aged in p
  prune_aged_keeps cutoff ((k, x) ∷ d) s h w p = elim (Bool-cases (ltb x.received cutoff)) [
    | inl e ↦ rw (prune_aged_go cutoff k x d s e) (
        prune_aged_keeps cutoff d (drop_entry k x s) h.1 (rest_stored k x d s h w).1
          (keep k x s (first_stored k x d s.entries w) p))
    | inr e ↦
        rw (prune_aged_stay cutoff k x d s e)
          (prune_aged_keeps cutoff d s h.1 (rest_stored k x d s h w).0 p)
  ]
