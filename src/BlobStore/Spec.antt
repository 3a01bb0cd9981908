-- ===== src/BlobStore/Spec.antt =====
-- The abstract blob store of packages/rfed/src/blob_store.js: a map that may forget. `BlobStore` is one.
use reticulum_js.Common.{
  ℕ, ◌-◌, ◌≡◌, ◌≢◌, ◌⊎◌, refl, ap, ◌∙◌, arith, Bool, true, false, Option, none, some, List, [], ◌∷◌,
  if◌then◌else◌, length, Bool-cases, Option-cases, inl, inr, ok, err,
}
use reticulum_js.Common.Dict
use reticulum_js.Common.Dict.{Key, Dict, str_eq, str_eq_iff, str_eq_refl}
use reticulum_js.Encoding.{to_hex}
use reticulum_js.BlobStore.{
  BlobMeta, BlobStore, delete, evict_to_fit, sweep, insert_blob, store_with_id, prune_older_than,
  evict_older_than, metas,
}
use reticulum_js.BlobStore.Pairs.{IsWellFormed, Paired}
use reticulum_js.BlobStore.Invariant.{
  delete_missing, delete_found, delete-IsWellFormed, evict_to_fit-IsWellFormed, sweep-IsWellFormed,
  prune-IsWellFormed, insert_blob-IsWellFormed, evict_to_fit_keeps, sweep_keeps, evict_old_keeps,
}
use reticulum_js.BlobStore.Fit.{meta-delete}

-- The channel and the blob under each key.
abbrev pub View : Type 0
View = Key → Option (List ℕ × List ℕ)

abbrev both : Option BlobMeta → Option (List ℕ) → Option (List ℕ × List ℕ)
both none b = none
both (some m) none = none
both (some m) (some b) = some (m.destination_hash, b)

pub view : BlobStore → View
view s k = both (Dict.get k s.meta) (Dict.get k s.blobs)

-- Storing, removing and pruning, with the time; `importRecords` is in BlobStore.Records.
pub data Call : Type 0 where
  store : ℕ → List ℕ → List ℕ → List ℕ → Call
  remove : List ℕ → Call
  prune : ℕ → ℕ → Call

unfoldable pub call : Call → BlobStore → BlobStore
call (store now destination_hash message_id blob) s =
    elim (store_with_id now destination_hash message_id blob s) [ ok (s', id) ↦ s' | err e ↦ s ]
call (remove message_id) s = (delete message_id s).0
call (prune now max_age) s = (prune_older_than now max_age s).0

unfoldable pub calls : List Call → BlobStore → BlobStore
calls [] s = s
calls (c ∷ cs) s = calls cs (call c s)

-- The second view has nothing that the first has not.
abbrev pub Forgets : View → View → Type 0
Forgets v v' = (k : Key) → (v' k ≡ v k) ⊎ (v' k ≡ none)

-- What a call may do to the map. A key that is taken is left alone; storing and pruning may forget
-- other keys; removing forgets its own only.
pub data Step (v v' : View) : Call → Type 0 where
  taken :
      {now : ℕ} {dest id blob : List ℕ}
      → v (to_hex id) ≢ none
      → ((k : Key) → v' k ≡ v k)
      → Step v v' (store now dest id blob)
  stored :
      {now : ℕ} {dest id blob : List ℕ}
      → v (to_hex id) ≡ none
      → v' (to_hex id) ≡ some (dest, blob)
      → ((k : Key) → k ≢ to_hex id → (v' k ≡ v k) ⊎ (v' k ≡ none))
      → Step v v' (store now dest id blob)
  removed :
      {id : List ℕ}
      → v' (to_hex id) ≡ none
      → ((k : Key) → k ≢ to_hex id → v' k ≡ v k)
      → Step v v' (remove id)
  pruned : {now age : ℕ} → Forgets v v' → Step v v' (prune now age)

pub data Steps : View → List Call → View → Type 0 where
  at_end : {v : View} → Steps v [] v
  then_on :
      {u v w : View} {c : Call} {cs : List Call} → Step u v c → Steps v cs w → Steps u (c ∷ cs) w

view-delete :
    (id : List ℕ) (k : Key) (s : BlobStore)
    → view (delete id s).0 k ≡ (if str_eq (to_hex id) k then none else view s k)
unfolding view
view-delete id k s = elim (Option-cases (Dict.get (to_hex id) s.meta)) [
  | inl e ↦ rw (delete_missing id s e) (ground (arith, e, str_eq_iff (to_hex id) k))
  | inr (m, e) ↦ rw (delete_found id m s e) (
      rw (Dict.get-delete (to_hex id) k s.meta, Dict.get-delete (to_hex id) k s.blobs)
        (ground arith))
]

view-insert_blob :
    (now : ℕ) (dest id blob : List ℕ) (k : Key) (s : BlobStore)
    → view (insert_blob now dest id blob s) k
      ≡ (if str_eq (to_hex id) k then some (dest, blob) else view s k)
unfolding view insert_blob
view-insert_blob now dest id blob k s =
    rw (Dict.get-set (to_hex id) k _ s.meta, Dict.get-set (to_hex id) k blob s.blobs) (ground arith)

delete-Forgets :
    (v : View) (id : List ℕ) (s : BlobStore) → Forgets v (view s) → Forgets v (view (delete id s).0)
delete-Forgets v id s h k = rw (view-delete id k s) (either (str_eq (to_hex id) k))
  where
    either :
        (b : Bool)
        → ((if b then none else view s k) ≡ v k) ⊎ ((if b then none else view s k) ≡ none)
    either true = inr refl
    either false = h k

make_room-Forgets :
    (now needed : ℕ) (s : BlobStore) → Forgets (view s) (view (evict_to_fit needed (sweep now s)))
make_room-Forgets now needed s =
    evict_to_fit_keeps (λ (t : BlobStore). Forgets (view s) (view t)) (delete-Forgets (view s))
      needed (sweep now s)
      (sweep_keeps (λ (t : BlobStore). Forgets (view s) (view t)) (delete-Forgets (view s))
        (λ n t h. unfold view in h) now s (λ k. inl refl))

delete_absent_key :
    (k : Key) (id : List ℕ) (s : BlobStore)
    → Dict.get k s.meta ≡ none
    → Dict.get k (delete id s).0.meta ≡ none
delete_absent_key k id s e = rw (meta-delete id k s) (ground (arith, e))

make_room_absent :
    (now needed : ℕ) (k : Key) (s : BlobStore)
    → Dict.get k s.meta ≡ none
    → Dict.get k (evict_to_fit needed (sweep now s)).meta ≡ none
make_room_absent now needed k s e =
    evict_to_fit_keeps (λ (t : BlobStore). Dict.get k t.meta ≡ none) (delete_absent_key k) needed
      (sweep now s)
      (sweep_keeps (λ (t : BlobStore). Dict.get k t.meta ≡ none) (delete_absent_key k) (λ n t h. h)
        now s e)

Paired-blob :
    (k : Key) (m : BlobMeta) (d : Dict BlobMeta) (b : Dict (List ℕ))
    → Paired d b
    → Dict.get k d ≡ some m
    → (x : List ℕ) × (Dict.get k b ≡ some x)
unfolding Dict.get
Paired-blob k m [] b p e = absurd (no e)
  where
    no : ◌≡◌ {A = Option BlobMeta} none (some m) → ⊥
    no h = cc
Paired-blob k m ((j, w) ∷ d) [] p e = absurd p
Paired-blob k m ((j, w) ∷ d) ((i, x) ∷ b) (same, id, size, p) e = elim (Bool-cases (str_eq j k)) [
  | inl is ↦ (x, ground (arith, is, same))
  | inr isnt ↦
      let (y, found) = Paired-blob k m d b p (ground (arith, isnt, e)) in
      (y, ground (arith, isnt, same, found))
]

view_taken :
    (k : Key) (m : BlobMeta) (s : BlobStore)
    → IsWellFormed s
    → Dict.get k s.meta ≡ some m
    → view s k ≢ none
unfolding view
view_taken k m s w e empty =
    let (x, found) = Paired-blob k m s.meta s.blobs w.paired e in ground (arith, e, found, empty)

-- The three results of `storeWithId`.
pub call_taken :
    (now : ℕ) (dest id blob : List ℕ) (m : BlobMeta) (s : BlobStore)
    → Dict.get (to_hex id) s.meta ≡ some m
    → call (store now dest id blob) s ≡ s
unfolding call store_with_id
call_taken now dest id blob m s e = ground (arith, e)

pub call_stored :
    (now : ℕ) (dest id blob : List ℕ) (s : BlobStore)
    → Dict.get (to_hex id) s.meta ≡ none
    → call (store now dest id blob) s
      ≡ insert_blob now dest id blob (evict_to_fit (length blob) (sweep now s))
unfolding call store_with_id
call_stored now dest id blob s e = ground (arith, e)

if_true : (b : Bool) (x y : Option (List ℕ × List ℕ)) → b ≡ true → (if b then x else y) ≡ x
if_true b x y e = ground arith

if_false : (b : Bool) (x y : Option (List ℕ × List ℕ)) → b ≡ false → (if b then x else y) ≡ y
if_false b x y e = ground arith

other_key : (k j : Key) → j ≢ k → str_eq k j ≡ false
other_key k j h = ground (arith, str_eq_iff k j)

call-Step : (c : Call) (s : BlobStore) → IsWellFormed s → Step (view s) (view (call c s)) c
call-Step (store now dest id blob) s w = elim (Option-cases (Dict.get (to_hex id) s.meta)) [
  | inr (m, e) ↦
      taken (view_taken (to_hex id) m s w e)
        (λ k. ap (λ (t : BlobStore). view t k) (call_taken now dest id blob m s e))
  | inl e ↦
      let room : BlobStore = evict_to_fit (length blob) (sweep now s) in
      rw (call_stored now dest id blob s e) (
        stored {now = now} {dest = dest} {id = id} {blob = blob} (unfold view in ground (arith, e))
          (view-insert_blob now dest id blob (to_hex id) room
            ∙ if_true (str_eq (to_hex id) (to_hex id)) _ _ (str_eq_refl (to_hex id)))
          (λ k other.
            rw (view-insert_blob now dest id blob k room, other_key (to_hex id) k other)
              (make_room-Forgets now (length blob) s k)))
]
call-Step (remove id) s w =
    removed {id = id}
      (unfold call in
        (view-delete id (to_hex id) s
          ∙ if_true (str_eq (to_hex id) (to_hex id)) _ _ (str_eq_refl (to_hex id))))
      (λ k other.
        unfold call in
        (view-delete id k s ∙ if_false (str_eq (to_hex id) k) _ _ (other_key (to_hex id) k other)))
call-Step (prune now age) s w = pruned {now = now} {age = age} (
    unfold call prune_older_than evict_older_than in
    evict_old_keeps (λ (t : BlobStore). Forgets (view s) (view t)) (delete-Forgets (view s))
      (now - age) (metas s.meta) s (λ k. inl refl))

pub call-IsWellFormed : (c : Call) (s : BlobStore) → IsWellFormed s → IsWellFormed (call c s)
call-IsWellFormed (store now dest id blob) s w = elim (Option-cases (Dict.get (to_hex id) s.meta)) [
  | inr (m, e) ↦ rw (call_taken now dest id blob m s e) w
  | inl e ↦ rw (call_stored now dest id blob s e) (
      insert_blob-IsWellFormed now dest id blob (evict_to_fit (length blob) (sweep now s))
        (evict_to_fit-IsWellFormed (length blob) (sweep now s) (sweep-IsWellFormed now s w))
        (make_room_absent now (length blob) (to_hex id) s e))
]
call-IsWellFormed (remove id) s w = unfold call in delete-IsWellFormed id s w
call-IsWellFormed (prune now age) s w = unfold call in prune-IsWellFormed now age s w

-- From a well-formed store, every sequence of calls leads to a well-formed store, and is a sequence of
-- steps of the abstract map: storing under a new key puts the channel and the blob there and may forget
-- other keys, storing under a taken key changes nothing, removing forgets its key and no other, and
-- pruning only forgets.
pub calls-Steps :
    (cs : List Call) (s : BlobStore)
    → IsWellFormed s
    → IsWellFormed (calls cs s) × Steps (view s) cs (view (calls cs s))
unfolding calls
calls-Steps [] s w = (w, at_end)
calls-Steps (c ∷ cs) s w =
    let (w', steps) = calls-Steps cs (call c s) (call-IsWellFormed c s w) in
    (w', then_on (call-Step c s w) steps)
