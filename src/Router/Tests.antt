-- ===== src/Router/Tests.antt =====
-- Runs of packages/core/src/transport/router.js, and the theorems at a concrete table.
use reticulum_js.Common.{
  ℕ, ◌≤◌, ◌<◌, ◌≡◌, ◌≢◌, ◌⊎◌, ◌↔◌, refl, arith, true, false, Option, none, some, List, [], ◌∷◌, All,
  IsByte,
}
use reticulum_js.Common.Int.{pos, lt_ℤ}
use reticulum_js.Common.Dict
use reticulum_js.Common.Dict.{Key, str_eq}
use reticulum_js.Encoding.{to_hex, hex_digit, bytes_equal, difference}
use reticulum_js.Router.{
  unknown, responsive, Iface, Route, Entry, Readings, Table, emission_time, timebase_loop,
  timebase_from_blobs, blobs_of, has_blob, is_replay, emitted_of, gravity_wins, gravity_of, refuse,
  replace_keeping_state, verdict, verdict_existing, add_or_update_route,
}
use reticulum_js.Router.Ingest.{BlobsAreBytes, IsTakenAgain, replay_is_not_fresh, timebase_monotone}
use reticulum_js.Router.Calls.{IsTrimmed, add, mark, interface_down, apply_all, apply_all-IsTrimmed}

abbrev blob_at : ℕ → List ℕ
blob_at t = 1 ∷ 1 ∷ 1 ∷ 1 ∷ 1 ∷ 0 ∷ 0 ∷ 0 ∷ 0 ∷ t ∷ []

abbrev radio : Iface
radio = record { id = 1; name = none; gravity = some (pos 2) }

abbrev known : Route
known = record {
  iface = some radio;
  interface_name = none;
  next_hop = 7 ∷ [];
  hops = 2;
  timestamp = 100;
  expires = 5000;
  random_blobs = blob_at 9 ∷ [];
  state = unknown;
}

abbrev table : Table
table = (b'0' ∷ b'5' ∷ [], known) ∷ []

abbrev announce : ℕ → ℕ → Entry
announce hops t = record {
  next_hop = 8 ∷ [];
  hops = hops;
  via_interface = some radio;
  random_blob = some (blob_at t);
  expires = none;
  timestamp = none;
}

abbrev noon : Readings
noon = record { at_expiry = 1000; at_check = 1000; at_stamp = 1000 }

found : Dict.get (to_hex (5 ∷ [])) table ≡ some known
unfolding Dict.get str_eq to_hex hex_digit
found = refl

emission_run : emission_time (blob_at 9) ≡ 9
unfolding emission_time
emission_run = refl

taken : (add_or_update_route table (5 ∷ []) (announce 1 12) noon).1 ≡ true
unfolding add_or_update_route verdict verdict_existing emitted_of emission_time timebase_from_blobs
    timebase_loop Dict.get str_eq to_hex hex_digit
taken = refl

refused_run : (add_or_update_route table (5 ∷ []) (announce 1 9) noon).1 ≡ false
unfolding add_or_update_route verdict verdict_existing emitted_of emission_time timebase_from_blobs
    timebase_loop gravity_wins gravity_of lt_ℤ Dict.get str_eq to_hex hex_digit
refused_run = refl

IsByte-blob_at : (t : ℕ) → t < 256 → All IsByte (blob_at t)
IsByte-blob_at t h = (
  omega arith,
  (
    omega arith,
    (
      omega arith,
      (
        omega arith,
        (omega arith, (omega arith, (omega arith, (omega arith, (omega arith, (h, tt)))))),
      ),
    ),
  ),
)

same_bytes :
    (blob : List ℕ) → ◌≡◌ {A = Option (List ℕ)} (some (blob_at 9)) (some blob) → All IsByte blob
same_bytes blob e = let same : blob ≡ blob_at 9 = cc in rw same (IsByte-blob_at 9 (omega arith))

known_bytes : BlobsAreBytes known (announce 1 9)
known_bytes = ((IsByte-blob_at 9 (omega arith), tt), λ blob e. same_bytes blob e)

replayed : is_replay (some known) (some (blob_at 9)) ≡ true
unfolding is_replay has_blob bytes_equal difference
replayed = refl

replay_is_not_fresh_example :
    ((verdict_existing known (announce 1 9) 1000 ≡ refuse)
      ⊎ (verdict_existing known (announce 1 9) 1000 ≡ replace_keeping_state))
    × ((verdict_existing known (announce 1 9) 1000 ≡ replace_keeping_state)
        ↔ IsTakenAgain known (announce 1 9) 1000)
replay_is_not_fresh_example = replay_is_not_fresh known (announce 1 9) 1000 known_bytes replayed

timebase_monotone_example :
    let routes' = (add_or_update_route table (5 ∷ []) (announce 1 12) noon).0 in
    ((r' : Route) × (Dict.get (to_hex (5 ∷ [])) routes' ≡ some r')
      × (r'.hops ≡ 1)
      × (r'.next_hop ≡ 8 ∷ [])
      × ((timebase_from_blobs (blobs_of (Dict.get (to_hex (5 ∷ [])) table))
            ≤ timebase_from_blobs r'.random_blobs)
          ⊎ ((r : Route) × (Dict.get (to_hex (5 ∷ [])) table ≡ some r)
              × (r.hops < 1)
              × (r.expires ≤ noon.at_check))))
    × ((k : Key) → k ≢ to_hex (5 ∷ []) → Dict.get k routes' ≡ Dict.get k table)
timebase_monotone_example = timebase_monotone table (5 ∷ []) (announce 1 12) noon taken

table-IsTrimmed : IsTrimmed table
unfolding IsTrimmed
table-IsTrimmed = (omega arith, tt)

apply_all-IsTrimmed_example : IsTrimmed (
    apply_all table
      (add (5 ∷ []) (announce 1 12) noon ∷ mark (5 ∷ []) responsive ∷ interface_down radio ∷ []))
apply_all-IsTrimmed_example =
    apply_all-IsTrimmed table
      (add (5 ∷ []) (announce 1 12) noon ∷ mark (5 ∷ []) responsive ∷ interface_down radio ∷ [])
      table-IsTrimmed
