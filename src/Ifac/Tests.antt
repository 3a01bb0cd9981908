-- ===== src/Ifac/Tests.antt =====
-- Runs of the IFAC over small primitives, and the witnesses.
use reticulum_js.Common.{
  ℕ, zero, suc, ◌+◌, ◌%◌, ◌≡◌, ◌↔◌, refl, arith, none, some, List, [], ◌∷◌, ◌++◌, ◌<◌, map, length,
  get_or, replicate, length-replicate, All, IsByte, false,
}
use reticulum_js.Packet.{serialize}
use reticulum_js.Packet.Samples.{
  direct_packet, relayed_packet, direct-IsWellFormed, relayed-IsWellFormed,
}
use reticulum_js.Framing.{received, opened, dropped}
use reticulum_js.Framing.Hdlc.{hdlc_unframe, hdlc_start}
use reticulum_js.Framing.Hdlc.Frames.{frame_all}
use reticulum_js.Hkdf.Tests.{toy_hmac, toy_hmac-IsHmac}
use reticulum_js.Ifac.{
  Primitives, IfacConfig, Interface, seal, open_sealed, has_ifac_flag, config, seal_raw, open_raw,
  derive_ifac, part, effective_size, strip_ifac, seal_mask, open_mask, last_bytes, ifac_salt,
}
use reticulum_js.Hkdf.{hkdf, expand, extract_key}
use reticulum_js.Encoding.{bytes_equal, difference}
use reticulum_js.Ifac.Parts.{IsSound}
use reticulum_js.Ifac.Hooks.{IsSmall, open_raw-seal_raw, modes_apart}
use reticulum_js.Ifac.Framed.{HasRoom, sealer, opener, sealed_stream}

abbrev toy_sign : List ℕ → List ℕ → List ℕ
toy_sign key message = replicate 64 ((length message + get_or message 2 0 + get_or key 0 0) % 256)

abbrev toy : Primitives
toy = record {
  hmac = toy_hmac;
  full_hash = λ (m : List ℕ). ((length m + get_or m 0 0) % 256) ∷ [];
  sign = toy_sign;
}

toy_sign-All : (n b : ℕ) → IsByte b → All IsByte (replicate n b)
toy_sign-All zero b h = tt
toy_sign-All (suc n) b h = (h, toy_sign-All n b h)

toy-IsSound : IsSound toy
toy-IsSound = record {
  hmac_sound = toy_hmac-IsHmac;
  sign_length = λ key message.
      length-replicate 64 ((length message + get_or message 2 0 + get_or key 0 0) % 256);
  sign_bytes = λ key message. toy_sign-All 64 _ (omega arith);
}

abbrev two : IfacConfig
two = record { ifac_key = 5 ∷ 6 ∷ []; ifac_size = 2 }

abbrev small_raw : List ℕ
small_raw = 0x01 ∷ 0 ∷ 9 ∷ 8 ∷ []

-- Two interfaces of one network, and one of none.
abbrev alice : Interface
alice = record {
  ifac_netname = 110 ∷ 101 ∷ [];
  ifac_netkey = [];
  ifac_size = 2;
  default_ifac_size = 16;
  protocol_violations = 0;
  ifac_violations = 0;
}

abbrev bob : Interface
bob = record alice { ifac_violations = 3 }

abbrev outsider : Interface
outsider = record alice { ifac_netname = [] }

shared_config : (config toy bob ≡ config toy alice) × IsSmall (config toy alice)
unfolding config derive_ifac part effective_size
shared_config = (refl, omega arith)

abbrev small_sealed : List ℕ
small_sealed = 137 ∷ 8 ∷ 18 ∷ 18 ∷ 3 ∷ 25 ∷ []

abbrev alice_sealed : List ℕ
alice_sealed = 179 ∷ 8 ∷ 188 ∷ 188 ∷ 189 ∷ 179 ∷ []

-- A changed byte is noticed.
tampered : open_sealed toy (137 ∷ 8 ∷ 18 ∷ 18 ∷ 2 ∷ 25 ∷ []) two ≡ none
unfolding open_sealed strip_ifac open_mask hkdf expand extract_key last_bytes bytes_equal difference
tampered = refl

open_raw-seal_raw_example : ((open_raw toy alice alice_sealed).1 ≡ opened small_raw) ↔ (
    (seal_raw toy bob small_raw ≡ some alice_sealed)
    × (has_ifac_flag small_raw ≡ false)
    × (2 < length small_raw))
open_raw-seal_raw_example =
    open_raw-seal_raw toy alice bob alice_sealed small_raw toy-IsSound shared_config.0
      shared_config.1 (omega arith) (omega arith)

modes_apart_example :
    (open_raw toy outsider alice_sealed ≡ (record outsider { protocol_violations = 1 }, dropped))
    × (seal_raw toy outsider small_raw ≡ some small_raw)
    × (open_raw toy alice small_raw ≡ (record alice { ifac_violations = 1 }, dropped))
unfolding config derive_ifac part effective_size seal_raw seal seal_mask hkdf expand extract_key
    last_bytes has_ifac_flag
modes_apart_example =
    modes_apart toy outsider alice
      (record {
        ifac_key =
            hkdf toy_hmac (toy.full_hash (toy.full_hash alice.ifac_netname ++ [])) ifac_salt [] 64;
        ifac_size = 2;
      })
      small_raw alice_sealed toy-IsSound refl refl (omega arith) (omega arith) (omega arith) refl
      refl

direct_room : HasRoom 64 524288 direct_packet
unfolding serialize
direct_room raw e = ground (arith, e)

relayed_room : HasRoom 64 524288 relayed_packet
unfolding serialize
relayed_room raw e = ground (arith, e)

sealed_stream_example :
    (stream : List ℕ) × (frame_all (sealer toy bob) (direct_packet ∷ relayed_packet ∷ [])
      ≡ some stream)
    × ((hdlc_unframe (opener toy alice) 524288 hdlc_start stream).1
        ≡ map received (direct_packet ∷ relayed_packet ∷ []))
sealed_stream_example =
    sealed_stream toy alice bob 524288 (direct_packet ∷ relayed_packet ∷ []) toy-IsSound
      shared_config.0 shared_config.1 (direct-IsWellFormed, (relayed-IsWellFormed, tt))
      (direct_room, (relayed_room, tt))
