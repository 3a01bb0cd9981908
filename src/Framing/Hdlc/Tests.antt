-- ===== src/Framing/Hdlc/Tests.antt =====
-- Runs of packages/core/src/transport/hdlc-framer.js, and the theorems at concrete streams.
use reticulum_js.Common.{ℕ, ◌≡◌, refl, arith, some, List, [], ◌∷◌, map, ok, err}
use reticulum_js.Packet.{serialize}
use reticulum_js.Packet.Samples.{
  direct_packet, relayed_packet, direct-IsWellFormed, relayed-IsWellFormed,
}
use reticulum_js.Framing.{sealed_bytes, received}
use reticulum_js.Framing.Samples.{mark, unmark, mark-Opens}
use reticulum_js.Framing.Hdlc.{
  hdlc_start, hdlc_escape, hdlc_unescape, incomplete_escape, invalid_escape, hdlc_unframe,
}
use reticulum_js.Framing.Hdlc.Frames.{pending, hdlc_unframe-frame_all, frame_all}

escape_run : hdlc_escape (1 ∷ 0x7e ∷ 0x7d ∷ []) ≡ 1 ∷ 0x7d ∷ 0x5e ∷ 0x7d ∷ 0x5d ∷ []
unfolding hdlc_escape
escape_run = refl

unescape_cut : hdlc_unescape (1 ∷ 0x7d ∷ []) ≡ err incomplete_escape
unfolding hdlc_unescape
unescape_cut = refl

unescape_wrong : hdlc_unescape (0x7d ∷ 0x41 ∷ []) ≡ err (invalid_escape 0x41)
unfolding hdlc_unescape
unescape_wrong = refl

unescape_run : hdlc_unescape (1 ∷ 0x7d ∷ 0x5e ∷ []) ≡ ok (1 ∷ 0x7e ∷ [])
unfolding hdlc_unescape
unescape_run = refl

hdlc_unframe-frame_all_example :
    (stream : List ℕ) × (frame_all (some mark) (direct_packet ∷ relayed_packet ∷ []) ≡ some stream)
    × ((hdlc_unframe (some unmark) 524288 hdlc_start stream).1
        ≡ map received (direct_packet ∷ relayed_packet ∷ []))
unfolding pending sealed_bytes serialize hdlc_escape
hdlc_unframe-frame_all_example =
    hdlc_unframe-frame_all (some mark) (some unmark) 524288 (direct_packet ∷ relayed_packet ∷ [])
      hdlc_start mark-Opens refl (direct-IsWellFormed, (relayed-IsWellFormed, tt))
      (
        record { bytes = _; sealed = refl; some_byte = omega arith; fits = omega arith },
        (record { bytes = _; sealed = refl; some_byte = omega arith; fits = omega arith }, tt),
      )
