-- ===== src/Framing/Kiss/Tests.antt =====
-- Runs of packages/core/src/transport/kiss-framer.js, and the theorems at concrete streams.
use reticulum_js.Common.{ℕ, ◌≡◌, refl, arith, none, some, List, [], ◌∷◌, map, err}
use reticulum_js.Packet.{serialize}
use reticulum_js.Packet.Samples.{
  direct_packet, relayed_packet, direct-IsWellFormed, relayed-IsWellFormed,
}
use reticulum_js.Framing.{sealed_bytes, received, run}
use reticulum_js.Framing.Samples.{mark, unmark, mark-Opens}
use reticulum_js.Framing.Kiss.{
  kiss_start, fend, kiss_escape, kiss_unescape, incomplete_escape, kiss_frame, kiss_fend, kiss_byte,
  kiss_step, kiss_unframe,
}
use reticulum_js.Framing.Kiss.Frames.{data_with, pending, kiss_unframe-frame_all, frame_all}
use reticulum_js.Framing.Kiss.Bounds.{refused_frame_sticks}

escape_run : kiss_escape (1 ∷ 0xc0 ∷ 0xdb ∷ []) ≡ 1 ∷ 0xdb ∷ 0xdc ∷ 0xdb ∷ 0xdd ∷ []
unfolding kiss_escape
escape_run = refl

unescape_cut : kiss_unescape (1 ∷ 0xdb ∷ []) ≡ err incomplete_escape
unfolding kiss_unescape
unescape_cut = refl

-- The port's nibble is stripped, and a frame of another command is not collected.
other_command : (kiss_unframe none 64 kiss_start (fend ∷ 0x10 ∷ 5 ∷ [])).0 ≡ data_with (5 ∷ [])
unfolding kiss_unframe run kiss_step kiss_fend kiss_byte
other_command = refl

kiss_unframe-frame_all_example :
    (stream : List ℕ) × (frame_all (some mark) (direct_packet ∷ relayed_packet ∷ []) ≡ some stream)
    × ((kiss_unframe (some unmark) 2048 kiss_start stream).1
        ≡ map received (direct_packet ∷ relayed_packet ∷ []))
unfolding pending sealed_bytes serialize
kiss_unframe-frame_all_example =
    kiss_unframe-frame_all (some mark) (some unmark) 2048 (direct_packet ∷ relayed_packet ∷ [])
      kiss_start mark-Opens refl refl (direct-IsWellFormed, (relayed-IsWellFormed, tt))
      (
        record { bytes = _; sealed = refl; fits = omega arith },
        (record { bytes = _; sealed = refl; fits = omega arith }, tt),
      )

-- 0xaa marks a good packet; 7 is refused, and with it the good one behind it.
refused_frame_sticks_example :
    kiss_unframe (some unmark) 2048 (data_with (7 ∷ [])) (kiss_frame (0xaa ∷ 1 ∷ []))
    ≡ (data_with (7 ∷ 0 ∷ 0xaa ∷ 1 ∷ []), [])
refused_frame_sticks_example =
    refused_frame_sticks unmark 2048 (7 ∷ []) (0xaa ∷ 1 ∷ []) refl refl (omega arith)
