-- ===== src/Framing/Hdlc.antt =====
-- packages/core/src/transport/hdlc-framer.js
pub mod Escape
pub mod Frames
pub mod Bounds
mod Tests
use reticulum_js.Common.{
  ℕ, zero, suc, ◌+◌, ◌≤◌, ◌≡◌, Bool, true, false, not, ◌&&◌, ◌||◌, Option, none, some, List, [],
  ◌∷◌, ◌++◌, bit_xor, ltb, leb, ◌==◌, if◌then◌else◌, length, Result, ok, err, ◌>>=◌,
}
use reticulum_js.Packet.{Packet}
use reticulum_js.Framing.{SealRaw, OpenRaw, sealed_bytes, deliver, run}

abbrev pub flag : ℕ
flag = 0x7e

abbrev pub esc : ℕ
esc = 0x7d

abbrev pub esc_mask : ℕ
esc_mask = 0x20

unfoldable pub hdlc_escape : List ℕ → List ℕ
hdlc_escape [] = []
hdlc_escape (b ∷ bytes) =
    let rest = hdlc_escape bytes in
    if b == flag || b == esc then esc ∷ bit_xor b esc_mask ∷ rest else b ∷ rest

pub data HdlcError : Type 0 where
  incomplete_escape : HdlcError
  invalid_escape : ℕ → HdlcError

-- An error found earlier in the data comes first, since the rest is bound after the test.
unfoldable pub hdlc_unescape : List ℕ → Result HdlcError (List ℕ)
hdlc_unescape [] = ok []
hdlc_unescape (b ∷ []) = if b == esc then err incomplete_escape else ok (b ∷ [])
hdlc_unescape (b ∷ c ∷ bytes) =
    let next : ℕ = bit_xor c esc_mask in
    let after_pair = hdlc_unescape bytes in
    let after_byte = hdlc_unescape (c ∷ bytes) in
    if b == esc
    then if not (next == flag) && not (next == esc)
      then err (invalid_escape c)
      else (after_pair >>= λ out. ok (next ∷ out))
    else (after_byte >>= λ out. ok (b ∷ out))

-- `transform` of `createHdlcFramerStream`; `none` where serializing or sealing throws.
unfoldable pub hdlc_frame : List ℕ → List ℕ
hdlc_frame raw = flag ∷ (hdlc_escape raw ++ flag ∷ [])

unfoldable pub hdlc_frame_packet : Option SealRaw → Packet → Option (List ℕ)
hdlc_frame_packet seal p = elim (sealed_bytes seal p) [
  | none ↦ none
  | some raw ↦ some (hdlc_frame raw)
]

-- The variables of `createHdlcUnframerStream`.
pub record HdlcState : Type 0 where
  pub in_frame : Bool
  pub data_buffer : List ℕ

abbrev pub hdlc_start : HdlcState
hdlc_start = record { in_frame = false; data_buffer = [] }

-- What a closing flag enqueues.
unfoldable pub close_frame : Option OpenRaw → List ℕ → List Packet
close_frame open_raw buffer = elim (hdlc_unescape buffer) [
  | err e ↦ []
  | ok unescaped ↦ deliver open_raw unescaped
]

-- One round of the loop over a chunk.
unfoldable pub hdlc_step : Option OpenRaw → ℕ → HdlcState → ℕ → HdlcState × List Packet
hdlc_step open_raw max_frame_size s byte =
    if byte == flag
    then (
      record { in_frame = true; data_buffer = [] },
      (if s.in_frame && ltb 0 (length s.data_buffer)
          then close_frame open_raw s.data_buffer
          else []),
    )
    else if not s.in_frame
    then (s, [])
    else if leb max_frame_size (length s.data_buffer)
    then (record { in_frame = false; data_buffer = [] }, [])
    else (record s { data_buffer = s.data_buffer ++ byte ∷ [] }, [])

-- `transform` of `createHdlcUnframerStream`, for a chunk.
unfoldable pub hdlc_unframe : Option OpenRaw → ℕ → HdlcState → List ℕ → HdlcState × List Packet
hdlc_unframe open_raw max_frame_size = run (hdlc_step open_raw max_frame_size)
