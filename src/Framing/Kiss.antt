-- ===== src/Framing/Kiss.antt =====
-- packages/core/src/transport/kiss-framer.js
pub mod Escape
pub mod Frames
pub mod Bounds
mod Tests
use reticulum_js.Common.{
  ℕ, zero, suc, ◌+◌, Bool, true, false, not, ◌&&◌, Option, none, some, List, [], ◌∷◌, ◌++◌, bit_and,
  leb, ◌==◌, if◌then◌else◌, length, Result, ok, err, ◌>>=◌,
}
use reticulum_js.Packet.{Packet}
use reticulum_js.Framing.{SealRaw, OpenRaw, dropped, failed, opened, sealed_bytes, deliver, run}

abbrev pub fend : ℕ
fend = 0xc0

abbrev pub fesc : ℕ
fesc = 0xdb

abbrev pub tfend : ℕ
tfend = 0xdc

abbrev pub tfesc : ℕ
tfesc = 0xdd

abbrev pub cmd_data : ℕ
cmd_data = 0x00

abbrev pub cmd_unknown : ℕ
cmd_unknown = 0xfe

unfoldable pub kiss_escape : List ℕ → List ℕ
kiss_escape [] = []
kiss_escape (b ∷ bytes) =
    let rest = kiss_escape bytes in
    if b == fesc then fesc ∷ tfesc ∷ rest else if b == fend then fesc ∷ tfend ∷ rest else b ∷ rest

pub data KissError : Type 0 where
  incomplete_escape : KissError
  invalid_escape : ℕ → KissError

unfoldable pub kiss_unescape : List ℕ → Result KissError (List ℕ)
kiss_unescape [] = ok []
kiss_unescape (b ∷ []) = if b == fesc then err incomplete_escape else ok (b ∷ [])
kiss_unescape (b ∷ next ∷ bytes) =
    let after_pair = kiss_unescape bytes in
    let after_byte = kiss_unescape (next ∷ bytes) in
    if b == fesc
    then if next == tfend
      then (after_pair >>= λ out. ok (fend ∷ out))
      else if next == tfesc
      then (after_pair >>= λ out. ok (fesc ∷ out))
      else err (invalid_escape next)
    else (after_byte >>= λ out. ok (b ∷ out))

unfoldable pub kiss_frame : List ℕ → List ℕ
kiss_frame raw = fend ∷ cmd_data ∷ (kiss_escape raw ++ fend ∷ [])

-- `transform` of `createKissFramerStream`; `none` where serializing or sealing throws.
unfoldable pub kiss_frame_packet : Option SealRaw → Packet → Option (List ℕ)
kiss_frame_packet seal p = elim (sealed_bytes seal p) [
  | none ↦ none
  | some raw ↦ some (kiss_frame raw)
]

-- The variables of `createKissUnframerStream`.
pub record KissState : Type 0 where
  pub in_frame : Bool
  pub in_escape : Bool
  pub command : ℕ
  pub data_buffer : List ℕ

abbrev pub kiss_start : KissState
kiss_start = record { in_frame = false; in_escape = false; command = cmd_unknown; data_buffer = [] }

abbrev pub kiss_ready : KissState
kiss_ready = record { in_frame = true; in_escape = false; command = cmd_unknown; data_buffer = [] }

-- `if (!opened) continue;`: the hook is there and gives `null`.
abbrev pub is_refused : Option OpenRaw → List ℕ → Bool
is_refused none raw = false
is_refused (some open_raw) raw = elim (open_raw raw) [
  | dropped ↦ true
  | failed ↦ false
  | opened inner ↦ false
]

-- A FEND. On a frame that `openRaw` refuses, the `continue` leaves every variable as it is.
unfoldable pub kiss_fend : Option OpenRaw → KissState → KissState × List Packet
kiss_fend open_raw s =
    if s.in_frame && s.command == cmd_data
    then if is_refused open_raw s.data_buffer
      then (s, [])
      else (kiss_ready, deliver open_raw s.data_buffer)
    else (kiss_ready, [])

-- Any other byte; none of them enqueues.
unfoldable pub kiss_byte : ℕ → KissState → ℕ → KissState
kiss_byte max_mtu s byte =
    if not s.in_frame
    then s
    else if length s.data_buffer == 0 && s.command == cmd_unknown
    then record s { command = bit_and byte 0x0f }
    else if not (s.command == cmd_data)
    then s
    else if leb max_mtu (length s.data_buffer)
    then kiss_start
    else if byte == fesc
    then record s { in_escape = true }
    else if s.in_escape
    then if byte == tfend
      then record s { in_escape = false; data_buffer = s.data_buffer ++ fend ∷ [] }
      else if byte == tfesc
      then record s { in_escape = false; data_buffer = s.data_buffer ++ fesc ∷ [] }
      else kiss_start
    else record s { data_buffer = s.data_buffer ++ byte ∷ [] }

-- One round of the loop over a chunk.
unfoldable pub kiss_step : Option OpenRaw → ℕ → KissState → ℕ → KissState × List Packet
kiss_step open_raw max_mtu s byte =
    if byte == fend then kiss_fend open_raw s else (kiss_byte max_mtu s byte, [])

-- `transform` of `createKissUnframerStream`, for a chunk.
unfoldable pub kiss_unframe : Option OpenRaw → ℕ → KissState → List ℕ → KissState × List Packet
kiss_unframe open_raw max_mtu = run (kiss_step open_raw max_mtu)
