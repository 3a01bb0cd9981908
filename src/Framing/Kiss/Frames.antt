-- ===== src/Framing/Kiss/Frames.antt =====
-- The KISS streams of packages/core/src/transport/kiss-framer.js: framing, then unframing.
use reticulum_js.Common.{
  ℕ, ◌+◌, ◌≤◌, ◌<◌, ◌≡◌, ◌≢◌, ◌⊎◌, refl, ◌∙◌, arith, true, false, ◌&&◌, Option, none, some, List,
  [], ◌∷◌, ◌++◌, append-nil, append_assoc, map, ◌==◌, if◌then◌else◌, length, length-append, All,
  Bool-cases, inl, inr,
}
use reticulum_js.Packet.{Packet, IsWellFormed}
use reticulum_js.Packet.RoundTrip.{deserialize-serialize}
use reticulum_js.Framing.{
  SealRaw, OpenRaw, Opens, sealed_bytes, deliver, received, run, run-append, run-cons,
  deliver-sealed_bytes,
}
use reticulum_js.Framing.Kiss.{
  KissState, kiss_ready, fend, fesc, tfend, tfesc, cmd_data, kiss_escape, kiss_frame,
  kiss_frame_packet, is_refused, kiss_fend, kiss_byte, kiss_step, kiss_unframe,
}

-- Inside a data frame, with `buffer` read.
abbrev pub data_with : List ℕ → KissState
data_with buffer = record {
  in_frame = true;
  in_escape = false;
  command = cmd_data;
  data_buffer = buffer;
}

-- What the next FEND enqueues in the state `s`, if the frame is not refused.
unfoldable pub pending : Option OpenRaw → KissState → List Packet
pending open_raw s =
    if s.in_frame && s.command == cmd_data then deliver open_raw s.data_buffer else []

-- The next FEND does not meet a frame that `openRaw` refuses.
abbrev pub Accepts : Option OpenRaw → KissState → Type 0
Accepts open_raw s =
    (s.in_frame && s.command == cmd_data && is_refused open_raw s.data_buffer) ≡ false

module _ (open_raw : Option OpenRaw) (m : ℕ) where
  step_fend :
      (s : KissState)
      → Accepts open_raw s
      → kiss_step open_raw m s fend ≡ (kiss_ready, pending open_raw s)
  unfolding kiss_step kiss_fend pending
  step_fend s h = ground arith

  step_command : kiss_step open_raw m kiss_ready cmd_data ≡ (data_with [], [])
  unfolding kiss_step kiss_byte
  step_command = refl

  pub step_plain :
      (buffer : List ℕ) (b : ℕ)
      → b ≢ fend
      → b ≢ fesc
      → length buffer < m
      → kiss_step open_raw m (data_with buffer) b ≡ (data_with (buffer ++ b ∷ []), [])
  unfolding kiss_step kiss_byte
  step_plain buffer b h h' room = ground arith

  step_fesc :
      (buffer : List ℕ)
      → length buffer < m
      → kiss_step open_raw m (data_with buffer) fesc
        ≡ (record (data_with buffer) { in_escape = true }, [])
  unfolding kiss_step kiss_byte
  step_fesc buffer room = ground arith

  step_transposed :
      (buffer : List ℕ) (t b : ℕ)
      → ((t ≡ tfesc) × (b ≡ fesc)) ⊎ ((t ≡ tfend) × (b ≡ fend))
      → length buffer < m
      → kiss_step open_raw m (record (data_with buffer) { in_escape = true }) t
        ≡ (data_with (buffer ++ b ∷ []), [])
  unfolding kiss_step kiss_byte
  step_transposed buffer t b pair room = ground arith

  run_pair :
      (buffer : List ℕ) (t b : ℕ) (rest : List ℕ)
      → ((t ≡ tfesc) × (b ≡ fesc)) ⊎ ((t ≡ tfend) × (b ≡ fend))
      → length buffer < m
      → run (kiss_step open_raw m) (data_with buffer) (fesc ∷ t ∷ rest)
        ≡ run (kiss_step open_raw m) (data_with (buffer ++ b ∷ [])) rest
  unfolding run
  run_pair buffer t b rest pair room =
      rw (step_fesc buffer room, step_transposed buffer t b pair room)

  -- One byte of the packet takes one or two on the wire.
  run_escaped :
      (buffer : List ℕ) (b : ℕ) (raw : List ℕ)
      → length buffer < m
      → run (kiss_step open_raw m) (data_with buffer) (kiss_escape (b ∷ raw))
        ≡ run (kiss_step open_raw m) (data_with (buffer ++ b ∷ [])) (kiss_escape raw)
  unfolding kiss_escape
  run_escaped buffer b raw room = elim (Bool-cases (b == fesc)) [
    | inl h ↦ rw h (run_pair buffer tfesc b (kiss_escape raw) (inl (refl, ground arith)) room)
    | inr h ↦ elim (Bool-cases (b == fend)) [
      | inl h' ↦
          rw (h, h') (run_pair buffer tfend b (kiss_escape raw) (inr (refl, ground arith)) room)
      | inr h' ↦
          rw (h, h') (unfold run in rw (step_plain buffer b (ground arith) (ground arith) room))
    ]
  ]

  pub run_content :
      (buffer raw : List ℕ)
      → length buffer + length raw ≤ m
      → run (kiss_step open_raw m) (data_with buffer) (kiss_escape raw)
        ≡ (data_with (buffer ++ raw), [])
  run_content buffer [] room = unfold run kiss_escape in rw append-nil
  run_content buffer (b ∷ raw) room =
      run_escaped buffer b raw (omega arith)
      ∙ run_content (buffer ++ b ∷ []) raw (omega (arith, length-append buffer (b ∷ [])))
      ∙ rw (append_assoc buffer (b ∷ []) raw)

  run_body :
      (raw : List ℕ)
      → length raw ≤ m
      → Accepts open_raw (data_with raw)
      → run (kiss_step open_raw m) kiss_ready (cmd_data ∷ (kiss_escape raw ++ fend ∷ []))
        ≡ (kiss_ready, deliver open_raw raw)
  run_body raw fits accepted =
      unfold run in
      rw
        (
          step_command,
          run-append (kiss_step open_raw m) (data_with []) (kiss_escape raw) (fend ∷ []),
          run_content [] raw (omega arith),
          step_fend (data_with raw) accepted,
        )
        (unfold pending in rw append-nil)

  -- From every state in which no refused frame is pending, a frame that fits and is not refused is
  -- delivered behind what its first FEND closes.
  pub kiss_unframe_frame :
      (s : KissState) (raw : List ℕ)
      → Accepts open_raw s
      → length raw ≤ m
      → Accepts open_raw (data_with raw)
      → kiss_unframe open_raw m s (kiss_frame raw)
        ≡ (kiss_ready, pending open_raw s ++ deliver open_raw raw)
  unfolding kiss_frame kiss_unframe
  kiss_unframe_frame s raw now fits accepted =
      run-cons (kiss_step open_raw m) s kiss_ready fend (cmd_data ∷ (kiss_escape raw ++ fend ∷ []))
        (pending open_raw s) (step_fend s now)
      ∙ rw (run_body raw fits accepted)

pub record Sendable (seal : Option SealRaw) (m : ℕ) (p : Packet) : Type 0 where
  pub bytes : List ℕ
  pub sealed : sealed_bytes seal p ≡ some bytes
  pub fits : length bytes ≤ m

-- The frames of a list of packets, one after the other; `none` where one cannot be built.
pub frame_all : Option SealRaw → List Packet → Option (List ℕ)
frame_all seal [] = some []
frame_all seal (p ∷ ps) = elim (kiss_frame_packet seal p) [
  | none ↦ none
  | some frame ↦ elim (frame_all seal ps) [ none ↦ none | some rest ↦ some (frame ++ rest) ]
]

frame_all-cons :
    (seal : Option SealRaw) (p : Packet) (ps : List Packet) (first rest : List ℕ)
    → kiss_frame_packet seal p ≡ some first
    → frame_all seal ps ≡ some rest
    → frame_all seal (p ∷ ps) ≡ some (first ++ rest)
unfolding frame_all
frame_all-cons seal p ps first rest e e' = ground arith

unframe_parts :
    (open_raw : Option OpenRaw) (m : ℕ) (t u : KissState) (first rest : List ℕ)
    (out more : List Packet)
    → kiss_unframe open_raw m t first ≡ (u, out)
    → (kiss_unframe open_raw m u rest).1 ≡ more
    → (kiss_unframe open_raw m t (first ++ rest)).1 ≡ out ++ more
unfolding kiss_unframe
unframe_parts open_raw m t u first rest out more e e' =
    rw (run-append (kiss_step open_raw m) t first rest, e, e')

-- What `seal` wrote is not refused.
sealed-Accepts :
    (seal : Option SealRaw) (open_raw : Option OpenRaw) (p : Packet) (bytes : List ℕ)
    → Opens seal open_raw
    → IsWellFormed p
    → sealed_bytes seal p ≡ some bytes
    → is_refused open_raw bytes ≡ false
unfolding sealed_bytes
sealed-Accepts none none p bytes o w e = refl
sealed-Accepts none (some f) p bytes o w e = absurd o
sealed-Accepts (some seal) none p bytes o w e = absurd o
sealed-Accepts (some seal) (some f) p bytes o w e =
    let (raw, done, back) = deserialize-serialize p w in ground (arith, done, o p raw bytes w done)

module _ (seal : Option SealRaw) (open_raw : Option OpenRaw) (m : ℕ)
    (inverse : Opens seal open_raw) where
  packet_frame :
      (p : Packet)
      → IsWellFormed p
      → (s : Sendable seal m p) → (t : KissState) → Accepts open_raw t
      → (kiss_frame_packet seal p ≡ some (kiss_frame s.bytes))
        × (kiss_unframe open_raw m t (kiss_frame s.bytes)
            ≡ (kiss_ready, pending open_raw t ++ received p ∷ []))
  packet_frame p w s t now = (
    unfold kiss_frame_packet in ground (arith, s.sealed),
    kiss_unframe_frame open_raw m t s.bytes now s.fits
          (sealed-Accepts seal open_raw p s.bytes inverse w s.sealed)
        ∙ rw (deliver-sealed_bytes seal open_raw p s.bytes inverse w s.sealed),
  )

  packets_frames :
      (ps : List Packet) (t : KissState)
      → Accepts open_raw t
      → pending open_raw t ≡ []
      → All IsWellFormed ps
      → All (Sendable seal m) ps
      → (stream : List ℕ) × (frame_all seal ps ≡ some stream)
        × ((kiss_unframe open_raw m t stream).1 ≡ map received ps)
  packets_frames [] t now quiet w s =
      ([], unfold frame_all in refl, unfold kiss_unframe run in refl)
  packets_frames (p ∷ ps) t now quiet w s =
      let (framed, back) = packet_frame p w.0 s.0 t now in
      let (rest, framed', back') =
        packets_frames ps kiss_ready refl (unfold pending in refl) w.1 s.1 in
      let first : List ℕ = kiss_frame s.0.bytes in
      (
        first ++ rest,
        frame_all-cons seal p ps first rest framed framed',
        unframe_parts open_raw m t kiss_ready first rest (received p ∷ []) (map received ps)
            (back ∙ rw quiet) back',
      )

-- Let the framers have no hooks, or `openRaw` undo `sealRaw` on the bytes of well-formed packets.
-- Well-formed packets that `sealRaw`, if there is one, seals without throwing, to no more bytes than the
-- limit, are framed, and the unframer delivers them all, in order and each once, from its start and
-- from every state in which a FEND would enqueue nothing and refuse nothing.
pub kiss_unframe-frame_all :
    (seal : Option SealRaw) (open_raw : Option OpenRaw) (m : ℕ) (ps : List Packet) (t : KissState)
    → Opens seal open_raw
    → Accepts open_raw t
    → pending open_raw t ≡ []
    → All IsWellFormed ps
    → All (Sendable seal m) ps
    → (stream : List ℕ) × (frame_all seal ps ≡ some stream)
      × ((kiss_unframe open_raw m t stream).1 ≡ map received ps)
kiss_unframe-frame_all seal open_raw m ps t inverse now quiet w s =
    packets_frames seal open_raw m inverse ps t now quiet w s
