-- ===== src/Framing.antt =====
-- What the stream framers of packages/core/src/transport/ share: the hooks that an interface hands
-- them, and a byte-at-a-time transform.
pub mod Hdlc
pub mod Kiss
pub mod Samples
use reticulum_js.Common.{
  ℕ, zero, suc, ◌+◌, ◌≡◌, refl, sym, ap, ◌∙◌, arith, Option, none, some, List, [], ◌∷◌, ◌++◌,
  append_assoc, Result, ok, err,
}
use reticulum_js.Packet.{Packet, PacketError, serialize, deserialize, IsWellFormed}
use reticulum_js.Packet.RoundTrip.{deserialize-serialize}

-- `sealRaw` and `openRaw`, which are arguments of the framers and may be absent. A promise may
-- reject: `none`, and `failed`.
abbrev pub SealRaw : Type 0
SealRaw = List ℕ → Option (List ℕ)

pub data Opened : Type 0 where
  dropped : Opened
  failed : Opened
  opened : List ℕ → Opened

abbrev pub OpenRaw : Type 0
OpenRaw = List ℕ → Opened

-- `packet.serialize()`, then `sealRaw`; `none` where one of them throws.
unfoldable pub sealed_bytes : Option SealRaw → Packet → Option (List ℕ)
sealed_bytes seal p = elim (serialize p) [
  | err e ↦ none
  | ok raw ↦ elim seal [ none ↦ some raw | some f ↦ f raw ]
]

-- `controller.enqueue(packetClass.deserialize(...))` inside the `try`: what it enqueues.
unfoldable pub parse : List ℕ → List Packet
parse raw = elim (deserialize raw) [ ok p ↦ p ∷ [] | err e ↦ [] ]

unfoldable pub deliver : Option OpenRaw → List ℕ → List Packet
deliver none raw = parse raw
deliver (some open_raw) raw = elim (open_raw raw) [
  | dropped ↦ []
  | failed ↦ []
  | opened inner ↦ parse inner
]

-- `transform` of a stream: each byte in turn, the packets that it enqueues collected.
module _ {S : Type 0} where
  unfoldable pub run : (S → ℕ → S × List Packet) → S → List ℕ → S × List Packet
  run step s [] = (s, [])
  run step s (b ∷ bs) =
      let (s', out) = step s b in let (s'', more) = run step s' bs in (s'', out ++ more)

  pub run-cons :
      (step : S → ℕ → S × List Packet) (s u : S) (b : ℕ) (bs : List ℕ) (out : List Packet)
      → step s b ≡ (u, out)
      → run step s (b ∷ bs) ≡ ((run step u bs).0, out ++ (run step u bs).1)
  unfolding run
  run-cons step s u b bs out e = rw e

  -- The way in which a stream is cut into chunks does not matter.
  pub run-append :
      (step : S → ℕ → S × List Packet) (s : S) (xs ys : List ℕ)
      → run step s (xs ++ ys) ≡ (
        (run step (run step s xs).0 ys).0,
        (run step s xs).1 ++ (run step (run step s xs).0 ys).1,
      )
  unfolding run
  run-append step s [] ys = refl
  run-append step s (b ∷ bs) ys =
      ap (λ (t : S × List Packet). (t.0, (step s b).1 ++ t.1)) (run-append step (step s b).0 bs ys)
      ∙ ap (λ (out : List Packet). ((run step (run step (step s b).0 bs).0 ys).0, out))
          (sym (
            append_assoc (step s b).1 (run step (step s b).0 bs).1
              (run step (run step (step s b).0 bs).0 ys).1))

-- The packet as the other side has it: `raw` holds the wire bytes.
unfoldable pub received : Packet → Packet
received p = elim (serialize p) [ ok raw ↦ record p { raw = raw } | err e ↦ p ]

-- `open_raw` undoes `seal` on the bytes of well-formed packets, as the two hooks of one interface do
-- (Ifac/Hooks).
abbrev pub Opens : Option SealRaw → Option OpenRaw → Type 0
Opens none none = Unit {0}
Opens none (some open_raw) = ⊥
Opens (some seal) none = ⊥
Opens (some seal) (some open_raw) =
    (p : Packet) (raw sealed : List ℕ)
    → IsWellFormed p
    → serialize p ≡ ok raw
    → seal raw ≡ some sealed
    → open_raw sealed ≡ opened raw

-- What was sealed from a well-formed packet is delivered as that packet.
pub deliver-sealed_bytes :
    (seal : Option SealRaw) (open_raw : Option OpenRaw) (p : Packet) (bytes : List ℕ)
    → Opens seal open_raw
    → IsWellFormed p
    → sealed_bytes seal p ≡ some bytes
    → deliver open_raw bytes ≡ received p ∷ []
unfolding deliver sealed_bytes received parse
deliver-sealed_bytes none none p bytes o w e = ground (arith, deserialize-serialize p w)
deliver-sealed_bytes none (some f) p bytes o w e = absurd o
deliver-sealed_bytes (some seal) none p bytes o w e = absurd o
deliver-sealed_bytes (some seal) (some f) p bytes o w e =
    let (raw, done, back) = deserialize-serialize p w in
    ground (arith, done, back, o p raw bytes w done)
