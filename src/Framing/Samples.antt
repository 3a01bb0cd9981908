-- ===== src/Framing/Samples.antt =====
-- A pair of hooks that fit one another, for the tests: a mark before the packet.
use reticulum_js.Common.{arith, some, [], ◌∷◌, ◌==◌, if◌then◌else◌}
use reticulum_js.Framing.{SealRaw, OpenRaw, dropped, opened, Opens}

abbrev pub mark : SealRaw
mark raw = some (0xaa ∷ raw)

abbrev pub unmark : OpenRaw
unmark [] = dropped
unmark (b ∷ raw) = if b == 0xaa then opened raw else dropped

pub mark-Opens : Opens (some mark) (some unmark)
mark-Opens p raw sealed w done e = ground arith
