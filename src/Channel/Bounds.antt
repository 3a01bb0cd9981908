-- ===== src/Channel/Bounds.antt =====
-- The bounds of the send window of packages/core/src/transport/channel.js.
use reticulum_js.Common.{ℕ, ◌+◌, ◌≤◌, arith, ◌&&◌, List, [], ◌∷◌, ltb, ◌==◌, Bool-cases, inl, inr}
use reticulum_js.Channel.{
  Window, rtt_fast, rtt_medium, rtt_slow, fast_rate_threshold, new_window, grow, medium_round,
  fast_round, window_delivered, window_timeout, WindowEvent, was_delivered, was_resent, window_step,
  window_run,
}

-- The window is between 1 and its upper limit, and the limits are in order and at most 48.
pub record IsSane (w : Window) : Type 0 where
  pub some_room : 1 ≤ w.window
  pub under : w.window ≤ w.max'
  pub ordered : (1 ≤ w.min') × (w.min' ≤ w.max')
  pub limited : w.max' ≤ 48

grow-IsSane : (w : Window) → IsSane w → IsSane (grow w)
unfolding grow
grow-IsSane w s = elim (Bool-cases (ltb w.window w.max')) [
  | inl below ↦ rw below (record {
    some_room = omega (arith, s.some_room);
    under = ground (arith, below);
    ordered = s.ordered;
    limited = s.limited;
  })
  | inr full ↦ rw full s
]

medium_round-IsSane : (w : Window) → IsSane w → IsSane (medium_round w)
unfolding medium_round
medium_round-IsSane w s =
    elim (Bool-cases (ltb w.max' 12 && (w.medium_rate_rounds + 1) == fast_rate_threshold)) [
      | inl now ↦ rw now (record {
        some_room = s.some_room;
        under = ground (arith, now, s.under);
        ordered = omega arith;
        limited = omega arith;
      })
      | inr wait ↦ rw wait (record {
        some_room = s.some_room;
        under = s.under;
        ordered = s.ordered;
        limited = s.limited;
      })
    ]

fast_round-IsSane : (w : Window) → IsSane w → IsSane (fast_round w)
unfolding fast_round
fast_round-IsSane w s =
    elim (Bool-cases (ltb w.max' 48 && (w.fast_rate_rounds + 1) == fast_rate_threshold)) [
      | inl now ↦ rw now (record {
        some_room = s.some_room;
        under = ground (arith, now, s.under);
        ordered = omega arith;
        limited = omega arith;
      })
      | inr wait ↦ rw wait (record {
        some_room = s.some_room;
        under = s.under;
        ordered = s.ordered;
        limited = s.limited;
      })
    ]

pub delivered-IsSane : (rtt : ℕ) (w : Window) → IsSane w → IsSane (window_delivered rtt w)
unfolding window_delivered
delivered-IsSane rtt w s = elim (Bool-cases (rtt == 0)) [
  | inl unknown ↦ rw unknown (grow-IsSane w s)
  | inr known ↦ elim (Bool-cases (ltb rtt_fast rtt)) [
    | inl slower ↦ elim (Bool-cases (ltb rtt_medium rtt)) [
      | inl slow ↦
          let g = grow-IsSane w s in
          rw (known, slower, slow)
            (record {
              some_room = g.some_room;
              under = g.under;
              ordered = g.ordered;
              limited = g.limited;
            })
      | inr medium ↦ rw (known, slower, medium) (medium_round-IsSane (grow w) (grow-IsSane w s))
    ]
    | inr fast ↦ rw (known, fast) (fast_round-IsSane (grow w) (grow-IsSane w s))
  ]
]

pub timeout-IsSane : (w : Window) → IsSane w → IsSane (window_timeout w)
unfolding window_timeout
timeout-IsSane w s = elim (Bool-cases (ltb w.min' w.window)) [
  | inl above ↦ elim (Bool-cases (ltb (w.min' + w.flexibility) w.max')) [
    | inl wide ↦
        rw (above, wide)
          (record {
            some_room = ground (arith, above, s.ordered);
            under = ground (arith, s.under, s.some_room);
            ordered = (s.ordered.0, ground (arith, wide));
            limited = ground (arith, s.limited);
          })
    | inr narrow ↦
        rw (above, narrow)
          (record {
            some_room = ground (arith, above, s.ordered);
            under = ground (arith, s.under);
            ordered = s.ordered;
            limited = s.limited;
          })
  ]
  | inr low ↦ rw low s
]

run-IsSane : (events : List WindowEvent) (w : Window) → IsSane w → IsSane (window_run events w)
unfolding window_run window_step
run-IsSane [] w s = s
run-IsSane (was_delivered rtt ∷ events) w s =
    run-IsSane events (window_delivered rtt w) (delivered-IsSane rtt w s)
run-IsSane (was_resent ∷ events) w s = run-IsSane events (window_timeout w) (timeout-IsSane w s)

pub new_window-IsSane : (rtt : ℕ) → IsSane (new_window rtt)
unfolding new_window
new_window-IsSane rtt = elim (Bool-cases (ltb rtt_slow rtt)) [
  | inl slow ↦ rw slow (record {
    some_room = omega arith;
    under = omega arith;
    ordered = omega arith;
    limited = omega arith;
  })
  | inr normal ↦ rw normal (record {
    some_room = omega arith;
    under = omega arith;
    ordered = omega arith;
    limited = omega arith;
  })
]

-- Whatever round trip a channel starts with and whatever deliveries and retries follow, its window
-- stays at least 1 and at most its upper limit, and that at most 48 and at least the lower one.
pub window_run-IsSane :
    (rtt : ℕ) (events : List WindowEvent) → IsSane (window_run events (new_window rtt))
window_run-IsSane rtt events = run-IsSane events (new_window rtt) (new_window-IsSane rtt)
