-- ===== src/Stops/Tests.antt =====
-- Runs of the stop distances.
use trading_hub.Base.{
  ◌*◌, ◌≤◌, ◌≡◌, refl, true, false, Option, none, some, List, [], ◌∷◌, nat_eq, string_eq, pair_eq,
}
use trading_hub.Stops.Buffer.{RecentBar, compute_stop_buffer, should_reject_wide_stop}
use trading_hub.Stops.Bounds.{compute_stop_buffer-bounds, compute_stop_buffer-accepted}

abbrev bars : Option (List RecentBar)
bars = some (record { high = 105; low = 98 } ∷ record { high = 110; low = 100 } ∷ [])

-- A range of 12 at an average of 10, at 9:35 and at noon; a calm noon is clamped.
opening_buffer : compute_stop_buffer 10 bars 0 9 35 ≡ 9750
unfolding compute_stop_buffer
opening_buffer = refl

noon_buffer : compute_stop_buffer 10 none 4 12 0 ≡ 2500
unfolding compute_stop_buffer
noon_buffer = refl

rejects_far_reversion : should_reject_wide_stop 15_001 10 "mean_reversion" ≡ true
unfolding should_reject_wide_stop
rejects_far_reversion = refl

accepts_far_gap : should_reject_wide_stop 40_000 10 "gap_and_go" ≡ false
unfolding should_reject_wide_stop
accepts_far_gap = refl

compute_stop_buffer-bounds_example :
    (250 * 10 ≤ compute_stop_buffer 10 bars 0 9 35)
    × (compute_stop_buffer 10 bars 0 9 35 ≤ 1200 * 10)
compute_stop_buffer-bounds_example = compute_stop_buffer-bounds 10 bars 0 9 35

compute_stop_buffer-accepted_example :
    should_reject_wide_stop (compute_stop_buffer 10 bars 0 9 35) 10 "mean_reversion" ≡ false
compute_stop_buffer-accepted_example = compute_stop_buffer-accepted 10 bars 0 9 35 "mean_reversion"
