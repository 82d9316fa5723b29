-- ===== src/Events/Closing/Samples.antt =====
-- A Close while a connect waits for its acknowledgement.
use webull.Common.{◌≡◌, refl, ◌⊎◌, false, none, [], ◌++◌}
use webull.Events.Closing.{
  Shared, subscribing, dial, publish, cancel, close, cancels, closes, dials, Reach, here, next,
}
use webull.Events.Closing.Leaks.{held, Reach-IsReleased}

abbrev racing : Shared
racing = close (cancel (dial subscribing))

racing-Reach : Reach subscribing racing
unfolding dial cancel
racing-Reach =
    next (next (next here (dials subscribing refl refl)) (cancels (dial subscribing)))
      (closes (cancel (dial subscribing)) refl)

Reach-IsReleased_example :
    ((racing.conn ≡ none) ⊎ (racing.dialing ≡ none))
    × (racing.opened ≡ held racing.conn ++ held racing.dialing)
    × ((racing.closed ≡ false)
        ⊎ ((racing.opened ≡ held racing.dialing)
            × ((publish racing).opened ≡ [])
            × ((publish racing).conn ≡ none)))
Reach-IsReleased_example = Reach-IsReleased racing-Reach
