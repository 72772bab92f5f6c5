-- ===== src/Examples/Trackers.antt =====
-- Tables of one image.
use tiles_processor.Base.{◌≡◌, refl, false, [], ◌∷◌, none, some, codes, arith, ◌&&◌, text_eq}
use tiles_processor.Tracker.{Row, cleanup_stale, has_key}
use tiles_processor.Tracker.Keys.{find, find-nil, IsKeyed}
use tiles_processor.Tracker.Lookup.{cleans, starts, apply, row_after, run, find-apply}
use tiles_processor.Tracker.Reclaim.{cleanup_stale-recovers}
use tiles_processor.Examples.Data.{image, band, queued, busy, table}

one_row : (r : Row) → IsKeyed (r ∷ [])
one_row r = (find-nil r.image_id r.band_id, tt)

find-queued : find image band (table queued).rows ≡ some queued
unfolding find has_key text_eq
find-queued = refl

find-busy : find image band (table busy).rows ≡ some busy
unfolding find has_key text_eq
find-busy = refl

another_image : text_eq (codes "b.nc") image && text_eq band band ≡ false
unfolding text_eq
another_image = refl

find-apply_example :
    find image band (apply (starts 9 image band) (table queued)).rows
    ≡ row_after
        (table queued)
        (starts 9 image band)
        image
        band
        (find image band (table queued).rows)
find-apply_example = find-apply (table queued) (starts 9 image band) image band (one_row queued)

cleanup_stale-recovers_example :
    find image band (cleanup_stale 99 (run (table busy) (cleans 8 ∷ []))).rows ≡ none
cleanup_stale-recovers_example =
    cleanup_stale-recovers image band busy (table busy) (cleans 8 ∷ []) 99 (one_row busy) find-busy
      refl (tt, tt) (omega arith)
