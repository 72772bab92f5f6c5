-- ===== src/Tracker.antt =====
-- src/clients/progress_tracker.py: the table `processed_images` of the images that are queued or
-- being processed, with the primary key that migrations/progress gives it. A time is a number of
-- microseconds; the code compares the ISO texts of UTC times, which sort alike.
pub mod Keys
pub mod Lookup
pub mod Reclaim
use tiles_processor.Base.{
  ℕ, ◌-◌, Bool, true, false, not, ◌&&◌, List, [], ◌∷◌, ◌++◌, map, Option, none, some, Text, text_eq,
  ltb, if◌then◌else◌, length, keep,
}

pub data Status : Type 0 where
  in_progress processing : Status

pub record Row : Type 0 where
  pub image_id : Text
  pub band_id : Text
  pub status : Status
  pub created_at : ℕ
  pub updated_at : ℕ

-- The rows of the table, and the time that an entry may stay untouched.
pub record ProgressTracker : Type 0 where
  pub ttl : ℕ
  pub rows : List Row

-- `WHERE image_id = ? AND band_id = ?`
unfoldable pub has_key : (image_id band_id : Text) → Row → Bool
has_key image_id band_id r = text_eq r.image_id image_id && text_eq r.band_id band_id

abbrev pub is_status : Status → Status → Bool
is_status in_progress in_progress = true
is_status processing processing = true
is_status _ _ = false

-- `WHERE status = ? AND updated_at < ?`
abbrev pub is_stale : Status → (cutoff : ℕ) → Row → Bool
is_stale s cutoff r = is_status r.status s && ltb r.updated_at cutoff

abbrev pub delete : (Row → Bool) → List Row → List Row
delete p rows = keep (λ r. not (p r)) rows

unfoldable pub cleanup_stale : (now : ℕ) → ProgressTracker → ProgressTracker
cleanup_stale now t = record t { rows = delete (is_stale processing (now - t.ttl)) t.rows }

abbrev pub grace : Option ℕ → ProgressTracker → ℕ
grace none t = t.ttl
grace (some older_than) t = older_than

-- The new table and the number of rows deleted.
unfoldable pub reclaim_orphan_in_progress :
    (now : ℕ) → Option ℕ → ProgressTracker → ProgressTracker × ℕ
reclaim_orphan_in_progress now older_than t =
    let rest = delete (is_stale in_progress (now - grace older_than t)) t.rows in
    (record t { rows = rest }, length t.rows - length rest)

abbrev pub fresh : (now : ℕ) (image_id band_id : Text) → Row
fresh now image_id band_id = record {
  image_id = image_id;
  band_id = band_id;
  status = in_progress;
  created_at = now;
  updated_at = now;
}

-- `INSERT OR REPLACE`: the row with the same key goes first.
unfoldable pub mark_in_progress :
    (now : ℕ) (image_id band_id : Text) → ProgressTracker → ProgressTracker
unfolding has_key
mark_in_progress now image_id band_id t = record t {
  rows = delete (has_key image_id band_id) t.rows ++ fresh now image_id band_id ∷ [];
}

abbrev pub touch : (now : ℕ) (image_id band_id : Text) → Row → Row
touch now image_id band_id r =
    if has_key image_id band_id r then record r { status = processing; updated_at = now } else r

unfoldable pub mark_processing :
    (now : ℕ) (image_id band_id : Text) → ProgressTracker → ProgressTracker
unfolding has_key
mark_processing now image_id band_id t = record t { rows = map (touch now image_id band_id) t.rows }

unfoldable pub mark_completed : (image_id band_id : Text) → ProgressTracker → ProgressTracker
unfolding has_key
mark_completed image_id band_id t = record t { rows = delete (has_key image_id band_id) t.rows }

unfoldable pub get_in_progress_images : (band_id : Text) → ProgressTracker → List Text
get_in_progress_images band_id t =
    map (λ r. r.image_id) (keep (λ r. text_eq r.band_id band_id) t.rows)

unfoldable pub clear_all : ProgressTracker → ProgressTracker
clear_all t = record t { rows = [] }
