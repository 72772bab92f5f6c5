-- ===== src/Sources/Lister/Cache.antt =====
-- The cache of the newest window.
use tiles_processor.Base.{
  ℕ, ◌≡◌, Bool, List, Option, none, some, Text, Exception, Result, return, raise,
}
use tiles_processor.Store.Client.Aws.{Gateway}
use tiles_processor.Sources.Lister.Template.{ListingWindow}
use tiles_processor.Sources.Lister.{ListerConfig, Lister, list_keys}

module _ (g : Gateway) (caught : Exception → Bool) (fill : (template : Text) → (moment : ℕ) → Text)
    (cfg : ListerConfig) (fuel : ℕ) (w : ListingWindow) where
  -- What a call leaves for the next sources of the tick.
  abbrev pub Remembered : Lister g → Result (Option (List Text)) → Lister g → Type 0
  Remembered s (return (some keys)) t =
      list_keys g caught fill cfg fuel (some w) t ≡ (return (some keys), t)
  Remembered s (return none) t =
      (t.cached_window ≡ s.cached_window) × (t.cached_keys ≡ s.cached_keys)
  Remembered s (raise e) t = (t.cached_window ≡ s.cached_window) × (t.cached_keys ≡ s.cached_keys)
