-- ===== src/Producer/Tilesets.antt =====
-- The tilesets that already exist, read from the object store's prefixes. A set is a list of its
-- elements. A failed listing ends the walk, and what was gathered before it stays.
use mathlib.Core.List.{reverse}
use tiles_processor.Base.{
  ℕ, List, [], ◌∷◌, ◌++◌, Text, codes, ◌==◌, if◌then◌else◌, Exec, Result, lift, modify, pure, ◌>>=◌,
  ◌>>◌,
}

-- The text up to the first `sep`, over the text reversed, read back.
unfoldable pub until_sep : ℕ → (seen : Text) → Text → Text
until_sep sep seen [] = seen
until_sep sep seen (c ∷ s) = if c == sep then seen else until_sep sep (c ∷ seen) s

drop_slashes : Text → Text
drop_slashes [] = []
drop_slashes (c ∷ s) = if c == b'/' then drop_slashes s else c ∷ s

-- `prefix.rstrip("/").split("/")[-1]`
unfoldable pub last_segment : Text → Text
unfolding until_sep drop_slashes
last_segment prefix = until_sep b'/' [] (drop_slashes (reverse prefix))

abbrev pub Gather : Type 0
Gather = Exec (List Text) Unit

abbrev add : Text → Gather
add image_id = modify (λ found. found ++ image_id ∷ [])

-- `for x in xs: body(x)`
pub each : List Text → (Text → Gather) → Gather
each [] body = pure tt
each (x ∷ xs) body = do body x; each xs body

-- The `except Exception` that logs: the set that was gathered so far.
abbrev gathered : Gather → List Text
gathered walk = (walk []).1

-- `list_prefixes(prefix, delimiter="/")` of the object store is a parameter.
module _ (list_prefixes : Text → Result (List Text)) where
  abbrev listed : Text → (Text → Gather) → Gather
  listed prefix body = do found ← lift (list_prefixes prefix); each found body

  unfoldable pub get_existing_tilesets : (s3_prefix : Text) → List Text
  unfolding each
  get_existing_tilesets s3_prefix =
      gathered (listed (s3_prefix ++ codes "/") (λ p. add (last_segment p)))

  unfoldable pub get_wrf_existing_tilesets : (product_id : Text) → List Text
  unfolding each
  get_wrf_existing_tilesets product_id = gathered (
      listed (codes "tiles/wrf-arg4k/" ++ product_id ++ codes "/") (λ init_tag_prefix.
        listed init_tag_prefix (λ fxxx_prefix. add (
          product_id
          ++ codes "_"
          ++ last_segment init_tag_prefix
          ++ codes "_"
          ++ last_segment fxxx_prefix))))

  unfoldable pub get_radar_existing_tilesets : (product_id tiles_prefix : Text) → List Text
  unfolding each
  get_radar_existing_tilesets product_id tiles_prefix = gathered (
      listed (tiles_prefix ++ codes "/") (λ radar_id_prefix.
        listed (radar_id_prefix ++ product_id ++ codes "/") (λ elevation_prefix.
          listed elevation_prefix (λ timestamp_prefix. add (
            last_segment radar_id_prefix
            ++ codes "_"
            ++ product_id
            ++ codes "_"
            ++ last_segment timestamp_prefix)))))
