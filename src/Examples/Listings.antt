-- ===== src/Examples/Listings.antt =====
-- Listings of radar buckets.
use tiles_processor.Base.{
  ℕ, ◌≡◌, ◌≢◌, refl, subst, Bool, false, [], ◌∷◌, none, some, Text, codes, All, Exception, return,
  return-eq-return,
}
use tiles_processor.Store.Client.{concat}
use tiles_processor.Store.Client.Aws.{Gateway}
use tiles_processor.Sources.Lister.Template.{ListingWindow}
use tiles_processor.Sources.Lister.{ListerConfig, Lister, list_keys, resolve}
use tiles_processor.Sources.Lister.Stars.{stars, IsPlain}
use tiles_processor.Sources.Lister.Wildcards.{NoStars, at_step}
use tiles_processor.Sources.Lister.Ending.{list_keys-Ends}
use tiles_processor.Sources.Lister.Spins.{starred, resolve-spins}
use tiles_processor.Examples.Stores.{bucket}

abbrev radars : Gateway
radars = record bucket { common_prefixes = λ p d n. (return ((codes "in/RMA1/" ∷ []) ∷ []), n) }

abbrev star_folder : Gateway
star_folder = record bucket { common_prefixes = λ p d n. (return ((codes "in/*/" ∷ []) ∷ []), n) }

abbrev none_caught : Exception → Bool
none_caught e = false

abbrev by_hour : (template : Text) → (moment : ℕ) → Text
by_hour template moment = template

abbrev cfg : ListerConfig
cfg = record {
  prefix = codes "in";
  key_template = some (codes "*/{HH}/");
  key_suffixes = codes ".h5" ∷ [];
}

abbrev two_hours : ListingWindow
two_hours = record { start = 5000000000; end = 8000000000 }

abbrev lister : (g : Gateway) → g.World → Lister g
lister g w = record {
  client = record { world = w; disk = λ p. none };
  cached_window = none;
  cached_keys = [];
}

radars-NoStars : NoStars radars none_caught by_hour cfg
unfolding stars concat
radars-NoStars prefix w pages h =
    subst (λ ps. All IsPlain (concat ps)) (return-eq-return h) (refl, tt)

list_keys-Ends_example :
    (fuel : ℕ) × ((list_keys radars none_caught by_hour cfg fuel
        (some two_hours)
        (lister radars 0)).0
      ≢ return none)
list_keys-Ends_example =
    list_keys-Ends radars none_caught by_hour cfg two_hours (lister radars 0) radars-NoStars

in_folder-IsPlain : IsPlain (codes "in/")
unfolding stars
in_folder-IsPlain = refl

resolve-spins_example :
    (resolve star_folder none_caught by_hour cfg 1000
      (at_step star_folder none_caught by_hour cfg (starred (codes "in/") ∷ []) [] [])
      (lister star_folder 0).client).0
    ≡ return none
resolve-spins_example =
    resolve-spins star_folder none_caught by_hour cfg (codes "in/") [] (lister star_folder 0).client
      0 in_folder-IsPlain refl 1000
