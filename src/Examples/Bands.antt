-- ===== src/Examples/Bands.antt =====
-- ABI files of two hours, one of which cannot be listed.
use tiles_processor.Base.{
  List, [], ◌∷◌, some, Text, codes, file_not_found, Result, return, raise, text_eq, if◌then◌else◌,
}
use tiles_processor.Producer.Discovery.{DiscoveryConfig}
use tiles_processor.Sources.Abi.{AbiSource, new_source, discover_images}
use tiles_processor.Sources.Abi.Latest.{IsLatest, discover_images-IsLatest}

abbrev tick : DiscoveryConfig
tick = record {
  current_time = 36000000000;
  existing_tilesets = [];
  in_progress_images = [];
  bounds = [];
}

abbrev band : AbiSource
band =
    new_source
      (record {
        band_id = codes "c13";
        file_pattern = codes "C13";
        s3_tiles_prefix = codes "tiles/c13";
      })
      (some 1) (some 1)

abbrev abi_files : (directory_path : Text) (file_pattern : Text) → Result (List Text)
abi_files directory_path file_pattern =
    if text_eq directory_path (codes "ABI-L1b-RadF/a")
    then return (codes "a/C13_s20260600000000_e.nc" ∷ [])
    else raise (record { kind = file_not_found; message = [] })

discover_images-IsLatest_example :
    IsLatest band
      (λ time. codes "a")
      abi_files
      tick
      (discover_images band (λ time. codes "a") abi_files tick)
discover_images-IsLatest_example = discover_images-IsLatest band (λ time. codes "a") abi_files tick
