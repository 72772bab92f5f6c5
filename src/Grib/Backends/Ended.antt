-- ===== src/Grib/Backends/Ended.antt =====
-- What a fetch leaves that ends with the validation of its file.
use tiles_processor.Base.{
  ◌≡◌, ◌⊎◌, inl, inr, refl, ap, ◌∙◌, some, Text, Exception, Kind, Result, return, raise, pure,
  and_then, ◌>>◌, forecast_not_available, transient_download, invalid_grib_response,
}
use tiles_processor.Store.Client.{Client, Disk}
use tiles_processor.Store.Client.Aws.{Gateway}
use tiles_processor.Grib.{expected_message_count, validate_gfs_grib}
use tiles_processor.Grib.Messages.{Messages}
use tiles_processor.Grib.Verdict.{Judged, validate_gfs_grib-Judged}
use tiles_processor.Grib.Backends.{Formats, grib_suffix, on_disk}

-- `dest.with_suffix(".grib2")`
abbrev pub target_of : Formats → (dest : Text) → Text
target_of f dest = f.with_suffix dest grib_suffix

module _ (f : Formats) (g : Gateway) where
  -- The exceptions of the interface: nothing was touched, or the file was refused or broke off.
  abbrev pub Declared : (c d : Client g) → Kind → Type 0
  Declared c d kind =
      ((kind ≡ forecast_not_available) × (d.disk ≡ c.disk))
      ⊎ ((kind ≡ transient_download) ⊎ (kind ≡ invalid_grib_response))

  -- A fetch that returns left the expected messages at `target`; `Other` holds of an exception beyond the interface's.
  abbrev pub Fetched :
      (Other : Exception → Type 0) (target : Text) (c : Client g) → Result Text × Client g → Type 0
  Fetched Other target c (return path, d) =
      (path ≡ target)
      × ((bytes : Text) × (d.disk target ≡ some bytes) × Messages expected_message_count bytes)
  Fetched Other target c (raise e, d) = Declared c d e.kind ⊎ Other e

  judged :
      (Other : Exception → Type 0) (target : Text) (c d : Client g) (bytes : Text)
      (out : Result Unit × Disk)
      → d.disk target ≡ some bytes
      → Judged target d.disk bytes out
      → Fetched Other target c (and_then out.0 (λ _. pure target) (record d { disk = out.1 }))
  judged Other target c d bytes (return _, disk) there (m, same) =
      (refl, (bytes, ap (λ k. k target) same ∙ there, m))
  judged Other target c d bytes (raise e, disk) there (inl (k, _, _), _) = inl (inr (inl k))
  judged Other target c d bytes (raise e, disk) there (inr (k, _), _) = inl (inr (inr k))

  pub validated :
      (Other : Exception → Type 0) (target : Text) (c d : Client g) (bytes : Text)
      → d.disk target ≡ some bytes
      → Fetched Other target c ((on_disk f g (validate_gfs_grib target) >> pure target) d)
  validated Other target c d bytes there =
      judged Other target c d bytes (validate_gfs_grib target d.disk) there
        (validate_gfs_grib-Judged target d.disk bytes there).0
