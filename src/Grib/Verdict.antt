-- ===== src/Grib/Verdict.antt =====
-- What the validation of a GRIB file leaves.
use tiles_processor.Base.{
  ℕ, zero, suc, ◌≤◌, [], ◌∷◌, ◌≡◌, ◌≢◌, ◌⊎◌, inl, inr, refl, ap, sym, ◌∙◌, subst, true, some, none,
  Text, text_eq, text_eq_iff, arith, ◌==◌, take, Bool-cases, Kind, Result, return, raise,
  transient_download, invalid_grib_response,
}
use tiles_processor.Store.Client.{Disk, written}
use tiles_processor.Grib.{
  grib_magic, expected_message_count, is_header, scan_grib, assert_is_grib, assert_message_count,
  validate_gfs_grib,
}
use tiles_processor.Grib.Messages.{Messages, scan_grib-Messages}

-- Why a file is refused: it can be had whole another time, or it is not what the products need.
abbrev pub Refused : (bytes : Text) → Kind → Type 0
Refused bytes kind =
    ((kind ≡ transient_download) × (take 4 bytes ≡ grib_magic) × ((n : ℕ) → ¬ Messages n bytes))
    ⊎ ((kind ≡ invalid_grib_response)
        × ((take 4 bytes ≢ grib_magic)
            ⊎ ((n : ℕ) × Messages n bytes × (n ≢ expected_message_count))))

abbrev pub Judged : (target : Text) (disk : Disk) (bytes : Text) → Result Unit × Disk → Type 0
Judged target disk bytes (return _, d) = Messages expected_message_count bytes × (d ≡ disk)
Judged target disk bytes (raise e, d) = Refused bytes e.kind × (d ≡ written target none disk)

take-take : (m n : ℕ) (s : Text) → m ≤ n → take m (take n s) ≡ take m s
take-take zero n s h = refl
take-take (suc m) zero s h = absurd (omega arith)
take-take (suc m) (suc n) [] h = refl
take-take (suc m) (suc n) (c ∷ s) h = ap (λ t. c ∷ t) (take-take m n s (omega (arith, h)))

is_header-magic : (bytes : Text) → is_header (take 16 bytes) ≡ true → take 4 bytes ≡ grib_magic
unfolding is_header
is_header-magic bytes h =
    sym (take-take 4 16 bytes (omega arith))
    ∙ (text_eq_iff (take 4 (take 16 bytes)) grib_magic).0 (ground (arith, h))

module _ (target : Text) (disk : Disk) (bytes : Text) (there : disk target ≡ some bytes) where
  counted : take 4 bytes ≡ grib_magic → Judged target disk bytes (assert_message_count target disk)
  unfolding assert_message_count
  counted magic =
      let scan = scan_grib bytes in
      let messages = scan_grib-Messages bytes in
      elim (Bool-cases scan.ends_at_eof) [
        | inr cut ↦
            rw (there, cut)
              (inl (refl, magic, λ n h. ground (arith, cut, (messages.found n h).0)), refl)
        | inl whole ↦
            let (n, m, c) = messages.whole whole in
            let count : scan.message_count ≡ n = omega (arith, c) in
            elim (Bool-cases (scan.message_count == expected_message_count)) [
              | inl all ↦
                  let e : n ≡ expected_message_count = ground (arith, all, count) in
                  rw (there, whole, all) (subst (λ k. Messages k bytes) e m, refl)
              | inr other ↦
                  rw (there, whole, other)
                    (inr (refl, inr (n, m, λ e. ground (arith, other, count, e))), refl)
            ]
      ]

  -- A file that is the expected number of messages on end passes and stays as it is. Any other file is
  -- removed, and the exception says why: to be tried again if it starts like a GRIB file but is not a number of whole
  -- messages, for good if it does not start like one or is another number of them.
  pub validate_gfs_grib-Judged :
      Judged target disk bytes (validate_gfs_grib target disk)
      × (Messages expected_message_count bytes → validate_gfs_grib target disk ≡ (return tt, disk))
  unfolding validate_gfs_grib assert_is_grib assert_message_count
  validate_gfs_grib-Judged = (
    elim (Bool-cases (text_eq (take 4 bytes) grib_magic)) [
      | inl magic ↦ rw (there, magic) (counted ((text_eq_iff (take 4 bytes) grib_magic).0 magic))
      | inr other ↦
          rw (there, other)
            (
              inr (
                refl,
                inl (λ e. ground (arith, other, text_eq_iff (take 4 bytes) grib_magic, e)),
              ),
              refl,
            )
    ],
    λ m.
        let magic : text_eq (take 4 bytes) grib_magic ≡ true =
          (text_eq_iff (take 4 bytes) grib_magic).1 (is_header-magic bytes m.0) in
        let (whole, c) = (scan_grib-Messages bytes).found expected_message_count m in
        let count : ((scan_grib bytes).message_count == expected_message_count) ≡ true =
          ground (arith, c) in
        rw (there, magic, there, whole, count) refl,
  )
