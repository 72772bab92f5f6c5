-- ===== src/Grib.antt =====
-- src/services/gfs_grib_validation.py. A file is its bytes on a disk of Store; logging is left out.
pub mod Messages
pub mod Verdict
pub mod Backends
use tiles_processor.Base.{
  ℕ, zero, suc, ◌+◌, ◌*◌, Bool, false, not, ◌&&◌, ◌||◌, List, [], ◌∷◌, Option, none, some, Text,
  codes, text_eq, ltb, ◌==◌, if◌then◌else◌, length, take, drop, Exec, Result, Exception, Kind,
  file_not_found, transient_download, invalid_grib_response, pure, throw, lift, gets, modify,
  branch, return, raise, ◌>>=◌, ◌>>◌,
}
use tiles_processor.Store.Client.{Disk, written}

abbrev pub grib_magic : Text
grib_magic = codes "GRIB"

-- GFS_EXPECTED_MESSAGE_COUNT of src/models/gfs_config.py.
abbrev pub expected_message_count : ℕ
expected_message_count = 13

pub record GribScan : Type 0 where
  pub message_count : ℕ
  pub ends_at_eof : Bool

-- `int.from_bytes(bytes, "big")`, after the number that the bytes before give.
unfoldable pub from_bytes : (high : ℕ) → (bytes : List ℕ) → ℕ
from_bytes high [] = high
from_bytes high (b ∷ bytes) = from_bytes (high * 256 + b) bytes

abbrev pub message_length : (header : Text) → ℕ
message_length header = from_bytes 0 (drop 8 header)

-- Whether a header of 16 bytes was read, with the magic bytes in front and a length.
unfoldable pub is_header : (header : Text) → Bool
unfolding from_bytes
is_header header =
    not (ltb (length header) 16)
    && (text_eq (take 4 header) grib_magic && ltb 0 (message_length header))

-- The `while` loop, by fuel: each round moves the offset on.
unfoldable pub walk : (fuel : ℕ) → (bytes : Text) → (offset count : ℕ) → GribScan
unfolding is_header
walk zero bytes offset count = record {
  message_count = count;
  ends_at_eof = offset == length bytes;
}
walk (suc fuel) bytes offset count =
    let header = take 16 (drop offset bytes) in
    let next = offset + message_length header in
    let rest = walk fuel bytes next (count + 1) in
    if not (ltb offset (length bytes))
    then record { message_count = count; ends_at_eof = offset == length bytes }
    else if not (is_header header)
    then record { message_count = count; ends_at_eof = offset == length bytes }
    else if ltb (length bytes) next
    then record { message_count = count; ends_at_eof = next == length bytes }
    else rest

unfoldable pub scan_grib : (bytes : Text) → GribScan
unfolding walk
scan_grib bytes = walk (length bytes) bytes 0 0

abbrev pub grib_error : Kind → Exception
grib_error kind = record { kind = kind; message = codes "GRIB" }

-- `open(path, "rb")` and a read of all.
abbrev pub opened : Option Text → Result Text
opened none = raise (grib_error file_not_found)
opened (some bytes) = return bytes

abbrev pub read_file : (path : Text) → Exec Disk Text
read_file path disk = (opened (disk path), disk)

-- `path.unlink(missing_ok=True)`
abbrev pub unlink : (path : Text) → Exec Disk Unit
unlink path = modify (written path none)

unfoldable pub assert_is_grib : (target : Text) → Exec Disk Unit
assert_is_grib target = do
  bytes ← read_file target
  branch (text_eq (take 4 bytes) grib_magic) (pure tt)
      (unlink target >> throw (grib_error invalid_grib_response))

unfoldable pub assert_message_count : (target : Text) → Exec Disk Unit
unfolding scan_grib
assert_message_count target = do
  bytes ← read_file target
  let scan = scan_grib bytes
  branch (scan.ends_at_eof && scan.message_count == expected_message_count) (pure tt) (
      unlink target
      >> throw
          (grib_error (if not scan.ends_at_eof then transient_download else invalid_grib_response)))

unfoldable pub validate_gfs_grib : (target : Text) → Exec Disk Unit
unfolding assert_is_grib assert_message_count
validate_gfs_grib target = assert_is_grib target >> assert_message_count target
