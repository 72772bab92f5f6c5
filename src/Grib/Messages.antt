-- ===== src/Grib/Messages.antt =====
-- Which files scan_grib takes for whole.
use tiles_processor.Base.{
  ℕ, zero, suc, ◌+◌, ◌-◌, ◌≤◌, ◌<◌, ◌≡◌, ◌≢◌, inl, inr, refl, ap, sym, ◌∙◌, subst, true, false, [],
  ◌∷◌, Text, arith, ltb, ◌==◌, length, take, drop, length-drop, Bool-cases,
}
use tiles_processor.Grib.{GribScan, message_length, is_header, walk, scan_grib}

-- `bytes` is `n` messages on end: each starts with a header, and is as long as its header says.
abbrev pub Messages : (n : ℕ) (bytes : Text) → Type 0
Messages zero bytes = bytes ≡ []
Messages (suc n) bytes =
    (is_header (take 16 bytes) ≡ true)
    × (message_length (take 16 bytes) ≤ length bytes)
    × Messages n (drop (message_length (take 16 bytes)) bytes)

-- What a scan found, from an offset that it reached after `count` messages.
pub record IsScan (left : Text) (count : ℕ) (scan : GribScan) : Type 0 where
  pub whole : scan.ends_at_eof ≡ true → (n : ℕ) × Messages n left × (scan.message_count ≡ count + n)
  pub found :
      (n : ℕ) → Messages n left → (scan.ends_at_eof ≡ true) × (scan.message_count ≡ count + n)

drop-nil : (n : ℕ) → drop {A = ℕ} n [] ≡ []
drop-nil zero = refl
drop-nil (suc n) = refl

drop-drop : (m n : ℕ) (s : Text) → drop m (drop n s) ≡ drop (n + m) s
drop-drop m zero s = ap (λ k. drop k s) (omega arith)
drop-drop m (suc n) [] = drop-nil m ∙ sym (drop-nil (suc n + m))
drop-drop m (suc n) (c ∷ s) =
    let shift : suc (n + m) ≡ suc n + m = omega arith in
    drop-drop m n s ∙ ap (λ k. drop k (c ∷ s)) shift

drop-all : (n : ℕ) (s : Text) → length s ≤ n → drop n s ≡ []
drop-all zero [] h = refl
drop-all zero (c ∷ s) h = absurd (omega arith)
drop-all (suc n) [] h = refl
drop-all (suc n) (c ∷ s) h = drop-all n s (omega (arith, h))

is_header-positive : (header : Text) → is_header header ≡ true → 0 < message_length header
unfolding is_header
is_header-positive header h = ground (arith, h)

no_header : is_header (take 16 []) ≡ false
unfolding is_header
no_header = refl

at_end :
    (left : Text) (count : ℕ)
    → left ≡ []
    → IsScan left count (record { message_count = count; ends_at_eof = true })
at_end left count e = record { whole = λ _. (0, e, omega arith); found = counts }
  where
    counts : (n : ℕ) → Messages n left → (true ≡ true) × (count ≡ count + n)
    counts zero h = (refl, omega arith)
    counts (suc n) h =
        absurd (ground (arith, no_header, sym (ap (λ s. is_header (take 16 s)) e) ∙ h.0))

not_messages :
    (left : Text) (count : ℕ)
    → ((n : ℕ) → ¬ Messages n left)
    → IsScan left count (record { message_count = count; ends_at_eof = false })
not_messages left count none_at_all = record {
  whole = λ h. absurd (ground (arith, h));
  found = λ n h. absurd (none_at_all n h);
}

bad_header :
    (left : Text) → left ≢ [] → is_header (take 16 left) ≡ false → (n : ℕ) → ¬ Messages n left
bad_header left k h zero e = k e
bad_header left k h (suc n) m = ground (arith, h, m.0)

overrun :
    (left : Text)
    → left ≢ []
    → length left < message_length (take 16 left)
    → (n : ℕ) → ¬ Messages n left
overrun left k h zero e = k e
overrun left k h (suc n) m = omega (arith, h, m.1)

one_more :
    (left : Text) (count : ℕ) (scan : GribScan)
    → left ≢ []
    → is_header (take 16 left) ≡ true
    → message_length (take 16 left) ≤ length left
    → IsScan (drop (message_length (take 16 left)) left) (count + 1) scan
    → IsScan left count scan
one_more left count scan k h fits rest = record {
  whole = λ e. let (n, m, c) = rest.whole e in (suc n, (h, fits, m), omega (arith, c));
  found = counts;
}
  where
    counts :
        (n : ℕ) → Messages n left → (scan.ends_at_eof ≡ true) × (scan.message_count ≡ count + n)
    counts zero e = absurd (k e)
    counts (suc n) m = let (e, c) = rest.found n m.2 in (e, omega (arith, c))

walk-IsScan :
    (fuel : ℕ) (bytes : Text) (offset count : ℕ)
    → length bytes ≤ offset + fuel
    → offset ≤ length bytes
    → IsScan (drop offset bytes) count (walk fuel bytes offset count)
unfolding walk
walk-IsScan zero bytes offset count h k =
    let same : (offset == length bytes) ≡ true = ground (arith, h, k) in
    rw same (at_end (drop offset bytes) count (drop-all offset bytes (omega (arith, h))))
walk-IsScan (suc fuel) bytes offset count h k =
    let left = drop offset bytes in
    let next = offset + message_length (take 16 left) in
    let left_length : length left ≡ length bytes - offset = length-drop offset bytes in
    elim (Bool-cases (ltb offset (length bytes))) [
      | inr end ↦
          let same : (offset == length bytes) ≡ true = ground (arith, end, k) in
          rw (end, same) (at_end left count (drop-all offset bytes (ground (arith, end))))
      | inl more ↦
          let inside : offset < length bytes = ground (arith, more) in
          let apart : (offset == length bytes) ≡ false = ground (arith, more) in
          let some_left : left ≢ [] = λ e. omega (arith, left_length, ap length e, inside) in
          elim (Bool-cases (is_header (take 16 left))) [
            | inr bad ↦
                rw (more, bad, apart) (not_messages left count (bad_header left some_left bad))
            | inl good ↦ elim (Bool-cases (ltb (length bytes) next)) [
              | inl over ↦
                  let miss : (next == length bytes) ≡ false = ground (arith, over) in
                  rw (more, good, over, miss)
                    (not_messages left count
                      (overrun left some_left (ground (arith, over, left_length))))
              | inr fits ↦
                  rw (more, good, fits)
                    (one_more left count (walk fuel bytes next (count + 1)) some_left good
                      (ground (arith, fits, left_length, k))
                      (subst (λ l. IsScan l (count + 1) (walk fuel bytes next (count + 1)))
                        (sym (drop-drop (message_length (take 16 left)) offset bytes))
                        (walk-IsScan fuel bytes next (count + 1)
                          (omega (arith, h, is_header-positive (take 16 left) good))
                          (ground (arith, fits)))))
            ]
          ]
    ]

-- A scan ends at the end of the file and counts `n` messages exactly if the file is `n` messages on end.
pub scan_grib-Messages : (bytes : Text) → IsScan bytes 0 (scan_grib bytes)
unfolding scan_grib
scan_grib-Messages bytes = walk-IsScan (length bytes) bytes 0 0 (omega arith) (omega arith)
