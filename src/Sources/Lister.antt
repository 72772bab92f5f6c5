-- ===== src/Sources/Lister.antt =====
-- src/data_sources/s3_windowed_lister.py: S3WindowedKeyLister over the store's client. `caught` tells
-- the exceptions that it handles (BotoCoreError, ClientError, OSError). The listings that it gathers
-- run here one after the other. Letters are ASCII. A dictionary is the list of its entries.
pub mod Template
pub mod Stars
pub mod Wildcards
pub mod Ending
pub mod Spins
pub mod Partitions
pub mod Cache
use mathlib.Core.List.{reverse}
use tiles_processor.Base.{
  ℕ, zero, suc, ◌+◌, Bool, true, false, ◌&&◌, ◌||◌, List, [], ◌∷◌, ◌++◌, map, Option, none, some,
  Text, codes, text_eq, leb, ◌==◌, if◌then◌else◌, keep, text_leb, sort_by, Exec, Exception, Result,
  return, raise, pure, throw, lift, gets, modify, branch, try_except, and_then, ◌>>=◌, ◌>>◌,
}
use tiles_processor.Store.Client.{S3Client, Client, list_files, list_prefixes, ends_with}
use tiles_processor.Store.Client.Aws.{Gateway}
use Template.{ListingWindow, same_window, lstrip_slash, join_s3_prefix, expand_time_prefixes}

abbrev pub lower : Text → Text
lower = map (λ c. if leb b'A' c && leb c b'Z' then c + 32 else c)

-- `k.lower().endswith(suffixes)`
unfoldable pub ends_with_any : Text → (suffixes : List Text) → Bool
ends_with_any key [] = false
ends_with_any key (suffix ∷ suffixes) = ends_with key suffix || ends_with_any key suffixes

unfoldable pub keep_input_files : (suffixes keys : List Text) → List Text
unfolding ends_with_any
keep_input_files suffixes keys =
    sort_by text_leb (keep (λ k. ends_with_any (lower k) suffixes) keys)

-- `prefix.partition("*")`: the head, and the tail if there is a star.
abbrev pub further : ℕ → Text × Option Text → Text × Option Text
further c (head, tail) = (c ∷ head, tail)

unfoldable pub partition : Text → Text × Option Text
partition [] = ([], none)
partition (c ∷ s) = if c == b'*' then ([], some s) else further c (partition s)

unfoldable pub children_of : (head : Text) → List (Text × List Text) → Option (List Text)
children_of head [] = none
children_of head ((h, found) ∷ children) =
    if text_eq h head then some found else children_of head children

-- The `while` of _resolve_wildcards has read so much; `pending` is a stack, its top first.
pub record Resolving : Type 0 where
  pub pending : List Text
  pub resolved : List Text
  pub children : List (Text × List Text)

abbrev pub push_children : (found : List Text) (tail : Text) → (pending : List Text) → List Text
push_children found tail pending =
    reverse (map (λ child. child ++ lstrip_slash tail) found) ++ pending

pub record ListerConfig : Type 0 where
  pub prefix : Text
  pub key_template : Option Text
  pub key_suffixes : List Text

pub record Lister (g : Gateway) : Type 0 where
  pub client : Client g
  pub cached_window : Option ListingWindow
  pub cached_keys : List Text

module _ (g : Gateway) (caught : Exception → Bool) (fill : (template : Text) → (moment : ℕ) → Text)
    (cfg : ListerConfig) where
  open cfg use {prefix, key_template, key_suffixes}

  pub children_at :
      (head : Text)
      → List (Text × List Text)
      → Exec (Client g) (List Text × List (Text × List Text))
  children_at head children = elim (children_of head children) [
    | some found ↦ pure (found, children)
    | none ↦ (do
      found ← list_prefixes g head (codes "/")
      pure (found, children ++ (head, found) ∷ []))
  ]

  -- What the loop body does with the prefix that it popped.
  pub resolve_one : (popped : Text) → Resolving → Exec (Client g) Resolving
  unfolding children_at
  resolve_one popped r =
      let (head, star) = partition popped in
      elim star [
        | none ↦ pure (record r { resolved = r.resolved ++ popped ∷ [] })
        | some tail ↦ (do
          at ← children_at head r.children
          pure (record r { pending = push_children at.0 tail r.pending; children = at.1 }))
      ]

  -- By fuel; `none` if it runs out.
  pub resolve : (fuel : ℕ) → Resolving → Exec (Client g) (Option (List Text))
  resolve zero r = pure none
  resolve (suc fuel) r = elim r.pending [
    | [] ↦ pure (some (sort_by text_leb r.resolved))
    | popped ∷ pending ↦ (do
      next ← resolve_one popped (record r { pending = pending })
      resolve fuel next)
  ]

  pub list_all : Exec (Client g) (List Text)
  list_all = do keys ← list_files g prefix []; pure (keep_input_files key_suffixes keys)

  pub list_each : (prefixes : List Text) → Exec (Client g) (List Text)
  list_each [] = pure []
  list_each (p ∷ prefixes) = do
    keys ← list_files g p []
    more ← list_each prefixes
    pure (keys ++ more)

  abbrev pub pending_of : (template : Text) → ListingWindow → Resolving
  pending_of template window = record {
    pending = reverse (map (join_s3_prefix prefix) (expand_time_prefixes fill template window));
    resolved = [];
    children = [];
  }

  pub list_partitions :
      (fuel : ℕ) (template : Text) → ListingWindow → Exec (Client g) (Option (List Text))
  unfolding resolve list_each
  list_partitions fuel template window = do
    prefixes ← resolve fuel (pending_of template window)
    elim prefixes [
      | none ↦ pure none
      | some ps ↦ (do keys ← list_each ps; pure (some (keep_input_files key_suffixes keys)))
    ]

  abbrev pub whole_prefix : Exec (Client g) (Option (List Text))
  whole_prefix = do keys ← list_all; pure (some keys)

  -- What follows the listing of the partitions: its keys, or else the whole prefix.
  abbrev pub or_whole : Result (Option (List Text)) → Exec (Client g) (Option (List Text))
  or_whole (return none) = pure none
  or_whole (return (some [])) = whole_prefix
  or_whole (return (some (key ∷ keys))) = pure (some (key ∷ keys))
  or_whole (raise e) = branch (caught e) whole_prefix (throw e)

  pub list_window : (fuel : ℕ) → ListingWindow → Exec (Client g) (Option (List Text))
  unfolding list_all list_partitions
  list_window fuel window c = elim key_template [
    | none ↦ whole_prefix c
    | some template ↦ let (r, d) = list_partitions fuel template window c in or_whole r d
  ]

  abbrev pub on_client : {A : Type 0} → Exec (Client g) A → Exec (Lister g) A
  on_client m s = let (r, c) = m s.client in (r, record s { client = c })

  abbrev pub is_cached : ListingWindow → Option ListingWindow → Bool
  is_cached window none = false
  is_cached window (some cached) = same_window window cached

  abbrev pub remember : ListingWindow → Option (List Text) → Exec (Lister g) (Option (List Text))
  remember window none = pure none
  remember window (some keys) = do
    modify (λ s. record s { cached_window = some window; cached_keys = keys })
    pure (some keys)

  unfoldable pub list_keys :
      (fuel : ℕ) → Option ListingWindow → Exec (Lister g) (Option (List Text))
  unfolding list_all list_window
  list_keys fuel none s = on_client whole_prefix s
  list_keys fuel (some window) s =
      branch (is_cached window s.cached_window) (gets (λ t. some t.cached_keys))
        (do found ← on_client (list_window fuel window); remember window found) s
