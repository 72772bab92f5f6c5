-- ===== src/Store/Client/Deletes.antt =====
-- Deleting a prefix: the batches, and what reaches the gateway.
use mathlib.Core.List.{append-nil, append_assoc}
use tiles_processor.Base.{
  ℕ, zero, suc, ◌≡◌, ◌≤◌, ◌<◌, refl, ap, ◌∙◌, sym, List, [], ◌∷◌, ◌++◌, Text, arith, length, take,
  drop, take-drop, length-take, length-drop, All, Exec, return, Result-cases, inl, inr,
}
use tiles_processor.Store.Client.{Client, batches, concat, delete_batches, delete_prefix}
use tiles_processor.Store.Client.Aws.{Gateway}

concat-batches :
    (size fuel : ℕ) (keys : List Text)
    → 0 < size
    → length keys ≤ fuel
    → concat (batches size fuel keys) ≡ keys
unfolding batches concat
concat-batches size zero [] h k = refl
concat-batches size zero (x ∷ keys) h k = absurd (omega arith)
concat-batches size (suc fuel) [] h k = refl
concat-batches zero (suc fuel) (x ∷ keys) h k = absurd (omega arith)
concat-batches (suc n) (suc fuel) (x ∷ keys) h k =
    ap (λ rest. (x ∷ take n keys) ++ rest)
      (concat-batches (suc n) fuel (drop n keys) h (omega (arith, length-drop n keys)))
    ∙ ap (λ rest. x ∷ rest) (take-drop n keys)

batches-All :
    (size fuel : ℕ) (keys : List Text) → All (λ batch. length batch ≤ size) (batches size fuel keys)
unfolding batches
batches-All size zero keys = tt
batches-All size (suc fuel) [] = tt
batches-All size (suc fuel) (x ∷ keys) =
    (length-take size (x ∷ keys), batches-All size fuel (drop size (x ∷ keys)))

-- A gateway that records the batches which it is asked to delete.
abbrev pub unseen : {W A : Type 0} → Exec W A → Exec (W × List (List Text)) A
unseen m (w, log) = let (r, w') = m w in (r, (w', log))

abbrev pub recorded : Gateway → Gateway
recorded g = record {
  World = g.World × List (List Text);
  get_object = λ k. unseen (g.get_object k);
  head_object = λ k w. let (o, w') = g.head_object k w.0 in (o, (w', w.1));
  list_objects_v2 = λ p. unseen (g.list_objects_v2 p);
  common_prefixes = λ p d. unseen (g.common_prefixes p d);
  put_object = λ k b t m. unseen (g.put_object k b t m);
  delete_objects =
      λ batch w. let (r, w') = g.delete_objects batch w.0 in (r, (w', w.1 ++ batch ∷ []));
  head_bucket = unseen g.head_bucket;
  create_bucket = unseen g.create_bucket;
  put_bucket_lifecycle_configuration = λ rules. unseen (g.put_bucket_lifecycle_configuration rules);
  md5 = g.md5;
}

module _ (g : Gateway) where
  abbrev G : Gateway
  G = recorded g

  abbrev log : Client G → List (List Text)
  log c = c.world.1

  delete_batches-log :
      (bs : List (List Text)) (c : Client G)
      → (delete_batches G bs c).0 ≡ return tt
      → log (delete_batches G bs c).1 ≡ log c ++ bs
  unfolding delete_batches
  delete_batches-log [] c h = sym (append-nil (log c))
  delete_batches-log (b ∷ bs) c h =
      let w = (g.delete_objects b c.world.0).1 in
      let d : Client G = record c { world = (w, log c ++ b ∷ []) } in
      ground (arith, delete_batches-log bs d, append_assoc (log c) (b ∷ []) bs)

  -- If a deletion returns, its count is the number of the keys that the listing found, and what it
  -- asked the gateway to delete is batches of at most a thousand keys which together are those keys,
  -- in their order.
  pub delete_prefix-log :
      (prefix : Text) (c : Client G) (n : ℕ)
      → (delete_prefix G prefix c).0 ≡ return n
      → (pages : List (List Text)) × (bs : List (List Text)) × ((g.list_objects_v2 prefix
            c.world.0).0
          ≡ return pages)
        × (n ≡ length (concat pages))
        × (log (delete_prefix G prefix c).1 ≡ log c ++ bs)
        × (concat bs ≡ concat pages)
        × All (λ batch. length batch ≤ 1000) bs
  unfolding delete_prefix
  delete_prefix-log prefix c n h = elim (Result-cases (g.list_objects_v2 prefix c.world.0).0) [
    | inr (e, f) ↦ absurd (ground arith)
    | inl (pages, f) ↦
        let keys = concat pages in
        let bs = batches 1000 (length keys) keys in
        let d : Client G = record c { world = ((g.list_objects_v2 prefix c.world.0).1, log c) } in
        (
          pages,
          bs,
          f,
          ground arith,
          ground (arith, delete_batches-log bs d),
          concat-batches 1000 (length keys) keys (omega arith) (omega arith),
          batches-All 1000 (length keys) keys,
        )
  ]
