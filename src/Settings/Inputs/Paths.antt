-- ===== src/Settings/Inputs/Paths.antt =====
-- What holds of an input directory that was accepted.
use mathlib.Core.List.{reverse, reverse-reverse, reverse-append}
use tiles_processor.Base.{
  ℕ, ◌≡◌, ◌⊎◌, inl, inr, refl, ap, sym, ◌∙◌, subst, true, false, [], ◌∷◌, ◌++◌, Text, codes, arith,
  starts_with, strip, Bool-cases, return, return-eq-return,
}
use tiles_processor.Settings.Endpoints.{is_space, is_slash, drop_while, rstrip, strip_of}
use tiles_processor.Settings.Inputs.{
  Input, Defaults, get_or, without_slash, absolute, parse_input_dir,
}

abbrev slash : Text
slash = b'/' ∷ []

-- A path from the root with no slash at its end, but for the root itself.
abbrev pub IsAbsolute : Text → Type 0
IsAbsolute path =
    (starts_with path slash ≡ true) × ((path ≡ slash) ⊎ (starts_with (reverse path) slash ≡ false))

starts_with-drop_while : (s : Text) → starts_with (drop_while is_slash s) slash ≡ false
unfolding drop_while starts_with strip
starts_with-drop_while [] = refl
starts_with-drop_while (c ∷ s) = ground (arith, starts_with-drop_while s)

drop_while-suffix : (s : Text) → (t : Text) × (t ++ drop_while is_slash s ≡ s)
unfolding drop_while
drop_while-suffix [] = ([], refl)
drop_while-suffix (c ∷ s) = elim (Bool-cases (is_slash c)) [
  | inl slashed ↦ let (t, e) = drop_while-suffix s in (c ∷ t, rw slashed (ap (λ r. c ∷ r) e))
  | inr other ↦ ([], rw other refl)
]

rstrip-prefix : (s : Text) → (t : Text) × (rstrip is_slash s ++ t ≡ s)
unfolding rstrip
rstrip-prefix s =
    let (t, e) = drop_while-suffix (reverse s) in
    (
      reverse t,
      sym (reverse-append t (drop_while is_slash (reverse s))) ∙ ap reverse e ∙ reverse-reverse s,
    )

reverse-rstrip : (s : Text) → reverse (rstrip is_slash s) ≡ drop_while is_slash (reverse s)
unfolding rstrip
reverse-rstrip s = reverse-reverse (drop_while is_slash (reverse s))

first_slash : (c : ℕ) (s t : Text) → starts_with (c ∷ s) slash ≡ starts_with (c ∷ t) slash
unfolding starts_with strip
first_slash c s t = ground arith

root_slash : starts_with slash slash ≡ true
unfolding starts_with strip
root_slash = refl

without_slash-IsAbsolute :
    (value : Text) → starts_with value slash ≡ true → IsAbsolute (without_slash value)
unfolding without_slash
without_slash-IsAbsolute value h = by_end (rstrip is_slash value) refl
  where
    by_end :
        (r : Text)
        → rstrip is_slash value ≡ r
        → IsAbsolute (elim r [ [] ↦ b'/' ∷ [] | c ∷ s ↦ c ∷ s ])
    by_end [] e = (root_slash, inl refl)
    by_end (c ∷ s) e =
        let (t, p) = rstrip-prefix value in
        let whole : (c ∷ s) ++ t ≡ value = ap (λ r. r ++ t) (sym e) ∙ p in
        let starts : starts_with (c ∷ (s ++ t)) slash ≡ true =
          subst (λ v. starts_with v slash ≡ true) (sym whole) h in
        let back : reverse (c ∷ s) ≡ drop_while is_slash (reverse value) =
          ap reverse (sym e) ∙ reverse-rstrip value in
        (
          first_slash c s (s ++ t) ∙ starts,
          inr (
              subst (λ r. starts_with r slash ≡ false) (sym back)
                (starts_with-drop_while (reverse value))),
        )

absolute-IsAbsolute :
    (value origin : Text) (dir : Text × Text)
    → absolute value origin ≡ return dir
    → IsAbsolute dir.0
unfolding absolute
absolute-IsAbsolute value origin dir h = elim (Bool-cases (starts_with value slash)) [
  | inl rooted ↦
      let e : (without_slash value, origin) ≡ dir = return-eq-return (ground (arith, rooted, h)) in
      subst IsAbsolute (ap (λ x. x.0) e) (without_slash-IsAbsolute value rooted)
  | inr relative ↦ absurd (ground (arith, relative, h))
]

pub parse_input_dir-IsAbsolute :
    (d : Defaults) (inp : Input) (dir : Text × Text)
    → parse_input_dir d inp ≡ return dir
    → IsAbsolute dir.0
unfolding parse_input_dir
parse_input_dir-IsAbsolute d inp dir h = by_setting (strip_of is_space (get_or [] inp.dir)) h
  where
    by_setting :
        (setting : Text)
        → (elim setting [
          | [] ↦ absolute d.default_dir (codes "default")
          | c ∷ s ↦ absolute (c ∷ s) (codes "settings")
        ])
          ≡ return dir
        → IsAbsolute dir.0
    by_setting [] k = absolute-IsAbsolute d.default_dir (codes "default") dir k
    by_setting (c ∷ s) k = absolute-IsAbsolute (c ∷ s) (codes "settings") dir k
