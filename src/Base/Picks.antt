-- ===== src/Base/Picks.antt =====
-- What a loop that passes some elements over makes of a list.
use mathlib.Core.Path.{◌≡◌, refl}
use mathlib.Core.Logic.{◌↔◌}
use mathlib.Core.Option.{Option, none, some}
use native.Mathlib.Omega.{arith}
use mathlib.Core.List.{List, [], ◌∷◌}

-- One element for each that has one, in the same order.
pub data Picks {A B : Type 0} (P : A → B → Type 0) : List A → List B → Type 0 where
  nothing : Picks P [] []
  taken :
      {x : A} {y : B} {xs : List A} {ys : List B}
      → P x y
      → Picks P xs ys
      → Picks P (x ∷ xs) (y ∷ ys)
  passed :
      {x : A} {xs : List A} {ys : List B}
      → ((y : B) → ¬ P x y)
      → Picks P xs ys
      → Picks P (x ∷ xs) ys

-- A round of a loop whose body gives an element or nothing.
pub after_round :
    {A B : Type 0} {P : A → B → Type 0} {x : A} {xs : List A} {ys : List B} (o : Option B)
    → ((y : B) → (o ≡ some y) ↔ P x y)
    → Picks P xs ys
    → Picks P (x ∷ xs) (elim o [ none ↦ ys | some y ↦ y ∷ ys ])
after_round none h rest = passed (λ y p. let e = (h y).1 p in absurd (ground (arith, e))) rest
after_round (some y) h rest = taken ((h y).0 refl) rest
