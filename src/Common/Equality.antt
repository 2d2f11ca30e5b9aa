-- ===== src/Common/Equality.antt =====
-- The derived `==` of `Option` and `Vec`, over a test of the elements.
use mathlib.Core.Path.{◌≡◌, refl}
use mathlib.Core.Logic.{◌↔◌}
use mathlib.Core.Bool.{Bool, true, false, ◌&&◌}
use mathlib.Core.Option.{Option, none, some}
use mathlib.Core.List.{List, [], ◌∷◌}
use native.Mathlib.Omega.{arith}
use morsh.Common.Tests.{◌==◌}

-- A test that decides equality.
abbrev pub Decides {ℓ} : {A : Type ℓ} → (A → A → Bool) → Type ℓ
Decides {A} eq = (a b : A) → (eq a b ≡ true) ↔ (a ≡ b)

module _ {ℓ} {A : Type ℓ} (eq : A → A → Bool) where
  abbrev pub option_eq : Option A → Option A → Bool
  option_eq none none = true
  option_eq none (some b) = false
  option_eq (some a) none = false
  option_eq (some a) (some b) = eq a b

  abbrev pub list_eq : List A → List A → Bool
  list_eq [] [] = true
  list_eq [] (b ∷ bs) = false
  list_eq (a ∷ as') [] = false
  list_eq (a ∷ as') (b ∷ bs) = eq a b && list_eq as' bs

  pub option_eq-Decides : Decides eq → Decides option_eq
  option_eq-Decides d none none = (λ _. refl, λ _. refl)
  option_eq-Decides d none (some b) = (λ e. cc, λ e. cc)
  option_eq-Decides d (some a) none = (λ e. cc, λ e. cc)
  option_eq-Decides d (some a) (some b) = (λ e. cc ((d a b).0 e), λ e. (d a b).1 (cc))

  pub list_eq-Decides : Decides eq → Decides list_eq
  list_eq-Decides d [] [] = (λ _. refl, λ _. refl)
  list_eq-Decides d [] (b ∷ bs) = (λ e. cc, λ e. cc)
  list_eq-Decides d (a ∷ as') [] = (λ e. cc, λ e. cc)
  list_eq-Decides d (a ∷ as') (b ∷ bs) =
      let heads : _ = d a b in
      let tails : _ = list_eq-Decides d as' bs in
      (λ e. ground (arith, heads, tails), λ e. ground (arith, heads, tails))

pub nat_eq-Decides : Decides ◌==◌
nat_eq-Decides a b = ground arith
