-- ===== src/Prelude/Maps.antt =====
-- Go's maps, as association lists in which a key stands once. `==` on the keys is an instance.
use Prim.Native.Nat.{ℕ}
use Prim.Native.String.{String}
use mathlib.Core.Path.{◌≡◌, refl, ◌∙◌}
use mathlib.Core.Logic.{◌↔◌}
use mathlib.Core.Bool.{Bool, true}
use mathlib.Core.Option.{Option, none, some}
use mathlib.Core.List.{List, [], ◌∷◌}
use native.Mathlib.Omega.{arith}
use text.Mathlib.Text.{◌==◌ as str_eq}
use text.Mathlib.TextEquality.{eq_iff}
use wgservermgr.Prelude.Tests.{◌==◌, ==_iff, if◌then◌else◌}

pub record Key {ℓ} (K : Type ℓ) : Type ℓ where
  pub same : K → K → Bool
  pub same_iff : (a b : K) → (same a b ≡ true) ↔ (a ≡ b)

instance abbrev pub nat_key : Key ℕ
nat_key = record { same = λ a b. a == b; same_iff = ==_iff }

instance abbrev pub string_key : Key String
string_key = record { same = str_eq; same_iff = eq_iff }

pub same_refl {ℓ} : {K : Type ℓ} ⦃k : Key K⦄ (a : K) → k.same a a ≡ true
same_refl ⦃k⦄ a = (k.same_iff a a).1 refl

-- A value that passes a test.
abbrev pub keep_if {ℓ} : {V : Type ℓ} → (V → Bool) → Option V → Option V
keep_if p none = none
keep_if p (some v) = if p v then some v else none

module _ {ℓ κ} {K : Type ℓ} {V : Type κ} ⦃k : Key K⦄ where
  abbrev pub lookup : K → List (K × V) → Option V
  lookup a [] = none
  lookup a ((b, v) ∷ m) = if k.same a b then some v else lookup a m

  abbrev pub delete : K → List (K × V) → List (K × V)
  delete a [] = []
  delete a ((b, v) ∷ m) = if k.same a b then delete a m else (b, v) ∷ delete a m

  abbrev pub insert : K → V → List (K × V) → List (K × V)
  insert a v m = (a, v) ∷ delete a m

  -- `for key, value := range m { if !p(key, value) { delete(m, key) } }`
  abbrev pub retain : (K → V → Bool) → List (K × V) → List (K × V)
  retain p [] = []
  retain p ((b, v) ∷ m) = if p b v then (b, v) ∷ retain p m else retain p m

  pub lookup-delete :
      (a b : K) (m : List (K × V))
      → lookup b (delete a m) ≡ (if k.same a b then none else lookup b m)
  lookup-delete a b [] = ground arith
  lookup-delete a b ((c, v) ∷ m) =
      ground (arith, lookup-delete a b m, k.same_iff a b, k.same_iff a c, k.same_iff b c)

  pub lookup-insert :
      (a b : K) (v : V) (m : List (K × V))
      → lookup b (insert a v m) ≡ (if k.same a b then some v else lookup b m)
  lookup-insert a b v m = ground (arith, lookup-delete a b m, k.same_iff a b, k.same_iff b a)

  -- Every key stands once.
  abbrev pub Distinct : List (K × V) → Type κ
  Distinct [] = Unit
  Distinct ((b, v) ∷ m) = (lookup b m ≡ none) × Distinct m

  pub delete-Distinct : (a : K) (m : List (K × V)) → Distinct m → Distinct (delete a m)
  delete-Distinct a [] d = tt
  delete-Distinct a ((b, v) ∷ m) d = ground (arith, delete-Distinct a m, lookup-delete a b m)

  pub insert-Distinct : (a : K) (v : V) (m : List (K × V)) → Distinct m → Distinct (insert a v m)
  insert-Distinct a v m d = (lookup-delete a a m ∙ rw (same_refl a), delete-Distinct a m d)

  retain_missing :
      (p : K → V → Bool) (a : K) (m : List (K × V))
      → lookup a m ≡ none
      → lookup a (retain p m) ≡ none
  retain_missing p a [] e = refl
  retain_missing p a ((b, v) ∷ m) e = ground (arith, retain_missing p a m)

  pub lookup-retain :
      (p : K → V → Bool) (a : K) (m : List (K × V))
      → Distinct m
      → lookup a (retain p m) ≡ keep_if (p a) (lookup a m)
  lookup-retain p a [] d = refl
  lookup-retain p a ((b, v) ∷ m) d =
      ground (arith, lookup-retain p a m d.1, k.same_iff a b, retain_missing p b m d.0)

  pub retain-Distinct : (p : K → V → Bool) (m : List (K × V)) → Distinct m → Distinct (retain p m)
  retain-Distinct p [] d = tt
  retain-Distinct p ((b, v) ∷ m) d =
      ground (arith, retain-Distinct p m d.1, retain_missing p b m d.0)
