-- ===== src/Base/Maps.antt =====
-- A Go map with `uint64` keys as the list of its entries, in the order of one iteration.
use Prim.Native.Nat.{ℕ}
use mathlib.Core.Path.{◌≡◌}
use mathlib.Core.Option.{Option, none, some}
use mathlib.Core.List.{List, [], ◌∷◌}
use native.Mathlib.Omega.{arith}
use tinychain.Base.Tests.{◌==◌, if◌then◌else◌}

abbrev pub Entries {ℓ} : Type ℓ → Type ℓ
Entries A = List (ℕ × A)

module _ {ℓ} {A : Type ℓ} where
  unfoldable pub lookup : Entries A → ℕ → Option A
  lookup [] n = none
  lookup (e ∷ m) n = if e.0 == n then some (e.1) else lookup m n

  -- `delete(m, n)`
  unfoldable pub delete : Entries A → ℕ → Entries A
  delete [] n = []
  delete (e ∷ m) n = let rest = delete m n in if e.0 == n then rest else e ∷ rest

  -- `m[n] = a`
  unfoldable pub store : Entries A → ℕ → A → Entries A
  store m n a = (n, a) ∷ delete m n

  -- No key twice.
  pub HasUniqueKeys : Entries A → Type ℓ
  HasUniqueKeys [] = Unit
  HasUniqueKeys (e ∷ m) = HasUniqueKeys m × (lookup m (e.0) ≡ none)

  pub lookup-delete :
      (m : Entries A) (k n : ℕ) → lookup (delete m k) n ≡ (if k == n then none else lookup m n)
  unfolding lookup delete
  lookup-delete [] k n = ground arith
  lookup-delete (e ∷ m) k n = ground (arith, lookup-delete m k n)
