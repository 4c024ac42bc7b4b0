-- ===== src/Prelude/Maps.antt =====
-- `HashMap` with text keys, as the list of its entries: a key stands once.
use mathlib.Core.Path.{◌≡◌, refl}
use mathlib.Core.Bool.{false}
use mathlib.Core.List.{List, [], ◌∷◌}
use mathlib.Core.Option.{Option, none, some}
use native.Mathlib.Omega.{arith}
use rginx.Prelude.Tests.{if◌then◌else◌}
use rginx.Prelude.Text.{Bytes, bytes_eq, bytes_eq_iff, bytes_eq_refl}

abbrev pub Map {ℓ} : Type ℓ → Type ℓ
Map A = List (Bytes × A)

module _ {ℓ} {A : Type ℓ} where
  abbrev pub get : Map A → Bytes → Option A
  get [] key = none
  get ((k, a) ∷ rest) key = if bytes_eq k key then some a else get rest key

  -- `HashMap::insert`, without its result.
  abbrev pub insert : Map A → Bytes → A → Map A
  insert [] key new = (key, new) ∷ []
  insert ((k, a) ∷ rest) key new =
      let others = insert rest key new in
      if bytes_eq k key then (k, new) ∷ rest else (k, a) ∷ others

  -- `HashMap::remove`, without its result.
  abbrev pub remove : Map A → Bytes → Map A
  remove [] key = []
  remove ((k, a) ∷ rest) key =
      let others = remove rest key in if bytes_eq k key then others else (k, a) ∷ others

  pub get-insert : (m : Map A) (key : Bytes) (new : A) → get (insert m key new) key ≡ some new
  get-insert [] key new = rw (bytes_eq_refl key) refl
  get-insert ((k, a) ∷ rest) key new = ground (arith, get-insert rest key new)

  pub get-insert_other :
      (m : Map A) (key other : Bytes) (new : A)
      → bytes_eq key other ≡ false
      → get (insert m key new) other ≡ get m other
  get-insert_other [] key other new h = rw h refl
  get-insert_other ((k, a) ∷ rest) key other new h =
      ground (arith, get-insert_other rest key other new h, bytes_eq_iff k key)

  pub get-remove : (m : Map A) (key : Bytes) → get (remove m key) key ≡ none
  get-remove [] key = refl
  get-remove ((k, a) ∷ rest) key = ground (arith, get-remove rest key)

  pub get-remove_other :
      (m : Map A) (key other : Bytes)
      → bytes_eq key other ≡ false
      → get (remove m key) other ≡ get m other
  get-remove_other [] key other h = refl
  get-remove_other ((k, a) ∷ rest) key other h =
      ground (arith, get-remove_other rest key other h, bytes_eq_iff k key)
