-- ===== src/Prelude/Headers.antt =====
-- `http::HeaderMap` and `HeaderValue::to_str`, of a library: the operations that the program uses of
-- them, and what is documented of those. A header's name is its text in lower case.
use Prim.Native.Nat.{ℕ}
use mathlib.Core.Path.{◌≡◌}
use mathlib.Core.Bool.{Bool, true, false, ◌&&◌}
use mathlib.Core.List.{List, [], ◌∷◌}
use mathlib.Core.Option.{Option, some}
use rginx.Prelude.Tests.{leb, ltb, is_some}
use rginx.Prelude.Lists.{All, get_elem?}
use rginx.Prelude.Text.{Bytes, bytes_eq}

pub record HeaderMaps (Headers : Type 0) : Type 0 where
  pub get_all : Headers → Bytes → List Bytes
  pub insert_header : Headers → Bytes → Bytes → Headers
  pub remove_header : Headers → Bytes → Headers
  pub to_str : Bytes → Option Bytes

-- A byte that `to_str` takes; it also takes tabs.
abbrev pub visible : ℕ → Bool
visible c = leb 32 c && ltb c 127

module _ {Headers : Type 0} (maps : HeaderMaps Headers) where
  -- `HeaderMap::get`: the first of the values.
  abbrev pub get_header : Headers → Bytes → Option Bytes
  get_header headers name = get_elem? (maps.get_all headers name) 0

  abbrev pub contains_header : Headers → Bytes → Bool
  contains_header headers name = is_some (get_header headers name)

  pub record HeaderLaws : Type 0 where
    pub get_all-insert_header :
        (headers : Headers) (name value : Bytes)
        → maps.get_all (maps.insert_header headers name value) name ≡ value ∷ []
    pub get_all-insert_other :
        (headers : Headers) (name other value : Bytes)
        → bytes_eq name other ≡ false
        → maps.get_all (maps.insert_header headers name value) other ≡ maps.get_all headers other
    pub visible-to_str : (s : Bytes) → All (λ c. visible c ≡ true) s → maps.to_str s ≡ some s
    pub get_all-remove_header :
        (headers : Headers) (name : Bytes)
        → maps.get_all (maps.remove_header headers name) name ≡ []
    pub get_all-remove_other :
        (headers : Headers) (name other : Bytes)
        → bytes_eq name other ≡ false
        → maps.get_all (maps.remove_header headers name) other ≡ maps.get_all headers other
