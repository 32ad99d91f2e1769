-- ===== src/Base/Assoc.antt =====
-- A JavaScript `Map` with text keys, as its entries in the order of iteration.
use Prim.Native.String.{String}
use mathlib.Core.Path.{◌≡◌, refl}
use mathlib.Core.Bool.{not}
use mathlib.Core.Option.{Option, none, some}
use mathlib.Core.List.{List, [], ◌∷◌, map}
use native.Mathlib.Omega.{arith}
use dockplane.Base.Tests.{◌==◌, string_eq, ==_iff, ==_refl, if◌then◌else◌}
use dockplane.Base.Lists.{filter, All, In, NoDup}
use mathlib.Core.Logic.{◌⊎◌}

module _ {ℓ} {V : Type ℓ} where
  -- `map.get(key)`
  unfoldable pub get : List (String × V) → String → Option V
  get [] key = none
  get ((k, v) ∷ entries) key = if k == key then some v else get entries key

  -- `map.set(key, value)`: a known key keeps its place, a new one goes to the end.
  unfoldable pub put : List (String × V) → String → V → List (String × V)
  put [] key value = (key, value) ∷ []
  put ((k, v) ∷ entries) key value =
      if k == key then (k, value) ∷ entries else (k, v) ∷ put entries key value

  -- `map.delete(key)`
  unfoldable pub drop_key : List (String × V) → String → List (String × V)
  drop_key entries key = filter (λ e. not (e.0 == key)) entries

  unfoldable pub keys : List (String × V) → List String
  keys entries = map (λ e. e.0) entries

  pub get-put :
      (entries : List (String × V)) (key : String) (value : V) (k : String)
      → get (put entries key value) k ≡ (if key == k then some value else get entries k)
  unfolding get put
  get-put [] key value k = refl
  get-put ((j, v) ∷ entries) key value k =
      ground (arith, get-put entries key value k, ==_iff j key, ==_iff j k, ==_iff key k)

  pub get-drop_key :
      (entries : List (String × V)) (key k : String)
      → get (drop_key entries key) k ≡ (if key == k then none else get entries k)
  unfolding get drop_key
  get-drop_key [] key k = ground arith
  get-drop_key ((j, v) ∷ entries) key k =
      ground (arith, get-drop_key entries key k, ==_iff j key, ==_iff j k, ==_iff key k)

-- Keys that come once, as a `Map` has them.
module _ {V : Type 0} where
  In-keys-drop_key :
      (entries : List (String × V)) (key j : String)
      → In j (keys (drop_key entries key))
      → In j (keys entries)
  unfolding keys drop_key
  In-keys-drop_key [] key j h = h
  In-keys-drop_key ((k, v) ∷ entries) key j h = ground (arith, In-keys-drop_key entries key j)

  pub NoDup-keys-drop_key :
      (entries : List (String × V)) (key : String)
      → NoDup (keys entries)
      → NoDup (keys (drop_key entries key))
  unfolding keys drop_key
  NoDup-keys-drop_key [] key h = h
  NoDup-keys-drop_key ((k, v) ∷ entries) key h =
      ground (arith, NoDup-keys-drop_key entries key, In-keys-drop_key entries key k)

  In-keys-put :
      (entries : List (String × V)) (key : String) (value : V) (j : String)
      → In j (keys (put entries key value))
      → In j (keys entries) ⊎ (j ≡ key)
  unfolding keys put
  In-keys-put [] key value j h = ground arith
  In-keys-put ((k, v) ∷ entries) key value j h = ground (arith, In-keys-put entries key value j)

  pub NoDup-keys-put :
      (entries : List (String × V)) (key : String) (value : V)
      → NoDup (keys entries)
      → NoDup (keys (put entries key value))
  unfolding keys put
  NoDup-keys-put [] key value h = ground arith
  NoDup-keys-put ((k, v) ∷ entries) key value h =
      ground
        (arith, NoDup-keys-put entries key value, In-keys-put entries key value k, ==_iff k key)

  -- An entry under another key does not hide the entries.
  All-get-push :
      (entries rest : List (String × V)) (key : String) (value : V)
      → (¬ In key (keys rest))
      → All (λ e. get entries e.0 ≡ some e.1) rest
      → All (λ e. get ((key, value) ∷ entries) e.0 ≡ some e.1) rest
  unfolding keys get
  All-get-push entries [] key value other h = tt
  All-get-push entries ((k, v) ∷ rest) key value other h =
      ground (arith, All-get-push entries rest key value, ==_iff key k)

  -- Each entry is the one found under its key.
  pub All-get :
      (entries : List (String × V))
      → NoDup (keys entries)
      → All (λ e. get entries e.0 ≡ some e.1) entries
  unfolding keys get
  All-get [] h = tt
  All-get ((k, v) ∷ entries) h =
      ground (arith, All-get entries, All-get-push entries entries k v, ==_refl k)

  pub All-get-drop_key :
      (entries rest : List (String × V)) (key : String)
      → (¬ In key (keys rest))
      → All (λ e. get entries e.0 ≡ some e.1) rest
      → All (λ e. get (drop_key entries key) e.0 ≡ some e.1) rest
  unfolding keys
  All-get-drop_key entries [] key other h = tt
  All-get-drop_key entries ((k, v) ∷ rest) key other h =
      ground (arith, All-get-drop_key entries rest key, get-drop_key entries key k, ==_iff key k)
