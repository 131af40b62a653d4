-- ===== src/Base/Dict.antt =====
-- A JavaScript `Map` (or a record used as one) with text keys, in insertion order: `set` of a key
-- that is there keeps its place, `set` of a new key goes to the end.
use Prim.Native.Nat.{suc, ◌≤◌}
use Prim.Native.String.{String}
use mathlib.Core.Path.{◌≡◌, refl}
use mathlib.Core.Bool.{Bool, true, false}
use mathlib.Core.List.{List, [], ◌∷◌}
use mathlib.Core.Option.{Option, none, some}
use native.Mathlib.Omega.{arith}
use dsh_carbonclub.Base.Tests.{if◌then◌else◌, same, same_iff}
use dsh_carbonclub.Base.Lists.{length, length-keep-le, keep}

abbrev pub Dict : Type 0 → Type 0
Dict V = List (String × V)

module _ {V : Type 0} where
  unfoldable pub get : String → Dict V → Option V
  get k [] = none
  get k ((j, v) ∷ m) = if same j k then some v else get k m

  unfoldable pub has : String → Dict V → Bool
  has k [] = false
  has k ((j, v) ∷ m) = if same j k then true else has k m

  unfoldable pub set : String → V → Dict V → Dict V
  set k v [] = (k, v) ∷ []
  set k v ((j, w) ∷ m) = if same j k then (k, v) ∷ m else (j, w) ∷ set k v m

  unfoldable pub delete : String → Dict V → Dict V
  delete k [] = []
  delete k ((j, v) ∷ m) = if same j k then m else (j, v) ∷ delete k m

  pub get-set :
      (k j : String) (v : V) (m : Dict V)
      → get j (set k v m) ≡ (if same k j then some v else get j m)
  unfolding get set
  get-set k j v [] = refl
  get-set k j v ((i, w) ∷ m) =
      ground (arith, same_iff k j, same_iff i k, same_iff i j, get-set k j v m)

  pub has-set :
      (k j : String) (v : V) (m : Dict V) → has j (set k v m) ≡ (if same k j then true else has j m)
  unfolding has set
  has-set k j v [] = refl
  has-set k j v ((i, w) ∷ m) =
      ground (arith, same_iff k j, same_iff i k, same_iff i j, has-set k j v m)

  pub length-set :
      (k : String) (v : V) (m : Dict V)
      → length (set k v m) ≡ (if has k m then length m else suc (length m))
  unfolding has set
  length-set k v [] = refl
  length-set k v ((i, w) ∷ m) = ground (arith, length-set k v m)

  pub length-delete :
      (k : String) (m : Dict V)
      → (if has k m then suc (length (delete k m)) else length (delete k m)) ≡ length m
  unfolding has delete
  length-delete k [] = refl
  length-delete k ((i, w) ∷ m) = ground (arith, length-delete k m)

  -- An entry that passes is still found among those that pass.
  pub get-keep :
      (p : String × V → Bool) (k : String) (v : V) (m : Dict V)
      → get k m ≡ some v
      → p (k, v) ≡ true
      → get k (keep p m) ≡ some v
  unfolding get keep
  get-keep p k v [] h pass = absurd (cc)
  get-keep p k v ((j, w) ∷ m) h pass = ground (arith, same_iff j k, get-keep p k v m)

  pub has-get : (k : String) (v : V) (m : Dict V) → get k m ≡ some v → has k m ≡ true
  unfolding get has
  has-get k v [] h = absurd (cc)
  has-get k v ((j, w) ∷ m) h = ground (arith, has-get k v m)

  -- A key whose entry fails takes a place.
  pub length-keep-lt :
      (p : String × V → Bool) (k : String) (v : V) (m : Dict V)
      → get k m ≡ some v
      → p (k, v) ≡ false
      → suc (length (keep p m)) ≤ length m
  unfolding get keep
  length-keep-lt p k v [] h fail = absurd (cc)
  length-keep-lt p k v ((j, w) ∷ m) h fail =
      ground (arith, same_iff j k, length-keep-lt p k v m, length-keep-le p m)
