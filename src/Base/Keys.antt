-- ===== src/Base/Keys.antt =====
-- Lists of texts as sets: membership, distinctness, and the pigeonhole principle.
use Prim.Native.Nat.{suc, ◌≤◌}
use Prim.Native.String.{String}
use mathlib.Core.Path.{◌≡◌, refl}
use mathlib.Core.Bool.{Bool, true, false}
use mathlib.Core.List.{List, [], ◌∷◌, ◌++◌}
use native.Mathlib.Omega.{arith}
use dsh_carbonclub.Base.Tests.{if◌then◌else◌, same, same_iff}
use dsh_carbonclub.Base.Lists.{length, All}
use dsh_carbonclub.Base.Dict.{Dict}
use dsh_carbonclub.Base.Dict

unfoldable pub mem : String → List String → Bool
mem k [] = false
mem k (j ∷ ks) = if same j k then true else mem k ks

abbrev pub AllDistinct : List String → Type 0
AllDistinct [] = Unit
AllDistinct (k ∷ ks) = (mem k ks ≡ false) × AllDistinct ks

-- Every text of one list is in another.
abbrev pub IsWithin : List String → List String → Type 0
IsWithin ks js = All (λ k. mem k js ≡ true) ks

unfoldable pub erase : String → List String → List String
erase k [] = []
erase k (j ∷ ks) = if same j k then ks else j ∷ erase k ks

length-erase :
    (k : String) (ks : List String) → mem k ks ≡ true → suc (length (erase k ks)) ≡ length ks
unfolding mem erase
length-erase k [] h = absurd (cc)
length-erase k (j ∷ ks) h = ground (arith, length-erase k ks)

pub mem-erase_ne :
    (k i : String) (ks : List String) → same k i ≡ false → mem i (erase k ks) ≡ mem i ks
unfolding mem erase
mem-erase_ne k i [] h = refl
mem-erase_ne k i (j ∷ ks) h =
    ground (arith, same_iff k i, same_iff j k, same_iff j i, mem-erase_ne k i ks)

IsWithin-erase :
    (k : String) (ks js : List String)
    → mem k ks ≡ false
    → IsWithin ks js
    → IsWithin ks (erase k js)
unfolding mem
IsWithin-erase k [] js h w = tt
IsWithin-erase k (i ∷ ks) js h w =
    ground (arith, same_iff k i, same_iff i k, mem-erase_ne k i js, IsWithin-erase k ks js)

-- Distinct texts fit only into a list that is long enough.
pub pigeonhole : (ks js : List String) → AllDistinct ks → IsWithin ks js → length ks ≤ length js
pigeonhole [] js d w = omega arith
pigeonhole (k ∷ ks) js d w =
    omega (
      arith,
      length-erase k js w.0,
      pigeonhole ks (erase k js) d.1 (IsWithin-erase k ks js d.0 w.1),
    )

pub mem-append :
    (k : String) (xs ys : List String) → mem k (xs ++ ys) ≡ (if mem k xs then true else mem k ys)
unfolding mem
mem-append k [] ys = refl
mem-append k (x ∷ xs) ys = ground (arith, mem-append k xs ys)

pub AllDistinct-snoc :
    (ks : List String) (k : String) → AllDistinct ks → mem k ks ≡ false → AllDistinct (ks ++ k ∷ [])
unfolding mem
AllDistinct-snoc [] k d h = (refl, tt)
AllDistinct-snoc (j ∷ ks) k d h = (
  ground (arith, mem-append j ks (k ∷ []), same_iff j k, same_iff k j),
  AllDistinct-snoc ks k d.1 (ground arith),
)

pub AllDistinct-erase : (k : String) (ks : List String) → AllDistinct ks → AllDistinct (erase k ks)
unfolding mem erase
AllDistinct-erase k [] d = tt
AllDistinct-erase k (j ∷ ks) d =
    ground (arith, AllDistinct-erase k ks d.1, mem-erase_ne k j ks, same_iff k j, same_iff j k)

module _ {V : Type 0} where
  unfoldable pub keys : Dict V → List String
  keys [] = []
  keys ((k, v) ∷ m) = k ∷ keys m

  unfoldable pub values : Dict V → List V
  values [] = []
  values ((k, v) ∷ m) = v ∷ values m

  pub length-keys : (m : Dict V) → length (keys m) ≡ length m
  unfolding keys
  length-keys [] = refl
  length-keys ((k, v) ∷ m) = omega (arith, length-keys m)

  pub length-values : (m : Dict V) → length (values m) ≡ length m
  unfolding values
  length-values [] = refl
  length-values ((k, v) ∷ m) = omega (arith, length-values m)

  pub has-keys : (k : String) (m : Dict V) → Dict.has k m ≡ mem k (keys m)
  unfolding keys mem Dict.has
  has-keys k [] = refl
  has-keys k ((j, v) ∷ m) = ground (arith, has-keys k m)

  pub keys-delete : (k : String) (m : Dict V) → keys (Dict.delete k m) ≡ erase k (keys m)
  unfolding keys erase Dict.delete
  keys-delete k [] = refl
  keys-delete k ((j, v) ∷ m) = ground (arith, keys-delete k m)

  -- Setting a key that is there keeps the keys; a new one goes to the end.
  pub keys-set :
      (k : String) (v : V) (m : Dict V)
      → keys (Dict.set k v m) ≡ (if mem k (keys m) then keys m else keys m ++ k ∷ [])
  unfolding keys mem Dict.set
  keys-set k v [] = refl
  keys-set k v ((j, w) ∷ m) = ground (arith, same_iff j k, keys-set k v m)

  pub set-new :
      (k : String) (v : V) (m : Dict V) → Dict.has k m ≡ false → Dict.set k v m ≡ m ++ (k, v) ∷ []
  unfolding Dict.has Dict.set
  set-new k v [] h = refl
  set-new k v ((j, w) ∷ m) h = ground (arith, set-new k v m)
