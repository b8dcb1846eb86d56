-- ===== src/Dict.antt =====
-- Go maps, as association lists. A key stands at most once in a list that is built by `insert`.

use kubeocean.Prelude.{
  ◌≡◌, refl, Bool, true, false, ◌&&◌, Option, none, some, List, [], ◌∷◌, arith, ite, String,
  str_dec, ◌==◌, all, if◌then◌else◌,
}

module _ {ℓ} {K V : Type ℓ} (dec : Discrete K) where
  -- `v, ok := m[k]`
  unfoldable pub lookup : K → List (K × V) → Option V
  lookup k [] = none
  lookup k ((j, v) ∷ m) = ite (dec j k) (some v) (lookup k m)

  -- `m[k] = v`
  unfoldable pub insert : K → V → List (K × V) → List (K × V)
  insert k v [] = (k, v) ∷ []
  insert k v ((j, w) ∷ m) = ite (dec j k) ((k, v) ∷ m) ((j, w) ∷ insert k v m)

  -- `delete(m, k)`: every entry of the key goes.
  unfoldable pub delete : K → List (K × V) → List (K × V)
  delete k [] = []
  delete k ((j, w) ∷ m) = let rest = delete k m in ite (dec j k) rest ((j, w) ∷ rest)

  pub lookup-insert :
      (k j : K) (v : V) (m : List (K × V))
      → lookup j (insert k v m) ≡ ite (dec k j) (some v) (lookup j m)
  unfolding lookup insert
  lookup-insert k j v [] = refl
  lookup-insert k j v ((i, w) ∷ m) = ground (arith, lookup-insert k j v m)

  pub lookup-delete :
      (k j : K) (m : List (K × V)) → lookup j (delete k m) ≡ ite (dec k j) none (lookup j m)
  unfolding lookup delete
  lookup-delete k j [] = ground arith
  lookup-delete k j ((i, w) ∷ m) = ground (arith, lookup-delete k j m)

-- A string map read with Go's zero value for a missing key.
abbrev pub StrMap : Type 0
StrMap = List (String × String)

abbrev pub or_empty : Option String → String
or_empty none = ""
or_empty (some v) = v

infixl 72 ◌at◌
abbrev pub ◌at◌ : StrMap → String → String
m at k = or_empty (lookup str_dec k m)

abbrev pub is_some {ℓ} : {A : Type ℓ} → Option A → Bool
is_some none = false
is_some (some a) = true

-- `_, ok := m[k]`
abbrev pub has : {V : Type 0} → String → List (String × V) → Bool
has k m = is_some (lookup str_dec k m)

abbrev pub put : {V : Type 0} → String → V → List (String × V) → List (String × V)
put = insert str_dec

module _ {ℓ} {K V : Type ℓ} (dec : Discrete K) where
  -- No key stands twice.
  abbrev pub IsUnique : List (K × V) → Type ℓ
  IsUnique [] = Unit
  IsUnique ((k, v) ∷ m) = (lookup dec k m ≡ none) × IsUnique m

  pub insert-IsUnique :
      (k : K) (v : V) (m : List (K × V)) → IsUnique m → IsUnique (insert dec k v m)
  unfolding insert lookup
  insert-IsUnique k v [] u = (refl, tt)
  insert-IsUnique k v ((j, w) ∷ m) u =
      ground (arith, insert-IsUnique k v m, lookup-insert dec k j v m)

module _ {ℓ} {K V : Type ℓ} (dec : Discrete K) where
  pub insert-insert :
      (k : K) (v w : V) (m : List (K × V)) → insert dec k v (insert dec k w m) ≡ insert dec k v m
  unfolding insert
  insert-insert k v w [] = ground arith
  insert-insert k v w ((j, u) ∷ m) = ground (arith, insert-insert k v w m)

-- `k: v` is an entry of the map.
abbrev holds : StrMap → String × String → Bool
holds m e = elim (lookup str_dec e.0 m) [ none ↦ false | some w ↦ w == e.1 ]

-- reflect.DeepEqual on two maps: each entry of the one is an entry of the other.
pub same_map : StrMap → StrMap → Bool
same_map a b = all (holds b) a && all (holds a) b

holds-skip :
    (k v : String) (l m : StrMap)
    → lookup str_dec k l ≡ none
    → all (holds m) l ≡ true
    → all (holds ((k, v) ∷ m)) l ≡ true
unfolding lookup
holds-skip k v [] m n h = refl
holds-skip k v ((j, w) ∷ l) m n h = ground (arith, holds-skip k v l m)

all-holds : (m : StrMap) → IsUnique str_dec m → all (holds m) m ≡ true
unfolding lookup
all-holds [] u = refl
all-holds ((k, v) ∷ m) u = ground (arith, holds-skip k v m m u.0 (all-holds m u.1))

pub same_map_refl : (m : StrMap) → IsUnique str_dec m → same_map m m ≡ true
unfolding same_map
same_map_refl m u = rw (all-holds m u)

-- The loop that copies a map but for the keys that a test excludes.
unfoldable pub copy_but : (String → Bool) → StrMap → StrMap
copy_but excluded [] = []
copy_but excluded ((k, v) ∷ m) =
    let rest = copy_but excluded m in if excluded k then rest else (k, v) ∷ rest

pub lookup-copy_but :
    (excluded : String → Bool) (k : String) (m : StrMap)
    → lookup str_dec k (copy_but excluded m) ≡ (if excluded k then none else lookup str_dec k m)
unfolding lookup copy_but
lookup-copy_but excluded k [] = ground arith
lookup-copy_but excluded k ((j, w) ∷ m) = ground (arith, lookup-copy_but excluded k m)

pub copy_but-IsUnique :
    (excluded : String → Bool) (m : StrMap)
    → IsUnique str_dec m
    → IsUnique str_dec (copy_but excluded m)
unfolding copy_but
copy_but-IsUnique excluded [] u = tt
copy_but-IsUnique excluded ((k, v) ∷ m) u =
    ground (arith, copy_but-IsUnique excluded m u.1, lookup-copy_but excluded k m)
