-- ===== src/Bytes/Maps.antt =====
-- A Go map with text keys, as the list of its entries: each key stands once.
use colossus_x.Prelude.{
  ◌≡◌, refl, true, false, Option, none, some, List, [], ◌∷◌, ap, arith, subst, if◌then◌else◌,
}
use colossus_x.Bytes.{Bytes, bytes_eq, bytes_eq_iff}

-- two texts that are equal compare alike with a third
alike : (i k j : Bytes) → bytes_eq i k ≡ true → bytes_eq i j ≡ bytes_eq k j
alike i k j same = ap (λ (x : Bytes). bytes_eq x j) ((bytes_eq_iff i k).0 same)

apart : (i k j : Bytes) → bytes_eq i k ≡ false → bytes_eq k j ≡ true → bytes_eq i j ≡ false
apart i k j other same =
    subst (λ (x : Bytes). bytes_eq i x ≡ false) ((bytes_eq_iff k j).0 same) other

module _ {ℓ} {V : Type ℓ} where
  -- v, ok := m[k]
  unfoldable pub lookup : List (Bytes × V) → Bytes → Option V
  lookup [] k = none
  lookup ((j, v) ∷ m) k = let rest = lookup m k in if bytes_eq j k then some v else rest

  -- m[k] = v
  unfoldable pub insert : List (Bytes × V) → Bytes → V → List (Bytes × V)
  insert [] k v = (k, v) ∷ []
  insert ((j, w) ∷ m) k v =
      let rest = insert m k v in if bytes_eq j k then (k, v) ∷ m else (j, w) ∷ rest

  -- delete(m, k)
  unfoldable pub remove : List (Bytes × V) → Bytes → List (Bytes × V)
  remove [] k = []
  remove ((j, w) ∷ m) k = let rest = remove m k in if bytes_eq j k then rest else (j, w) ∷ rest

  -- delete(m, k) for the keys of another map
  unfoldable pub remove_keys {κ} :
      {W : Type κ} → List (Bytes × V) → List (Bytes × W) → List (Bytes × V)
  remove_keys m [] = m
  remove_keys m ((k, _) ∷ keys) = remove_keys (remove m k) keys

  pub lookup-insert :
      (m : List (Bytes × V)) (k : Bytes) (v : V) (j : Bytes)
      → lookup (insert m k v) j ≡ (if bytes_eq k j then some v else lookup m j)
  unfolding lookup insert
  lookup-insert [] k v j = refl
  lookup-insert ((i, w) ∷ m) k v j = ground (arith, lookup-insert m k v j, alike i k j, apart i k j)

  pub lookup-remove :
      (m : List (Bytes × V)) (k : Bytes) (j : Bytes)
      → lookup (remove m k) j ≡ (if bytes_eq k j then none else lookup m j)
  unfolding lookup remove
  lookup-remove [] k j = ground arith
  lookup-remove ((i, w) ∷ m) k j = ground (arith, lookup-remove m k j, alike i k j, apart i k j)

  -- what is left after the removals was there before
  pub lookup-remove_keys {κ} :
      {W : Type κ} (m : List (Bytes × V)) (keys : List (Bytes × W)) (j : Bytes) {v : V}
      → lookup (remove_keys m keys) j ≡ some v
      → lookup m j ≡ some v
  unfolding remove_keys
  lookup-remove_keys m [] j e = e
  lookup-remove_keys m ((k, _) ∷ keys) j e =
      let before = lookup-remove_keys (remove m k) keys j e in ground (arith, lookup-remove m k j)
