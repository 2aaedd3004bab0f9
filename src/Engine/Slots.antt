-- ===== src/Engine/Slots.antt =====
-- The maps of src/lib/engine, keyed by strings: association lists in the order of insertion, as
-- JavaScript's Map and objects keep them.
use agent_studio.Shared.{
  suc, ◌+◌, ◌≤◌, ◌<◌, String, Bool, true, false, List, [], ◌∷◌, Option, none, some, ◌≡◌, refl, ap,
  sym, ◌∙◌, arith, str_eq, eq_iff, if◌then◌else◌, is_some, length,
}

module _ {ℓ} {V : Type ℓ} where
  unfoldable pub get : String → List (String × V) → Option V
  get k [] = none
  get k ((j, v) ∷ m) = if str_eq j k then some v else get k m

  unfoldable pub put : String → V → List (String × V) → List (String × V)
  put k v [] = (k, v) ∷ []
  put k v ((j, w) ∷ m) = if str_eq j k then (k, v) ∷ m else (j, w) ∷ put k v m

  unfoldable pub delete : String → List (String × V) → List (String × V)
  delete k [] = []
  delete k ((j, v) ∷ m) = let rest = delete k m in if str_eq j k then rest else (j, v) ∷ rest

  unfoldable pub keys : List (String × V) → List String
  keys [] = []
  keys ((k, v) ∷ m) = k ∷ keys m

  abbrev pub has : String → List (String × V) → Bool
  has k m = is_some (get k m)

  pub get-put :
      (k j : String) (v : V) (m : List (String × V))
      → get j (put k v m) ≡ (if str_eq k j then some v else get j m)
  unfolding get put
  get-put k j v [] = refl
  get-put k j v ((i, w) ∷ m) = ground (arith, eq_iff k j, eq_iff i k, eq_iff i j, get-put k j v m)

  pub get-delete :
      (k j : String) (m : List (String × V))
      → get j (delete k m) ≡ (if str_eq k j then none else get j m)
  unfolding get delete
  get-delete k j [] = ground arith
  get-delete k j ((i, w) ∷ m) = ground (arith, eq_iff k j, eq_iff i k, eq_iff i j, get-delete k j m)

  module _ (k j : String) (m : List (String × V)) where
    pub get-put_same : (v : V) → str_eq k j ≡ true → get j (put k v m) ≡ some v
    get-put_same v h = rw (get-put k j v m, h) refl

    pub get-put_other : (v : V) → str_eq k j ≡ false → get j (put k v m) ≡ get j m
    get-put_other v h = rw (get-put k j v m, h) refl

    pub get-delete_same : str_eq k j ≡ true → get j (delete k m) ≡ none
    get-delete_same h = rw (get-delete k j m, h) refl

    pub get-delete_other : str_eq k j ≡ false → get j (delete k m) ≡ get j m
    get-delete_other h = rw (get-delete k j m, h) refl

  pub length-put :
      (k : String) (v : V) (m : List (String × V))
      → length (put k v m) ≡ (if has k m then length m else length m + 1)
  unfolding get put
  length-put k v [] = omega arith
  length-put k v ((i, w) ∷ m) = ground (arith, length-put k v m)

  pub length-delete_le : (k : String) (m : List (String × V)) → length (delete k m) ≤ length m
  unfolding delete
  length-delete_le k [] = omega arith
  length-delete_le k ((i, w) ∷ m) = ground (arith, length-delete_le k m)

  pub length-delete_lt :
      (k : String) (m : List (String × V)) → has k m ≡ true → length (delete k m) < length m
  unfolding get delete
  length-delete_lt k [] h = cc h
  length-delete_lt k ((i, w) ∷ m) h = ground (arith, length-delete_le k m, length-delete_lt k m)

-- What becomes of the keys depends on the keys alone.
abbrev put_key : String → List String → List String
put_key k [] = k ∷ []
put_key k (j ∷ ks) = if str_eq j k then k ∷ ks else j ∷ put_key k ks

abbrev delete_key : String → List String → List String
delete_key k [] = []
delete_key k (j ∷ ks) = if str_eq j k then delete_key k ks else j ∷ delete_key k ks

abbrev is_key : String → List String → Bool
is_key k [] = false
is_key k (j ∷ ks) = if str_eq j k then true else is_key k ks

module _ {ℓ} {V : Type ℓ} where
  keys-put : (k : String) (v : V) (m : List (String × V)) → keys (put k v m) ≡ put_key k (keys m)
  unfolding keys put
  keys-put k v [] = refl
  keys-put k v ((j, w) ∷ m) = ground (arith, keys-put k v m)

  keys-delete : (k : String) (m : List (String × V)) → keys (delete k m) ≡ delete_key k (keys m)
  unfolding keys delete
  keys-delete k [] = refl
  keys-delete k ((j, w) ∷ m) = ground (arith, keys-delete k m)

  has-keys : (k : String) (m : List (String × V)) → has k m ≡ is_key k (keys m)
  unfolding keys get
  has-keys k [] = refl
  has-keys k ((j, w) ∷ m) = ground (arith, has-keys k m)

  length-keys : (m : List (String × V)) → length m ≡ length (keys m)
  unfolding keys
  length-keys [] = refl
  length-keys ((j, w) ∷ m) = ap suc (length-keys m)

-- Two maps with the same keys keep them so.
module _ {ℓ κ} {V : Type ℓ} {W : Type κ} (m : List (String × V)) (n : List (String × W))
    (same : keys m ≡ keys n) where
  pub same_keys-put : (k : String) (v : V) (w : W) → keys (put k v m) ≡ keys (put k w n)
  same_keys-put k v w = keys-put k v m ∙ ap (put_key k) same ∙ sym (keys-put k w n)

  pub same_keys-delete : (k : String) → keys (delete k m) ≡ keys (delete k n)
  same_keys-delete k = keys-delete k m ∙ ap (delete_key k) same ∙ sym (keys-delete k n)

  pub has_same : (k : String) → has k m ≡ has k n
  has_same k = has-keys k m ∙ ap (is_key k) same ∙ sym (has-keys k n)

  pub length_same : length m ≡ length n
  length_same = length-keys m ∙ ap length same ∙ sym (length-keys n)
