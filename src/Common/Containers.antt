-- ===== src/Common/Containers.antt =====
-- The standard library's `HashSet` and `HashMap`, as lists. No code of the program iterates over
-- one, so the order of entries does not show.
use mathlib.Core.Path.{◌≡◌}
use mathlib.Core.Logic.{◌⊎◌, inl, inr}
use mathlib.Core.Bool.{Bool, true, false, ◌||◌}
use mathlib.Core.Option.{Option, none, some}
use mathlib.Core.List.{List, [], ◌∷◌}
use native.Mathlib.Omega.{arith}
use iroh_hyde_auth.Common.Lists.{All}
use iroh_hyde_auth.Common.Tests.{Bool-cases, if◌then◌else◌}
use iroh_hyde_auth.Common.Equality.{PartialEq, ◌==◌, beq_refl}

module _ {ℓ} {A : Type ℓ} ⦃e : PartialEq A⦄ where
  unfoldable pub contains : List A → A → Bool
  contains [] a = false
  contains (x ∷ xs) a = x == a || contains xs a

  -- A set holds an element once.
  unfoldable pub insert : List A → A → List A
  insert xs a = if contains xs a then xs else a ∷ xs

  pub contains-insert :
      (xs : List A) (a b : A) → contains (insert xs a) b ≡ (a == b || contains xs b)
  unfolding insert contains
  contains-insert xs a b = ground (arith, e.is_equality a b)

  pub contains-insert_cases :
      (xs : List A) (a b : A) → contains (insert xs a) b ≡ true → (a ≡ b) ⊎ (contains xs b ≡ true)
  contains-insert_cases xs a b h = ground (arith, h, contains-insert xs a b, e.is_equality a b)

  pub contains-insert_self : (xs : List A) (a : A) → contains (insert xs a) a ≡ true
  contains-insert_self xs a = ground (arith, contains-insert xs a a, beq_refl a)

  pub contains-insert_old :
      (xs : List A) (a b : A) → contains xs b ≡ true → contains (insert xs a) b ≡ true
  contains-insert_old xs a b h = ground (arith, contains-insert xs a b)

module _ {ℓ κ} {K : Type ℓ} {V : Type κ} ⦃e : PartialEq K⦄ where
  unfoldable pub get : List (K × V) → K → Option V
  get [] k = none
  get ((j, v) ∷ m) k = if j == k then some v else get m k

  unfoldable pub remove : List (K × V) → K → List (K × V)
  remove [] k = []
  remove ((j, v) ∷ m) k = let rest = remove m k in if j == k then rest else (j, v) ∷ rest

  -- `HashMap::insert`, and the insertion through a vacant entry.
  unfoldable pub put : List (K × V) → K → V → List (K × V)
  put m k v = (k, v) ∷ remove m k

  pub get-remove :
      (m : List (K × V)) (k j : K) → get (remove m k) j ≡ (if k == j then none else get m j)
  unfolding get remove
  get-remove [] k j = ground arith
  get-remove ((i, v) ∷ m) k j =
      ground (arith, get-remove m k j, e.is_equality i k, e.is_equality i j, e.is_equality k j)

  pub get-put :
      (m : List (K × V)) (k j : K) (v : V)
      → get (put m k v) j ≡ (if k == j then some v else get m j)
  unfolding get put
  get-put m k j v = ground (arith, get-remove m k j)

  get-remove_self : (m : List (K × V)) (k : K) → get (remove m k) k ≡ none
  get-remove_self m k = ground (arith, get-remove m k k, beq_refl k)

  -- No key stands twice.
  abbrev pub IsDistinct : List (K × V) → Type κ
  IsDistinct [] = Unit
  IsDistinct ((k, v) ∷ m) = (get m k ≡ none) × IsDistinct m

  pub remove-absent : (m : List (K × V)) (k : K) → get m k ≡ none → remove m k ≡ m
  unfolding get remove
  remove-absent [] k h = ground arith
  remove-absent ((j, v) ∷ m) k h = ground (arith, remove-absent m k)

  pub remove-IsDistinct : (m : List (K × V)) (k : K) → IsDistinct m → IsDistinct (remove m k)
  unfolding remove
  remove-IsDistinct [] k d = tt
  remove-IsDistinct ((j, v) ∷ m) k d =
      ground
        (arith, remove-IsDistinct m k d.1, get-remove m k j, e.is_equality j k, e.is_equality k j)

  pub put-IsDistinct : (m : List (K × V)) (k : K) (v : V) → IsDistinct m → IsDistinct (put m k v)
  unfolding put
  put-IsDistinct m k v d = (get-remove_self m k, remove-IsDistinct m k d)

  -- What holds of every entry holds of one that is found.
  pub All-get :
      (P : K × V → Type 0) (m : List (K × V)) (k : K) (v : V)
      → All P m
      → get m k ≡ some v
      → P (k, v)
  unfolding get
  All-get P [] k v h found = absurd (ground (arith, found))
  All-get P ((j, u) ∷ m) k v h found = elim (Bool-cases (j == k)) [
    | inl same ↦
        let key : j ≡ k = (e.is_equality j k).0 same in
        let value : u ≡ v = ground (arith, found, same) in rw (← key, ← value) h.0
    | inr other ↦ All-get P m k v h.1 (rw other at found)
  ]
