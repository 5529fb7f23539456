-- ===== src/Verifier/Roster.antt =====
-- `Roster` of verifier.rs: the trusted verifying keys, each with its label.
use iroh_hyde_auth.Common.{
  ℕ, ◌≡◌, refl, arith, Bool, true, false, Option, none, some, List, [], ◌∷◌, String, Bytes, length,
  get, put, get-put, ◌==◌, list_eq, if◌then◌else◌,
}

pub record Roster : Type 0 where
  pub keys : List (Bytes × String)

unfoldable pub new : Roster
new = record { keys = [] }

unfoldable pub insert : Roster → Bytes → String → Roster
insert r verifying_key label = record { keys = put r.keys verifying_key label }

abbrev pub is_some {ℓ} : {A : Type ℓ} → Option A → Bool
is_some none = false
is_some (some a) = true

-- `contains_key`
unfoldable pub contains : Roster → Bytes → Bool
contains r verifying_key = is_some (get r.keys verifying_key)

unfoldable pub label : Roster → Bytes → Option String
label r verifying_key = get r.keys verifying_key

unfoldable pub len : Roster → ℕ
len r = length r.keys

unfoldable pub is_empty : Roster → Bool
is_empty r = elim r.keys [ [] ↦ true | entry ∷ rest ↦ false ]

pub label-insert :
    (r : Roster) (k j : Bytes) (l : String)
    → label (insert r k l) j ≡ (if k == j then some l else label r j)
unfolding label insert
label-insert r k j l = get-put r.keys k j l

pub contains-label : (r : Roster) (k : Bytes) → contains r k ≡ is_some (label r k)
unfolding contains label
contains-label r k = refl

-- A roster of one institution.
pub contains-insert-new : (k j : Bytes) (l : String) → contains (insert new k l) j ≡ (k == j)
unfolding contains insert new get
contains-insert-new k j l = ground (arith, get-put [] k j l)
