-- ===== src/TokenConnections/Sets.antt =====
-- Go's sets and maps of sets, as dictionaries.
use otel_magnify.Prelude.{
  ℕ, ◌≡◌, refl, Bool, true, false, not, ◌&&◌, ◌||◌, none, some, List, [], ◌∷◌, ◌==◌, ◌++◌, nat_eq,
  arith, String, string_eq, if◌then◌else◌,
}
use otel_magnify.Prelude.Eq.{Eq}
use otel_magnify.Prelude.Dict.{Dict, get, put, delete, get-put, get-delete}

unfoldable pub has : {K V : Type 0} ⦃e : Eq K⦄ → Dict K V → K → Bool
has d k = elim (get d k) [ none ↦ false | some v ↦ true ]

unfoldable pub keys : {K V : Type 0} → Dict K V → List K
keys [] = []
keys ((k, v) ∷ d) = k ∷ keys d

unfoldable pub values : Dict ℕ ℕ → List ℕ
values [] = []
values ((k, v) ∷ d) = v ∷ values d

-- Those of the sessions that are not being removed.
unfoldable pub not_removing : Dict ℕ ℕ → List ℕ → List ℕ
unfolding has
not_removing removing [] = []
not_removing removing (s ∷ ss) =
    let rest = not_removing removing ss in if has removing s then rest else s ∷ rest

unfoldable pub elem : ℕ → List ℕ → Bool
elem a [] = false
elem a (x ∷ xs) = x == a || elem a xs

-- A read of a map of maps, where a missing key holds an empty map.
unfoldable pub members : {V : Type 0} → Dict String (Dict ℕ V) → String → Dict ℕ V
members by id = elim (get by id) [ none ↦ [] | some d ↦ d ]

module _ {V : Type 0} where
  unfoldable pub add_member : Dict String (Dict ℕ V) → String → ℕ → V → Dict String (Dict ℕ V)
  unfolding members
  add_member by id s v = put by id (put (members by id) s v)

  -- `if len(byID) == 0 { delete(by, id) }`
  unfoldable pub keep_filled : Dict String (Dict ℕ V) → String → Dict ℕ V → Dict String (Dict ℕ V)
  keep_filled by id [] = delete by id
  keep_filled by id (e ∷ d) = put by id (e ∷ d)

  unfoldable pub drop_member : Dict String (Dict ℕ V) → String → ℕ → Dict String (Dict ℕ V)
  unfolding members keep_filled
  drop_member by id s = keep_filled by id (delete (members by id) s)

  pub has-put : (d : Dict ℕ V) (k j : ℕ) (v : V) → has (put d k v) j ≡ (k == j || has d j)
  unfolding has
  has-put d k j v = ground (arith, get-put d k j v)

  pub has-delete : (d : Dict ℕ V) (k j : ℕ) → has (delete d k) j ≡ (not (k == j) && has d j)
  unfolding has
  has-delete d k j = ground (arith, get-delete d k j)

  pub members-put :
      (by : Dict String (Dict ℕ V)) (id j : String) (d : Dict ℕ V)
      → members (put by id d) j ≡ (if id == j then d else members by j)
  unfolding members
  members-put by id j d = ground (arith, get-put by id j d)

  pub members-delete :
      (by : Dict String (Dict ℕ V)) (id j : String)
      → members (delete by id) j ≡ (if id == j then [] else members by j)
  unfolding members
  members-delete by id j = ground (arith, get-delete by id j)

  members-keep_filled :
      (by : Dict String (Dict ℕ V)) (id j : String) (d : Dict ℕ V)
      → members (keep_filled by id d) j ≡ (if id == j then d else members by j)
  unfolding keep_filled
  members-keep_filled by id j [] = members-delete by id j
  members-keep_filled by id j (e ∷ d) = members-put by id j (e ∷ d)

  pub members-drop :
      (by : Dict String (Dict ℕ V)) (id j : String) (s : ℕ)
      → members (drop_member by id s) j
        ≡ (if id == j then delete (members by id) s else members by j)
  unfolding drop_member
  members-drop by id j s = members-keep_filled by id j (delete (members by id) s)

  pub members-add :
      (by : Dict String (Dict ℕ V)) (id j : String) (s : ℕ) (v : V)
      → members (add_member by id s v) j
        ≡ (if id == j then put (members by id) s v else members by j)
  unfolding add_member
  members-add by id j s v = members-put by id j (put (members by id) s v)

  pub elem-keys : (d : Dict ℕ V) (s : ℕ) → elem s (keys d) ≡ has d s
  unfolding has elem keys get
  elem-keys [] s = refl
  elem-keys ((k, v) ∷ d) s = ground (arith, elem-keys d s)

pub elem-append : (s : ℕ) (xs ys : List ℕ) → elem s (xs ++ ys) ≡ (elem s xs || elem s ys)
unfolding elem
elem-append s [] ys = refl
elem-append s (x ∷ xs) ys = ground (arith, elem-append s xs ys)
