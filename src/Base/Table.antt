-- ===== src/Base/Table.antt =====
-- A database table with a primary key. The order of the entries means nothing: every query that
-- returns several rows has an `ORDER BY`.
use Prim.Native.Nat.{ℕ}
use mathlib.Core.Path.{◌≡◌, refl}
use mathlib.Core.Logic.{inl, inr}
use mathlib.Core.Bool.{Bool, true, false, ◌||◌}
use mathlib.Core.Option.{Option, none, some}
use mathlib.Core.List.{List, [], ◌∷◌}
use native.Mathlib.Omega.{arith}
use it_outsourcing_knowledge.Base.Tests.{◌==◌, ==_iff, if◌then◌else◌, map_option, Bool-cases}

abbrev pub Table : Type 0 → Type 0
Table V = List (ℕ × V)

-- Is the key among the keys of these rows?
abbrev pub has_key : {V : Type 0} → ℕ → Table V → Bool
has_key k [] = false
has_key k ((j, v) ∷ t) = k == j || has_key k t

module _ {V : Type 0} where
  -- `SELECT … WHERE id = k`
  unfoldable pub find : ℕ → Table V → Option V
  find k [] = none
  find k ((j, v) ∷ t) = let rest = find k t in if k == j then some v else rest

  -- `INSERT`, after a test that the key is free.
  unfoldable pub add : ℕ → V → Table V → Table V
  add k v t = (k, v) ∷ t

  -- `UPDATE … WHERE id = k`
  unfoldable pub put : ℕ → V → Table V → Table V
  put k v [] = []
  put k v ((j, w) ∷ t) = (j, if k == j then v else w) ∷ put k v t

  -- The loop `for row in rows: …` over rows of the table, each changed by `f`.
  unfoldable pub update_all : Table V → (V → V) → Table V → Table V
  update_all rows f [] = []
  update_all rows f ((j, w) ∷ t) = (j, if has_key j rows then f w else w) ∷ update_all rows f t

  pub find-add :
      (j k : ℕ) (v : V) (t : Table V) → find j (add k v t) ≡ (if j == k then some v else find j t)
  unfolding find add
  find-add j k v t = refl

  pub find-put :
      (j k : ℕ) (v : V) (t : Table V)
      → find j (put k v t) ≡ (if j == k then map_option (λ _. v) (find j t) else find j t)
  unfolding find put
  find-put j k v [] = ground arith
  find-put j k v ((i, w) ∷ t) = ground (arith, find-put j k v t)

  pub find-update_all :
      (j : ℕ) (rows : Table V) (f : V → V) (t : Table V)
      → find j (update_all rows f t)
        ≡ (if has_key j rows then map_option f (find j t) else find j t)
  unfolding find update_all
  find-update_all j rows f [] = ground arith
  find-update_all j rows f ((i, w) ∷ t) = elim (Bool-cases (j == i)) [
    | inl e ↦ rw ((==_iff j i).0 e) (ground (arith, find-update_all i rows f t))
    | inr e ↦ ground (arith, find-update_all j rows f t)
  ]

  pub find_picked :
      (k : ℕ) (v : V) (rows : Table V) (f : V → V) (t : Table V)
      → find k t ≡ some v
      → has_key k rows ≡ true
      → find k (update_all rows f t) ≡ some (f v)
  find_picked k v rows f t found picked = rw (find-update_all k rows f t) (rw picked (rw found))

  pub find_unpicked :
      (k : ℕ) (rows : Table V) (f : V → V) (t : Table V)
      → has_key k rows ≡ false
      → find k (update_all rows f t) ≡ find k t
  find_unpicked k rows f t left = rw (find-update_all k rows f t) (rw left)

  -- The primary key: no key stands twice.
  abbrev pub HasUniqueKeys : Table V → Type 0
  HasUniqueKeys [] = Unit
  HasUniqueKeys ((k, v) ∷ t) = (has_key k t ≡ false) × HasUniqueKeys t

  has_key_of_find : (k : ℕ) (t : Table V) → find k t ≡ none → has_key k t ≡ false
  unfolding find
  has_key_of_find k [] h = refl
  has_key_of_find k ((j, v) ∷ t) h = ground (arith, has_key_of_find k t)

  pub add-HasUniqueKeys :
      (k : ℕ) (v : V) (t : Table V) → find k t ≡ none → HasUniqueKeys t → HasUniqueKeys (add k v t)
  unfolding add
  add-HasUniqueKeys k v t h u = (has_key_of_find k t h, u)

  has_key-put : (j k : ℕ) (v : V) (t : Table V) → has_key j (put k v t) ≡ has_key j t
  unfolding put
  has_key-put j k v [] = refl
  has_key-put j k v ((i, w) ∷ t) = rw (has_key-put j k v t)

  pub put-HasUniqueKeys :
      (k : ℕ) (v : V) (t : Table V) → HasUniqueKeys t → HasUniqueKeys (put k v t)
  unfolding put
  put-HasUniqueKeys k v [] u = tt
  put-HasUniqueKeys k v ((i, w) ∷ t) u = (rw (has_key-put i k v t) u.0, put-HasUniqueKeys k v t u.1)

  has_key-update_all :
      (j : ℕ) (rows : Table V) (f : V → V) (t : Table V)
      → has_key j (update_all rows f t) ≡ has_key j t
  unfolding update_all
  has_key-update_all j rows f [] = refl
  has_key-update_all j rows f ((i, w) ∷ t) = rw (has_key-update_all j rows f t)

  pub update_all-HasUniqueKeys :
      (rows : Table V) (f : V → V) (t : Table V)
      → HasUniqueKeys t
      → HasUniqueKeys (update_all rows f t)
  unfolding update_all
  update_all-HasUniqueKeys rows f [] u = tt
  update_all-HasUniqueKeys rows f ((i, w) ∷ t) u =
      (rw (has_key-update_all i rows f t) u.0, update_all-HasUniqueKeys rows f t u.1)

  -- A row of a query stands in the table under its key.
  abbrev pub IsRowOf : Table V → ℕ × V → Type 0
  IsRowOf t r = find r.0 t ≡ some r.1
