-- ===== src/Base/Query.antt =====
-- `SELECT … WHERE p ORDER BY le LIMIT n` on a table, and what the rows that it returns are.
use Prim.Native.Nat.{ℕ, zero, suc, ◌≤◌}
use mathlib.Core.Path.{◌≡◌, refl, ap}
use mathlib.Core.Logic.{◌⊎◌, inl, inr}
use mathlib.Core.Bool.{Bool, true, false}
use mathlib.Core.Option.{some}
use mathlib.Core.List.{List, [], ◌∷◌, Memᴰ}
use native.Mathlib.Omega.{arith}
use it_outsourcing_knowledge.Base.Tests.{◌==◌, ==_iff, ==_self, Bool-cases}
use it_outsourcing_knowledge.Base.Lists.{
  length, length-take, take, drop, select, All, All-take, All-map_of,
}
use it_outsourcing_knowledge.Base.Sort.{insert, sort, All-sort, sort-IsSorted, IsSorted-take-drop}
use it_outsourcing_knowledge.Base.Table.{Table, has_key, find, HasUniqueKeys, IsRowOf}

module _ {ℓ} {A : Type ℓ} where
  pub All-Memᴰ {κ} : (P : A → Type κ) {x : A} {xs : List A} → All P xs → Memᴰ x xs → P x
  All-Memᴰ P h (Memᴰ.head e) = rw e h.0
  All-Memᴰ P h (Memᴰ.tail m) = All-Memᴰ P h.1 m

  pub All-select {κ} :
      (P : A → Type κ) (p : A → Bool) (xs : List A) → All P xs → All P (select p xs)
  All-select P p [] h = tt
  All-select P p (x ∷ xs) h = elim (Bool-cases (p x)) [
    | inl e ↦ rw e (h.0, All-select P p xs h.1)
    | inr e ↦ rw e (All-select P p xs h.1)
  ]

  pub select_holds : (p : A → Bool) (xs : List A) → All (λ x. p x ≡ true) (select p xs)
  select_holds p [] = tt
  select_holds p (x ∷ xs) = elim (Bool-cases (p x)) [
    | inl e ↦ rw e (e, select_holds p xs)
    | inr e ↦ rw e (select_holds p xs)
  ]

  pub Memᴰ-select :
      (p : A → Bool) {x : A} {xs : List A} → p x ≡ true → Memᴰ x xs → Memᴰ x (select p xs)
  Memᴰ-select p h (Memᴰ.head e) = rw (← e) (rw h (Memᴰ.head refl))
  Memᴰ-select p h (Memᴰ.tail {x = y} m) = elim (Bool-cases (p y)) [
    | inl e ↦ rw e (Memᴰ.tail (Memᴰ-select p h m))
    | inr e ↦ rw e (Memᴰ-select p h m)
  ]

  -- A list is split in two by `take` and `drop`; what is in the second part found the first full.
  pub Memᴰ-take-drop :
      (n : ℕ) {x : A} (xs : List A)
      → Memᴰ x xs
      → Memᴰ x (take n xs) ⊎ (Memᴰ x (drop n xs) × (length (take n xs) ≡ n))
  Memᴰ-take-drop zero xs m = inr (m, refl)
  Memᴰ-take-drop (suc n) [] m = elim m [ ]
  Memᴰ-take-drop (suc n) (y ∷ ys) (Memᴰ.head e) = inl (Memᴰ.head e)
  Memᴰ-take-drop (suc n) (y ∷ ys) (Memᴰ.tail m) = elim (Memᴰ-take-drop n ys m) [
    | inl t ↦ inl (Memᴰ.tail t)
    | inr d ↦ inr (d.0, ap suc d.1)
  ]

  module _ (le : A → A → Bool) where
    Memᴰ-insert_self : (x : A) (xs : List A) → Memᴰ x (insert le x xs)
    unfolding insert
    Memᴰ-insert_self x [] = Memᴰ.head refl
    Memᴰ-insert_self x (y ∷ ys) = elim (Bool-cases (le x y)) [
      | inl e ↦ rw e (Memᴰ.head refl)
      | inr e ↦ rw e (Memᴰ.tail (Memᴰ-insert_self x ys))
    ]

    Memᴰ-insert : (x : A) {y : A} (xs : List A) → Memᴰ y xs → Memᴰ y (insert le x xs)
    unfolding insert
    Memᴰ-insert x [] m = elim m [ ]
    Memᴰ-insert x (z ∷ zs) (Memᴰ.head q) = elim (Bool-cases (le x z)) [
      | inl e ↦ rw e (Memᴰ.tail (Memᴰ.head q))
      | inr e ↦ rw e (Memᴰ.head q)
    ]
    Memᴰ-insert x (z ∷ zs) (Memᴰ.tail m) = elim (Bool-cases (le x z)) [
      | inl e ↦ rw e (Memᴰ.tail (Memᴰ.tail m))
      | inr e ↦ rw e (Memᴰ.tail (Memᴰ-insert x zs m))
    ]

    pub Memᴰ-sort : {x : A} (xs : List A) → Memᴰ x xs → Memᴰ x (sort le xs)
    unfolding sort
    Memᴰ-sort [] m = elim m [ ]
    Memᴰ-sort (y ∷ ys) (Memᴰ.head e) = rw e (Memᴰ-insert_self y (sort le ys))
    Memᴰ-sort (y ∷ ys) (Memᴰ.tail m) = Memᴰ-insert y (sort le ys) (Memᴰ-sort ys m)

module _ {V : Type 0} where
  Memᴰ-find : (k : ℕ) (v : V) (t : Table V) → find k t ≡ some v → Memᴰ (k, v) t
  unfolding find
  Memᴰ-find k v [] h = absurd (cc)
  Memᴰ-find k v ((j, w) ∷ t) h = elim (Bool-cases (k == j)) [
    | inl e ↦ Memᴰ.head (ground (arith, h))
    | inr e ↦ Memᴰ.tail (Memᴰ-find k v t (ground arith))
  ]

  pub has_key_of_Memᴰ : (k : ℕ) (v : V) {t : Table V} → Memᴰ (k, v) t → has_key k t ≡ true
  has_key_of_Memᴰ k v (Memᴰ.head e) = ground arith
  has_key_of_Memᴰ k v (Memᴰ.tail m) = ground (arith, has_key_of_Memᴰ k v m)

  row_of_has_key :
      (Q : ℕ × V → Type 0) (k : ℕ) (t : Table V) → All Q t → has_key k t ≡ true → (v : V) × Q (k, v)
  row_of_has_key Q k [] h e = cc
  row_of_has_key Q k ((j, v) ∷ t) h e = elim (Bool-cases (k == j)) [
    | inl same ↦ (v, rw ((==_iff k j).0 same) h.0)
    | inr other ↦ row_of_has_key Q k t h.1 (ground arith)
  ]

  IsRowOf-cons :
      (k : ℕ) (v : V) (t xs : Table V)
      → has_key k xs ≡ false
      → All (IsRowOf t) xs
      → All (IsRowOf ((k, v) ∷ t)) xs
  unfolding find
  IsRowOf-cons k v t [] h a = tt
  IsRowOf-cons k v t ((j, w) ∷ xs) h a =
      (ground (arith, a.0), IsRowOf-cons k v t xs (ground arith) a.1)

  rows-IsRowOf : (t : Table V) → HasUniqueKeys t → All (IsRowOf t) t
  unfolding find
  rows-IsRowOf [] u = tt
  rows-IsRowOf ((k, v) ∷ t) u = (rw (==_self k), IsRowOf-cons k v t t u.0 (rows-IsRowOf t u.1))

module _ {V : Type 0} (le : ℕ × V → ℕ × V → Bool) (p : ℕ × V → Bool) (limit : ℕ) where
  unfoldable pub query : Table V → Table V
  query t = take limit (sort le (select p t))

  -- At most `limit` rows come back.
  pub length-query : (t : Table V) → length (query t) ≤ limit
  unfolding query
  length-query t = omega (arith, length-take limit (sort le (select p t)))

  -- Each returned row stands in the table and meets the condition.
  pub query_rows : (t : Table V) → HasUniqueKeys t → All (λ r. IsRowOf t r × (p r ≡ true)) (query t)
  unfolding query
  query_rows t u = All-take _ limit _ (
      All-sort le _ _
        (All-both (select p t) (All-select (IsRowOf t) p t (rows-IsRowOf t u)) (select_holds p t)))
    where
      All-both :
          (xs : Table V)
          → All (IsRowOf t) xs
          → All (λ x. p x ≡ true) xs
          → All (λ r. IsRowOf t r × (p r ≡ true)) xs
      All-both [] a b = tt
      All-both (x ∷ xs) a b = ((a.0, b.0), All-both xs a.1 b.1)

  -- A key among the returned ones is that of a row of the table that meets the condition.
  pub query-find :
      (k : ℕ) (t : Table V)
      → HasUniqueKeys t
      → has_key k (query t) ≡ true
      → (v : V) × (find k t ≡ some v) × (p (k, v) ≡ true)
  query-find k t u h =
      let (w, (row, holds)) = row_of_has_key _ k (query t) (query_rows t u) h in (w, row, holds)

  pub query_key :
      (k : ℕ) (v : V) (t : Table V)
      → HasUniqueKeys t
      → find k t ≡ some v
      → has_key k (query t) ≡ true
      → p (k, v) ≡ true
  query_key k v t u found h =
      let (w, row, holds) = query-find k t u h in
      let same : w ≡ v = cc (row, found) in rw (← same) holds

  module _ (total : (a b : ℕ × V) → le a b ≡ false → le b a ≡ true)
      (trans : (a b c : ℕ × V) → le a b ≡ true → le b c ≡ true → le a c ≡ true) where
    -- A row that meets the condition comes back, or else `limit` rows come back and each of them
    -- stands before it.
    pub query_complete :
        (k : ℕ) (v : V) (t : Table V)
        → find k t ≡ some v
        → p (k, v) ≡ true
        → (has_key k (query t) ≡ true)
          ⊎ ((length (query t) ≡ limit) × All (λ r. le r (k, v) ≡ true) (query t))
    unfolding query
    query_complete k v t found h =
        let sorted = sort le (select p t) in
        let m : Memᴰ (k, v) sorted = Memᴰ-sort le _ (Memᴰ-select p h (Memᴰ-find k v t found)) in
        elim (Memᴰ-take-drop limit sorted m) [
          | inl taken ↦ inl (has_key_of_Memᴰ k v taken)
          | inr left ↦ inr (
            left.1,
            All-map_of _ _ (λ r before. All-Memᴰ (λ b. le r b ≡ true) before left.0) _
                (IsSorted-take-drop le limit sorted (sort-IsSorted le total trans (select p t))),
          )
        ]
