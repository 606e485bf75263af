-- ===== src/Access/Texts.antt =====
-- Membership in a list of texts, through what Python does with sets of them.
use it_outsourcing_knowledge.Base.{
  ◌≡◌, refl, ap, String, Bool, true, ◌&&◌, List, [], ◌∷◌, arith, str_eq, eq_iff, select,
}
use it_outsourcing_knowledge.Base.Sort.{insert, sort}
use it_outsourcing_knowledge.Access.{str_mem, dedupe}

pub str_mem-insert :
    (le : String → String → Bool) (x y : String) (ys : List String)
    → str_mem x (insert le y ys) ≡ str_mem x (y ∷ ys)
unfolding insert
str_mem-insert le x y [] = refl
str_mem-insert le x y (z ∷ zs) = ground (arith, str_mem-insert le x y zs)

pub str_mem-sort :
    (le : String → String → Bool) (x : String) (xs : List String)
    → str_mem x (sort le xs) ≡ str_mem x xs
unfolding sort
str_mem-sort le x [] = refl
str_mem-sort le x (y ∷ ys) =
    ground (arith, str_mem-insert le x y (sort le ys), str_mem-sort le x ys)

pub str_mem_same :
    (x y : String) (ys : List String) → str_eq x y ≡ true → str_mem x ys ≡ str_mem y ys
str_mem_same x y ys e = ap (λ z. str_mem z ys) ((eq_iff x y).0 e)

pub str_mem-dedupe : (x : String) (xs : List String) → str_mem x (dedupe xs) ≡ str_mem x xs
unfolding dedupe
str_mem-dedupe x [] = refl
str_mem-dedupe x (y ∷ ys) = ground (arith, str_mem_same x y ys, str_mem-dedupe x ys)

pub str_mem-select :
    (zs : List String) (x : String) (xs : List String)
    → str_mem x (select (λ y. str_mem y zs) xs) ≡ (str_mem x xs && str_mem x zs)
str_mem-select zs x [] = refl
str_mem-select zs x (y ∷ ys) = ground (arith, str_mem_same x y zs, str_mem-select zs x ys)
