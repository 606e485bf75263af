-- ===== src/Governance/Resolve.antt =====
-- What is left of a group of contradicting claims.
use it_outsourcing_knowledge.Base.{
  ◌≡◌, ◌⊎◌, inl, inr, refl, sym, ap, ◌∙◌, subst, String, Bool, true, false, not, ◌&&◌, some, List,
  [], ◌∷◌, str_eq, eq_iff, ◌==◌, ==_iff, get_or, select, Bool-cases, All, All-map_of, All-append,
  All-of_members, All-false_of_select, All-map,
}
use mathlib.Core.List.{Memᴰ}
use it_outsourcing_knowledge.Base.Query.{All-Memᴰ, All-select, select_holds}
use it_outsourcing_knowledge.EvidenceMetadata.{authority_rank}
use it_outsourcing_knowledge.Governance.{
  GovernedEvidence, has_claim, in_group, group_keys, claim_of, one_value, best_rank,
  mark_unresolved, resolve_group, resolve_groups, resolve_explicit_conflicts,
}

-- A property that does not look at the mark of a conflict.
abbrev pub IsUnmarked : (GovernedEvidence → Type 0) → Type 0
IsUnmarked P = (e : GovernedEvidence) → P e → P (mark_unresolved e)

module _ (P : GovernedEvidence → Type 0) (unmarked : IsUnmarked P) where
  pub All-resolve_group :
      (values : List GovernedEvidence) → All P values → All P (resolve_group values)
  unfolding resolve_group
  All-resolve_group values h =
      let top = All-select P (λ e. authority_rank e.authority_level == best_rank values) values h in
      elim (Bool-cases (one_value values)) [
        | inl one ↦ rw one h
        | inr many ↦
            elim (Bool-cases (
              one_value
                (select (λ e. authority_rank e.authority_level == best_rank values) values))) [
                  | inl one_top ↦ rw many (rw one_top top)
                  | inr many_top ↦
                      rw many (rw many_top (All-map P P mark_unresolved unmarked _ top))
                ]
      ]

  All-resolve_groups :
      (candidates : List GovernedEvidence) (keys : List String)
      → All P candidates
      → All P (resolve_groups candidates keys)
  unfolding resolve_groups
  All-resolve_groups candidates [] h = tt
  All-resolve_groups candidates (k ∷ ks) h =
      All-append P (resolve_group (select (in_group k) candidates)) (resolve_groups candidates ks)
        (All-resolve_group (select (in_group k) candidates)
          (All-select P (in_group k) candidates h))
        (All-resolve_groups candidates ks h)

  pub All-resolve :
      (candidates : List GovernedEvidence)
      → All P candidates
      → All P (resolve_explicit_conflicts candidates)
  unfolding resolve_explicit_conflicts
  All-resolve candidates h =
      All-append P (select (λ e. not (has_claim e)) candidates)
        (resolve_groups candidates (group_keys candidates))
        (All-select P (λ e. not (has_claim e)) candidates h)
        (All-resolve_groups candidates (group_keys candidates) h)

not-false : (b : Bool) → not b ≡ false → b ≡ true
not-false true k = refl
not-false false k = cc

pub one_value_same :
    (xs : List GovernedEvidence) (a b : GovernedEvidence)
    → one_value xs ≡ true
    → Memᴰ a xs
    → Memᴰ b xs
    → claim_of a ≡ claim_of b
unfolding one_value
one_value_same [] a b h m n = elim m [ ]
one_value_same (e ∷ es) a b h m n =
    let all : All (λ x. claim_of x ≡ claim_of e) (e ∷ es) = (
      refl,
      All-map_of _ _ (λ x k. same x k) es
          (All-false_of_select (λ x. not (str_eq (claim_of x) (claim_of e))) es h),
    ) in
    All-Memᴰ (λ x. claim_of x ≡ claim_of e) all m
    ∙ sym (All-Memᴰ (λ x. claim_of x ≡ claim_of e) all n)
  where
    same :
        (x : GovernedEvidence)
        → not (str_eq (claim_of x) (claim_of e)) ≡ false
        → claim_of x ≡ claim_of e
    same x k = (eq_iff (claim_of x) (claim_of e)).0 (not-false (str_eq (claim_of x) (claim_of e)) k)

-- The items of a group that have its highest authority.
abbrev pub top_of : List GovernedEvidence → List GovernedEvidence
top_of values = select (λ e. authority_rank e.authority_level == best_rank values) values

-- An item of a resolved group: as it was, where the group has one claim; else of the highest
-- authority in the group, and marked if even that contradicts itself.
abbrev pub Kept : List GovernedEvidence → GovernedEvidence → Type 0
Kept values e =
    ((one_value values ≡ true) × Memᴰ e values)
    ⊎ ((one_value values ≡ false) × (one_value (top_of values) ≡ true) × Memᴰ e (top_of values))
    ⊎ ((one_value values ≡ false)
        × (one_value (top_of values) ≡ false)
        × (e.unresolved_conflict ≡ true)
        × (authority_rank e.authority_level ≡ best_rank values))

group-Kept : (values : List GovernedEvidence) → All (Kept values) (resolve_group values)
unfolding resolve_group
group-Kept values = elim (Bool-cases (one_value values)) [
  | inl one ↦ rw one (All-of_members _ values (λ e m. inl (one, m)))
  | inr many ↦ elim (Bool-cases (one_value (top_of values))) [
    | inl one_top ↦
        rw many
          (rw one_top (All-of_members _ (top_of values) (λ e m. inr (inl (many, one_top, m)))))
    | inr many_top ↦ rw many (
        rw many_top (
          All-map (λ e. (authority_rank e.authority_level == best_rank values) ≡ true) (Kept values)
            mark_unresolved
            (λ e h. inr (
              inr (
                many,
                many_top,
                refl,
                (==_iff (authority_rank e.authority_level) (best_rank values)).0 h,
              )))
            (top_of values)
            (select_holds (λ e. authority_rank e.authority_level == best_rank values) values)))
  ]
]

-- An item that makes no claim, or was kept in the group of its key.
abbrev pub From : List GovernedEvidence → GovernedEvidence → Type 0
From candidates e =
    (has_claim e ≡ false)
    ⊎ ((k : String) × (in_group k e ≡ true) × Kept (select (in_group k) candidates) e)

keys-From :
    (candidates : List GovernedEvidence) (keys : List String)
    → All (From candidates) (resolve_groups candidates keys)
unfolding resolve_groups in_group has_claim
keys-From candidates [] = tt
keys-From candidates (k ∷ ks) =
    let values = select (in_group k) candidates in
    let grouped =
      All-resolve_group (λ e. in_group k e ≡ true) (λ e h. h) values
        (select_holds (in_group k) candidates) in
    All-append (From candidates) (resolve_group values) (resolve_groups candidates ks)
      (both (resolve_group values) grouped (group-Kept values)) (keys-From candidates ks)
  where
    both :
        (xs : List GovernedEvidence)
        → All (λ e. in_group k e ≡ true) xs
        → All (Kept (select (in_group k) candidates)) xs
        → All (From candidates) xs
    both [] h kept = tt
    both (x ∷ xs) h kept = (inr (k, h.0, kept.0), both xs h.1 kept.1)

resolve-From :
    (candidates : List GovernedEvidence)
    → All (From candidates) (resolve_explicit_conflicts candidates)
unfolding resolve_explicit_conflicts
resolve-From candidates =
    All-append (From candidates) (select (λ e. not (has_claim e)) candidates)
      (resolve_groups candidates (group_keys candidates))
      (All-map_of _ _ (λ e h. inl (flip (has_claim e) h))
        (select (λ e. not (has_claim e)) candidates)
        (select_holds (λ e. not (has_claim e)) candidates))
      (keys-From candidates (group_keys candidates))
  where
    flip : (b : Bool) → not b ≡ true → b ≡ false
    flip true h = cc
    flip false h = refl

-- Both items make a claim under one key, and the claims differ.
pub record Contradicts (a b : GovernedEvidence) : Type 0 where
  pub key : String
  pub first : String
  pub second : String
  pub a_key : a.conflict_key ≡ some key
  pub b_key : b.conflict_key ≡ some key
  pub a_claim : a.claim_value ≡ some first
  pub b_claim : b.claim_value ≡ some second
  pub apart : ¬ (first ≡ second)

group_of :
    (k key : String) (e : GovernedEvidence)
    → e.conflict_key ≡ some key
    → in_group k e ≡ true
    → key ≡ k
unfolding in_group
group_of k key e h g = (eq_iff key k).0 (
    ap (λ o. str_eq (get_or o "") k) (sym h)
    ∙ and_second (has_claim e) (str_eq (get_or e.conflict_key "") k) g)
  where
    and_second : (a b : Bool) → (a && b) ≡ true → b ≡ true
    and_second true b h = h
    and_second false b h = cc

claims :
    (e : GovernedEvidence) (key v : String)
    → e.conflict_key ≡ some key
    → e.claim_value ≡ some v
    → has_claim e ≡ true
unfolding has_claim
claims e key v h k = rw h (rw k refl)

-- Of two contradicting items that are both kept, both are marked and of one authority.
pub resolved_pair :
    (candidates : List GovernedEvidence) (a b : GovernedEvidence)
    → Memᴰ a (resolve_explicit_conflicts candidates)
    → Memᴰ b (resolve_explicit_conflicts candidates)
    → Contradicts a b
    → (a.unresolved_conflict ≡ true)
      × (b.unresolved_conflict ≡ true)
      × (authority_rank a.authority_level ≡ authority_rank b.authority_level)
resolved_pair candidates a b m n c =
    open_pair (All-Memᴰ (From candidates) (resolve-From candidates) m)
      (All-Memᴰ (From candidates) (resolve-From candidates) n)
  where
    apart_claims : ¬ (claim_of a ≡ claim_of b)
    apart_claims e =
        c.apart (ap (λ o. get_or o "") (sym c.a_claim) ∙ e ∙ ap (λ o. get_or o "") c.b_claim)

    kept_pair :
        (values : List GovernedEvidence)
        → Kept values a
        → Kept values b
        → (a.unresolved_conflict ≡ true)
          × (b.unresolved_conflict ≡ true)
          × (authority_rank a.authority_level ≡ authority_rank b.authority_level)
    kept_pair values (inl (one, p)) (inl (one', q)) =
        absurd (apart_claims (one_value_same values a b one p q))
    kept_pair values (inl (one, p)) (inr (inl (many, x, y))) = cc
    kept_pair values (inl (one, p)) (inr (inr (many, x, y, z))) = cc
    kept_pair values (inr (inl (many, x, y))) (inl (one, p)) = cc
    kept_pair values (inr (inr (many, x, y, z))) (inl (one, p)) = cc
    kept_pair values (inr (inl (many, one, p))) (inr (inl (many', one', q))) =
        absurd (apart_claims (one_value_same (top_of values) a b one p q))
    kept_pair values (inr (inl (many, one, p))) (inr (inr (many', more, x, y))) = cc
    kept_pair values (inr (inr (many', more, x, y))) (inr (inl (many, one, p))) = cc
    kept_pair values (inr (inr (many, more, ua, ra))) (inr (inr (many', more', ub, rb))) =
        (ua, ub, ra ∙ sym rb)

    open_pair :
        From candidates a
        → From candidates b
        → (a.unresolved_conflict ≡ true)
          × (b.unresolved_conflict ≡ true)
          × (authority_rank a.authority_level ≡ authority_rank b.authority_level)
    open_pair (inl no_claim) y = cc (claims a c.key c.first c.a_key c.a_claim)
    open_pair (inr x) (inl no_claim) = cc (claims b c.key c.second c.b_key c.b_claim)
    open_pair (inr (k, ga, ka)) (inr (j, gb, kb)) =
        let same : j ≡ k = sym (group_of j c.key b c.b_key gb) ∙ group_of k c.key a c.a_key ga in
        kept_pair (select (in_group k) candidates) ka
          (subst (λ i. Kept (select (in_group i) candidates) b) same kb)
