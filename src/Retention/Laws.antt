-- ===== src/Retention/Laws.antt =====
-- What a sweep deletes and reports.
use it_outsourcing_knowledge.Base.{
  ◌≡◌, refl, sym, ap, ◌∙◌, subst, inl, inr, String, Bool, true, false, not, List, [], ◌∷◌, All,
  select, if◌then◌else◌, Bool-cases,
}
use it_outsourcing_knowledge.Base.Exec.{ok, bind_ok, bind_keeps, pair_ok}
use it_outsourcing_knowledge.Retention.{
  RetentionCandidate, RetentionSweepResult, RetentionRepository, is_protected, ids, delete_all,
  sweep,
}

unprotected :
    (upper : String → String) (cs : List RetentionCandidate)
    → All (λ c. is_protected upper c ≡ false) (select (λ c. not (is_protected upper c)) cs)
unprotected upper [] = tt
unprotected upper (c ∷ cs) = elim (Bool-cases (is_protected upper c)) [
  | inl kept ↦ rw kept (unprotected upper cs)
  | inr free ↦ rw free (free, unprotected upper cs)
]

module _ {S : Type 0} (upper : String → String) (repository : RetentionRepository S) where
  delete_all_keeps :
      (P : S → Type 0)
      → ((c : RetentionCandidate) (s : S)
          → is_protected upper c ≡ false
          → P s
          → P (repository.delete_candidate c s).1)
      → (cs : List RetentionCandidate) → All (λ c. is_protected upper c ≡ false) cs
      → (s : S) → P s
      → P (delete_all upper repository cs s).1
  unfolding delete_all
  delete_all_keeps P deleting [] free s h = h
  delete_all_keeps P deleting (c ∷ cs) (first, rest) s h =
      bind_keeps P (repository.delete_candidate c) _ s (deleting c s first h) (λ u t g.
        bind_keeps P (delete_all upper repository cs) _ t (delete_all_keeps P deleting cs rest t g)
          (λ d w k. k))

  -- What the listing of candidates and the deletion of any candidate that is under no legal hold
  -- and whose status is safe to clean up keep true of the repository, a sweep keeps true, also when
  -- it raises; for a dry run it is enough that the listing keeps it.
  pub sweep_keeps :
      (P : S → Type 0) (dry_run : Bool) (policy : String) (s : S)
      → ((t : S) → P t → P (repository.list_candidates policy t).1)
      → (dry_run ≡ false
          → (c : RetentionCandidate) (t : S) → is_protected upper c ≡ false
          → P t
          → P (repository.delete_candidate c t).1)
      → P s
      → P (sweep upper repository dry_run policy s).1
  unfolding sweep
  sweep_keeps P true policy s listing deleting h =
      bind_keeps P (repository.list_candidates policy) _ s (listing s h) (λ cs t g. g)
  sweep_keeps P false policy s listing deleting h =
      bind_keeps P (repository.list_candidates policy) _ s (listing s h) (λ cs t g.
        bind_keeps P (delete_all upper repository (select (λ c. not (is_protected upper c)) cs)) _ t
          (delete_all_keeps P (deleting refl) (select (λ c. not (is_protected upper c)) cs)
            (unprotected upper cs) t g)
          (λ d w k. k))

  -- The candidates are deleted one after the other, from the first state to the second.
  abbrev pub Deletes : List RetentionCandidate → S → S → Type 0
  Deletes [] s t = t ≡ s
  Deletes (c ∷ cs) s t = (u : S) × (repository.delete_candidate c s ≡ (ok tt, u)) × Deletes cs u t

  delete_all_ok :
      (cs : List RetentionCandidate) (s : S) (out : List String) (t : S)
      → delete_all upper repository cs s ≡ (ok out, t)
      → (out ≡ ids cs) × Deletes cs s t
  unfolding delete_all
  delete_all_ok [] s out t h = (sym (pair_ok [] out s t h).0, sym (pair_ok [] out s t h).1)
  delete_all_ok (c ∷ cs) s out t h =
      let (u, s1, a, h1) = bind_ok (repository.delete_candidate c) _ s out t h in
      let (deleted, s2, b, h2) = bind_ok (delete_all upper repository cs) _ s1 out t h1 in
      let (same, rest) = delete_all_ok cs s1 deleted s2 b in
      let (result, last) = pair_ok (c.resource_id ∷ deleted) out s2 t h2 in
      (sym result ∙ ap (λ d. c.resource_id ∷ d) same, (s1, a, subst (Deletes cs s1) last rest))

  -- A sweep that returns has listed the candidates and, unless it is a dry run, deleted all of them
  -- that are eligible, each exactly once, in the order of the list and with no other write; it
  -- reports which ones are protected, which ones are eligible and which ones it deleted.
  pub sweep_ok :
      (dry_run : Bool) (policy : String) (s : S) (out : RetentionSweepResult) (t : S)
      → sweep upper repository dry_run policy s ≡ (ok out, t)
      → (cs : List RetentionCandidate) × (listed : S) × (repository.list_candidates policy s
          ≡ (ok cs, listed))
        × Deletes (if dry_run then [] else select (λ c. not (is_protected upper c)) cs) listed t
        × (out.eligible_ids ≡ ids (select (λ c. not (is_protected upper c)) cs))
        × (out.protected_ids ≡ ids (select (is_protected upper) cs))
        × (out.deleted_ids ≡ (if dry_run then [] else out.eligible_ids))
  unfolding sweep
  sweep_ok true policy s out t h =
      let (cs, s1, a, h1) = bind_ok (repository.list_candidates policy) _ s out t h in
      let (same, last) = pair_ok _ out s1 t h1 in
      (
        cs,
        s1,
        a,
        sym last,
        ap (λ r. r.eligible_ids) (sym same),
        ap (λ r. r.protected_ids) (sym same),
        ap (λ r. r.deleted_ids) (sym same),
      )
  sweep_ok false policy s out t h =
      let (cs, s1, a, h1) = bind_ok (repository.list_candidates policy) _ s out t h in
      let eligible = select (λ c. not (is_protected upper c)) cs in
      let (deleted, s2, b, h2) = bind_ok (delete_all upper repository eligible) _ s1 out t h1 in
      let (same, last) = pair_ok _ out s2 t h2 in
      let (all, gone) = delete_all_ok eligible s1 deleted s2 b in
      (
        cs,
        s1,
        a,
        subst (Deletes eligible s1) last gone,
        ap (λ r. r.eligible_ids) (sym same),
        ap (λ r. r.protected_ids) (sym same),
        ap (λ r. r.deleted_ids) (sym same) ∙ all ∙ ap (λ r. r.eligible_ids) same,
      )
