-- ===== src/Citations/Complete.antt =====
-- From a grounded answer to the verdict of the guard.
use it_outsourcing_knowledge.Base.{
  is_nil, ℕ, suc, ◌≤◌, ◌≡◌, refl, ap, ◌∙◌, ◌↔◌, String, true, false, not, ◌&&◌, Option, some, List,
  [], ◌∷◌, map, arith, inl, inr, Bool-cases, All, length, ltb, ◌==◌, ==_iff, is_some,
}
use it_outsourcing_knowledge.Documents.{is_published}
use it_outsourcing_knowledge.Access.{str_mem}
use it_outsourcing_knowledge.Citations.{
  FrozenEvidence, FrozenEvidenceBundle, GroundedAnswerClaim, ConflictDisclosure,
  GroundedAnswerDraft, no_factual_claims, cross_project_evidence, non_current_evidence,
  missing_conflict_disclosure, count_label, duplicate_errors, item_errors, labels_errors,
  claim_errors, claims_errors, count_covered, disclosed_errors, disclosures_errors, disclosed_ids,
  is_subset, conflict_errors, all_errors, validate,
}
use it_outsourcing_knowledge.Citations.Grounded.{
  IsKnown, IsCitable, IsCited, IsDisclosed, IsGrounded, and_intro, nil_both, when_not_nil,
  valid-IsGrounded,
}

no_duplicates :
    (labels ls : List String)
    → All (λ l. count_label l labels ≤ 1) ls
    → is_nil (duplicate_errors labels ls) ≡ true
unfolding duplicate_errors
no_duplicates labels [] h = refl
no_duplicates labels (l ∷ ls) h = elim (Bool-cases (ltb 1 (count_label l labels))) [
  | inl twice ↦ absurd (ground (arith, twice, h.0))
  | inr once ↦ rw once (no_duplicates labels ls h.1)
]

module _ (project : ℕ) (evidence : List FrozenEvidence) where
  clean_item :
      (label : String) (item : FrozenEvidence)
      → item.project_id ≡ project
      → is_published item.lifecycle_status ≡ true
      → item.is_current ≡ true
      → is_nil (item_errors project label (some item)) ≡ true
  unfolding item_errors
  clean_item label item own published current =
      nil_both _ _
        (when_not_nil (item.project_id == project) (cross_project_evidence label)
          ∙ (==_iff item.project_id project).1 own)
        (when_not_nil (is_published item.lifecycle_status && item.is_current)
            (non_current_evidence label)
          ∙ and_intro (is_published item.lifecycle_status) item.is_current published current)

  clean_labels :
      (ls : List String)
      → All (IsCitable project evidence) ls
      → is_nil (labels_errors project evidence ls) ≡ true
  unfolding labels_errors
  clean_labels [] h = refl
  clean_labels (l ∷ ls) h =
      let (item, found, own, published, current) = h.0 in
      nil_both _ _
        (ap (λ o. is_nil (item_errors project l o)) found ∙ clean_item l item own published current)
        (clean_labels ls h.1)

  clean_claim :
      (index : ℕ) (claim : GroundedAnswerClaim)
      → IsCited project evidence claim
      → is_nil (claim_errors project evidence index claim) ≡ true
  unfolding claim_errors
  clean_claim index claim h = rw h.0 (clean_labels claim.evidence_ids h.1)

  clean_claims :
      (index : ℕ) (claims : List GroundedAnswerClaim)
      → All (IsCited project evidence) claims
      → is_nil (claims_errors project evidence index claims) ≡ true
  unfolding claims_errors
  clean_claims index [] h = refl
  clean_claims index (c ∷ cs) h =
      nil_both _ _ (clean_claim index c h.0) (clean_claims (suc index) cs h.1)

  -- Every claim is covered.
  coverage_is_full :
      (index : ℕ) (claims : List GroundedAnswerClaim)
      → All (IsCited project evidence) claims
      → count_covered project evidence index claims ≡ length claims
  unfolding count_covered
  coverage_is_full index [] h = refl
  coverage_is_full index (c ∷ cs) h =
      rw (clean_claim index c h.0) (ap suc (coverage_is_full (suc index) cs h.1))

  clean_disclosures :
      (ls : List String)
      → All (IsKnown project evidence) ls
      → is_nil (disclosures_errors project evidence ls) ≡ true
  unfolding disclosures_errors disclosed_errors
  clean_disclosures [] h = refl
  clean_disclosures (l ∷ ls) h =
      let (item, found, own) = h.0 in
      nil_both _ _
        (ap (λ o. is_nil (disclosed_errors project l o)) found
          ∙ when_not_nil (item.project_id == project) (cross_project_evidence l)
          ∙ (==_iff item.project_id project).1 own)
        (clean_disclosures ls h.1)

subset_of_each : (xs ys : List String) → All (λ l. str_mem l ys ≡ true) xs → is_subset xs ys ≡ true
unfolding is_subset
subset_of_each [] ys h = refl
subset_of_each (x ∷ xs) ys h =
    and_intro (str_mem x ys) (is_subset xs ys) h.0 (subset_of_each xs ys h.1)

clean_conflicts :
    (d : Option ConflictDisclosure) (cs : List (String × List String))
    → All (IsDisclosed d) cs
    → is_nil (conflict_errors d cs) ≡ true
unfolding conflict_errors
clean_conflicts d [] h = refl
clean_conflicts d ((key, required) ∷ cs) h =
    nil_both _ _
      (when_not_nil (is_some d && is_subset required (disclosed_ids d))
          (missing_conflict_disclosure key)
        ∙ and_intro (is_some d) (is_subset required (disclosed_ids d)) h.0.0
            (subset_of_each required (disclosed_ids d) h.0.1))
      (clean_conflicts d cs h.1)

IsGrounded-clean :
    (draft : GroundedAnswerDraft) (bundle : FrozenEvidenceBundle) (project : ℕ)
    → IsGrounded draft bundle project
    → is_nil (all_errors draft bundle project) ≡ true
unfolding all_errors
IsGrounded-clean draft bundle project h =
    let labels = map (λ e. e.label) bundle.evidence in
    nil_both (duplicate_errors labels labels) _ (no_duplicates labels labels h.unique) (
      nil_both (claims_errors project bundle.evidence 1 draft.claims) _
        (clean_claims project bundle.evidence 1 draft.claims h.cited)
        (nil_both
          (disclosures_errors project bundle.evidence (disclosed_ids draft.conflict_disclosure)) _
          (clean_disclosures project bundle.evidence (disclosed_ids draft.conflict_disclosure)
            h.known)
          (nil_both (conflict_errors draft.conflict_disclosure bundle.unresolved_conflicts) _
            (clean_conflicts draft.conflict_disclosure bundle.unresolved_conflicts h.disclosed)
            (when_not_nil (not (is_nil draft.claims)) no_factual_claims ∙ ap not h.some_claim))))

covered_some : (cs : List GroundedAnswerClaim) → is_nil cs ≡ false → not (length cs == 0) ≡ true
covered_some [] h = cc
covered_some (c ∷ cs) h = ground arith

-- The guard accepts an answer if and only if it makes at least one claim, every claim cites
-- something and only evidence of the project that is published and current, the labels of the
-- evidence are distinct, the disclosure names only evidence of the project, and every unresolved
-- conflict is disclosed with all that it requires.
pub valid_iff :
    (draft : GroundedAnswerDraft) (bundle : FrozenEvidenceBundle) (project : ℕ)
    → ((validate draft bundle project).valid ≡ true) ↔ IsGrounded draft bundle project
unfolding validate
valid_iff draft bundle project = (
  valid-IsGrounded draft bundle project,
  λ h.
      and_intro (is_nil (all_errors draft bundle project)) _
        (IsGrounded-clean draft bundle project h)
        (and_intro (not (length draft.claims == 0)) _ (covered_some draft.claims h.some_claim) (
          (==_iff (count_covered project bundle.evidence 1 draft.claims) (length draft.claims)).1
            (coverage_is_full project bundle.evidence 1 draft.claims h.cited))),
)
