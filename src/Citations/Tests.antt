-- ===== src/Citations/Tests.antt =====
-- An answer of one claim that cites one piece of evidence, and the same answer for another project.
use it_outsourcing_knowledge.Base.{◌≡◌, ◌↔◌, refl, true, none, [], ◌∷◌}
use it_outsourcing_knowledge.Documents.{published}
use it_outsourcing_knowledge.Citations.{
  FrozenEvidence, FrozenEvidenceBundle, GroundedAnswerDraft, cross_project_evidence, count_label,
  evidence_by_label, duplicate_errors, item_errors, labels_errors, claim_errors, claims_errors,
  count_covered, disclosures_errors, conflict_errors, has_error, distinct_errors, all_errors,
  validate,
}
use it_outsourcing_knowledge.Citations.Grounded.{IsGrounded}
use it_outsourcing_knowledge.Citations.Complete.{valid_iff}

abbrev evidence : FrozenEvidence
evidence = record { label = "E1"; project_id = 7; lifecycle_status = published; is_current = true }

abbrev bundle : FrozenEvidenceBundle
bundle = record { evidence = evidence ∷ []; unresolved_conflicts = [] }

abbrev draft : GroundedAnswerDraft
draft = record {
  claims = record { claim_text = "It is so."; evidence_ids = "E1" ∷ [] } ∷ [];
  conflict_disclosure = none;
}

valid_iff_example : ((validate draft bundle 7).valid ≡ true) ↔ IsGrounded draft bundle 7
valid_iff_example = valid_iff draft bundle 7

accepted : (validate draft bundle 7).valid ≡ true
unfolding validate all_errors duplicate_errors count_label claims_errors claim_errors labels_errors
    item_errors evidence_by_label disclosures_errors conflict_errors count_covered
accepted = refl

refused : (validate draft bundle 8).errors ≡ cross_project_evidence "E1" ∷ []
unfolding validate all_errors duplicate_errors count_label claims_errors claim_errors labels_errors
    item_errors evidence_by_label disclosures_errors conflict_errors count_covered distinct_errors
    has_error
refused = refl
