-- ===== src/Citations.antt =====
-- application/services/citation_guard.py over domain/evidence.py: the test that every claim of a
-- drafted answer cites evidence of the project that is published and current.
pub mod Grounded
pub mod Complete
mod Tests
use it_outsourcing_knowledge.Base.{
  ℕ, suc, String, Bool, true, false, not, ◌&&◌, ◌||◌, Option, none, some, List, [], ◌∷◌, ◌++◌, map,
  str_eq, ltb, ◌==◌, if◌then◌else◌, is_some, is_nil, length,
}
use it_outsourcing_knowledge.Documents.{DocumentLifecycleStatus, is_published}
use it_outsourcing_knowledge.Access.{str_mem}

-- The fields of `FrozenEvidence` that the guard reads.
pub record FrozenEvidence : Type 0 where
  pub label : String
  pub project_id : ℕ
  pub lifecycle_status : DocumentLifecycleStatus
  pub is_current : Bool

-- The dictionary of conflicts is the list of its items.
pub record FrozenEvidenceBundle : Type 0 where
  pub evidence : List FrozenEvidence
  pub unresolved_conflicts : List (String × List String)

pub record GroundedAnswerClaim : Type 0 where
  pub claim_text : String
  pub evidence_ids : List String

pub record ConflictDisclosure : Type 0 where
  pub disclosure_text : String
  pub evidence_ids : List String

pub record GroundedAnswerDraft : Type 0 where
  pub claims : List GroundedAnswerClaim
  pub conflict_disclosure : Option ConflictDisclosure

-- The guard's messages: one constructor for each prefix, with what stands after the colon.
pub data CitationError : Type 0 where
  duplicate_evidence_label : String → CitationError
  uncited_claim : ℕ → CitationError
  unknown_evidence_id : String → CitationError
  cross_project_evidence : String → CitationError
  non_current_evidence : String → CitationError
  missing_conflict_disclosure : String → CitationError
  no_factual_claims : CitationError

-- The coverage is kept as its fraction: the claims that are covered, and all of them.
pub record CitationValidationResult : Type 0 where
  pub valid : Bool
  pub covered_claims : ℕ
  pub total_claims : ℕ
  pub errors : List CitationError
  pub used_evidence_ids : List String

-- `labels.count(label)`
unfoldable pub count_label : String → List String → ℕ
count_label label [] = 0
count_label label (l ∷ ls) =
    let rest = count_label label ls in if str_eq l label then suc rest else rest

-- `evidence_by_label.get(label)`: of two items with one label the later one is kept.
unfoldable pub evidence_by_label : String → List FrozenEvidence → Option FrozenEvidence
evidence_by_label label [] = none
evidence_by_label label (e ∷ es) =
    let rest = evidence_by_label label es in
    if is_some rest then rest else if str_eq e.label label then some e else none

-- The first loop, over the labels.
unfoldable pub duplicate_errors : List String → List String → List CitationError
duplicate_errors labels [] = []
duplicate_errors labels (l ∷ ls) =
    let rest = duplicate_errors labels ls in
    if ltb 1 (count_label l labels) then duplicate_evidence_label l ∷ rest else rest

abbrev pub when_not : Bool → CitationError → List CitationError
when_not true e = []
when_not false e = e ∷ []

-- What a label of a claim adds to the errors. The flag `claim_valid` is cleared wherever one is.
unfoldable pub item_errors : ℕ → String → Option FrozenEvidence → List CitationError
item_errors project label none = unknown_evidence_id label ∷ []
item_errors project label (some item) =
    when_not (item.project_id == project) (cross_project_evidence label)
    ++ when_not (is_published item.lifecycle_status && item.is_current) (non_current_evidence label)

unfoldable pub labels_errors : ℕ → List FrozenEvidence → List String → List CitationError
labels_errors project evidence [] = []
labels_errors project evidence (l ∷ ls) =
    item_errors project l (evidence_by_label l evidence) ++ labels_errors project evidence ls

-- One pass of the loop over the claims; an uncited claim has no label to go through.
unfoldable pub claim_errors : ℕ → List FrozenEvidence → ℕ → GroundedAnswerClaim → List CitationError
claim_errors project evidence index claim =
    if is_nil claim.evidence_ids
    then uncited_claim index ∷ []
    else labels_errors project evidence claim.evidence_ids

unfoldable pub claims_errors :
    ℕ → List FrozenEvidence → ℕ → List GroundedAnswerClaim → List CitationError
claims_errors project evidence index [] = []
claims_errors project evidence index (c ∷ cs) =
    claim_errors project evidence index c ++ claims_errors project evidence (suc index) cs

unfoldable pub count_covered : ℕ → List FrozenEvidence → ℕ → List GroundedAnswerClaim → ℕ
count_covered project evidence index [] = 0
count_covered project evidence index (c ∷ cs) =
    let rest = count_covered project evidence (suc index) cs in
    if is_nil (claim_errors project evidence index c) then suc rest else rest

-- What a label of the disclosure adds to the errors.
unfoldable pub disclosed_errors : ℕ → String → Option FrozenEvidence → List CitationError
disclosed_errors project label none = unknown_evidence_id label ∷ []
disclosed_errors project label (some item) =
    when_not (item.project_id == project) (cross_project_evidence label)

unfoldable pub disclosures_errors : ℕ → List FrozenEvidence → List String → List CitationError
disclosures_errors project evidence [] = []
disclosures_errors project evidence (l ∷ ls) =
    disclosed_errors project l (evidence_by_label l evidence)
    ++ disclosures_errors project evidence ls

-- `disclosure.evidence_ids`, if there is a disclosure.
abbrev pub disclosed_ids : Option ConflictDisclosure → List String
disclosed_ids none = []
disclosed_ids (some d) = d.evidence_ids

-- `set(required_ids).issubset(disclosure_ids)`
unfoldable pub is_subset : List String → List String → Bool
is_subset [] ys = true
is_subset (x ∷ xs) ys = str_mem x ys && is_subset xs ys

unfoldable pub conflict_errors :
    Option ConflictDisclosure → List (String × List String) → List CitationError
conflict_errors disclosure [] = []
conflict_errors disclosure ((key, required) ∷ cs) =
    when_not (is_some disclosure && is_subset required (disclosed_ids disclosure))
      (missing_conflict_disclosure key)
    ++ conflict_errors disclosure cs

-- The list `used`, to which a known label is added once.
unfoldable pub use_labels : List FrozenEvidence → List String → List String → List String
use_labels evidence used [] = used
use_labels evidence used (l ∷ ls) =
    use_labels evidence
      (if is_some (evidence_by_label l evidence) && not (str_mem l used)
        then used ++ (l ∷ [])
        else used)
      ls

unfoldable pub use_claims :
    List FrozenEvidence → List String → List GroundedAnswerClaim → List String
use_claims evidence used [] = used
use_claims evidence used (c ∷ cs) = use_claims evidence (use_labels evidence used c.evidence_ids) cs

-- Equality of messages.
unfoldable pub same_error : CitationError → CitationError → Bool
same_error (duplicate_evidence_label a) (duplicate_evidence_label b) = str_eq a b
same_error (uncited_claim a) (uncited_claim b) = a == b
same_error (unknown_evidence_id a) (unknown_evidence_id b) = str_eq a b
same_error (cross_project_evidence a) (cross_project_evidence b) = str_eq a b
same_error (non_current_evidence a) (non_current_evidence b) = str_eq a b
same_error (missing_conflict_disclosure a) (missing_conflict_disclosure b) = str_eq a b
same_error no_factual_claims no_factual_claims = true
same_error _ _ = false

unfoldable pub has_error : CitationError → List CitationError → Bool
has_error e [] = false
has_error e (x ∷ xs) = same_error e x || has_error e xs

-- `dict.fromkeys(errors)`: each message once, at its first place.
unfoldable pub distinct_errors : List CitationError → List CitationError → List CitationError
distinct_errors seen [] = []
distinct_errors seen (e ∷ es) =
    let kept = e ∷ distinct_errors (e ∷ seen) es in
    let left = distinct_errors seen es in if has_error e seen then left else kept

-- All messages, in the order of the code.
unfoldable pub all_errors : GroundedAnswerDraft → FrozenEvidenceBundle → ℕ → List CitationError
all_errors draft bundle project =
    let labels = map (λ e. e.label) bundle.evidence in
    duplicate_errors labels labels
    ++ (claims_errors project bundle.evidence 1 draft.claims
        ++ (disclosures_errors project bundle.evidence (disclosed_ids draft.conflict_disclosure)
            ++ (conflict_errors draft.conflict_disclosure bundle.unresolved_conflicts
                ++ when_not (not (is_nil draft.claims)) no_factual_claims)))

unfoldable pub validate : GroundedAnswerDraft → FrozenEvidenceBundle → ℕ → CitationValidationResult
validate draft bundle project =
    let errors = all_errors draft bundle project in
    let covered = count_covered project bundle.evidence 1 draft.claims in
    let total = length draft.claims in
    record {
      valid = is_nil errors && (not (total == 0) && covered == total);
      covered_claims = covered;
      total_claims = total;
      errors = distinct_errors [] errors;
      used_evidence_ids =
          use_labels bundle.evidence (use_claims bundle.evidence [] draft.claims)
            (disclosed_ids draft.conflict_disclosure);
    }
