-- ===== src/Citations/Grounded.antt =====
-- What a grounded answer is, told without the messages of the guard of
-- application/services/citation_guard.py, and from the guard's verdict to it.
use it_outsourcing_knowledge.Base.{
  is_nil, ℕ, suc, ◌≤◌, ◌≡◌, refl, sym, ◌∙◌, String, Bool, true, false, not, ◌&&◌, Option, none,
  some, List, [], ◌∷◌, ◌++◌, map, arith, inl, inr, Bool-cases, All, ltb, ◌==◌, ==_iff, is_some,
}
use it_outsourcing_knowledge.Documents.{is_published}
use it_outsourcing_knowledge.Access.{str_mem}
use it_outsourcing_knowledge.Citations.{
  FrozenEvidence, FrozenEvidenceBundle, GroundedAnswerClaim, ConflictDisclosure,
  GroundedAnswerDraft, CitationError, no_factual_claims, cross_project_evidence,
  non_current_evidence, missing_conflict_disclosure, count_label, evidence_by_label,
  duplicate_errors, when_not, item_errors, labels_errors, claim_errors, claims_errors,
  disclosed_errors, disclosures_errors, disclosed_ids, is_subset, conflict_errors, all_errors,
  validate,
}

-- The label stands for evidence of the project.
abbrev pub IsKnown : ℕ → List FrozenEvidence → String → Type 0
IsKnown project evidence label =
    (item : FrozenEvidence) × (evidence_by_label label evidence ≡ some item)
    × (item.project_id ≡ project)

-- It stands for evidence of the project that is published and current.
abbrev pub IsCitable : ℕ → List FrozenEvidence → String → Type 0
IsCitable project evidence label =
    (item : FrozenEvidence) × (evidence_by_label label evidence ≡ some item)
    × (item.project_id ≡ project)
    × (is_published item.lifecycle_status ≡ true)
    × (item.is_current ≡ true)

abbrev pub IsCited : ℕ → List FrozenEvidence → GroundedAnswerClaim → Type 0
IsCited project evidence claim =
    (is_nil claim.evidence_ids ≡ false) × All (IsCitable project evidence) claim.evidence_ids

abbrev pub IsDisclosed : Option ConflictDisclosure → String × List String → Type 0
IsDisclosed disclosure conflict =
    (is_some disclosure ≡ true) × All (λ l. str_mem l (disclosed_ids disclosure) ≡ true) conflict.1

pub record IsGrounded (draft : GroundedAnswerDraft) (bundle : FrozenEvidenceBundle) (project : ℕ)
    : Type 0 where
  pub unique :
      All
        (λ l. count_label l (map (λ e. e.label) bundle.evidence) ≤ 1)
        (map (λ e. e.label) bundle.evidence)
  pub cited : All (IsCited project bundle.evidence) draft.claims
  pub known : All (IsKnown project bundle.evidence) (disclosed_ids draft.conflict_disclosure)
  pub disclosed : All (IsDisclosed draft.conflict_disclosure) bundle.unresolved_conflicts
  pub some_claim : is_nil draft.claims ≡ false

and_true : (a b : Bool) → (a && b) ≡ true → (a ≡ true) × (b ≡ true)
and_true true true h = (refl, refl)
and_true true false h = cc
and_true false b h = cc

pub and_intro : (a b : Bool) → a ≡ true → b ≡ true → (a && b) ≡ true
and_intro true b h k = k
and_intro false b h k = h

nil_parts :
    {A : Type 0} (xs ys : List A)
    → is_nil (xs ++ ys) ≡ true
    → (is_nil xs ≡ true) × (is_nil ys ≡ true)
nil_parts [] ys h = (refl, h)
nil_parts (x ∷ xs) ys h = cc

pub nil_both :
    {A : Type 0} (xs ys : List A) → is_nil xs ≡ true → is_nil ys ≡ true → is_nil (xs ++ ys) ≡ true
nil_both [] ys h k = k
nil_both (x ∷ xs) ys h k = h

pub when_not_nil : (b : Bool) (e : CitationError) → is_nil (when_not b e) ≡ b
when_not_nil true e = refl
when_not_nil false e = refl

unique_of :
    (labels ls : List String)
    → is_nil (duplicate_errors labels ls) ≡ true
    → All (λ l. count_label l labels ≤ 1) ls
unfolding duplicate_errors
unique_of labels [] h = tt
unique_of labels (l ∷ ls) h = elim (Bool-cases (ltb 1 (count_label l labels))) [
  | inl twice ↦ absurd (cc (rw twice at h))
  | inr once ↦ (ground (arith, once), unique_of labels ls (rw once at h))
]

module _ (project : ℕ) (evidence : List FrozenEvidence) where
  citable_item :
      (label : String) (o : Option FrozenEvidence)
      → is_nil (item_errors project label o) ≡ true
      → (item : FrozenEvidence) × (o ≡ some item)
        × (item.project_id ≡ project)
        × (is_published item.lifecycle_status ≡ true)
        × (item.is_current ≡ true)
  unfolding item_errors
  citable_item label none h = cc
  citable_item label (some item) h =
      let (own, live) = nil_parts _ _ h in
      let own' =
        sym (when_not_nil (item.project_id == project) (cross_project_evidence label)) ∙ own in
      let live' =
        sym (
          when_not_nil (is_published item.lifecycle_status && item.is_current)
            (non_current_evidence label))
        ∙ live in
      let (published, current) = and_true _ _ live' in
      (item, refl, (==_iff item.project_id project).0 own', published, current)

  labels_sound :
      (ls : List String)
      → is_nil (labels_errors project evidence ls) ≡ true
      → All (IsCitable project evidence) ls
  unfolding labels_errors
  labels_sound [] h = tt
  labels_sound (l ∷ ls) h =
      let (here, rest) = nil_parts _ _ h in
      (citable_item l (evidence_by_label l evidence) here, labels_sound ls rest)

  claim_sound :
      (index : ℕ) (claim : GroundedAnswerClaim)
      → is_nil (claim_errors project evidence index claim) ≡ true
      → IsCited project evidence claim
  unfolding claim_errors
  claim_sound index claim h = elim (Bool-cases (is_nil claim.evidence_ids)) [
    | inl bare ↦ absurd (cc (rw bare at h))
    | inr full ↦ (full, labels_sound claim.evidence_ids (rw full at h))
  ]

  claims_sound :
      (index : ℕ) (claims : List GroundedAnswerClaim)
      → is_nil (claims_errors project evidence index claims) ≡ true
      → All (IsCited project evidence) claims
  unfolding claims_errors
  claims_sound index [] h = tt
  claims_sound index (c ∷ cs) h =
      let (here, rest) = nil_parts _ _ h in
      (claim_sound index c here, claims_sound (suc index) cs rest)

  known_item :
      (label : String) (o : Option FrozenEvidence)
      → is_nil (disclosed_errors project label o) ≡ true
      → (item : FrozenEvidence) × (o ≡ some item) × (item.project_id ≡ project)
  unfolding disclosed_errors
  known_item label none h = cc
  known_item label (some item) h =
      let own =
        sym (when_not_nil (item.project_id == project) (cross_project_evidence label)) ∙ h in
      (item, refl, (==_iff item.project_id project).0 own)

  disclosure_sound :
      (ls : List String)
      → is_nil (disclosures_errors project evidence ls) ≡ true
      → All (IsKnown project evidence) ls
  unfolding disclosures_errors
  disclosure_sound [] h = tt
  disclosure_sound (l ∷ ls) h =
      let (here, rest) = nil_parts _ _ h in
      (known_item l (evidence_by_label l evidence) here, disclosure_sound ls rest)

subset_sound : (xs ys : List String) → is_subset xs ys ≡ true → All (λ l. str_mem l ys ≡ true) xs
unfolding is_subset
subset_sound [] ys h = tt
subset_sound (x ∷ xs) ys h =
    let (here, rest) = and_true (str_mem x ys) (is_subset xs ys) h in
    (here, subset_sound xs ys rest)

conflicts_sound :
    (d : Option ConflictDisclosure) (cs : List (String × List String))
    → is_nil (conflict_errors d cs) ≡ true
    → All (IsDisclosed d) cs
unfolding conflict_errors
conflicts_sound d [] h = tt
conflicts_sound d ((key, required) ∷ cs) h =
    let (here, rest) = nil_parts _ _ h in
    let both =
      sym (
        when_not_nil (is_some d && is_subset required (disclosed_ids d))
          (missing_conflict_disclosure key))
      ∙ here in
    let (there, subset) = and_true (is_some d) (is_subset required (disclosed_ids d)) both in
    ((there, subset_sound required (disclosed_ids d) subset), conflicts_sound d cs rest)

not-true : (b : Bool) → not b ≡ true → b ≡ false
not-true true h = cc
not-true false h = refl

-- An answer that the guard accepts makes at least one claim, and every claim cites something; what
-- it cites is evidence of the project that is published and current; the labels of the evidence
-- are distinct; what the disclosure names is evidence of the project; and every unresolved
-- conflict is disclosed with all that it requires.
pub valid-IsGrounded :
    (draft : GroundedAnswerDraft) (bundle : FrozenEvidenceBundle) (project : ℕ)
    → (validate draft bundle project).valid ≡ true
    → IsGrounded draft bundle project
unfolding validate all_errors
valid-IsGrounded draft bundle project h =
    let labels = map (λ e. e.label) bundle.evidence in
    let none_left = (and_true (is_nil (all_errors draft bundle project)) _ h).0 in
    let (unique, h1) = nil_parts (duplicate_errors labels labels) _ none_left in
    let (cited, h2) = nil_parts (claims_errors project bundle.evidence 1 draft.claims) _ h1 in
    let (known, h3) =
      nil_parts
        (disclosures_errors project bundle.evidence (disclosed_ids draft.conflict_disclosure)) _
        h2 in
    let (disclosed, h4) =
      nil_parts (conflict_errors draft.conflict_disclosure bundle.unresolved_conflicts) _ h3 in
    record {
      unique = unique_of labels labels unique;
      cited = claims_sound project bundle.evidence 1 draft.claims cited;
      known =
          disclosure_sound project bundle.evidence (disclosed_ids draft.conflict_disclosure) known;
      disclosed = conflicts_sound draft.conflict_disclosure bundle.unresolved_conflicts disclosed;
      some_claim =
          not-true (is_nil draft.claims)
            (sym (when_not_nil (not (is_nil draft.claims)) no_factual_claims) ∙ h4);
    }
