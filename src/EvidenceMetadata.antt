-- ===== src/EvidenceMetadata.antt =====
-- infrastructure/db/repositories/evidence_governance.py: what the database knows of the documents whose
-- chunks are candidates for evidence, with AuthorityLevel of domain/enums.py.
use it_outsourcing_knowledge.Base.{
  ℕ, String, Bool, false, ◌&&◌, Option, none, some, List, [], ◌∷◌, max, str_eq, ◌==◌, if◌then◌else◌,
  get_or,
}
use it_outsourcing_knowledge.Base.Exec.{Result, ok, err, value_error}
use it_outsourcing_knowledge.Base.Table.{Table, find}
use it_outsourcing_knowledge.Documents.{
  DocumentLifecycleStatus, is_published, Document, DocumentVersion, DocumentStore,
}
use it_outsourcing_knowledge.Access.{str_mem}

pub data AuthorityLevel : Type 0 where
  signed_scope approved_change requirement_baseline approved_meeting_minutes approved_design :
      AuthorityLevel
  approved_test_spec release_runbook issue_record informal_note : AuthorityLevel

-- `AuthorityLevel(value)`
unfoldable pub authority_of : String → Option AuthorityLevel
authority_of s =
    if str_eq s "signed_scope"
    then some signed_scope
    else if str_eq s "approved_change"
    then some approved_change
    else if str_eq s "requirement_baseline"
    then some requirement_baseline
    else if str_eq s "approved_meeting_minutes"
    then some approved_meeting_minutes
    else if str_eq s "approved_design"
    then some approved_design
    else if str_eq s "approved_test_spec"
    then some approved_test_spec
    else if str_eq s "release_runbook"
    then some release_runbook
    else if str_eq s "issue_record"
    then some issue_record
    else if str_eq s "informal_note"
    then some informal_note
    else none

-- `_AUTHORITY_RANK`, the position in `AUTHORITY_ORDER`; 0 is the highest authority.
abbrev pub authority_rank : AuthorityLevel → ℕ
authority_rank signed_scope = 0
authority_rank approved_change = 1
authority_rank requirement_baseline = 2
authority_rank approved_meeting_minutes = 3
authority_rank approved_design = 4
authority_rank approved_test_spec = 5
authority_rank release_runbook = 6
authority_rank issue_record = 7
authority_rank informal_note = 8

-- The values of `DocumentCategory`.
abbrev pub document_categories : List String
document_categories =
    "requirement_baseline" ∷ "approved_design" ∷ "api_specification" ∷ "database_design"
    ∷ "approved_test_spec" ∷ "release_runbook" ∷ "approved_meeting_minutes" ∷ "issue_record" ∷ []

pub record DocumentEvidenceMetadata : Type 0 where
  pub document_version_id : ℕ
  pub document_id : ℕ
  pub project_id : ℕ
  pub document_category : String
  pub title : String
  pub authority_level : AuthorityLevel
  pub lifecycle_status : DocumentLifecycleStatus
  pub version_no : ℕ
  pub version_label : String
  pub effective_from : Option ℕ
  pub effective_to : Option ℕ
  pub is_current : Bool

-- `current_versions.get(document_id)`: `max(version_no)` of the document's published versions.
unfoldable pub current_version : ℕ → Table DocumentVersion → Option ℕ
current_version document [] = none
current_version document ((id, v) ∷ vs) =
    let rest = current_version document vs in
    if v.document_id == document && is_published v.lifecycle_status
    then some (max v.version_no (get_or rest 0))
    else rest

abbrev pub is_number : ℕ → Option ℕ → Bool
is_number n none = false
is_number n (some m) = m == n

-- The value for one row; a category or an authority that is not of the enumeration raises.
unfoldable pub to_metadata :
    DocumentStore
    → ℕ
    → DocumentVersion
    → Document
    → Option AuthorityLevel
    → Result DocumentEvidenceMetadata
to_metadata store id v d none = err value_error
to_metadata store id v d (some authority) =
    if str_mem d.document_category document_categories
    then ok (record {
      document_version_id = id;
      document_id = v.document_id;
      project_id = d.project_id;
      document_category = d.document_category;
      title = d.title;
      authority_level = authority;
      lifecycle_status = v.lifecycle_status;
      version_no = v.version_no;
      version_label = v.version_label;
      effective_from = v.effective_from;
      effective_to = v.effective_to;
      is_current =
          is_published v.lifecycle_status
          && is_number v.version_no (current_version v.document_id store.versions);
    })
    else err value_error

-- The row of the join for a version, if there is one.
unfoldable pub joined_row : DocumentStore → ℕ → Option (DocumentVersion × Document)
joined_row store id = elim (find id store.versions) [
  | none ↦ none
  | some v ↦ elim (find v.document_id store.documents) [ none ↦ none | some d ↦ some (v, d) ]
]

abbrev pub cons_ok : {A : Type 0} → Result A → Result (List A) → Result (List A)
cons_ok (ok a) (ok xs) = ok (a ∷ xs)
cons_ok (ok a) (err e) = err e
cons_ok (err e) r = err e

-- The dictionary that the repository returns, as the list of its values.
unfoldable pub get_document_evidence_metadata :
    DocumentStore → List ℕ → Result (List DocumentEvidenceMetadata)
get_document_evidence_metadata store [] = ok []
get_document_evidence_metadata store (id ∷ ids) =
    let rest = get_document_evidence_metadata store ids in
    elim (joined_row store id) [
      | none ↦ rest
      | some (v, d) ↦ cons_ok (to_metadata store id v d (authority_of v.authority_level)) rest
    ]

-- `metadata.get(version_id)`
unfoldable pub metadata_for : ℕ → List DocumentEvidenceMetadata → Option DocumentEvidenceMetadata
metadata_for id [] = none
metadata_for id (m ∷ ms) =
    let rest = metadata_for id ms in if m.document_version_id == id then some m else rest
