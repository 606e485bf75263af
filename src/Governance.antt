-- ===== src/Governance.antt =====
-- application/services/evidence_governance.py over
-- infrastructure/db/repositories/evidence_governance.py, with the evidence of domain/evidence.py:
-- which retrieved chunks are evidence, how contradictions between them are settled by authority,
-- and how the evidence is ordered and labelled.
mod Resolve
mod Pack
mod Metadata
mod Ground
mod Tests
use it_outsourcing_knowledge.Base.{
  ℕ, suc, ◌+◌, String, Bool, true, false, not, ◌&&◌, ◌||◌, Option, none, some, List, [], ◌∷◌, ◌++◌,
  map, max, min, str_eq, ltb, leb, ◌==◌, if◌then◌else◌, is_some, is_none, get_or, select, take,
  drop, length, is_nil,
}
use Prim.Native.String.{◌++◌ as str_append}
use it_outsourcing_knowledge.Base.Decimal.{decimal}
use it_outsourcing_knowledge.Base.Exec.{Result, ok, err, value_error}
use it_outsourcing_knowledge.Base.Int.{ℤ, leb_ℤ}
use it_outsourcing_knowledge.Base.Sort.{sort}
use it_outsourcing_knowledge.Base.Table.{Table, find}
use it_outsourcing_knowledge.Base.Text.{strip, str_le, is_empty}
use it_outsourcing_knowledge.Base.Uuid.{UuidCodec}
use it_outsourcing_knowledge.Documents.{
  DocumentLifecycleStatus, is_published, Document, DocumentVersion, DocumentStore,
}
use it_outsourcing_knowledge.Access.{mem, str_mem, dedupe}
use it_outsourcing_knowledge.Knowledge.{KnowledgeChunk}
use it_outsourcing_knowledge.EvidenceMetadata.{
  authority_of, authority_rank, current_version, to_metadata, joined_row,
  get_document_evidence_metadata, metadata_for, AuthorityLevel, DocumentEvidenceMetadata,
  signed_scope, approved_change, requirement_baseline, approved_meeting_minutes, approved_design,
  approved_test_spec, release_runbook, issue_record, informal_note,
}

pub record GovernedEvidence : Type 0 where
  pub label : String
  pub project_id : ℕ
  pub project_code : String
  pub document_version_id : ℕ
  pub document_category : String
  pub document_title : String
  pub version_no : ℕ
  pub version_label : String
  pub authority_level : AuthorityLevel
  pub lifecycle_status : DocumentLifecycleStatus
  pub is_current : Bool
  pub effective_from : Option ℕ
  pub effective_to : Option ℕ
  pub content : String
  pub score : ℤ
  pub knowledge_space_id : Option String
  pub provider_ref : Option String
  pub page_no : Option ℕ
  pub section : Option String
  pub provider_metadata : List (String × String)
  pub conflict_key : Option String
  pub claim_value : Option String
  pub unresolved_conflict : Bool

-- The dictionary of conflicts is the list of its items.
pub record GovernedEvidencePack : Type 0 where
  pub evidence : List GovernedEvidence
  pub unresolved_conflicts : List (String × List String)

-- `metadata.get(key) or None`
unfoldable pub get_nonempty : String → List (String × String) → Option String
get_nonempty key [] = none
get_nonempty key ((k, v) ∷ kvs) =
    let rest = get_nonempty key kvs in
    if str_eq k key then (if is_empty v then none else some v) else rest

abbrev pub starts_later : Option ℕ → ℕ → Bool
starts_later none today = false
starts_later (some t) today = ltb today t

abbrev pub ended_before : Option ℕ → ℕ → Bool
ended_before none today = false
ended_before (some t) today = ltb t today

-- The four tests of the loop on what is known of a version.
unfoldable pub is_admissible : ℕ → ℕ → DocumentEvidenceMetadata → Bool
is_admissible project today info =
    info.project_id == project
    && (is_published info.lifecycle_status
        && info.is_current
        && (not (starts_later info.effective_from today)
            && not (ended_before info.effective_to today)))

-- The first loop: the chunks of the project whose version identifier can be read.
unfoldable pub parsed_chunks : UuidCodec → String → List KnowledgeChunk → List (KnowledgeChunk × ℕ)
parsed_chunks uuid code [] = []
parsed_chunks uuid code (c ∷ cs) =
    let rest = parsed_chunks uuid code cs in
    if str_eq c.project_id code
    then elim (uuid.parse c.document_version_id) [ none ↦ rest | some id ↦ (c, id) ∷ rest ]
    else rest

-- `dict.fromkeys(version_ids)`
unfoldable pub distinct_ids : List (KnowledgeChunk × ℕ) → List ℕ
distinct_ids [] = []
distinct_ids ((c, id) ∷ cs) = id ∷ select (λ j. not (j == id)) (distinct_ids cs)

unfoldable pub to_evidence :
    ℕ → String → DocumentEvidenceMetadata → KnowledgeChunk → GovernedEvidence
to_evidence project code info chunk = record {
  label = "";
  project_id = project;
  project_code = code;
  document_version_id = info.document_version_id;
  document_category = info.document_category;
  document_title = info.title;
  version_no = info.version_no;
  version_label = info.version_label;
  authority_level = info.authority_level;
  lifecycle_status = info.lifecycle_status;
  is_current = info.is_current;
  effective_from = info.effective_from;
  effective_to = info.effective_to;
  content = chunk.content;
  score = chunk.score;
  knowledge_space_id = chunk.knowledge_space_id;
  provider_ref = chunk.provider_ref;
  page_no = chunk.page_no;
  section = chunk.section;
  provider_metadata = chunk.metadata;
  conflict_key = get_nonempty "conflict_key" chunk.metadata;
  claim_value = get_nonempty "claim_value" chunk.metadata;
  unresolved_conflict = false;
}

unfoldable pub was_seen : ℕ → String → List (ℕ × String) → Bool
was_seen id content [] = false
was_seen id content ((j, s) ∷ seen) = j == id && str_eq s content || was_seen id content seen

-- The second loop, with the set `seen`.
unfoldable pub candidates_of :
    ℕ
    → String
    → ℕ
    → List DocumentEvidenceMetadata
    → List (ℕ × String)
    → List (KnowledgeChunk × ℕ)
    → List GovernedEvidence
candidates_of project code today infos seen [] = []
candidates_of project code today infos seen ((chunk, id) ∷ chunks) =
    let skipped = candidates_of project code today infos seen chunks in
    let after = candidates_of project code today infos ((id, strip chunk.content) ∷ seen) chunks in
    elim (metadata_for id infos) [
      | none ↦ skipped
      | some info ↦
          if is_admissible project today info && not (was_seen id (strip chunk.content) seen)
          then to_evidence project code info chunk ∷ after
          else skipped
    ]

-- `str(item.claim_value)` and the key, for an item that takes part in a conflict.
unfoldable pub has_claim : GovernedEvidence → Bool
has_claim e = is_some e.conflict_key && is_some e.claim_value

-- `groups[key]`
unfoldable pub in_group : String → GovernedEvidence → Bool
in_group key e = has_claim e && str_eq (get_or e.conflict_key "") key

-- The keys of `groups`, in the order of their first items.
unfoldable pub group_keys : List GovernedEvidence → List String
group_keys [] = []
group_keys (e ∷ es) =
    let rest = group_keys es in
    if has_claim e
    then get_or e.conflict_key "" ∷ select (λ k. not (str_eq k (get_or e.conflict_key ""))) rest
    else rest

abbrev pub claim_of : GovernedEvidence → String
claim_of e = get_or e.claim_value ""

-- `len({item.claim_value for item in values}) <= 1`
unfoldable pub one_value : List GovernedEvidence → Bool
one_value [] = true
one_value (e ∷ es) = is_nil (select (λ x. not (str_eq (claim_of x) (claim_of e))) es)

-- `min(rank(item) for item in values)` of a list that is not empty.
unfoldable pub best_rank : List GovernedEvidence → ℕ
best_rank [] = 8
best_rank (e ∷ es) = min (authority_rank e.authority_level) (best_rank es)

abbrev pub mark_unresolved : GovernedEvidence → GovernedEvidence
mark_unresolved e = record e { unresolved_conflict = true }

-- What is kept of a group.
unfoldable pub resolve_group : List GovernedEvidence → List GovernedEvidence
resolve_group values =
    let top = select (λ e. authority_rank e.authority_level == best_rank values) values in
    if one_value values then values else if one_value top then top else map mark_unresolved top

unfoldable pub resolve_groups : List GovernedEvidence → List String → List GovernedEvidence
resolve_groups candidates [] = []
resolve_groups candidates (k ∷ ks) =
    resolve_group (select (in_group k) candidates) ++ resolve_groups candidates ks

-- `_resolve_explicit_conflicts`
unfoldable pub resolve_explicit_conflicts : List GovernedEvidence → List GovernedEvidence
resolve_explicit_conflicts candidates =
    select (λ e. not (has_claim e)) candidates ++ resolve_groups candidates (group_keys candidates)

-- The sort key: authority, then score and version downwards, then the version's identifier.
unfoldable pub stronger_first : UuidCodec → GovernedEvidence → GovernedEvidence → Bool
stronger_first uuid a b =
    let ra = authority_rank a.authority_level in
    let rb = authority_rank b.authority_level in
    ltb ra rb
    || ra == rb
      && (not (leb_ℤ a.score b.score)
          || leb_ℤ a.score b.score
            && leb_ℤ b.score a.score
            && (ltb b.version_no a.version_no
                || a.version_no == b.version_no
                  && str_le (uuid.to_str a.document_version_id)
                      (uuid.to_str b.document_version_id)))

unfoldable pub is_protected : GovernedEvidence → Bool
is_protected e = e.unresolved_conflict && is_some e.conflict_key

-- The selection of a list in order: the first ones, and every unresolved item beyond them.
unfoldable pub select_evidence : UuidCodec → ℕ → List GovernedEvidence → List GovernedEvidence
select_evidence uuid limit items =
    let beyond = select is_protected (drop limit items) in
    sort (stronger_first uuid) (take limit items ++ beyond)

-- `replace(item, label=f"E{index}")`
unfoldable pub labelled : ℕ → List GovernedEvidence → List GovernedEvidence
labelled index [] = []
labelled index (e ∷ es) =
    record e { label = str_append "E" (decimal index) } ∷ labelled (suc index) es

-- `by_conflict[key]`
unfoldable pub in_conflict : String → GovernedEvidence → Bool
in_conflict key e = is_protected e && str_eq (get_or e.conflict_key "") key

unfoldable pub conflict_keys : List GovernedEvidence → List String
conflict_keys items =
    sort str_le (dedupe (map (λ e. get_or e.conflict_key "") (select is_protected items)))

unfoldable pub conflicts_for : List GovernedEvidence → List String → List (String × List String)
conflicts_for items [] = []
conflicts_for items (k ∷ ks) =
    let values = select (in_conflict k) items in
    let rest = conflicts_for items ks in
    if one_value values then rest else (k, map (λ e. e.label) values) ∷ rest

-- The part of `pack` after the candidates are known.
unfoldable pub pack_candidates : UuidCodec → ℕ → List GovernedEvidence → GovernedEvidencePack
pack_candidates uuid limit candidates =
    let items = sort (stronger_first uuid) (resolve_explicit_conflicts candidates) in
    let evidence = labelled 1 (select_evidence uuid limit items) in
    record {
      evidence = evidence;
      unresolved_conflicts = conflicts_for evidence (conflict_keys evidence);
    }

abbrev pub map_result : {A B : Type 0} → (A → B) → Result A → Result B
map_result f (ok a) = ok (f a)
map_result f (err e) = err e

unfoldable pub pack :
    UuidCodec
    → DocumentStore
    → ℕ
    → ℕ
    → ℕ
    → String
    → List KnowledgeChunk
    → Result GovernedEvidencePack
pack uuid store limit today project code chunks =
    let parsed = parsed_chunks uuid code chunks in
    map_result
      (λ infos. pack_candidates uuid limit (candidates_of project code today infos [] parsed))
      (get_document_evidence_metadata store (distinct_ids parsed))
