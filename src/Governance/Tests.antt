-- ===== src/Governance/Tests.antt =====
-- Two signed documents of a project contradict each other, and a note says a third thing.
use it_outsourcing_knowledge.Base.{
  ℕ, ◌≡◌, refl, String, eq_iff, true, none, some, List, [], ◌∷◌, All,
}
use mathlib.Core.List.{Memᴰ}
use it_outsourcing_knowledge.Base.Decimal.{decimal}
use it_outsourcing_knowledge.Base.Exec.{ok}
use it_outsourcing_knowledge.Base.Int.{pos}
use it_outsourcing_knowledge.Base.Sort.{sort, insert}
use it_outsourcing_knowledge.Base.Table.{find}
use it_outsourcing_knowledge.Base.Text.{strip, str_le}
use it_outsourcing_knowledge.Documents.{published, Document, DocumentVersion, DocumentStore}
use it_outsourcing_knowledge.Access.{dedupe}
use it_outsourcing_knowledge.Knowledge.{KnowledgeChunk}
use it_outsourcing_knowledge.EvidenceMetadata.{
  authority_of, authority_rank, signed_scope, current_version, to_metadata, joined_row,
  get_document_evidence_metadata, metadata_for,
}
use it_outsourcing_knowledge.Governance.{
  GovernedEvidence, GovernedEvidencePack, get_nonempty, is_admissible, parsed_chunks, distinct_ids,
  to_evidence, was_seen, candidates_of, has_claim, in_group, group_keys, one_value, best_rank,
  resolve_group, resolve_groups, resolve_explicit_conflicts, stronger_first, is_protected,
  select_evidence, labelled, in_conflict, conflict_keys, conflicts_for, pack_candidates, pack,
}
use it_outsourcing_knowledge.Governance.Resolve.{Contradicts}
use it_outsourcing_knowledge.Governance.Pack.{Discloses}
use it_outsourcing_knowledge.Governance.Ground.{Grounded, pack-Grounded, pack-Discloses}
use it_outsourcing_knowledge.Samples.{strokes}

abbrev document : Document
document = record {
  company_id = 1;
  project_id = 7;
  document_category = "requirement_baseline";
  title = "Scope";
  owner_user_id = none;
}

abbrev version : ℕ → String → DocumentVersion
version d level = record {
  document_id = d;
  version_no = 1;
  version_label = "v1";
  authority_level = level;
  lifecycle_status = published;
  effective_from = none;
  effective_to = none;
  supersedes_version_id = none;
  source_uri = none;
  content_hash = none;
  published_at = none;
  created_by = 5;
}

abbrev store : DocumentStore
store = record {
  documents = (1, document) ∷ (2, document) ∷ (3, document) ∷ [];
  versions =
      (4, version 1 "signed_scope")
      ∷ (5, version 2 "signed_scope")
      ∷ (6, version 3 "informal_note")
      ∷ [];
}

abbrev chunk : String → String → ℕ → KnowledgeChunk
chunk id value score = record {
  project_id = "P";
  document_version_id = id;
  content = value;
  score = pos score;
  knowledge_space_id = none;
  provider_ref = none;
  page_no = none;
  section = none;
  metadata = ("conflict_key", "limit") ∷ ("claim_value", value) ∷ [];
}

abbrev chunks : List KnowledgeChunk
chunks = chunk "IIIIII" "30" 9 ∷ chunk "IIII" "10" 5 ∷ chunk "IIIII" "20" 7 ∷ []

abbrev evidence : String → ℕ → String → ℕ → GovernedEvidence
evidence label id value score = record {
  label = label;
  project_id = 7;
  project_code = "P";
  document_version_id = id;
  document_category = "requirement_baseline";
  document_title = "Scope";
  version_no = 1;
  version_label = "v1";
  authority_level = signed_scope;
  lifecycle_status = published;
  is_current = true;
  effective_from = none;
  effective_to = none;
  content = value;
  score = pos score;
  knowledge_space_id = none;
  provider_ref = none;
  page_no = none;
  section = none;
  provider_metadata = ("conflict_key", "limit") ∷ ("claim_value", value) ∷ [];
  conflict_key = some "limit";
  claim_value = some value;
  unresolved_conflict = true;
}

-- Beyond the limit of one item the other side of the conflict is kept too.
abbrev packed : GovernedEvidencePack
packed = record {
  evidence = evidence "E1" 5 "20" 7 ∷ evidence "E2" 4 "10" 5 ∷ [];
  unresolved_conflicts = ("limit", "E1" ∷ "E2" ∷ []) ∷ [];
}

pack_runs : pack strokes store 1 100 7 "P" chunks ≡ ok packed
unfolding pack parsed_chunks distinct_ids get_document_evidence_metadata joined_row find
    authority_of to_metadata current_version candidates_of metadata_for is_admissible was_seen strip
    to_evidence get_nonempty pack_candidates resolve_explicit_conflicts has_claim group_keys
    resolve_groups resolve_group in_group one_value best_rank sort insert stronger_first
    select_evidence is_protected labelled decimal conflict_keys conflicts_for in_conflict dedupe
    str_le
pack_runs = refl

pack-Grounded_example : All (Grounded strokes store 100 7 "P" chunks) packed.evidence
pack-Grounded_example = pack-Grounded strokes store 100 7 "P" chunks 1 packed pack_runs

abbrev contradiction : Contradicts (evidence "E1" 5 "20" 7) (evidence "E2" 4 "10" 5)
contradiction = record {
  key = "limit";
  first = "20";
  second = "10";
  a_key = refl;
  b_key = refl;
  a_claim = refl;
  b_claim = refl;
  apart = λ e. cc ((eq_iff "20" "10").1 e);
}

pack-Discloses_example :
    (true ≡ true)
    × (true ≡ true)
    × (authority_rank signed_scope ≡ authority_rank signed_scope)
    × Discloses packed.unresolved_conflicts "limit" "E1" "E2"
pack-Discloses_example =
    pack-Discloses strokes store 100 7 "P" chunks 1 packed (evidence "E1" 5 "20" 7)
      (evidence "E2" 4 "10" 5) pack_runs (Memᴰ.head refl) (Memᴰ.tail (Memᴰ.head refl)) contradiction
