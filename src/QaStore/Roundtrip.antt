-- ===== src/QaStore/Roundtrip.antt =====
-- Chunks that are saved as a bundle and loaded again.
use it_outsourcing_knowledge.Base.{◌*◌, ◌^◌, ◌%◌, ◌<◌, ℕ, suc, ◌≡◌, String, false, some, List, All}
use it_outsourcing_knowledge.Base.Int.{ℤ, pos, negsuc}
use it_outsourcing_knowledge.Base.Table.{Table}
use it_outsourcing_knowledge.Base.Text.{is_empty}
use it_outsourcing_knowledge.Base.Uuid.{UuidCodec}
use it_outsourcing_knowledge.Access.{str_mem}
use it_outsourcing_knowledge.Knowledge.{KnowledgeChunk}
use it_outsourcing_knowledge.QaRecords.{EvidenceBundle, candidate_chunks}
use it_outsourcing_knowledge.QaStore.{micro, reserved_keys}

-- A score of at most six decimals, between -100 and 100.
abbrev pub IsHeld : ℤ → Type 0
IsHeld (pos n) = (n % micro ≡ 0) × (n < 10 ^ 8 * micro)
IsHeld (negsuc n) = (suc n % micro ≡ 0) × (suc n < 10 ^ 8 * micro)

-- The chunk's version is written as an identifier is, it names its source, none of its metadata has
-- a key that the bundle uses itself, and its score is one that the column holds.
abbrev pub IsStorable : UuidCodec → KnowledgeChunk → Type 0
IsStorable uuid c =
    (version : ℕ) × (source : String) × (c.document_version_id ≡ uuid.to_str version)
    × (c.provider_ref ≡ some source)
    × (is_empty source ≡ false)
    × All (λ kv. str_mem kv.0 reserved_keys ≡ false) c.metadata
    × IsHeld c.score

abbrev bundle_row : ℕ → ℕ → String → ℕ → List KnowledgeChunk → EvidenceBundle
bundle_row run project query round chunks = record {
  run_id = run;
  project_id = project;
  query_text = query;
  snapshots = candidate_chunks round chunks;
}
