-- ===== src/QaStore/Tests.antt =====
-- Two chunks, the second of which is not on a page.
use it_outsourcing_knowledge.Base.{◌*◌, ◌^◌, ◌≡◌, refl, String, none, some, List, [], ◌∷◌}
use it_outsourcing_knowledge.Base.Exec.{ok}
use it_outsourcing_knowledge.Base.Int.{pos}
use it_outsourcing_knowledge.Knowledge.{KnowledgeChunk}
use it_outsourcing_knowledge.QaRecords.{QaDb}
use it_outsourcing_knowledge.QaStore.{micro, round_to, store_score}

abbrev db : QaDb
db = record {
  next_id = 30;
  runs = [];
  artifacts = [];
  numbers = [];
  bundles = [];
  answers = [];
  citations = [];
  access = record {
    projects = [];
    memberships = [];
    spaces = [];
    docs = record { documents = []; versions = [] };
  };
}

abbrev chunk : String → KnowledgeChunk
chunk version = record {
  project_id = "P";
  document_version_id = version;
  content = "Wait ten minutes.";
  score = pos (910000 * micro);
  knowledge_space_id = some "kb";
  provider_ref = some "r1";
  page_no = some 3;
  section = none;
  metadata = ("claim_value", "10") ∷ [];
}

abbrev chunks : List KnowledgeChunk
chunks = chunk "II" ∷ record (chunk "III") { page_no = none; metadata = [] } ∷ []

-- Halfway between two millionths, the score is rounded upwards.
score_rounded : store_score (pos (3 * 10 ^ 317 * 5)) ≡ ok (pos (2 * micro))
unfolding store_score round_to micro
score_rounded = refl
