-- ===== src/Retention.antt =====
-- workers/retention.py: the sweep that deletes what a retention policy lets go. The repository is a
-- parameter, with no law, as is `str.upper`.
mod Laws
mod Tests
use it_outsourcing_knowledge.Base.{
  String, Bool, true, false, not, ◌||◌, List, [], ◌∷◌, map, select, if◌then◌else◌,
}
use it_outsourcing_knowledge.Base.Exec.{Exec, pure, ◌>>=◌, ◌>>◌}
use it_outsourcing_knowledge.Access.{str_mem}

pub record RetentionCandidate : Type 0 where
  pub resource_type : String
  pub resource_id : String
  pub lifecycle_status : String
  pub legal_hold : Bool

pub record RetentionSweepResult : Type 0 where
  pub dry_run : Bool
  pub eligible_ids : List String
  pub deleted_ids : List String
  pub protected_ids : List String

pub record RetentionRepository (S : Type 0) : Type 0 where
  pub list_candidates : String → Exec S (List RetentionCandidate)
  pub delete_candidate : RetentionCandidate → Exec S Unit

abbrev pub safe_cleanup_states : List String
safe_cleanup_states = "ARCHIVED" ∷ "DELETE_PENDING" ∷ "DELETION_PENDING" ∷ "DELETED" ∷ []

-- `candidate.legal_hold or status not in safe_cleanup_states`
unfoldable pub is_protected : (String → String) → RetentionCandidate → Bool
is_protected upper c = c.legal_hold || not (str_mem (upper c.lifecycle_status) safe_cleanup_states)

abbrev pub ids : List RetentionCandidate → List String
ids cs = map (λ c. c.resource_id) cs

module _ {S : Type 0} (upper : String → String) (repository : RetentionRepository S) where
  -- The loop that deletes, with what it adds to `deleted`.
  unfoldable pub delete_all : List RetentionCandidate → Exec S (List String)
  delete_all [] = pure []
  delete_all (c ∷ cs) = do
    repository.delete_candidate c
    deleted ← delete_all cs
    pure (c.resource_id ∷ deleted)

  -- `RetentionSweepHandler.__call__`
  unfoldable pub sweep : Bool → String → Exec S RetentionSweepResult
  sweep dry_run policy = do
    candidates ← repository.list_candidates policy
    let eligible = select (λ c. not (is_protected upper c)) candidates
    deleted ← if dry_run then pure [] else delete_all eligible
    pure (record {
      dry_run = dry_run;
      eligible_ids = ids eligible;
      deleted_ids = deleted;
      protected_ids = ids (select (is_protected upper) candidates);
    })
