-- ===== src/Retention/Tests.antt =====
-- A repository that keeps a log of its deletions.
use it_outsourcing_knowledge.Base.{
  ◌||◌, ◌≡◌, refl, String, Bool, true, false, List, [], ◌∷◌, All, select, not, if◌then◌else◌,
}
use it_outsourcing_knowledge.Base.Exec.{ok}
use it_outsourcing_knowledge.Retention.{
  RetentionCandidate, RetentionSweepResult, RetentionRepository, is_protected, ids, delete_all,
  sweep,
}
use it_outsourcing_knowledge.Retention.Laws.{Deletes, sweep_keeps, sweep_ok}

abbrev candidate : String → String → Bool → RetentionCandidate
candidate id status hold = record {
  resource_type = "document_version";
  resource_id = id;
  lifecycle_status = status;
  legal_hold = hold;
}

abbrev listed : List RetentionCandidate
listed =
    candidate "a" "ARCHIVED" false
    ∷ candidate "b" "ARCHIVED" true
    ∷ candidate "c" "PUBLISHED" false
    ∷ []

abbrev log : RetentionRepository (List RetentionCandidate)
log = record {
  list_candidates = λ policy s. (ok listed, s);
  delete_candidate = λ c s. (ok tt, c ∷ s);
}

abbrev IsUnheld : List RetentionCandidate → Type 0
IsUnheld = All (λ c. c.legal_hold ≡ false)

unprotected_unheld :
    (c : RetentionCandidate) → is_protected (λ s. s) c ≡ false → c.legal_hold ≡ false
unfolding is_protected
unprotected_unheld c h = unheld c.legal_hold _ h
  where
    unheld : (b d : Bool) → (b || d) ≡ false → b ≡ false
    unheld false d h = refl
    unheld true d h = cc (h)

sweep_keeps_example : IsUnheld (sweep (λ s. s) log false "p" []).1
sweep_keeps_example =
    sweep_keeps (λ s. s) log IsUnheld false "p" [] (λ t h. h)
      (λ e c t free h. (unprotected_unheld c free, h)) tt

abbrev result : RetentionSweepResult
result = record {
  dry_run = false;
  eligible_ids = "a" ∷ [];
  deleted_ids = "a" ∷ [];
  protected_ids = "b" ∷ "c" ∷ [];
}

swept : sweep (λ s. s) log false "p" [] ≡ (ok result, candidate "a" "ARCHIVED" false ∷ [])
unfolding sweep delete_all is_protected
swept = refl

sweep_ok_example :
    (cs : List RetentionCandidate) × (first : List RetentionCandidate) × (log.list_candidates "p" []
      ≡ (ok cs, first))
    × Deletes
        (λ s. s)
        log
        (if false then [] else select (λ c. not (is_protected (λ s. s) c)) cs)
        first
        (candidate "a" "ARCHIVED" false ∷ [])
    × (result.eligible_ids ≡ ids (select (λ c. not (is_protected (λ s. s) c)) cs))
    × (result.protected_ids ≡ ids (select (is_protected (λ s. s)) cs))
    × (result.deleted_ids ≡ (if false then [] else result.eligible_ids))
sweep_ok_example =
    sweep_ok (λ s. s) log false "p" [] result (candidate "a" "ARCHIVED" false ∷ []) swept
