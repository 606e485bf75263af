-- ===== src/RunHistory/Measures.antt =====
-- What a graph session does to the runs and to their log.
use it_outsourcing_knowledge.Base.{
  ◌||◌, ℕ, ◌≡◌, refl, sym, ap, ◌∙◌, subst, true, false, some, List, [], ◌∷◌, arith, inl, inr,
  Bool-cases, ◌==◌, ==_iff, map_option, String, ◌⊎◌,
}
use it_outsourcing_knowledge.Base.Int.{is_negative, magnitude}
use it_outsourcing_knowledge.Base.Exec.{
  guard_then, value_error, lookup_error, ok, bind_ok, pair_ok, found_then,
}
use it_outsourcing_knowledge.Base.Table.{find, put, find-put}
use it_outsourcing_knowledge.Runs.{
  artifact_available, AgentEvent, Json, RunUsage, AgentRun, without_usage, Db, Stamp,
}
use it_outsourcing_knowledge.RunRepository.Effects.{append_event_ok}
use it_outsourcing_knowledge.RunRepository.{append_event, next_event}
use it_outsourcing_knowledge.RunRepository.Log.{count_terminal, count_terminal-next_event}
use it_outsourcing_knowledge.RunHistory.{Artifacts, nothing, another, artifacts, measure, Step}
use it_outsourcing_knowledge.RunHistory.Session.{
  GraphWrite, artifact_write, prompt_write, usage_write, round_write, artifact_payload, prompt_json,
  append_artifact, prompt_usage, token_usage, round_usage, update_usage, graph_write, graph_session,
}

-- Of the run `j` only the usage may change, and the log only grows by artifacts of the run.
abbrev Measures : ℕ → ℕ → Db → Db → Type 0
Measures run j db t =
    (map_option without_usage (find j t.runs) ≡ map_option without_usage (find j db.runs))
    × (count_terminal j t.events ≡ count_terminal j db.events)
    × Artifacts run db.events t.events

more :
    (run : ℕ) {es es' es'' : List AgentEvent}
    → Artifacts run es es'
    → Artifacts run es' es''
    → Artifacts run es es''
more run first nothing = first
more run first (another stamp payload rest) = another stamp payload (more run first rest)

then_Measures :
    (run j : ℕ) (db s t : Db) → Measures run j db s → Measures run j s t → Measures run j db t
then_Measures run j db s t (rows, count, log) (rows', count', log') =
    (rows' ∙ rows, count' ∙ count, more run log log')

append_artifact-Measures :
    (stamp : Stamp) (run j : ℕ) (type : String) (artifact : Json) (db t : Db) (u : Unit)
    → append_artifact stamp run type artifact db ≡ (ok u, t)
    → Measures run j db t
unfolding append_artifact
append_artifact-Measures stamp run j type artifact db t u h =
    let payload = artifact_payload type artifact in
    let (e, s, done, h1) = bind_ok (append_event stamp run artifact_available payload) _ db u t h in
    let written = (append_event_ok stamp run artifact_available payload db e s done).0 in
    let last : t ≡ s = sym (pair_ok tt u s t h1).1 in
    let events : t.events ≡ next_event stamp run artifact_available payload db.events ∷ db.events =
      ap (λ d. d.events) (last ∙ written) in
    let count : count_terminal j t.events ≡ count_terminal j db.events = rw events (
      rw (count_terminal-next_event stamp run j artifact_available payload db.events)
        (ground arith)) in
    (
      ap (λ d. map_option without_usage (find j d.runs)) (last ∙ written),
      count,
      subst (Artifacts run db.events) (sym events) (another stamp payload nothing),
    )

update_usage-Measures :
    (run j : ℕ) (change : RunUsage → RunUsage) (db t : Db) (u : Unit)
    → update_usage run change db ≡ (ok u, t)
    → Measures run j db t
unfolding update_usage
update_usage-Measures run j change db t u h =
    let (row, found, h1) = found_then (find run db.runs) lookup_error _ db u t h in
    let last : t ≡ record db { runs = put run (record row { usage = change row.usage }) db.runs } =
      sym (pair_ok tt u _ t h1).1 in
    let events : t.events ≡ db.events = ap (λ d. d.events) last in
    (
      ap (λ d. map_option without_usage (find j d.runs)) last
          ∙ written row found (Bool-cases (j == run)),
      ap (count_terminal j) events,
      subst (Artifacts run db.events) (sym events) nothing,
    )
  where
    written :
        (row : AgentRun)
        → find run db.runs ≡ some row
        → ((j == run) ≡ true) ⊎ ((j == run) ≡ false)
        → map_option without_usage
            (find j (put run (record row { usage = change row.usage }) db.runs))
          ≡ map_option without_usage (find j db.runs)
    written row found (inl equal) =
        let e : find j db.runs ≡ some row = rw ((==_iff j run).0 equal) found in
        rw (find-put j run (record row { usage = change row.usage }) db.runs) (rw equal (rw e refl))
    written row found (inr other) =
        rw (find-put j run (record row { usage = change row.usage }) db.runs) (rw other refl)

graph_write-Measures :
    (run j : ℕ) (w : GraphWrite) (db t : Db) (u : Unit)
    → graph_write run w db ≡ (ok u, t)
    → Measures run j db t
unfolding graph_write
graph_write-Measures run j (artifact_write stamp type artifact) db t u h =
    append_artifact-Measures stamp run j type artifact db t u h
graph_write-Measures run j (prompt_write stamp model snapshot) db t u h =
    let (v, s, updated, h1) = bind_ok (update_usage run (prompt_usage model snapshot)) _ db u t h in
    then_Measures run j db s t
      (update_usage-Measures run j (prompt_usage model snapshot) db s v updated)
      (append_artifact-Measures stamp run j "PROMPT_SNAPSHOT" (prompt_json snapshot) s t u h1)
graph_write-Measures run j (usage_write input output estimate) db t u h =
    let (counted, h1) =
      guard_then (is_negative input || is_negative output) value_error _ db u t h in
    update_usage-Measures run j (token_usage (magnitude input) (magnitude output) estimate) db t u
      h1
graph_write-Measures run j round_write db t u h = update_usage-Measures run j round_usage db t u h

graph_session-Measures :
    (run j : ℕ) (ws : List GraphWrite) (db t : Db) (u : Unit)
    → graph_session run ws db ≡ (ok u, t)
    → Measures run j db t
unfolding graph_session
graph_session-Measures run j [] db t u h =
    let last : db ≡ t = (pair_ok tt u db t h).1 in
    subst (Measures run j db) last (refl, refl, nothing)
graph_session-Measures run j (w ∷ ws) db t u h =
    let (v, s, first, h1) = bind_ok (graph_write run w) _ db u t h in
    then_Measures run j db s t (graph_write-Measures run j w db s v first)
      (graph_session-Measures run j ws s t u h1)

pub graph_session-Step :
    (run j : ℕ) (ws : List GraphWrite) (db t : Db) (u : Unit)
    → graph_session run ws db ≡ (ok u, t)
    → Step j db t
graph_session-Step run j ws db t u h =
    let (rows, count, log) = graph_session-Measures run j ws db t u h in
    (rw count (measure rows), artifacts run log)
