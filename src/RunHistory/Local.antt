-- ===== src/RunHistory/Local.antt =====
-- From what a transaction does to one run to what happens to every run.
use it_outsourcing_knowledge.Base.{
  ℕ, ◌+◌, ◌≡◌, refl, false, none, some, ◌∷◌, arith, inl, inr, Bool-cases, ◌==◌, ==_iff,
}
use it_outsourcing_knowledge.Base.Table.{find, add, put, find-add, find-put}
use it_outsourcing_knowledge.Runs.{
  queued, AgentEventType, is_terminal_event, Payload, AgentRun, Db, Stamp,
}
use it_outsourcing_knowledge.RunRepository.{next_event}
use it_outsourcing_knowledge.RunRepository.Log.{
  count_terminal, as_number, count_terminal-next_event,
}
use it_outsourcing_knowledge.RunHistory.{RunStep, stay, create, same, append, Step}

-- What a transaction does to one run, as a step from a given number of terminal events.
abbrev pub LocalStep : AgentRun → AgentRun → ℕ → Type 0
LocalStep a b m = (n : ℕ) → RunStep (some a) n (some b) (m + n)

-- One that adds no terminal event.
pub quiet : (a b : AgentRun) → ((n : ℕ) → RunStep (some a) n (some b) n) → LocalStep a b 0
quiet a b h n = let e : 0 + n ≡ n = omega arith in rw e (h n)

module _ (id j : ℕ) (row new : AgentRun) (db t : Db) (found : find id db.runs ≡ some row) where
  -- A row is written, and no event.
  pub put-Step :
      ((n : ℕ) → RunStep (some row) n (some new) n)
      → t.runs ≡ put id new db.runs
      → t.events ≡ db.events
      → Step j db t
  put-Step local runs events = elim (Bool-cases (j == id)) [
    | inl equal ↦
        let e : find j db.runs ≡ some row = rw ((==_iff j id).0 equal) found in
        let e' : find j t.runs ≡ some new =
          rw runs (rw (find-put j id new db.runs) (rw equal (rw e refl))) in
        (rw e (rw e' (rw events (local (count_terminal j db.events)))), rw events same)
    | inr other ↦
        let e : find j t.runs ≡ find j db.runs =
          rw runs (rw (find-put j id new db.runs) (rw other refl)) in
        (rw e (rw events stay), rw events same)
  ]

  -- A row is written, and one event of its run.
  pub write-Step :
      (stamp : Stamp) (type : AgentEventType) (payload : Payload)
      → LocalStep row new (as_number (is_terminal_event type))
      → t.runs ≡ put id new db.runs
      → t.events ≡ next_event stamp id type payload db.events ∷ db.events
      → Step j db t
  write-Step stamp type payload local runs events = elim (Bool-cases (j == id)) [
    | inl equal ↦
        let e : find j db.runs ≡ some row = rw ((==_iff j id).0 equal) found in
        let e' : find j t.runs ≡ some new =
          rw runs (rw (find-put j id new db.runs) (rw equal (rw e refl))) in
        let c : count_terminal j t.events
            ≡ as_number (is_terminal_event type) + count_terminal j db.events =
          rw events (
            rw (count_terminal-next_event stamp id j type payload db.events)
              (ground (arith, equal))) in
        (
          rw e (rw e' (rw c (local (count_terminal j db.events)))),
          rw events (append stamp id type payload),
        )
    | inr other ↦
        let e : find j t.runs ≡ find j db.runs =
          rw runs (rw (find-put j id new db.runs) (rw other refl)) in
        let c : count_terminal j t.events ≡ count_terminal j db.events = rw events (
          rw (count_terminal-next_event stamp id j type payload db.events)
            (ground (arith, other))) in
        (rw e (rw c stay), rw events (append stamp id type payload))
  ]

-- An event that ends nothing is written, and no row.
pub event-Step :
    (stamp : Stamp) (id j : ℕ) (type : AgentEventType) (payload : Payload) (db t : Db)
    → is_terminal_event type ≡ false
    → t.runs ≡ db.runs
    → t.events ≡ next_event stamp id type payload db.events ∷ db.events
    → Step j db t
event-Step stamp id j type payload db t h runs events =
    let c : count_terminal j t.events ≡ count_terminal j db.events =
      rw events
        (rw (count_terminal-next_event stamp id j type payload db.events) (ground (arith, h))) in
    (rw runs (rw c stay), rw events (append stamp id type payload))

-- Nothing of the runs is written.
pub same-Step : (j : ℕ) (db t : Db) → t.runs ≡ db.runs → t.events ≡ db.events → Step j db t
same-Step j db t runs events = (rw runs (rw events stay), rw events same)

-- A new run is added, with the first event of its log.
pub create-Step :
    (id j : ℕ) (row : AgentRun) (stamp : Stamp) (type : AgentEventType) (payload : Payload)
    (db t : Db)
    → find id db.runs ≡ none
    → row.status ≡ queued
    → row.finished_at ≡ none
    → is_terminal_event type ≡ false
    → t.runs ≡ add id row db.runs
    → t.events ≡ next_event stamp id type payload db.events ∷ db.events
    → Step j db t
create-Step id j row stamp type payload db t free starts unfinished live runs events =
    let c : count_terminal j t.events ≡ count_terminal j db.events =
      rw events
        (rw (count_terminal-next_event stamp id j type payload db.events) (ground (arith, live))) in
    elim (Bool-cases (j == id)) [
      | inl equal ↦
          let e : find j db.runs ≡ none = rw ((==_iff j id).0 equal) free in
          let e' : find j t.runs ≡ some row =
            rw runs (rw (find-add j id row db.runs) (rw equal refl)) in
          (rw e (rw e' (rw c (create starts unfinished))), rw events (append stamp id type payload))
      | inr other ↦
          let e : find j t.runs ≡ find j db.runs =
            rw runs (rw (find-add j id row db.runs) (rw other refl)) in
          (rw e (rw c stay), rw events (append stamp id type payload))
    ]
