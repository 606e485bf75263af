-- ===== src/RunRepository/Log.antt =====
-- The event log of a run: the sequence numbers that `append_event` gives out, and what
-- `list_events_after` reads back.
use it_outsourcing_knowledge.Base.{
  ℕ, suc, ◌+◌, ◌≡◌, refl, Bool, true, false, ◌&&◌, List, [], ◌∷◌, arith, inl, inr, if◌then◌else◌,
  Bool-cases, ◌==◌, ==_iff, ltb, leb, ◌||◌, get_or,
}
use it_outsourcing_knowledge.Runs.{AgentEventType, is_terminal_event, Payload, AgentEvent, Stamp}
use it_outsourcing_knowledge.RunRepository.{max_sequence, next_event, of_terminal}

-- How many events a run has.
abbrev pub count_events : ℕ → List AgentEvent → ℕ
count_events r [] = 0
count_events r (e ∷ es) = let rest = count_events r es in if e.run_id == r then suc rest else rest

abbrev pub as_number : Bool → ℕ
as_number true = 1
as_number false = 0

-- How many of them are terminal.
abbrev pub count_terminal : ℕ → List AgentEvent → ℕ
count_terminal r [] = 0
count_terminal r (e ∷ es) = as_number (of_terminal r e) + count_terminal r es

-- The newest event stands first, and every event of a run has the number after those before it:
-- the events of each run are numbered 1, 2, 3, … with no gap and no number twice.
abbrev pub IsNumbered : List AgentEvent → Type 0
IsNumbered [] = Unit
IsNumbered (e ∷ es) = (e.sequence_no ≡ count_events e.run_id es + 1) × IsNumbered es

max_sequence-count :
    (r : ℕ) (es : List AgentEvent)
    → IsNumbered es
    → get_or (max_sequence r es) 0 ≡ count_events r es
unfolding max_sequence
max_sequence-count r [] h = refl
max_sequence-count r (e ∷ es) h = elim (Bool-cases (e.run_id == r)) [
  | inl same ↦
      let rest = max_sequence-count r es h.1 in
      let number : e.sequence_no ≡ count_events r es + 1 = rw ((==_iff e.run_id r).0 same) at h.0 in
      rw same (omega (arith, rest, number))
  | inr other ↦ rw other (max_sequence-count r es h.1)
]

-- The next event keeps the numbering.
pub next_event-IsNumbered :
    (stamp : Stamp) (run : ℕ) (type : AgentEventType) (payload : Payload) (es : List AgentEvent)
    → IsNumbered es
    → IsNumbered (next_event stamp run type payload es ∷ es)
unfolding next_event
next_event-IsNumbered stamp run type payload es h = (omega (arith, max_sequence-count run es h), h)

-- Is there an event of the run with this number?
abbrev pub has_number : ℕ → ℕ → List AgentEvent → Bool
has_number r n [] = false
has_number r n (e ∷ es) = (e.run_id == r && e.sequence_no == n) || has_number r n es

-- The numbers of a run's events are exactly 1, …, n, where n is how many events it has.
pub numbers_exact :
    (r n : ℕ) (es : List AgentEvent)
    → IsNumbered es
    → has_number r n es ≡ (ltb 0 n && leb n (count_events r es))
numbers_exact r n [] h = ground arith
numbers_exact r n (e ∷ es) h = elim (Bool-cases (e.run_id == r)) [
  | inl same ↦
      let rest = numbers_exact r n es h.1 in
      let number : e.sequence_no ≡ count_events r es + 1 = rw ((==_iff e.run_id r).0 same) at h.0 in
      rw same (ground (arith, rest, number))
  | inr other ↦ rw other (numbers_exact r n es h.1)
]

pub count_terminal-next_event :
    (stamp : Stamp) (run j : ℕ) (type : AgentEventType) (payload : Payload) (es : List AgentEvent)
    → count_terminal j (next_event stamp run type payload es ∷ es)
      ≡ as_number (run == j && is_terminal_event type) + count_terminal j es
unfolding next_event
count_terminal-next_event stamp run j type payload es = refl
