-- ===== src/QaGraph/Saved.antt =====
-- What the database holds after an artifact or an answer is saved.
use it_outsourcing_knowledge.Base.{
  ℕ, suc, ◌≡◌, inl, inr, refl, sym, ap, ◌∙◌, String, false, Option, none, some, List, [], ◌∷◌, ◌==◌,
  ==_iff, ==_self, Bool-cases, is_some,
}
use it_outsourcing_knowledge.Base.Exec.{
  ok, bind_ok, pair_ok, guard_then, lookup_error, integrity_error, or_raise, or_raise_ok,
}
use it_outsourcing_knowledge.Base.Table.{Table, find, put, add, find-put, find-add}
use it_outsourcing_knowledge.QaState.{Artifact}
use it_outsourcing_knowledge.QaRecords.{
  QaDb, ArtifactEvent, Answer, CitationReference, get_run, load_artifact, save_artifact,
}
use it_outsourcing_knowledge.QaStore.{answer_of, put_answer, save_answer, save_grounded_answer}

answer_of_found :
    (run id : ℕ) (rows : Table Answer)
    → answer_of run rows ≡ some id
    → (a : Answer) × (find id rows ≡ some a)
unfolding answer_of find
answer_of_found run id [] h = cc
answer_of_found run id ((j, a) ∷ rows) h = elim (Bool-cases (id == j)) [
  | inl same ↦ (a, rw same refl)
  | inr other ↦ elim (Bool-cases (a.run_id == run)) [
    | inl mine ↦ absurd (cc (other, ==_self id, some_number j id (rw mine at h)))
    | inr not_mine ↦ let (b, e) = answer_of_found run id rows (rw not_mine at h) in (b, rw other e)
  ]
]
  where
    some_number : (m n : ℕ) → some m ≡ some n → m ≡ n
    some_number m n e = cc (e)

-- The answer that was saved stands in the table.
save_answer_ok :
    (run : ℕ) (answer_text : String) (reason : Option String) (db : QaDb) (id : ℕ) (t : QaDb)
    → save_answer run answer_text reason db ≡ (ok id, t)
    → find id t.answers
      ≡ some (record { run_id = run; answer_text = answer_text; refusal_reason = reason })
unfolding save_answer
save_answer_ok run answer_text reason db id t h = saved (answer_of run db.answers) refl h
  where
    row : Answer
    row = record { run_id = run; answer_text = answer_text; refusal_reason = reason }

    saved :
        (o : Option ℕ)
        → answer_of run db.answers ≡ o
        → put_answer o row db ≡ (ok id, t)
        → find id t.answers ≡ some row
    saved (some k) e g =
        let (a, there) = answer_of_found run k db.answers e in
        let (same, last) = pair_ok k id (record db { answers = put k row db.answers }) t g in
        let put_row : find k (put k row db.answers) ≡ some row =
          rw (find-put k k row db.answers) (rw (==_self k) (rw there refl)) in
        ap (λ d. find id d.answers) (sym last)
        ∙ ap (λ j. find j (put k row db.answers)) (sym same)
        ∙ put_row
    saved none e g =
        let (same, last) =
          pair_ok db.next_id id
            (record db { next_id = suc db.next_id; answers = add db.next_id row db.answers }) t g in
        let added : find db.next_id (add db.next_id row db.answers) ≡ some row =
          rw (find-add db.next_id db.next_id row db.answers) (rw (==_self db.next_id) refl) in
        ap (λ d. find id d.answers) (sym last)
        ∙ ap (λ j. find j (add db.next_id row db.answers)) (sym same)
        ∙ added

pub save_grounded_answer_ok :
    (run : ℕ) (answer_text : String) (references : List CitationReference) (db : QaDb) (id : ℕ)
    (t : QaDb)
    → save_grounded_answer run answer_text references db ≡ (ok id, t)
    → find id t.answers
      ≡ some (record { run_id = run; answer_text = answer_text; refusal_reason = none })
unfolding save_grounded_answer
save_grounded_answer_ok run answer_text references db id t h =
    let (k, u, saved, rest) = bind_ok (save_answer run answer_text none) _ db id t h in
    let (same, last) = pair_ok k id _ t rest in
    ap (λ d. find id d.answers) (sym last)
    ∙ ap (λ j. find j u.answers) (sym same)
    ∙ save_answer_ok run answer_text none db k u saved

-- What saving an answer leaves as it was.
save_answer_keeps :
    (run : ℕ) (answer_text : String) (reason : Option String) (db : QaDb)
    → ((save_answer run answer_text reason db).1.artifacts ≡ db.artifacts)
      × ((save_answer run answer_text reason db).1.bundles ≡ db.bundles)
unfolding save_answer
save_answer_keeps run answer_text reason db = kept (answer_of run db.answers)
  where
    kept :
        (o : Option ℕ)
        → let t =
            (put_answer o
              (record { run_id = run; answer_text = answer_text; refusal_reason = reason })
              db).1 in
          (t.artifacts ≡ db.artifacts) × (t.bundles ≡ db.bundles)
    kept none = (refl, refl)
    kept (some id) = (refl, refl)

pub save_grounded_keeps :
    (run : ℕ) (answer_text : String) (references : List CitationReference) (db : QaDb) (id : ℕ)
    (t : QaDb)
    → save_grounded_answer run answer_text references db ≡ (ok id, t)
    → (t.artifacts ≡ db.artifacts) × (t.bundles ≡ db.bundles)
unfolding save_grounded_answer
save_grounded_keeps run answer_text references db id t h =
    let (k, u, saved, rest) = bind_ok (save_answer run answer_text none) _ db id t h in
    let (same, last) = pair_ok k id _ t rest in
    let (artifacts, bundles) = save_answer_keeps run answer_text none db in
    let after : (save_answer run answer_text none db).1 ≡ u = ap (λ p. p.1) saved in
    (
      ap (λ d. d.artifacts) (sym last) ∙ ap (λ d. d.artifacts) (sym after) ∙ artifacts,
      ap (λ d. d.bundles) (sym last) ∙ ap (λ d. d.bundles) (sym after) ∙ bundles,
    )

abbrev pub artifact_row : ℕ → Artifact → ArtifactEvent
artifact_row run artifact = record { run_id = run; artifact = artifact }

-- An artifact is saved under a key that was free.
pub save_artifact_ok :
    (run : ℕ) (artifact : Artifact) (db : QaDb) (id : ℕ) (t : QaDb)
    → save_artifact run artifact db ≡ (ok id, t)
    → (find id db.artifacts ≡ none)
      × (t.artifacts ≡ add id (artifact_row run artifact) db.artifacts)
      × (t.bundles ≡ db.bundles)
unfolding save_artifact get_run
save_artifact_ok run artifact db id t h =
    let (row, db1, a, h1) = bind_ok (get_run run) _ db id t h in
    let same_db = (or_raise_ok (find run db.runs) lookup_error db row db1 a).1 in
    let (free, h2) =
      guard_then (is_some (find db1.next_id db1.artifacts)) integrity_error _ _ id t h1 in
    let (same, last) = pair_ok db1.next_id id _ t h2 in
    (
      ap (λ d. find id d.artifacts) same_db
          ∙ ap (λ i. find i db1.artifacts) (sym same)
          ∙ none_of (find db1.next_id db1.artifacts) free,
      ap (λ d. d.artifacts) (sym last)
          ∙ ap (λ i. add i (artifact_row run artifact) db1.artifacts) same
          ∙ ap (λ d. add id (artifact_row run artifact) d.artifacts) (sym same_db),
      ap (λ d. d.bundles) (sym last) ∙ ap (λ d. d.bundles) (sym same_db),
    )
  where
    none_of : (o : Option ArtifactEvent) → is_some o ≡ false → o ≡ none
    none_of none e = refl
    none_of (some x) e = cc

pub load_artifact_ok :
    (id : ℕ) (db : QaDb) (x : Artifact) (t : QaDb)
    → load_artifact id db ≡ (ok x, t)
    → (run : ℕ) × (find id db.artifacts ≡ some (artifact_row run x)) × (db ≡ t)
unfolding load_artifact
load_artifact_ok id db x t h =
    let (event, u, a, h1) = bind_ok (or_raise (find id db.artifacts) lookup_error) _ db x t h in
    let (found, same) = or_raise_ok (find id db.artifacts) lookup_error db event u a in
    let (inside, last) = pair_ok event.artifact x u t h1 in
    (event.run_id, found ∙ ap (λ y. some (artifact_row event.run_id y)) inside, same ∙ last)

-- A row that was there is there after an insertion under a free key.
pub found_after :
    (id new : ℕ) (row event : ArtifactEvent) (rows : Table ArtifactEvent)
    → find new rows ≡ none
    → find id rows ≡ some event
    → find id (add new row rows) ≡ some event
found_after id new row event rows free found =
    rw (find-add id new row rows) elim (Bool-cases (id == new)) [
      | inl same ↦ absurd (cc (free, found, (==_iff id new).0 same))
      | inr other ↦ rw other found
    ]

pub found_new :
    (id : ℕ) (row : ArtifactEvent) (rows : Table ArtifactEvent)
    → find id (add id row rows) ≡ some row
found_new id row rows = rw (find-add id id row rows) (rw (==_self id))
