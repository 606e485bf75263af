-- ===== src/DocumentWorkflow/Publication.antt =====
-- The publication of a version, and histories of all transactions on documents.
use it_outsourcing_knowledge.Base.{
  ℕ, ◌≡◌, ◌⊎◌, refl, sym, ap, ◌∙◌, subst, Bool, true, false, not, Option, none, some, inl, inr,
  Bool-cases, ◌==◌, ==_iff,
}
use it_outsourcing_knowledge.Base.Exec.{
  ok, Exec, value_error, document_permission_denied, bind_ok, pair_ok, guard_then, lift_ok,
  transaction, transaction_cases,
}
use it_outsourcing_knowledge.Base.Table.{find, put, find-put}
use it_outsourcing_knowledge.Access.{str_mem}
use it_outsourcing_knowledge.Documents.{
  DocumentLifecycleStatus, approved, published, superseded, delete_pending, DocumentVersion,
}
use it_outsourcing_knowledge.DocumentWorkflow.{
  can_transition_document, is_status, DocumentDb, CreateDocumentDraft, LoadedVersion, load_version,
  to_version_record, with_status, write_version, load_superseded, supersede, complete_publication,
  create_draft, DocumentActor, submit_review, approve, govern_deletion, get_version, transition,
  add_audit,
}
use it_outsourcing_knowledge.DocumentWorkflow.Transitions.{
  transition_step, get_version_ok, VersionStep, stay, Versions, moved, load_version_ok, not-false,
  submit_step, approve_step, create_draft_step,
}

publishable :
    (s : DocumentLifecycleStatus)
    → is_status s approved ≡ true
    → can_transition_document s published ≡ true
unfolding can_transition_document
publishable approved h = refl
publishable s h = cc

supersedable :
    (s : DocumentLifecycleStatus)
    → is_status s published ≡ true
    → can_transition_document s superseded ≡ true
unfolding can_transition_document
supersedable published h = refl
supersedable s h = cc

not_both :
    (s : DocumentLifecycleStatus) → is_status s approved ≡ true → ¬ (is_status s published ≡ true)
not_both approved h k = cc
not_both s h k = cc

load_superseded_ok :
    (document : ℕ) (o : Option ℕ) (db : DocumentDb) (r : Option LoadedVersion) (t : DocumentDb)
    → load_superseded document o db ≡ (ok r, t)
    → (t ≡ db)
      × ((r ≡ none)
          ⊎ ((old : LoadedVersion) × (r ≡ some old)
              × (find old.version_id db.versions ≡ some old.version)
              × (is_status old.version.lifecycle_status published ≡ true)))
unfolding load_superseded
load_superseded_ok document none db r t h =
    let (same, last) = pair_ok none r db t h in (sym last, inl (sym same))
load_superseded_ok document (some id) db r t h =
    let (old, s, read, h1) = bind_ok (load_version id) _ db r t h in
    let (same, key, found) = load_version_ok id db old s read in
    let (mine, h2) =
      guard_then (not (old.version.document_id == document)) value_error _ s r t h1 in
    let (wanted, h3) =
      guard_then (not (is_status old.version.lifecycle_status published)) value_error _ s r t h2 in
    let (result, last) = pair_ok (some old) r s t h3 in
    (
      sym last ∙ same,
      inr (old, sym result, ap (λ k. find k db.versions) key ∙ found, not-false _ wanted),
    )

-- The two writes of a publication, at two versions.
publish_both :
    (j id old_id : ℕ) (a b c d : DocumentVersion) (vs : Versions)
    → find id vs ≡ some a
    → find old_id vs ≡ some c
    → is_status a.lifecycle_status approved ≡ true
    → is_status c.lifecycle_status published ≡ true
    → can_transition_document a.lifecycle_status b.lifecycle_status ≡ true
    → can_transition_document c.lifecycle_status d.lifecycle_status ≡ true
    → b.document_id ≡ a.document_id
    → d.document_id ≡ c.document_id
    → VersionStep (find j vs) (find j (put old_id d (put id b vs)))
publish_both j id old_id a b c d vs found found_old ready current up down same same_old =
    elim (Bool-cases (old_id == id)) [
      | inl equal ↦
          let both : some c ≡ some a =
            sym found_old ∙ ap (λ k. find k vs) ((==_iff old_id id).0 equal) ∙ found in
          let status = ap (λ o. status_is o) both in
          absurd (not_both a.lifecycle_status ready (sym status ∙ current))
      | inr apart ↦ elim (Bool-cases (j == old_id)) [
        | inl mine ↦
            let j_eq = (==_iff j old_id).0 mine in
            let still : find j (put id b vs) ≡ find j vs =
              rw (find-put j id b vs) (rw j_eq (rw apart refl)) in
            let old_here : find old_id (put id b vs) ≡ some c =
              rw (find-put old_id id b vs) (rw apart found_old) in
            subst (λ o. VersionStep o (find j (put old_id d (put id b vs)))) still
              (moved j old_id c d (put id b vs) old_here down same_old)
        | inr other ↦
            let last : find j (put old_id d (put id b vs)) ≡ find j (put id b vs) =
              rw (find-put j old_id d (put id b vs)) (rw other refl) in
            rw last (moved j id a b vs found up same)
      ]
    ]
  where
    status_is : Option DocumentVersion → Bool
    status_is none = false
    status_is (some v) = is_status v.lifecycle_status published

some_inj : (x y : LoadedVersion) → some x ≡ some y → x ≡ y
some_inj x y e = cc (e)

publication_step :
    (now id j : ℕ) (supersedes : Option ℕ) (db : DocumentDb) (out : LoadedVersion) (t : DocumentDb)
    → complete_publication now id supersedes db ≡ (ok out, t)
    → VersionStep (find j db.versions) (find j t.versions)
unfolding complete_publication write_version supersede
publication_step now id j supersedes db out t h =
    let (loaded, s, read, h1) = bind_ok (load_version id) _ db out t h in
    let (same, key, found) = load_version_ok id db loaded s read in
    let (wanted, h2) =
      guard_then (not (is_status loaded.version.lifecycle_status approved)) value_error _ s out t
        h1 in
    let ready = not-false _ wanted in
    let (old, u, tested, h3) =
      bind_ok (load_superseded loaded.version.document_id supersedes) _ s out t h2 in
    let (same_u, cases) = load_superseded_ok loaded.version.document_id supersedes s old u tested in
    let new : DocumentVersion = record (with_status published loaded.version) {
      published_at = some now;
    } in
    let written : DocumentDb = record u { versions = put id new u.versions } in
    let (v, w, superseded_now, h4) = bind_ok (supersede old) _ written out t h3 in
    let (recorded, last) =
      lift_ok (to_version_record (record loaded { version = new })) w out t h4 in
    let start : u.versions ≡ db.versions = ap (λ d. d.versions) (same_u ∙ same) in
    let up = publishable loaded.version.lifecycle_status ready in
    elim cases [
      | inl nothing ↦
          let versions : t.versions ≡ put id new db.versions =
            ap (λ d. d.versions) (sym last)
            ∙ supersede_none old written v w nothing superseded_now
            ∙ ap (put id new) start in
          rw versions (moved j id loaded.version new db.versions found up refl)
      | inr (first, is, there, current) ↦
          let versions : t.versions
              ≡ put first.version_id (with_status superseded first.version)
                  (put id new db.versions) =
            ap (λ d. d.versions) (sym last)
            ∙ supersede_some old first written v w is superseded_now
            ∙ ap (λ x. put first.version_id (with_status superseded first.version) (put id new x))
                start in
          rw versions (
            publish_both j id first.version_id loaded.version new first.version
              (with_status superseded first.version) db.versions found
              (ap (λ d. find first.version_id d.versions) (sym same) ∙ there) ready current up
              (supersedable first.version.lifecycle_status current) refl refl)
    ]
  where
    supersede_none :
        (o : Option LoadedVersion) (s : DocumentDb) (v : Unit) (w : DocumentDb)
        → o ≡ none
        → supersede o s ≡ (ok v, w)
        → w.versions ≡ s.versions
    supersede_none none s v w e h = ap (λ d. d.versions) (sym (pair_ok tt v s w h).1)
    supersede_none (some x) s v w e h = cc

    supersede_some :
        (o : Option LoadedVersion) (first : LoadedVersion) (s : DocumentDb) (v : Unit)
        (w : DocumentDb)
        → o ≡ some first
        → supersede o s ≡ (ok v, w)
        → w.versions ≡ put first.version_id (with_status superseded first.version) s.versions
    supersede_some none first s v w e h = cc
    supersede_some (some x) first s v w e h =
        ap (λ d. d.versions) (sym (pair_ok tt v _ w h).1)
        ∙ ap (λ y. put y.version_id (with_status superseded y.version) s.versions)
            (some_inj x first e)

deletion_step :
    (id j : ℕ) (actor : DocumentActor) (db : DocumentDb) (out : LoadedVersion × LoadedVersion)
    (t : DocumentDb)
    → govern_deletion id actor db ≡ (ok out, t)
    → VersionStep (find j db.versions) (find j t.versions)
unfolding govern_deletion add_audit
deletion_step id j actor db out t h =
    let (allowed, h1) =
      guard_then (not (str_mem "archive_document" actor.permissions)) document_permission_denied _
        db out t h in
    let (current, s, read, h2) = bind_ok (get_version id) _ db out t h1 in
    let same = get_version_ok id db current s read in
    let (updated, u, went, h3) =
      bind_ok (transition id current.version.lifecycle_status delete_pending) _ s out t h2 in
    let step =
      transition_step id j current.version.lifecycle_status delete_pending s updated u went in
    let versions : t.versions ≡ u.versions =
      ap (λ d. d.versions) (sym (pair_ok (current, updated) out _ t h3).1) in
    rw versions (subst (λ d. VersionStep (find j d.versions) (find j u.versions)) same step)

-- One transaction of the document workflow; of a deletion, what is committed before the clean-up.
pub data DocumentOp : Type 0 where
  create_op : ℕ → ℕ → CreateDocumentDraft → DocumentOp
  submit_op : ℕ → DocumentActor → DocumentOp
  approve_op : ℕ → DocumentActor → DocumentOp
  publish_op : ℕ → ℕ → Option ℕ → DocumentOp
  delete_op : ℕ → DocumentActor → DocumentOp

unfoldable pub apply : DocumentDb → DocumentOp → DocumentDb
apply db (create_op document_key key d) = (transaction (create_draft document_key key d) db).1
apply db (submit_op id actor) = (transaction (submit_review id actor) db).1
apply db (approve_op id actor) = (transaction (approve id actor) db).1
apply db (publish_op now id supersedes) =
    (transaction (complete_publication now id supersedes) db).1
apply db (delete_op id actor) = (transaction (govern_deletion id actor) db).1

committed-VersionStep :
    {A : Type 0} (j : ℕ) (body : Exec DocumentDb A) (db : DocumentDb)
    → ((a : A) (t : DocumentDb)
        → body db ≡ (ok a, t)
        → VersionStep (find j db.versions) (find j t.versions))
    → VersionStep (find j db.versions) (find j (transaction body db).1.versions)
committed-VersionStep j body db step = elim (transaction_cases body db) [
  | inl back ↦ let e = ap (λ d. d.versions) back in rw e stay
  | inr (a, done) ↦ step a (transaction body db).1 done
]

-- Every transaction of the document workflow, returned or raised, that of a deletion up to its commit
-- barrier among them, leaves a version as it is, begins it as a draft, or moves its status along an
-- allowed transition, in the same document.
pub apply-VersionStep :
    (db : DocumentDb) (op : DocumentOp) (j : ℕ)
    → VersionStep (find j db.versions) (find j (apply db op).versions)
unfolding apply
apply-VersionStep db (create_op document_key key d) j =
    committed-VersionStep j (create_draft document_key key d) db
      (λ a t. create_draft_step document_key key j d db a t)
apply-VersionStep db (submit_op id actor) j =
    committed-VersionStep j (submit_review id actor) db (λ a t. submit_step id j actor db a t)
apply-VersionStep db (approve_op id actor) j =
    committed-VersionStep j (approve id actor) db (λ a t. approve_step id j actor db a t)
apply-VersionStep db (publish_op now id supersedes) j =
    committed-VersionStep j (complete_publication now id supersedes) db
      (λ a t. publication_step now id j supersedes db a t)
apply-VersionStep db (delete_op id actor) j =
    committed-VersionStep j (govern_deletion id actor) db (λ a t. deletion_step id j actor db a t)
