-- ===== src/DocumentWorkflow/Transitions.antt =====
-- How a document's version may change in one transaction.
use it_outsourcing_knowledge.Base.{
  ℕ, ◌≡◌, refl, sym, ap, ◌∙◌, subst, Bool, true, false, not, ◌&&◌, ◌||◌, Option, none, some, inl,
  inr, Bool-cases, ◌==◌, ==_iff, is_some, str_eq,
}
use it_outsourcing_knowledge.Base.Exec.{
  lookup_error, value_error, integrity_error, document_permission_denied, ok, bind_ok, pair_ok,
  guard_then, found_then, lift_then, lift_ok,
}
use it_outsourcing_knowledge.Base.Table.{Table, find, add, put, find-add, find-put}
use it_outsourcing_knowledge.Access.{str_mem}
use it_outsourcing_knowledge.Documents.{
  DocumentLifecycleStatus, draft, under_review, approved, Document, DocumentVersion,
}
use it_outsourcing_knowledge.DocumentWorkflow.{
  can_transition_document, transition_document_status, is_status, DocumentDb, CreateDocumentDraft,
  LoadedVersion, load_version, to_version_record, get_version, with_status, write_version,
  transition, max_version, names_version, document_of, new_document, new_version, create_draft,
  add_audit, DocumentActor, is_owner, submit_review, approve,
}

-- A version stays, begins as a draft, or moves along an allowed transition, in its document.
pub data VersionStep : Option DocumentVersion → Option DocumentVersion → Type 0 where
  stay : {o : Option DocumentVersion} → VersionStep o o
  begin : {v : DocumentVersion} → v.lifecycle_status ≡ draft → VersionStep none (some v)
  move :
      {a b : DocumentVersion}
      → can_transition_document a.lifecycle_status b.lifecycle_status ≡ true
      → b.document_id ≡ a.document_id
      → VersionStep (some a) (some b)

abbrev pub Versions : Type 0
Versions = Table DocumentVersion

same_versions : (j : ℕ) (vs ws : Versions) → ws ≡ vs → VersionStep (find j vs) (find j ws)
same_versions j vs ws e = rw e stay

pub moved :
    (j id : ℕ) (a b : DocumentVersion) (vs : Versions)
    → find id vs ≡ some a
    → can_transition_document a.lifecycle_status b.lifecycle_status ≡ true
    → b.document_id ≡ a.document_id
    → VersionStep (find j vs) (find j (put id b vs))
moved j id a b vs found allowed same = elim (Bool-cases (j == id)) [
  | inl equal ↦
      let e : find j vs ≡ some a = rw ((==_iff j id).0 equal) found in
      let e' : find j (put id b vs) ≡ some b = rw (find-put j id b vs) (rw equal (rw e refl)) in
      rw e (rw e' (move allowed same))
  | inr other ↦
      let e : find j (put id b vs) ≡ find j vs = rw (find-put j id b vs) (rw other refl) in
      rw e stay
]

pub load_version_ok :
    (id : ℕ) (db : DocumentDb) (loaded : LoadedVersion) (t : DocumentDb)
    → load_version id db ≡ (ok loaded, t)
    → (t ≡ db) × (loaded.version_id ≡ id) × (find id db.versions ≡ some loaded.version)
unfolding load_version
load_version_ok id db loaded t h =
    let (version, found, h1) = found_then (find id db.versions) lookup_error _ db loaded t h in
    let (document, owner, h2) =
      found_then (find version.document_id db.documents) lookup_error _ db loaded t h1 in
    let (same, last) = pair_ok _ loaded db t h2 in
    (sym last, ap (λ l. l.version_id) (sym same), found ∙ ap (λ l. some l.version) same)

pub not-false : (b : Bool) → not b ≡ false → b ≡ true
not-false true h = refl
not-false false h = cc

transition_allowed :
    (current target status : DocumentLifecycleStatus)
    → transition_document_status current target ≡ ok status
    → can_transition_document current target ≡ true
unfolding transition_document_status
transition_allowed current target status h =
    elim (Bool-cases (can_transition_document current target)) [
      | inl may ↦ may
      | inr never ↦ absurd (cc (rw never at h))
    ]

pub transition_step :
    (id j : ℕ) (expected target : DocumentLifecycleStatus) (db : DocumentDb) (out : LoadedVersion)
    (t : DocumentDb)
    → transition id expected target db ≡ (ok out, t)
    → VersionStep (find j db.versions) (find j t.versions)
unfolding transition write_version
transition_step id j expected target db out t h =
    let (loaded, s, read, h1) = bind_ok (load_version id) _ db out t h in
    let (same, key, found) = load_version_ok id db loaded s read in
    let (wanted, h2) =
      guard_then (not (is_status loaded.version.lifecycle_status expected)) value_error _ s out t
        h1 in
    let (status, allowed, h3) =
      lift_then (transition_document_status loaded.version.lifecycle_status target) _ s out t h2 in
    let new : DocumentVersion = with_status target loaded.version in
    let (record_ok, last) =
      lift_ok (to_version_record (record loaded { version = new }))
        (record s { versions = put id new s.versions }) out t h3 in
    let versions : t.versions ≡ put id new db.versions =
      ap (λ d. d.versions) (sym last) ∙ ap (λ d. put id new d.versions) same in
    rw versions (
      moved j id loaded.version new db.versions found
        (transition_allowed loaded.version.lifecycle_status target status allowed) refl)

pub get_version_ok :
    (id : ℕ) (db : DocumentDb) (loaded : LoadedVersion) (t : DocumentDb)
    → get_version id db ≡ (ok loaded, t)
    → t ≡ db
unfolding get_version
get_version_ok id db loaded t h =
    let (first, s, read, rest) = bind_ok (load_version id) _ db loaded t h in
    sym (lift_ok (to_version_record first) s loaded t rest).1
    ∙ (load_version_ok id db first s read).0

pub submit_step :
    (id j : ℕ) (actor : DocumentActor) (db : DocumentDb) (out : LoadedVersion) (t : DocumentDb)
    → submit_review id actor db ≡ (ok out, t)
    → VersionStep (find j db.versions) (find j t.versions)
unfolding submit_review add_audit
submit_step id j actor db out t h =
    let (current, s, read, h1) = bind_ok (get_version id) _ db out t h in
    let same = get_version_ok id db current s read in
    let (allowed, h2) =
      guard_then
        (not (
            actor.user_id == current.version.created_by
            || is_owner actor.user_id current.document.owner_user_id)
          && not (str_mem "submit_review" actor.permissions))
        document_permission_denied _ s out t h1 in
    let (updated, u, went, h3) = bind_ok (transition id draft under_review) _ s out t h2 in
    let step = transition_step id j draft under_review s updated u went in
    let versions : t.versions ≡ u.versions =
      ap (λ d. d.versions) (sym (pair_ok updated out _ t h3).1) in
    rw versions (subst (λ d. VersionStep (find j d.versions) (find j u.versions)) same step)

pub approve_step :
    (id j : ℕ) (actor : DocumentActor) (db : DocumentDb) (out : LoadedVersion) (t : DocumentDb)
    → approve id actor db ≡ (ok out, t)
    → VersionStep (find j db.versions) (find j t.versions)
unfolding approve add_audit
approve_step id j actor db out t h =
    let (current, s, read, h1) = bind_ok (get_version id) _ db out t h in
    let same = get_version_ok id db current s read in
    let (allowed, h2) =
      guard_then (not (is_owner actor.user_id current.document.owner_user_id))
        document_permission_denied _ s out t h1 in
    let (updated, u, went, h3) = bind_ok (transition id under_review approved) _ s out t h2 in
    let step = transition_step id j under_review approved s updated u went in
    let versions : t.versions ≡ u.versions =
      ap (λ d. d.versions) (sym (pair_ok updated out _ t h3).1) in
    rw versions (subst (λ d. VersionStep (find j d.versions) (find j u.versions)) same step)

document_of_ok :
    (key : ℕ) (d : CreateDocumentDraft) (o : Option ℕ) (db : DocumentDb) (id : ℕ × Document)
    (t : DocumentDb)
    → document_of key d o db ≡ (ok id, t)
    → t.versions ≡ db.versions
unfolding document_of
document_of_ok key d none db id t h =
    let (free, h1) = guard_then (is_some (find key db.documents)) integrity_error _ db id t h in
    ap (λ x. x.versions) (sym (pair_ok (key, new_document d) id _ t h1).1)
document_of_ok key d (some k) db id t h =
    let (document, found, h1) = found_then (find k db.documents) lookup_error _ db id t h in
    let (project, h2) =
      guard_then (not (document.project_id == d.project_id)) value_error _ db id t h1 in
    let (category, h3) =
      guard_then (not (str_eq document.document_category d.document_category)) value_error _ db id t
        h2 in
    ap (λ x. x.versions) (sym (pair_ok (k, document) id db t h3).1)

absent : {A : Type 0} (o : Option A) → is_some o ≡ false → o ≡ none
absent none h = refl
absent (some a) h = cc

begun :
    (j key : ℕ) (v : DocumentVersion) (vs : Versions)
    → find key vs ≡ none
    → v.lifecycle_status ≡ draft
    → VersionStep (find j vs) (find j (add key v vs))
begun j key v vs free starts = elim (Bool-cases (j == key)) [
  | inl equal ↦
      let e : find j vs ≡ none = rw ((==_iff j key).0 equal) free in
      let e' : find j (add key v vs) ≡ some v = rw (find-add j key v vs) (rw equal refl) in
      rw e (rw e' (begin starts))
  | inr other ↦
      let e : find j (add key v vs) ≡ find j vs = rw (find-add j key v vs) (rw other refl) in
      rw e stay
]

pub create_draft_step :
    (document_key key j : ℕ) (d : CreateDocumentDraft) (db : DocumentDb) (out : LoadedVersion)
    (t : DocumentDb)
    → create_draft document_key key d db ≡ (ok out, t)
    → VersionStep (find j db.versions) (find j t.versions)
unfolding create_draft new_version
create_draft_step document_key key j d db out t h =
    let (owner, s, made, h1) = bind_ok (document_of document_key d d.document_id) _ db out t h in
    let same = document_of_ok document_key d d.document_id db owner s made in
    let (taken, h2) = guard_then (is_some (find key s.versions)) integrity_error _ s out t h1 in
    let v : DocumentVersion = new_version d owner.0 (max_version owner.0 s.versions) in
    let (known, h3) =
      guard_then (not (names_version d.supersedes_version_id s.versions)) integrity_error _ s out t
        h2 in
    let (result, read_last) =
      lift_ok (to_version_record (record { version_id = key; document = owner.1; version = v }))
        (record s { versions = add key v s.versions }) out t h3 in
    let versions : t.versions ≡ add key v s.versions = ap (λ x. x.versions) (sym read_last) in
    let step : VersionStep (find j s.versions) (find j (add key v s.versions)) =
      begun j key v s.versions (absent (find key s.versions) taken) refl in
    rw versions (subst (λ vs. VersionStep (find j vs) (find j (add key v s.versions))) same step)
