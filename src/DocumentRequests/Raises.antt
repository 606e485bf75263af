-- ===== src/DocumentRequests/Raises.antt =====
-- How the blocks of a publication end, and what they raise.
use it_outsourcing_knowledge.Base.{
  ℕ, ◌≡◌, ◌⊎◌, inl, inr, refl, sym, ap, ◌∙◌, Bool, true, false, not, ◌&&◌, Option, none, some,
  Bool-cases, is_some, ◌==◌,
}
use it_outsourcing_knowledge.Base.Exec.{
  Error, value_error, lookup_error, document_permission_denied, Result, ok, err, Exec, lift,
  raise_if, or_raise, outcome, guard_then, bind_ok, lift_ok, pair_ok, continue, ◌>>=◌,
}
use it_outsourcing_knowledge.Base.Table.{find}
use it_outsourcing_knowledge.Access.{str_mem}
use it_outsourcing_knowledge.Documents.{approved, published}
use it_outsourcing_knowledge.DocumentWorkflow.{
  DocumentDb, LoadedVersion, DocumentActor, get_version, load_version, to_version_record,
  load_superseded, supersede, write_version, is_status, complete_publication,
}
use it_outsourcing_knowledge.DocumentWorkflow.Approval.{record_kept}
use it_outsourcing_knowledge.DocumentWorkflow.Transitions.{load_version_ok}
use it_outsourcing_knowledge.DocumentRequests.{
  DocumentSession, on_session, is_pending, check_publication,
}

abbrev pub raised : {A : Type 0} → Error → Result A
raised e = err e

pub error_of : {A : Type 0} (e e' : Error) → raised {A = A} e ≡ raised {A = A} e' → e ≡ e'
error_of e e' h = cc (h)

-- How a block raises: in its first part, or in the rest.
module _ {S A B : Type 0} where
  bind_raised :
      (m : Exec S A) (f : A → Exec S B) (s : S) (e : Error) (t : S)
      → (m >>= f) s ≡ (err e, t)
      → ((u : S) × (m s ≡ (err e, u)))
        ⊎ ((a : A) × (u : S) × (m s ≡ (ok a, u)) × (f a u ≡ (err e, t)))
  bind_raised m f s e t h = split (m s).0 refl h
    where
      split :
          (r : Result A)
          → (m s).0 ≡ r
          → continue r f (m s).1 ≡ (err e, t)
          → ((u : S) × (m s ≡ (err e, u)))
            ⊎ ((a : A) × (u : S) × (m s ≡ (ok a, u)) × (f a u ≡ (err e, t)))
      split (ok a) same g = inr (a, (m s).1, ap (λ r. outcome r (m s).1) same, g)
      split (err e') same g = inl (
        (m s).1,
        ap (λ r. outcome r (m s).1)
            (same ∙ ap (λ x. err x) (error_of {A = B} e' e (ap (λ q. q.0) g))),
      )

  or_raise_raised :
      (o : Option A) (e' : Error) (f : A → Exec S B) (s : S) (e : Error) (t : S)
      → (or_raise o e' >>= f) s ≡ (err e, t)
      → (e' ≡ e) ⊎ ((a : A) × (f a s ≡ (err e, t)))
  or_raise_raised none e' f s e t h = inl (error_of {A = B} e' e (ap (λ q. q.0) h))
  or_raise_raised (some a) e' f s e t h = inr (a, h)

module _ {S B : Type 0} where
  raise_if_raised :
      (b : Bool) (e' : Error) (f : Unit → Exec S B) (s : S) (e : Error) (t : S)
      → (raise_if b e' >>= f) s ≡ (err e, t)
      → (e' ≡ e) ⊎ (f tt s ≡ (err e, t))
  raise_if_raised true e' f s e t h = inl (error_of {A = B} e' e (ap (λ q. q.0) h))
  raise_if_raised false e' f s e t h = inr h

-- A block that ends somehow: its first part raised, or the rest ended so.
module _ {S A B : Type 0} where
  pub lift_split :
      (x : Result A) (f : A → Exec S B) (s : S) (r : Result B) (t : S)
      → (lift x >>= f) s ≡ (r, t)
      → ((e : Error) × (err e ≡ r) × (s ≡ t)) ⊎ ((a : A) × (x ≡ ok a) × (f a s ≡ (r, t)))
  lift_split (err e) f s r t h = inl (e, ap (λ q. q.0) h, ap (λ q. q.1) h)
  lift_split (ok a) f s r t h = inr (a, refl, h)

module _ {A B : Type 0} where
  pub session_split :
      (m : Exec DocumentDb A) (f : A → Exec DocumentSession B) (s : DocumentSession) (r : Result B)
      (t : DocumentSession)
      → (on_session m >>= f) s ≡ (r, t)
      → ((e : Error) × (u : DocumentDb) × (m s.current ≡ (err e, u))
          × (err e ≡ r)
          × (record s { current = u } ≡ t))
        ⊎ ((a : A) × (u : DocumentDb) × (m s.current ≡ (ok a, u))
            × (f a (record s { current = u }) ≡ (r, t)))
  session_split m f s r t h = split (m s.current).0 refl h
    where
      after : DocumentDb
      after = (m s.current).1

      split :
          (x : Result A)
          → (m s.current).0 ≡ x
          → continue x f (record s { current = after }) ≡ (r, t)
          → ((e : Error) × (u : DocumentDb) × (m s.current ≡ (err e, u))
              × (err e ≡ r)
              × (record s { current = u } ≡ t))
            ⊎ ((a : A) × (u : DocumentDb) × (m s.current ≡ (ok a, u))
                × (f a (record s { current = u }) ≡ (r, t)))
      split (err e) same g =
          inl (e, after, ap (λ x. outcome x after) same, ap (λ q. q.0) g, ap (λ q. q.1) g)
      split (ok a) same g = inr (a, after, ap (λ x. outcome x after) same, g)

load_version_raised :
    (id : ℕ) (db : DocumentDb) (e : Error) (t : DocumentDb)
    → load_version id db ≡ (err e, t)
    → is_pending e ≡ false
unfolding load_version
load_version_raised id db e t h =
    elim (or_raise_raised (find id db.versions) lookup_error _ db e t h) [
      | inl same ↦ ap is_pending (sym same)
      | inr (version, h1) ↦
          elim (or_raise_raised (find version.document_id db.documents) lookup_error _ db e t h1) [
            | inl same ↦ ap is_pending (sym same)
            | inr (document, h2) ↦ cc (ap (λ q. q.0) h2)
          ]
    ]

record_raised : (v : LoadedVersion) (e : Error) → to_version_record v ≡ err e → is_pending e ≡ false
unfolding to_version_record
record_raised v e h =
    elim (Bool-cases (is_some v.version.source_uri && is_some v.version.content_hash)) [
      | inl whole ↦ cc (rw whole at h)
      | inr lacks ↦ ap is_pending (error_of {A = LoadedVersion} e value_error (sym (rw lacks at h)))
    ]

superseded_raised :
    (document : ℕ) (o : Option ℕ) (db : DocumentDb) (e : Error) (t : DocumentDb)
    → load_superseded document o db ≡ (err e, t)
    → is_pending e ≡ false
unfolding load_superseded
superseded_raised document none db e t h = cc (ap (λ q. q.0) h)
superseded_raised document (some id) db e t h = elim (bind_raised (load_version id) _ db e t h) [
  | inl (v, first) ↦ load_version_raised id db e v first
  | inr (old, u, read, h1) ↦
      elim (raise_if_raised (not (old.version.document_id == document)) value_error _ u e t h1) [
        | inl same ↦ ap is_pending (sym same)
        | inr h2 ↦
            elim (raise_if_raised (not (is_status old.version.lifecycle_status published))
              value_error _ u e t h2) [
                | inl same ↦ ap is_pending (sym same)
                | inr h3 ↦ cc (ap (λ q. q.0) h3)
              ]
      ]
]

supersede_raised :
    (o : Option LoadedVersion) (db : DocumentDb) (e : Error) (t : DocumentDb)
    → ¬ (supersede o db ≡ (err e, t))
unfolding supersede write_version
supersede_raised none db e t h = cc (ap (λ q. q.0) h)
supersede_raised (some old) db e t h = cc (ap (λ q. q.0) h)

-- A publication in the tables never raises that an ingestion is pending.
pub publication_raised :
    (now id : ℕ) (o : Option ℕ) (db : DocumentDb) (e : Error) (t : DocumentDb)
    → complete_publication now id o db ≡ (err e, t)
    → is_pending e ≡ false
unfolding complete_publication write_version
publication_raised now id o db e t h = elim (bind_raised (load_version id) _ db e t h) [
  | inl (v, first) ↦ load_version_raised id db e v first
  | inr (loaded, u, read, h1) ↦
      elim (raise_if_raised (not (is_status loaded.version.lifecycle_status approved)) value_error _
        u e t h1) [
          | inl same ↦ ap is_pending (sym same)
          | inr h2 ↦ elim (bind_raised (load_superseded loaded.version.document_id o) _ u e t h2) [
            | inl (v, second) ↦ superseded_raised loaded.version.document_id o u e v second
            | inr (old, w, seen, h3) ↦ elim (bind_raised (supersede old) _ _ e t h3) [
              | inl (v, third) ↦ absurd (supersede_raised old _ e v third)
              | inr (v, x, done, h4) ↦ record_raised _ e (ap (λ q. q.0) h4)
            ]
          ]
        ]
]

pub checked_id :
    (id : ℕ) (actor : DocumentActor) (db : DocumentDb) (current : LoadedVersion) (t : DocumentDb)
    → check_publication id actor db ≡ (ok current, t)
    → current.version_id ≡ id
unfolding check_publication get_version
checked_id id actor db current t h =
    let (permitted, h1) =
      guard_then (not (str_mem "publish_document" actor.permissions)) document_permission_denied _
        db current t h in
    let (loaded, s, read, h2) = bind_ok (get_version id) _ db current t h1 in
    let (first, u, found, h3) = bind_ok (load_version id) _ db loaded s read in
    let (is_approved, h4) =
      guard_then (not (is_status loaded.version.lifecycle_status approved)) value_error _ s current
        t h2 in
    ap (λ v. v.version_id)
      (sym (
        record_kept first loaded (lift_ok (to_version_record first) u loaded s h3).0
        ∙ (pair_ok loaded current s t h4).0))
    ∙ (load_version_ok id db first u found).1
