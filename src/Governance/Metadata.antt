-- ===== src/Governance/Metadata.antt =====
-- What the repository says of the versions of documents.
use it_outsourcing_knowledge.Base.{
  ℕ, ◌≤◌, ◌≡◌, inl, inr, refl, sym, ap, ◌∙◌, subst, Bool, true, false, ◌&&◌, Option, none, some,
  List, [], ◌∷◌, max, arith, ◌==◌, ==_iff, get_or, Bool-cases, Option-cases, All, All-map_of,
}
use it_outsourcing_knowledge.Base.Exec.{Result, ok, err}
use it_outsourcing_knowledge.Base.Table.{Table, find}
use it_outsourcing_knowledge.Documents.{is_published, Document, DocumentVersion, DocumentStore}
use it_outsourcing_knowledge.Access.{str_mem}
use it_outsourcing_knowledge.EvidenceMetadata.{
  AuthorityLevel, authority_of, document_categories, DocumentEvidenceMetadata, current_version,
  is_number, to_metadata, joined_row, cons_ok, get_document_evidence_metadata, metadata_for,
}

-- No published version of the document has a higher number.
abbrev pub IsNewest : DocumentStore → DocumentVersion → Type 0
IsNewest store v =
    All
      (λ row.
        row.1.document_id ≡ v.document_id
        → is_published row.1.lifecycle_status ≡ true
        → row.1.version_no ≤ v.version_no)
      store.versions

abbrev pub Below : ℕ → ℕ → Table DocumentVersion → Type 0
Below document m vs =
    All
      (λ row.
        row.1.document_id ≡ document
        → is_published row.1.lifecycle_status ≡ true
        → row.1.version_no ≤ m)
      vs

max_above :
    (document : ℕ) (vs : Table DocumentVersion)
    → Below document (get_or (current_version document vs) 0) vs
unfolding current_version
max_above document [] = tt
max_above document ((id, v) ∷ vs) =
    elim (Bool-cases (v.document_id == document && is_published v.lifecycle_status)) [
      | inl counts ↦
          let e : get_or (current_version document ((id, v) ∷ vs)) 0
              ≡ max v.version_no (get_or (current_version document vs) 0) =
            rw counts refl in
          subst (λ m. Below document m ((id, v) ∷ vs)) (sym e)
            (
              λ same live. omega arith,
              All-map_of _ _
                  (λ row h same live. le_max v.version_no row.1.version_no _ (h same live)) vs
                  (max_above document vs),
            )
      | inr skipped ↦
          let e : get_or (current_version document ((id, v) ∷ vs)) 0
              ≡ get_or (current_version document vs) 0 =
            rw skipped refl in
          subst (λ m. Below document m ((id, v) ∷ vs)) (sym e)
            (λ same live. absurd (counted same live skipped), max_above document vs)
    ]
  where
    le_max : (a b c : ℕ) → b ≤ c → b ≤ max a c
    le_max a b c h = omega arith

    counted :
        v.document_id ≡ document
        → is_published v.lifecycle_status ≡ true
        → ¬ ((v.document_id == document && is_published v.lifecycle_status) ≡ false)
    counted same live skipped =
        let e : (v.document_id == document) ≡ true = (==_iff v.document_id document).1 same in
        cc (rw (e, live) at skipped)

-- What the repository says of a version, against the tables.
abbrev pub FromStore : DocumentStore → DocumentEvidenceMetadata → Type 0
FromStore store info =
    (v : DocumentVersion) × (d : Document) × (find info.document_version_id store.versions ≡ some v)
    × (find v.document_id store.documents ≡ some d)
    × (info.project_id ≡ d.project_id)
    × (authority_of v.authority_level ≡ some info.authority_level)
    × (info.version_no ≡ v.version_no)
    × (info.effective_from ≡ v.effective_from)
    × (info.effective_to ≡ v.effective_to)
    × (info.lifecycle_status ≡ v.lifecycle_status)
    × (info.is_current ≡ true → IsNewest store v)

current-IsNewest :
    (store : DocumentStore) (v : DocumentVersion)
    → (is_published v.lifecycle_status
        && is_number v.version_no (current_version v.document_id store.versions))
      ≡ true
    → IsNewest store v
current-IsNewest store v h =
    subst (λ m. Below v.document_id m store.versions)
      (number (current_version v.document_id store.versions) v.version_no (second _ _ h))
      (max_above v.document_id store.versions)
  where
    second : (a b : Bool) → (a && b) ≡ true → b ≡ true
    second true b h = h
    second false b h = cc

    number : (o : Option ℕ) (n : ℕ) → is_number n o ≡ true → get_or o 0 ≡ n
    number none n h = cc
    number (some m) n h = (==_iff m n).0 h

to_metadata_from :
    (store : DocumentStore) (id : ℕ) (v : DocumentVersion) (d : Document)
    (o : Option AuthorityLevel) (info : DocumentEvidenceMetadata)
    → find id store.versions ≡ some v
    → find v.document_id store.documents ≡ some d
    → authority_of v.authority_level ≡ o
    → to_metadata store id v d o ≡ ok info
    → FromStore store info
unfolding to_metadata
to_metadata_from store id v d none info there owner level h = cc
to_metadata_from store id v d (some a) info there owner level h =
    elim (Bool-cases (str_mem d.document_category document_categories)) [
      | inr unknown ↦ absurd (cc (rw unknown at h))
      | inl known ↦
          let e = ok_same _ info (rw known at h) in
          subst (FromStore store) e
            (v, d, there, owner, refl, level, refl, refl, refl, refl, current-IsNewest store v)
    ]
  where
    ok_same : (x y : DocumentEvidenceMetadata) → ok x ≡ ok y → x ≡ y
    ok_same x y h = cc (h)

joined_row_found :
    (store : DocumentStore) (id : ℕ) (v : DocumentVersion) (d : Document)
    → joined_row store id ≡ some (v, d)
    → (find id store.versions ≡ some v) × (find v.document_id store.documents ≡ some d)
unfolding joined_row
joined_row_found store id v d h = elim (Option-cases (find id store.versions)) [
  | inl e ↦ absurd (cc (rw (e, joined_row) at h))
  | inr (w, e) ↦ elim (Option-cases (find w.document_id store.documents)) [
    | inl f ↦ absurd (cc (rw (e, f, joined_row) at h))
    | inr (x, f) ↦
        let same = some_pair (w, x) (v, d) (rw (e, f, joined_row) at h) in
        let sv : w ≡ v = ap (λ p. p.0) same in
        let sd : x ≡ d = ap (λ p. p.1) same in
        (e ∙ ap some sv, ap (λ y. find y.document_id store.documents) (sym sv) ∙ f ∙ ap some sd)
  ]
]
  where
    some_pair : (p q : DocumentVersion × Document) → some p ≡ some q → p ≡ q
    some_pair p q e = cc (e)

cons_ok_parts :
    {A : Type 0} (r : Result A) (rs : Result (List A)) (xs : List A)
    → cons_ok r rs ≡ ok xs
    → (a : A) × (more : List A) × (r ≡ ok a) × (rs ≡ ok more) × (a ∷ more ≡ xs)
cons_ok_parts (ok a) (ok more) xs h = (a, more, refl, refl, cc (h))
cons_ok_parts (ok a) (err e) xs h = cc
cons_ok_parts (err e) r xs h = cc

pub metadata_from :
    (store : DocumentStore) (ids : List ℕ) (infos : List DocumentEvidenceMetadata)
    → get_document_evidence_metadata store ids ≡ ok infos
    → All (FromStore store) infos
unfolding get_document_evidence_metadata
metadata_from store [] infos h = subst (All (FromStore store)) (ok_list [] infos h) tt
  where
    ok_list : (xs ys : List DocumentEvidenceMetadata) → ok xs ≡ ok ys → xs ≡ ys
    ok_list xs ys e = cc (e)
metadata_from store (id ∷ ids) infos h = elim (Option-cases (joined_row store id)) [
  | inl e ↦ metadata_from store ids infos (rw (e, get_document_evidence_metadata) at h)
  | inr ((v, d), e) ↦
      let (there, owner) = joined_row_found store id v d e in
      let (info, rest, first, later, whole) =
        cons_ok_parts (to_metadata store id v d (authority_of v.authority_level))
          (get_document_evidence_metadata store ids) infos
          (rw (e, get_document_evidence_metadata) at h) in
      subst (All (FromStore store)) whole (
        to_metadata_from store id v d (authority_of v.authority_level) info there owner refl first,
        metadata_from store ids rest later,
      )
]

pub metadata_for_found :
    (P : DocumentEvidenceMetadata → Type 0) (id : ℕ) (infos : List DocumentEvidenceMetadata)
    (info : DocumentEvidenceMetadata)
    → metadata_for id infos ≡ some info
    → All P infos
    → P info × (info.document_version_id ≡ id)
unfolding metadata_for
metadata_for_found P id [] info h a = cc
metadata_for_found P id (m ∷ ms) info h a = elim (Bool-cases (m.document_version_id == id)) [
  | inl e ↦
      let same = some_info m info (rw e at h) in
      (
        subst P same a.0,
        ap (λ x. x.document_version_id) (sym same) ∙ (==_iff m.document_version_id id).0 e,
      )
  | inr e ↦ metadata_for_found P id ms info (rw e at h) a.1
]
  where
    some_info : (x y : DocumentEvidenceMetadata) → some x ≡ some y → x ≡ y
    some_info x y e = cc (e)
