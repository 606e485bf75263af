-- ===== src/Access/Newest.antt =====
-- `list_published_document_access`: which versions of which documents may be read.
use it_outsourcing_knowledge.Base.{
  ℕ, ◌≤◌, ◌≡◌, ◌⊎◌, refl, sym, ap, true, false, List, [], ◌∷◌, arith, inl, inr, Bool-cases, ◌==◌,
  All, some, ◌∙◌, subst, ==_iff, Option-cases,
}
use mathlib.Core.List.{Memᴰ}
use it_outsourcing_knowledge.Base.Sort.{sort, IsSorted, All-sort, sort-IsSorted}
use it_outsourcing_knowledge.Base.Query.{All-Memᴰ, Memᴰ-sort}
use it_outsourcing_knowledge.Base.Table.{Table, find}
use it_outsourcing_knowledge.Documents.{
  Document, DocumentVersion, DocumentStore, DocumentLifecycleStatus, published, is_published,
}
use it_outsourcing_knowledge.Access.{
  AccessStore, PublishedVersion, published_rows, newest_first, mem, first_of_each,
  list_published_document_access,
}

newest_first_total : (a b : PublishedVersion) → newest_first a b ≡ false → newest_first b a ≡ true
unfolding newest_first
newest_first_total a b h = ground (arith, h)

newest_first_trans :
    (a b c : PublishedVersion)
    → newest_first a b ≡ true
    → newest_first b c ≡ true
    → newest_first a c ≡ true
unfolding newest_first
newest_first_trans a b c h k = ground (arith, h, k)

newer_of_same :
    (r x : PublishedVersion)
    → newest_first r x ≡ true
    → x.document_id ≡ r.document_id
    → x.version_no ≤ r.version_no
unfolding newest_first
newer_of_same r x h e = ground (arith, h, e)

-- A version of the document, in the list, that is not older than the given number.
abbrev pub HasNewer : ℕ → ℕ → List PublishedVersion → Type 0
HasNewer document number rs =
    (r : PublishedVersion) × Memᴰ r rs × (r.document_id ≡ document) × (number ≤ r.version_no)

later :
    (document number : ℕ) (r : PublishedVersion) (rs : List PublishedVersion)
    → HasNewer document number rs
    → HasNewer document number (r ∷ rs)
later document number r rs (n, there, same, older) = (n, Memᴰ.tail there, same, older)

mem_cons : (k d : ℕ) (seen : List ℕ) → mem k (d ∷ seen) ≡ true → (k ≡ d) ⊎ (mem k seen ≡ true)
mem_cons k d seen h = elim (Bool-cases (k == d)) [
  | inl same ↦ inl (ground (arith, same))
  | inr other ↦ inr (ground (arith, other, h))
]

newest_kept :
    (seen : List ℕ) (rs : List PublishedVersion) (x : PublishedVersion)
    → IsSorted newest_first rs
    → Memᴰ x rs
    → (mem x.document_id seen ≡ true) ⊎ HasNewer x.document_id x.version_no (first_of_each seen rs)
unfolding first_of_each
newest_kept seen [] x s m = elim m [ ]
newest_kept seen (r ∷ rs) x s (Memᴰ.head e) = elim (Bool-cases (mem r.document_id seen)) [
  | inl old ↦ inl (rw e old)
  | inr new ↦ inr (rw new (r, Memᴰ.head refl, ap (λ y. y.document_id) (sym e), rw e (omega arith)))
]
newest_kept seen (r ∷ rs) x s (Memᴰ.tail m) = elim (Bool-cases (mem r.document_id seen)) [
  | inl old ↦ rw old (newest_kept seen rs x s.1 m)
  | inr new ↦ elim (newest_kept (r.document_id ∷ seen) rs x s.1 m) [
    | inr kept ↦ inr (rw new (later _ _ r _ kept))
    | inl taken ↦ elim (mem_cons x.document_id r.document_id seen taken) [
      | inr before ↦ inl before
      | inl same ↦
          let first : newest_first r x ≡ true = All-Memᴰ (λ y. newest_first r y ≡ true) s.0 m in
          inr (rw new (r, Memᴰ.head refl, sym same, newer_of_same r x first same))
    ]
  ]
]

-- Every entry of the result stands for a document that was not seen, and for one only.
abbrev pub IsDistinct : List ℕ → List PublishedVersion → Type 0
IsDistinct seen [] = Unit
IsDistinct seen (r ∷ rs) = (mem r.document_id seen ≡ false) × IsDistinct (r.document_id ∷ seen) rs

first_of_each-IsDistinct :
    (seen : List ℕ) (rs : List PublishedVersion) → IsDistinct seen (first_of_each seen rs)
unfolding first_of_each
first_of_each-IsDistinct seen [] = tt
first_of_each-IsDistinct seen (r ∷ rs) = elim (Bool-cases (mem r.document_id seen)) [
  | inl old ↦ rw old (first_of_each-IsDistinct seen rs)
  | inr new ↦ rw new (new, first_of_each-IsDistinct (r.document_id ∷ seen) rs)
]

All-first_of_each :
    (P : PublishedVersion → Type 0) (seen : List ℕ) (rs : List PublishedVersion)
    → All P rs
    → All P (first_of_each seen rs)
unfolding first_of_each
All-first_of_each P seen [] h = tt
All-first_of_each P seen (r ∷ rs) h = elim (Bool-cases (mem r.document_id seen)) [
  | inl old ↦ rw old (All-first_of_each P seen rs h.1)
  | inr new ↦ rw new (h.0, All-first_of_each P (r.document_id ∷ seen) rs h.1)
]

each-All : {A : Type 0} (P : A → Type 0) (rs : List A) → ((r : A) → Memᴰ r rs → P r) → All P rs
each-All P [] h = tt
each-All P (r ∷ rs) h = (h r (Memᴰ.head refl), each-All P rs (λ x m. h x (Memᴰ.tail m)))

-- The version is published, and its document is one of the project.
abbrev pub IsPublishedIn : DocumentStore → ℕ → DocumentVersion → Document → Type 0
IsPublishedIn docs project v d =
    (find v.document_id docs.documents ≡ some d)
    × (d.project_id ≡ project)
    × (v.lifecycle_status ≡ published)

-- The entry stands for a row of the versions that is published in the project, and copies it.
abbrev pub IsReadable : DocumentStore → ℕ → Table DocumentVersion → PublishedVersion → Type 0
IsReadable docs project vs r =
    (v : DocumentVersion) × (d : Document) × Memᴰ (r.version_id, v) vs
    × IsPublishedIn docs project v d
    × (r.document_id ≡ v.document_id)
    × (r.version_no ≡ v.version_no)
    × (r.document_category ≡ d.document_category)

status_published : (s : DocumentLifecycleStatus) → is_published s ≡ true → s ≡ published
status_published published h = refl
status_published s h = cc

module _ (docs : DocumentStore) (project : ℕ) where
  abbrev row_of : ℕ → DocumentVersion → Document → PublishedVersion
  row_of id v d = record {
    document_id = v.document_id;
    version_id = id;
    version_no = v.version_no;
    document_category = d.document_category;
  }

  -- Is the version published in the project? Then its row comes first, otherwise it adds none.
  abbrev FirstRow : ℕ → DocumentVersion → Table DocumentVersion → Type 0
  FirstRow id v vs =
      ((¬ ((d : Document) × IsPublishedIn docs project v d))
        × (published_rows docs project ((id, v) ∷ vs) ≡ published_rows docs project vs))
      ⊎ ((d : Document) × IsPublishedIn docs project v d
          × (published_rows docs project ((id, v) ∷ vs)
              ≡ row_of id v d ∷ published_rows docs project vs))

  first_row : (id : ℕ) (v : DocumentVersion) (vs : Table DocumentVersion) → FirstRow id v vs
  unfolding published_rows
  first_row id v vs = elim (Option-cases (find v.document_id docs.documents)) [
    | inl missing ↦ inl (λ p. absurd (cc (sym missing ∙ p.1.0)), rw (missing, published_rows) refl)
    | inr (d, found) ↦ elim (Bool-cases (d.project_id == project)) [
      | inr other ↦ inl (
        λ p. absurd (foreign d p.0 other p.1.1 (sym found ∙ p.1.0)),
        rw (found, published_rows) (rw other refl),
      )
      | inl here ↦ elim (Bool-cases (is_published v.lifecycle_status)) [
        | inr hidden ↦ inl (
          λ p. absurd (cc (sym hidden ∙ ap is_published p.1.2)),
          rw (found, published_rows) (rw here (rw hidden refl)),
        )
        | inl shown ↦ inr (
          d,
          (found, (==_iff d.project_id project).0 here, status_published _ shown),
          rw (found, published_rows) (rw here (rw shown refl)),
        )
      ]
    ]
  ]
    where
      foreign :
          (d e : Document)
          → (d.project_id == project) ≡ false
          → e.project_id ≡ project
          → ¬ (some d ≡ some e)
      foreign d e other here same =
          let equal : d ≡ e = cc (same) in
          let mine : d.project_id ≡ project = ap (λ x. x.project_id) equal ∙ here in
          absurd (cc (sym other ∙ (==_iff d.project_id project).1 mine))

  rows-IsReadable :
      (vs : Table DocumentVersion) (r : PublishedVersion)
      → Memᴰ r (published_rows docs project vs)
      → IsReadable docs project vs r
  unfolding published_rows
  rows-IsReadable [] r m = elim m [ ]
  rows-IsReadable ((id, v) ∷ vs) r m = elim (first_row id v vs) [
    | inl (hidden, same) ↦ further (rows-IsReadable vs r (subst (Memᴰ r) same m))
    | inr (d, shown, same) ↦ at d shown (rows-IsReadable vs r) (subst (Memᴰ r) same m)
  ]
    where
      further : IsReadable docs project vs r → IsReadable docs project ((id, v) ∷ vs) r
      further (w, e, there, shown, a, b, c) = (w, e, Memᴰ.tail there, shown, a, b, c)

      at :
          (d : Document)
          → IsPublishedIn docs project v d
          → (Memᴰ r (published_rows docs project vs) → IsReadable docs project vs r)
          → Memᴰ r (row_of id v d ∷ published_rows docs project vs)
          → IsReadable docs project ((id, v) ∷ vs) r
      at d shown tails (Memᴰ.tail m) = further (tails m)
      at d shown tails (Memᴰ.head e) = (
        v,
        d,
        Memᴰ.head (ap (λ x. (x.version_id, v)) e),
        shown,
        ap (λ x. x.document_id) e,
        ap (λ x. x.version_no) e,
        ap (λ x. x.document_category) e,
      )

  -- Unless a version is not published in the project, it has a row.
  abbrev HasRow : DocumentVersion → Table DocumentVersion → Type 0
  HasRow v vs =
      (¬ ((d : Document) × IsPublishedIn docs project v d))
      ⊎ ((x : PublishedVersion) × Memᴰ x (published_rows docs project vs)
          × (x.document_id ≡ v.document_id)
          × (x.version_no ≡ v.version_no))

  rows-HasRow : (vs : Table DocumentVersion) (e : ℕ × DocumentVersion) → Memᴰ e vs → HasRow e.1 vs
  rows-HasRow [] e m = elim m [ ]
  rows-HasRow ((id, v) ∷ vs) e (Memᴰ.head is) = elim (first_row id v vs) [
    | inl (hidden, same) ↦
        subst (λ w. HasRow w ((id, v) ∷ vs)) (ap (λ q. q.1) (sym is)) (inl hidden)
    | inr (d, shown, same) ↦ inr (
      row_of id v d,
      subst (Memᴰ (row_of id v d)) (sym same) (Memᴰ.head refl),
      ap (λ q. q.1.document_id) (sym is),
      ap (λ q. q.1.version_no) (sym is),
    )
  ]
  rows-HasRow ((id, v) ∷ vs) e (Memᴰ.tail m) = elim (rows-HasRow vs e m) [
    | inl hidden ↦ inl hidden
    | inr (x, there, document, number) ↦ inr (x, kept x there, document, number)
  ]
    where
      kept :
          (x : PublishedVersion)
          → Memᴰ x (published_rows docs project vs)
          → Memᴰ x (published_rows docs project ((id, v) ∷ vs))
      kept x there = elim (first_row id v vs) [
        | inl (hidden, same) ↦ subst (Memᴰ x) (sym same) there
        | inr (d, shown, same) ↦ subst (Memᴰ x) (sym same) (Memᴰ.tail there)
      ]

-- Each entry of what may be read of a project stands for a row of the versions whose status is
-- published and whose document is in the project, with that row's number and that document's
-- category; there is one entry of each document only; and for each row of the versions that is
-- published in the project there is an entry of its document that is not older.
pub published_access_exact :
    (s : AccessStore) (project : ℕ)
    → All (IsReadable s.docs project s.docs.versions) (list_published_document_access s project)
      × IsDistinct [] (list_published_document_access s project)
      × All
          (λ e.
            (¬ ((d : Document) × IsPublishedIn s.docs project e.1 d))
            ⊎ HasNewer e.1.document_id e.1.version_no (list_published_document_access s project))
          s.docs.versions
unfolding list_published_document_access
published_access_exact s project =
    let vs = s.docs.versions in
    let rows = published_rows s.docs project vs in
    let sorted = sort newest_first rows in
    let in_order = sort-IsSorted newest_first newest_first_total newest_first_trans rows in
    (
      All-first_of_each (IsReadable s.docs project vs) [] sorted (
          All-sort newest_first (IsReadable s.docs project vs) rows
            (each-All (IsReadable s.docs project vs) rows (rows-IsReadable s.docs project vs))),
      first_of_each-IsDistinct [] sorted,
      each-All _ vs (λ e m. elim (rows-HasRow s.docs project vs e m) [
        | inl hidden ↦ inl hidden
        | inr (x, there, document, number) ↦
            elim (newest_kept [] sorted x in_order (Memᴰ-sort newest_first rows there)) [
              | inl never ↦ absurd (cc (never))
              | inr (r, kept, same, newer) ↦ inr (r, kept, same ∙ document, rw (sym number) newer)
            ]
      ]),
    )
