-- ===== src/Governance/Ground.antt =====
-- Where the evidence of a pack comes from.
use it_outsourcing_knowledge.Base.{
  ℕ, ◌≡◌, inl, inr, refl, sym, ap, ◌∙◌, subst, String, Bool, true, false, not, ◌&&◌, some, List, [],
  ◌∷◌, str_eq, eq_iff, ◌==◌, ==_iff, Bool-cases, Option-cases, All, All-self,
}
use mathlib.Core.List.{Memᴰ}
use it_outsourcing_knowledge.Base.Exec.{Result, ok, err}
use it_outsourcing_knowledge.Base.Table.{find}
use it_outsourcing_knowledge.Base.Text.{strip}
use it_outsourcing_knowledge.Base.Uuid.{UuidCodec}
use it_outsourcing_knowledge.Documents.{is_published, Document, DocumentVersion, DocumentStore}
use it_outsourcing_knowledge.Knowledge.{KnowledgeChunk}
use it_outsourcing_knowledge.EvidenceMetadata.{
  authority_of, authority_rank, DocumentEvidenceMetadata, get_document_evidence_metadata,
  metadata_for,
}
use it_outsourcing_knowledge.Governance.{
  GovernedEvidence, GovernedEvidencePack, starts_later, ended_before, is_admissible, parsed_chunks,
  distinct_ids, to_evidence, was_seen, candidates_of, pack_candidates, map_result, pack,
}
use it_outsourcing_knowledge.Governance.Resolve.{Contradicts}
use it_outsourcing_knowledge.Governance.Pack.{All-pack, pack_conflicts, Discloses}
use it_outsourcing_knowledge.Governance.Metadata.{
  IsNewest, FromStore, metadata_from, metadata_for_found,
}

module _ (uuid : UuidCodec) (store : DocumentStore) (today project : ℕ) (code : String)
    (chunks : List KnowledgeChunk) where
  -- The evidence is of a version of the project that is published, the newest published one of its
  -- document, and in force today, with the version's authority and number; and its content is that
  -- of a retrieved chunk of the project and the version.
  abbrev pub Grounded : GovernedEvidence → Type 0
  Grounded e =
      (v : DocumentVersion) × (d : Document) × (chunk : KnowledgeChunk) × (find
          e.document_version_id store.versions
        ≡ some v)
      × (find v.document_id store.documents ≡ some d)
      × (d.project_id ≡ project)
      × (is_published v.lifecycle_status ≡ true)
      × IsNewest store v
      × (starts_later v.effective_from today ≡ false)
      × (ended_before v.effective_to today ≡ false)
      × (authority_of v.authority_level ≡ some e.authority_level)
      × (e.version_no ≡ v.version_no)
      × Memᴰ chunk chunks
      × (chunk.project_id ≡ code)
      × (uuid.parse chunk.document_version_id ≡ some e.document_version_id)
      × (e.content ≡ chunk.content)

  abbrev Parsed : KnowledgeChunk × ℕ → Type 0
  Parsed p =
      Memᴰ p.0 chunks × (p.0.project_id ≡ code) × (uuid.parse p.0.document_version_id ≡ some p.1)

  to_evidence-Grounded :
      (info : DocumentEvidenceMetadata) (chunk : KnowledgeChunk)
      → FromStore store info
      → Parsed (chunk, info.document_version_id)
      → is_admissible project today info ≡ true
      → Grounded (to_evidence project code info chunk)
  unfolding to_evidence is_admissible
  to_evidence-Grounded info chunk
        (v, d, there, owner, of_project, level, number, from, until, status, newest)
        (member, of_code, read) h =
      let (p, h1) = parts (info.project_id == project) _ h in
      let (q, h2) = parts (is_published info.lifecycle_status && info.is_current) _ h1 in
      let (live, current) = parts (is_published info.lifecycle_status) info.is_current q in
      let (started, running) =
        parts (not (starts_later info.effective_from today))
          (not (ended_before info.effective_to today)) h2 in
      (
        v,
        d,
        chunk,
        there,
        owner,
        sym of_project ∙ (==_iff info.project_id project).0 p,
        ap is_published (sym status) ∙ live,
        newest current,
        ap (λ o. starts_later o today) (sym from) ∙ flip _ started,
        ap (λ o. ended_before o today) (sym until) ∙ flip _ running,
        level,
        number,
        member,
        of_code,
        read,
        refl,
      )
    where
      parts : (a b : Bool) → (a && b) ≡ true → (a ≡ true) × (b ≡ true)
      parts true b h = (refl, h)
      parts false b h = cc

      flip : (b : Bool) → not b ≡ true → b ≡ false
      flip true h = cc
      flip false h = refl

  parsed_chunks-From :
      (cs : List KnowledgeChunk)
      → All (λ c. Memᴰ c chunks) cs
      → All Parsed (parsed_chunks uuid code cs)
  unfolding parsed_chunks
  parsed_chunks-From [] h = tt
  parsed_chunks-From (c ∷ cs) h = elim (Bool-cases (str_eq c.project_id code)) [
    | inr other ↦ rw other (parsed_chunks-From cs h.1)
    | inl here ↦ elim (Option-cases (uuid.parse c.document_version_id)) [
      | inl unread ↦ rw (here, unread) (parsed_chunks-From cs h.1)
      | inr (id, read) ↦
          rw (here, read)
            ((h.0, (eq_iff c.project_id code).0 here, read), parsed_chunks-From cs h.1)
    ]
  ]

  candidates_Grounded :
      (infos : List DocumentEvidenceMetadata) (seen : List (ℕ × String))
      (ps : List (KnowledgeChunk × ℕ))
      → All (FromStore store) infos
      → All Parsed ps
      → All Grounded (candidates_of project code today infos seen ps)
  unfolding candidates_of
  candidates_Grounded infos seen [] known h = tt
  candidates_Grounded infos seen ((chunk, id) ∷ ps) known h =
      elim (Option-cases (metadata_for id infos)) [
        | inl unknown ↦ rw (unknown, candidates_of) (candidates_Grounded infos seen ps known h.1)
        | inr (info, e) ↦
            elim (Bool-cases
              (is_admissible project today info && not (was_seen id (strip chunk.content) seen))) [
                | inr dropped ↦
                    rw (e, candidates_of) (rw dropped (candidates_Grounded infos seen ps known h.1))
                | inl taken ↦
                    let (of_store, same) =
                      metadata_for_found (FromStore store) id infos info e known in
                    rw (e, candidates_of)
                      (rw taken (
                        to_evidence-Grounded info chunk of_store
                            (subst (λ i. Parsed (chunk, i)) (sym same) h.0)
                            (first (is_admissible project today info) _ taken),
                        candidates_Grounded infos ((id, strip chunk.content) ∷ seen) ps known h.1,
                      ))
              ]
      ]
    where
      first : (a b : Bool) → (a && b) ≡ true → a ≡ true
      first true b h = refl
      first false b h = cc

  pack_parts :
      (limit : ℕ) (p : GovernedEvidencePack)
      → pack uuid store limit today project code chunks ≡ ok p
      → (candidates : List GovernedEvidence) × All Grounded candidates
        × (pack_candidates uuid limit candidates ≡ p)
  unfolding pack
  pack_parts limit p h =
      read (get_document_evidence_metadata store (distinct_ids (parsed_chunks uuid code chunks)))
        refl h
    where
      ok_pack : (x y : GovernedEvidencePack) → ok x ≡ ok y → x ≡ y
      ok_pack x y e = cc (e)

      read :
          (r : Result (List DocumentEvidenceMetadata))
          → get_document_evidence_metadata store (distinct_ids (parsed_chunks uuid code chunks)) ≡ r
          → map_result
              (λ infos.
                pack_candidates uuid limit
                  (candidates_of project code today infos [] (parsed_chunks uuid code chunks)))
              r
            ≡ ok p
          → (candidates : List GovernedEvidence) × All Grounded candidates
            × (pack_candidates uuid limit candidates ≡ p)
      read (err e) known h = cc
      read (ok infos) known h = (
        candidates_of project code today infos [] (parsed_chunks uuid code chunks),
        candidates_Grounded infos [] (parsed_chunks uuid code chunks)
            (metadata_from store (distinct_ids (parsed_chunks uuid code chunks)) infos known)
            (parsed_chunks-From chunks (All-self chunks)),
        ok_pack _ p h,
      )

  -- All evidence of a pack is of a version of the project that is published, the newest published
  -- one of its document, and in force today, with the version's authority and number; and its
  -- content is that of a retrieved chunk of the project and the version.
  pub pack-Grounded :
      (limit : ℕ) (p : GovernedEvidencePack)
      → pack uuid store limit today project code chunks ≡ ok p
      → All Grounded p.evidence
  pack-Grounded limit p h =
      let (candidates, grounded, same) = pack_parts limit p h in
      subst (λ q. All Grounded q.evidence) same
        (All-pack Grounded (λ e g. g) (λ l e g. g) uuid limit candidates grounded)

  -- Two items of a pack that claim different things under one key are both marked as unresolved
  -- and of one authority, and the conflicts of the pack name the key with both their labels.
  pub pack-Discloses :
      (limit : ℕ) (p : GovernedEvidencePack) (a b : GovernedEvidence)
      → pack uuid store limit today project code chunks ≡ ok p
      → Memᴰ a p.evidence
      → Memᴰ b p.evidence
      → (c : Contradicts a b)
      → (a.unresolved_conflict ≡ true)
        × (b.unresolved_conflict ≡ true)
        × (authority_rank a.authority_level ≡ authority_rank b.authority_level)
        × Discloses p.unresolved_conflicts c.key a.label b.label
  pack-Discloses limit p a b h m n c =
      let (candidates, grounded, same) = pack_parts limit p h in
      subst
        (λ q.
          Memᴰ a q.evidence
          → Memᴰ b q.evidence
          → (a.unresolved_conflict ≡ true)
            × (b.unresolved_conflict ≡ true)
            × (authority_rank a.authority_level ≡ authority_rank b.authority_level)
            × Discloses q.unresolved_conflicts c.key a.label b.label)
        same (λ x y. pack_conflicts uuid limit candidates a b x y c) m n
