-- ===== src/AccessPolicy/Laws.antt =====
-- What a constrained request asks for.
use it_outsourcing_knowledge.Base.{
  ◌≡◌, ◌⊎◌, inl, inr, refl, sym, ◌∙◌, String, Bool, true, false, ◌&&◌, ◌||◌, none, some, List, [],
  ◌∷◌, arith, str_eq, eq_iff, select, is_nil, Bool-cases,
}
use it_outsourcing_knowledge.Base.Exec.{ok, err, authorization_denied}
use it_outsourcing_knowledge.Base.Text.{str_le}
use it_outsourcing_knowledge.Base.Uuid.{UuidCodec}
use it_outsourcing_knowledge.Access.{AuthorizedProjectContext, str_mem, dedupe}
use it_outsourcing_knowledge.Access.Texts.{str_mem-sort, str_mem-dedupe, str_mem-select}
use it_outsourcing_knowledge.Knowledge.{KnowledgeRetrievalRequest}
use it_outsourcing_knowledge.AccessPolicy.{allowed_versions, constrained_to, constrain_retrieval}

-- Is the text allowed, and requested where anything is?
abbrev pub is_wanted : List String → List String → String → Bool
is_wanted allowed requested x = str_mem x allowed && (is_nil requested || str_mem x requested)

constrained_mem :
    (allowed requested : List String) (x : String)
    → str_mem x (constrained_to allowed requested) ≡ is_wanted allowed requested x
unfolding constrained_to
constrained_mem allowed [] x =
    str_mem-sort str_le x (dedupe allowed) ∙ ground (arith, str_mem-dedupe x allowed)
constrained_mem allowed (z ∷ zs) x =
    str_mem-sort str_le x (dedupe (select (λ y. str_mem y (z ∷ zs)) allowed))
    ∙ str_mem-dedupe x (select (λ y. str_mem y (z ∷ zs)) allowed)
    ∙ str_mem-select (z ∷ zs) x allowed

none_in : (xs : List String) (x : String) → is_nil xs ≡ true → str_mem x xs ≡ false
none_in [] x h = refl
none_in (y ∷ ys) x h = cc

not_wanted :
    (allowed requested : List String)
    → is_nil allowed ≡ true
    → (x : String) → is_wanted allowed requested x ≡ false
not_wanted allowed requested h x = rw (none_in allowed x h)

unwanted :
    (allowed requested : List String)
    → is_nil (constrained_to allowed requested) ≡ true
    → (x : String) → is_wanted allowed requested x ≡ false
unwanted allowed requested h x =
    sym (constrained_mem allowed requested x) ∙ none_in (constrained_to allowed requested) x h

or_cases : (a b : Bool) → (a || b) ≡ true → (a ≡ true) ⊎ (b ≡ true)
or_cases true b h = inl refl
or_cases false b h = inr h

neither : (a b : Bool) → (a || b) ≡ false → (a ≡ false) × (b ≡ false)
neither true b h = cc
neither false b h = (refl, h)

module _ (uuid : UuidCodec) (request : KnowledgeRetrievalRequest)
    (context : AuthorizedProjectContext) where
  -- The request asks in the authorized project for the same query, and for exactly what is wanted;
  -- neither of its lists is empty, which the adapter would read as no restriction at all.
  abbrev pub Constrains : KnowledgeRetrievalRequest → Type 0
  Constrains r =
      (r.project_id ≡ context.project_code)
      × (r.query ≡ request.query)
      × (r.limit ≡ request.limit)
      × ((x : String)
          → str_mem x r.document_version_ids
            ≡ is_wanted (allowed_versions uuid context) request.document_version_ids x)
      × ((x : String)
          → str_mem x r.knowledge_space_ids
            ≡ is_wanted context.knowledge_space_ids request.knowledge_space_ids x)
      × (is_nil r.document_version_ids ≡ false)
      × (is_nil r.knowledge_space_ids ≡ false)

  -- Nothing at all is wanted of the versions, or nothing of the spaces.
  abbrev pub NothingWanted : Type 0
  NothingWanted =
      ((x : String)
        → is_wanted (allowed_versions uuid context) request.document_version_ids x ≡ false)
      ⊎ ((x : String) → is_wanted context.knowledge_space_ids request.knowledge_space_ids x ≡ false)

  -- A retrieval for another project is denied. For the authorized project either nothing is
  -- asked, and then of the versions or of the spaces nothing is both allowed and requested; or
  -- what is asked for is exactly what is allowed and, where anything is requested, requested, and
  -- neither the list of versions nor the list of spaces is empty.
  pub constrain_exact :
      ((constrain_retrieval uuid request context ≡ err authorization_denied)
        × (str_eq request.project_id context.project_code ≡ false))
      ⊎ ((constrain_retrieval uuid request context ≡ ok none)
          × (request.project_id ≡ context.project_code)
          × NothingWanted)
      ⊎ ((r : KnowledgeRetrievalRequest) × (constrain_retrieval uuid request context ≡ ok (some r))
          × (request.project_id ≡ context.project_code)
          × Constrains r)
  unfolding constrain_retrieval
  constrain_exact = elim (Bool-cases (str_eq request.project_id context.project_code)) [
    | inr other ↦ inl (rw other refl, other)
    | inl same ↦
        let here = (eq_iff request.project_id context.project_code).0 same in
        elim (Bool-cases
          (is_nil (allowed_versions uuid context) || is_nil context.knowledge_space_ids)) [
            | inl empty ↦ inr (inl (rw same (rw empty refl), here, nothing empty))
            | inr full ↦ elim (Bool-cases (is_nil versions || is_nil spaces)) [
              | inl none_left ↦
                  inr (inl (rw same (rw full (rw none_left refl)), here, none_asked none_left))
              | inr some_left ↦ inr (
                  inr (
                    asked,
                    rw same (rw full (rw some_left refl)),
                    here,
                    (
                      refl,
                      refl,
                      refl,
                      constrained_mem (allowed_versions uuid context) request.document_version_ids,
                      constrained_mem context.knowledge_space_ids request.knowledge_space_ids,
                      (neither _ _ some_left).0,
                      (neither _ _ some_left).1,
                    ),
                  ))
            ]
          ]
  ]
    where
      versions : List String
      versions = constrained_to (allowed_versions uuid context) request.document_version_ids

      spaces : List String
      spaces = constrained_to context.knowledge_space_ids request.knowledge_space_ids

      asked : KnowledgeRetrievalRequest
      asked = record {
        project_id = context.project_code;
        query = request.query;
        limit = request.limit;
        document_version_ids = versions;
        knowledge_space_ids = spaces;
      }

      nothing :
          (is_nil (allowed_versions uuid context) || is_nil context.knowledge_space_ids) ≡ true
          → NothingWanted
      nothing h = elim (or_cases _ _ h) [
        | inl a ↦ inl (not_wanted (allowed_versions uuid context) request.document_version_ids a)
        | inr b ↦ inr (not_wanted context.knowledge_space_ids request.knowledge_space_ids b)
      ]

      none_asked : (is_nil versions || is_nil spaces) ≡ true → NothingWanted
      none_asked h = elim (or_cases (is_nil versions) (is_nil spaces) h) [
        | inl a ↦ inl (unwanted (allowed_versions uuid context) request.document_version_ids a)
        | inr b ↦ inr (unwanted context.knowledge_space_ids request.knowledge_space_ids b)
      ]
