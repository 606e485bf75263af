-- ===== src/Access/Laws.antt =====
-- Which memberships permit a project, and `authorize_project`.
use mathlib.Core.List.{Memᴰ}
use it_outsourcing_knowledge.Base.{
  ℕ, ◌≤◌, true, ◌&&◌, ◌≡◌, refl, none, some, List, [], ◌∷◌, arith, Bool-cases, Option-cases, inl,
  inr, ◌⊎◌, ◌==◌, ap,
}
use it_outsourcing_knowledge.Base.Exec.{ok, err, authorization_denied}
use it_outsourcing_knowledge.Base.Table.{find}
use it_outsourcing_knowledge.Base.Uuid.{UuidCodec}
use it_outsourcing_knowledge.Access.{
  Project, ProjectMembership, AccessStore, MembershipAccessRecord, AuthorizedProjectContext,
  is_usable, not_ended, is_active_membership, to_access, joined, first_membership,
  get_active_membership, context_of, authorize_project,
}

-- The membership is the user's, of this project, in force at the time, and the project is in use.
pub record Permits (s : AccessStore) (user project at : ℕ) (m : ProjectMembership) (p : Project)
    : Type 0 where
  pub listed : Memᴰ m s.memberships
  pub whose : m.user_id ≡ user
  pub of_project : m.project_id ≡ project
  pub begun : m.valid_from ≤ at
  pub lasting : not_ended m.valid_to at ≡ true
  pub project_row : find project s.projects ≡ some p
  pub usable : is_usable p.lifecycle_status ≡ true

joined_cases :
    (s : AccessStore) (m : ProjectMembership)
    → (joined s m ≡ none)
      ⊎ ((p : Project) × (find m.project_id s.projects ≡ some p)
          × (is_usable p.lifecycle_status ≡ true)
          × (joined s m ≡ some (to_access m p)))
unfolding joined
joined_cases s m = elim (Option-cases (find m.project_id s.projects)) [
  | inl missing ↦ inl (ground arith)
  | inr (p, found) ↦ elim (Bool-cases (is_usable p.lifecycle_status)) [
    | inl usable ↦ inr (p, found, usable, ground arith)
    | inr gone ↦ inl (ground arith)
  ]
]

active_facts :
    (user project at : ℕ) (m : ProjectMembership)
    → (is_active_membership user at m && m.project_id == project) ≡ true
    → (m.user_id ≡ user)
      × (m.project_id ≡ project)
      × (m.valid_from ≤ at)
      × (not_ended m.valid_to at ≡ true)
unfolding is_active_membership
active_facts user project at m h = ground arith

module _ (s : AccessStore) (user project at : ℕ) where
  first_membership_sound :
      (ms : List ProjectMembership)
      → ((m : ProjectMembership) → Memᴰ m ms → Memᴰ m s.memberships)
      → (r : MembershipAccessRecord) → first_membership s user project at ms ≡ some r
      → (m : ProjectMembership) × (p : Project) × Permits s user project at m p
        × (r ≡ to_access m p)
  unfolding first_membership
  first_membership_sound [] sub r h = absurd (cc)
  first_membership_sound (m ∷ ms) sub r h =
      elim (Bool-cases (is_active_membership user at m && m.project_id == project)) [
        | inr idle ↦ first_membership_sound ms (λ n k. sub n (Memᴰ.tail k)) r (rw idle at h)
        | inl active ↦ elim (joined_cases s m) [
          | inl nothing ↦
              first_membership_sound ms (λ n k. sub n (Memᴰ.tail k)) r
                (rw nothing at (rw active at h))
          | inr (p, found, usable, row) ↦
              let (whose, of_project, begun, lasting) = active_facts user project at m active in
              (
                m,
                p,
                record {
                  listed = sub m (Memᴰ.head refl);
                  whose = whose;
                  of_project = of_project;
                  begun = begun;
                  lasting = lasting;
                  project_row = rw of_project at found;
                  usable = usable;
                },
                cc (rw row at (rw active at h)),
              )
        ]
      ]

  active_of :
      (m : ProjectMembership) (p : Project)
      → Permits s user project at m p
      → (is_active_membership user at m && m.project_id == project) ≡ true
  unfolding is_active_membership
  active_of m p h = ground arith

  joined_of :
      (m : ProjectMembership) (p : Project)
      → Permits s user project at m p
      → joined s m ≡ some (to_access m p)
  unfolding joined
  joined_of m p h =
      let found : find m.project_id s.projects ≡ some p =
        cc (h.project_row, ap (λ k. find k s.projects) h.of_project) in
      ground (arith, found, h.usable)

  first_membership_complete :
      (ms : List ProjectMembership) (m : ProjectMembership) (p : Project)
      → Memᴰ m ms
      → Permits s user project at m p
      → (r : MembershipAccessRecord) × (first_membership s user project at ms ≡ some r)
  unfolding first_membership
  first_membership_complete [] m p k h = elim k [ ]
  first_membership_complete (n ∷ ms) m p (Memᴰ.head e) h =
      (to_access n p, ground (arith, active_of n p (rw e at h), joined_of n p (rw e at h)))
  first_membership_complete (n ∷ ms) m p (Memᴰ.tail k) h =
      let (r, rest) = first_membership_complete ms m p k h in
      elim (Bool-cases (is_active_membership user at n && n.project_id == project)) [
        | inr idle ↦ (r, rw idle rest)
        | inl active ↦ elim (Option-cases (joined s n)) [
          | inl nothing ↦ (r, rw active (rw nothing rest))
          | inr (r', row) ↦ (r', rw active (rw row))
        ]
      ]

authorize_cases :
    (uuid : UuidCodec) (now user project : ℕ) (s : AccessStore) (r : MembershipAccessRecord)
    → get_active_membership s user project now ≡ some r
    → authorize_project uuid now user project s ≡ ok (context_of uuid user project s r)
unfolding authorize_project
authorize_cases uuid now user project s r found = ground (arith, found)

authorize_nobody :
    (uuid : UuidCodec) (now user project : ℕ) (s : AccessStore)
    → get_active_membership s user project now ≡ none
    → authorize_project uuid now user project s ≡ err authorization_denied
unfolding authorize_project
authorize_nobody uuid now user project s nobody = ground (arith, nobody)

-- The membership that a context was built from, and what the context says of it.
abbrev pub Describes :
    AccessStore → ℕ → ℕ → ℕ → AuthorizedProjectContext → ProjectMembership → Project → Type 0
Describes s user project now context m p =
    Permits s user project now m p
    × (context.scope.company_id ≡ p.company_id)
    × (context.scope.user_id ≡ user)
    × (context.scope.allowed_project_ids ≡ project ∷ [])
    × (context.scope.role_ids ≡ m.role ∷ [])
    × (context.project_code ≡ p.code)

context_of-Describes :
    (uuid : UuidCodec) (now user project : ℕ) (s : AccessStore) (m : ProjectMembership)
    (p : Project)
    → Permits s user project now m p
    → Describes s user project now (context_of uuid user project s (to_access m p)) m p
unfolding context_of to_access
context_of-Describes uuid now user project s m p h =
    (h, refl, refl, ap (λ k. k ∷ []) h.of_project, refl, refl)

-- Who is authorized has a membership of the project that is in force, of a project that is in use,
-- and gets the company, the project and the role that the database holds, and no other; and
-- everybody with such a membership is authorized.
pub authorize_exact :
    (uuid : UuidCodec) (now user project : ℕ) (s : AccessStore)
    → ((context : AuthorizedProjectContext) × (m : ProjectMembership) × (p : Project)
        × (authorize_project uuid now user project s ≡ ok context)
        × Describes s user project now context m p)
      ⊎ ((authorize_project uuid now user project s ≡ err authorization_denied)
          × ((m : ProjectMembership) (p : Project) → ¬ Permits s user project now m p))
unfolding get_active_membership
authorize_exact uuid now user project s =
    elim (Option-cases (first_membership s user project now s.memberships)) [
      | inl nobody ↦ inr (
        authorize_nobody uuid now user project s nobody,
        λ m p permits.
            let (r, found) =
              first_membership_complete s user project now s.memberships m p permits.listed
                permits in
            cc (found, nobody),
      )
      | inr (r, found) ↦
          let (m, p, permits, row) =
            first_membership_sound s user project now s.memberships (λ n k. k) r found in
          inl (
            context_of uuid user project s (to_access m p),
            m,
            p,
            rw (← row) (authorize_cases uuid now user project s r found),
            context_of-Describes uuid now user project s m p permits,
          )
    ]
