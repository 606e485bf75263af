-- ===== src/Base/Exec.antt =====
-- Code that reads and writes a database session and may raise. The state comes back beside the
-- exception too; what becomes of it is decided where the transaction ends.
use Prim.Native.String.{String}
use mathlib.Core.Path.{◌≡◌, refl, sym, ap, ◌∙◌, subst}
use mathlib.Core.Logic.{◌⊎◌, inl, inr}
use mathlib.Core.Bool.{Bool, true, false}
use mathlib.Core.Option.{Option, none, some}

-- The exceptions that the program raises or lets through. `integrity_error` is the database's
-- refusal of a row whose primary key is taken.
pub data Error : Type 0 where
  lookup_error value_error runtime_error integrity_error : Error
  job_ownership_error unknown_job_type : Error
  run_not_found thread_not_found run_access_denied : Error
  run_state_conflict resume_input_mismatch run_execution_contract_error : Error
  authorization_denied issue_creation_denied : Error
  confirmation_payload_mismatch confirmation_expired : Error
  invalid_document_transition document_permission_denied : Error
  document_publish_failed document_publish_pending : Error
  -- `TimeoutError` or `OSError`
  provider_unavailable : Error
  overflow_error : Error
  -- SQLAlchemy's error for a number that its column does not hold
  dbapi_error : Error

-- `type(exc).__name__`
unfoldable pub type_name : Error → String
type_name lookup_error = "LookupError"
type_name value_error = "ValueError"
type_name runtime_error = "RuntimeError"
type_name integrity_error = "IntegrityError"
type_name job_ownership_error = "JobOwnershipError"
type_name unknown_job_type = "UnknownJobType"
type_name run_not_found = "RunNotFound"
type_name thread_not_found = "ThreadNotFound"
type_name run_access_denied = "RunAccessDenied"
type_name run_state_conflict = "RunStateConflict"
type_name resume_input_mismatch = "ResumeInputMismatch"
type_name run_execution_contract_error = "RunExecutionContractError"
type_name authorization_denied = "AuthorizationDenied"
type_name issue_creation_denied = "IssueCreationDenied"
type_name confirmation_payload_mismatch = "ConfirmationPayloadMismatch"
type_name confirmation_expired = "ConfirmationExpired"
type_name invalid_document_transition = "InvalidDocumentTransition"
type_name document_permission_denied = "DocumentPermissionDenied"
type_name document_publish_failed = "DocumentPublishFailed"
type_name document_publish_pending = "DocumentPublishPending"
type_name provider_unavailable = "TimeoutError"
type_name overflow_error = "OverflowError"
type_name dbapi_error = "DBAPIError"

pub data Result (A : Type 0) : Type 0 where
  ok : A → Result A
  err : Error → Result A

-- `raise e` in place of a missing value.
abbrev pub result_of : {A : Type 0} → Error → Option A → Result A
result_of e none = err e
result_of e (some a) = ok a

pub Result-cases :
    {A : Type 0} (r : Result A) → ((e : Error) × (r ≡ err e)) ⊎ ((a : A) × (r ≡ ok a))
Result-cases (err e) = inl (e, refl)
Result-cases (ok a) = inr (a, refl)

abbrev pub Exec : Type 0 → Type 0 → Type 0
Exec S A = S → Result A × S

module _ {S A : Type 0} where
  abbrev pub pure : A → Exec S A
  pure a s = (ok a, s)

  abbrev pub raise : Error → Exec S A
  raise e s = (err e, s)

  -- A pure function that may raise.
  abbrev pub lift : Result A → Exec S A
  lift r s = (r, s)

  abbrev pub gets : (S → A) → Exec S A
  gets f s = (ok (f s), s)

  -- `if value is None: raise`
  abbrev pub or_raise : Option A → Error → Exec S A
  or_raise none e = raise e
  or_raise (some a) e = pure a

module _ {S : Type 0} where
  abbrev pub modify : (S → S) → Exec S Unit
  modify f s = (ok tt, f s)

  -- `if condition: raise`
  abbrev pub raise_if : Bool → Error → Exec S Unit
  raise_if true e = raise e
  raise_if false e = pure tt

module _ {S A B : Type 0} where
  abbrev pub continue : Result A → (A → Exec S B) → Exec S B
  continue (ok a) f s = f a s
  continue (err e) f s = (err e, s)

  infixl 5 ◌>>=◌ ◌>>◌
  abbrev pub ◌>>=◌ : Exec S A → (A → Exec S B) → Exec S B
  ◌>>=◌ m f s = let (r, s') = m s in continue r f s'

  abbrev pub ◌>>◌ : Exec S A → Exec S B → Exec S B
  m >> k = m >>= λ _. k

  continue-pure : (r : Result A) (b : B) (s : S) → (continue r (λ _. pure b) s).1 ≡ s
  continue-pure (ok a) b s = refl
  continue-pure (err e) b s = refl

  -- Returning a value after a block leaves the state of the block.
  pub then-pure : (m : Exec S A) (b : B) (s : S) → ((m >> pure b) s).1 ≡ (m s).1
  then-pure m b s = continue-pure (m s).0 b (m s).1

-- `async with session: body; commit`: the writes stay if the body returned, and are rolled back
-- if it raised.
module _ {S A : Type 0} where
  abbrev pub commit_or_rollback : S → Result A → S → Result A × S
  commit_or_rollback before (ok a) after = (ok a, after)
  commit_or_rollback before (err e) after = (err e, before)

  unfoldable pub transaction : Exec S A → Exec S A
  transaction body s = let (r, s') = body s in commit_or_rollback s r s'

module _ {S A B : Type 0} where
  continue_ok :
      (r : Result A) (f : A → Exec S B) (t : S) (b : B) (s' : S)
      → continue r f t ≡ (ok b, s')
      → (a : A) × (r ≡ ok a) × (f a t ≡ (ok b, s'))
  continue_ok (ok a) f t b s' h = (a, refl, h)
  continue_ok (err e) f t b s' h = absurd (cc (ap (λ p. p.0) h))

  -- A block that returns has run its first part to a value, and the rest from there.
  pub bind_ok :
      (m : Exec S A) (f : A → Exec S B) (s : S) (b : B) (s' : S)
      → (m >>= f) s ≡ (ok b, s')
      → (a : A) × (t : S) × (m s ≡ (ok a, t)) × (f a t ≡ (ok b, s'))
  bind_ok m f s b s' h =
      let (a, e, rest) = continue_ok (m s).0 f (m s).1 b s' h in
      (a, (m s).1, ap (λ r. (r, (m s).1)) e, rest)

module _ {S A : Type 0} where
  abbrev pub outcome : Result A → S → Result A × S
  outcome r s = (r, s)

  committed :
      (s : S) (r : Result A) (t : S)
      → ((commit_or_rollback s r t).1 ≡ s)
        ⊎ ((a : A) × (r ≡ ok a) × ((commit_or_rollback s r t).1 ≡ t))
  committed s (ok a) t = inr (a, refl, refl)
  committed s (err e) t = inl refl

  -- After a transaction the database is as before, or as the body left it on returning.
  pub transaction_cases :
      (body : Exec S A) (s : S)
      → ((transaction body s).1 ≡ s) ⊎ ((a : A) × (body s ≡ (ok a, (transaction body s).1)))
  unfolding transaction
  transaction_cases body s = elim (committed s (body s).0 (body s).1) [
    | inl same ↦ inl same
    | inr (a, e, last) ↦
        inr (a, ap (λ r. outcome r (body s).1) e ∙ ap (λ t. outcome (ok a) t) (sym last))
  ]

  pub raise_not_ok : (e : Error) (s : S) (a : A) (t : S) → ¬ (outcome (err e) s ≡ (ok a, t))
  raise_not_ok e s a t h = cc (ap (λ p. p.0) h)

  pub pair_ok : (a b : A) (s t : S) → outcome (ok a) s ≡ (ok b, t) → (a ≡ b) × (s ≡ t)
  pair_ok a b s t h = (cc (ap (λ p. p.0) h), ap (λ p. p.1) h)

  pub lift_ok :
      (r : Result A) (s : S) (a : A) (t : S) → outcome r s ≡ (ok a, t) → (r ≡ ok a) × (s ≡ t)
  lift_ok r s a t h = (ap (λ p. p.0) h, ap (λ p. p.1) h)

  pub or_raise_ok :
      (o : Option A) (e : Error) (s : S) (a : A) (t : S)
      → or_raise o e s ≡ (ok a, t)
      → (o ≡ some a) × (s ≡ t)
  or_raise_ok none e s a t h = absurd (raise_not_ok e s a t h)
  or_raise_ok (some b) e s a t h = let (same, last) = pair_ok b a s t h in (ap some same, last)

pub ok_inj : {A : Type 0} (a b : A) → ok a ≡ ok b → a ≡ b
ok_inj a b h = cc (h)

pub raise_if_ok :
    {S : Type 0} (b : Bool) (e : Error) (s : S) (a : Unit) (t : S)
    → raise_if b e s ≡ (ok a, t)
    → (b ≡ false) × (s ≡ t)
raise_if_ok true e s a t h = absurd (raise_not_ok e s a t h)
raise_if_ok false e s a t h = (refl, ap (λ p. p.1) h)

-- The first statement of a block that returns, where the statement only tests or reads.
module _ {S B : Type 0} where
  pub guard_then :
      (b : Bool) (e : Error) (m : Unit → Exec S B) (s : S) (out : B) (t : S)
      → (raise_if b e >>= m) s ≡ (ok out, t)
      → (b ≡ false) × (m tt s ≡ (ok out, t))
  guard_then true e m s out t h = absurd (raise_not_ok e s out t h)
  guard_then false e m s out t h = (refl, h)

module _ {S A B : Type 0} where
  pub found_then :
      (o : Option A) (e : Error) (m : A → Exec S B) (s : S) (out : B) (t : S)
      → (or_raise o e >>= m) s ≡ (ok out, t)
      → (a : A) × (o ≡ some a) × (m a s ≡ (ok out, t))
  found_then none e m s out t h = absurd (raise_not_ok e s out t h)
  found_then (some a) e m s out t h = (a, refl, h)

  pub lift_then :
      (r : Result A) (m : A → Exec S B) (s : S) (out : B) (t : S)
      → (lift r >>= m) s ≡ (ok out, t)
      → (a : A) × (r ≡ ok a) × (m a s ≡ (ok out, t))
  lift_then (err e) m s out t h = absurd (raise_not_ok e s out t h)
  lift_then (ok a) m s out t h = (a, refl, h)

-- A block that leaves the state as it is, part by part.
module _ {S A B : Type 0} where
  continue_reads :
      (r : Result A) (f : A → Exec S B) (s : S) → ((a : A) → (f a s).1 ≡ s) → (continue r f s).1 ≡ s
  continue_reads (ok a) f s h = h a
  continue_reads (err e) f s h = refl

  pub bind_reads :
      (m : Exec S A) (f : A → Exec S B) (s : S)
      → (m s).1 ≡ s
      → ((a : A) → (f a s).1 ≡ s)
      → ((m >>= f) s).1 ≡ s
  bind_reads m f s read rest =
      subst (λ t. (continue (m s).0 f t).1 ≡ s) (sym read) (continue_reads (m s).0 f s rest)

  continue_keeps :
      (P : S → Type 0) (r : Result A) (f : A → Exec S B) (s : S)
      → P s
      → ((a : A) → P (f a s).1)
      → P (continue r f s).1
  continue_keeps P (ok a) f s h rest = rest a
  continue_keeps P (err e) f s h rest = h

  -- A property of the state that both parts of a block keep.
  pub bind_keeps :
      (P : S → Type 0) (m : Exec S A) (f : A → Exec S B) (s : S)
      → P (m s).1
      → ((a : A) (t : S) → P t → P (f a t).1)
      → P ((m >>= f) s).1
  bind_keeps P m f s h rest = continue_keeps P (m s).0 f (m s).1 h (λ a. rest a (m s).1 h)

  -- A block that raises in its first part raises.
  pub bind_err :
      (m : Exec S A) (f : A → Exec S B) (s : S) (e : Error)
      → (m s).0 ≡ err e
      → (m >>= f) s ≡ (err e, (m s).1)
  bind_err m f s e h = ap (λ r. continue r f (m s).1) h

module _ {S A : Type 0} where
  pub or_raise_reads : (o : Option A) (e : Error) (s : S) → (or_raise o e s).1 ≡ s
  or_raise_reads none e s = refl
  or_raise_reads (some a) e s = refl

pub raise_if_reads : {S : Type 0} (b : Bool) (e : Error) (s : S) → (raise_if b e s).1 ≡ s
raise_if_reads true e s = refl
raise_if_reads false e s = refl

module _ {S A : Type 0} where
  pub or_raise_keeps :
      (P : S → Type 0) (o : Option A) (e : Error) (s : S) → P s → P (or_raise o e s).1
  or_raise_keeps P none e s h = h
  or_raise_keeps P (some a) e s h = h

module _ {S : Type 0} where
  pub raise_if_keeps : (P : S → Type 0) (b : Bool) (e : Error) (s : S) → P s → P (raise_if b e s).1
  raise_if_keeps P true e s h = h
  raise_if_keeps P false e s h = h

module _ {S A B : Type 0} where
  -- A block whose first part returns goes on with the rest.
  pub bind_step :
      (m : Exec S A) (f : A → Exec S B) (s : S) (a : A) (t : S)
      → m s ≡ (ok a, t)
      → (m >>= f) s ≡ f a t
  bind_step m f s a t h = ap (λ p. continue p.0 f p.1) h
