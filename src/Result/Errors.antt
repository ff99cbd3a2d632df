-- ===== src/Result/Errors.antt =====
-- The exceptions of resource_queue.py, operation_wait.py and worker_lease.py, a constructor for each
-- message, as values; `unreadable` is whatever the reports of other modules raise.
use orchestrator_engine.Prelude.{◌≡◌, refl, Bool, true, false, Option, none, some, List, [], ◌∷◌}

pub data Error : Type 0 where
  bad_identifier bad_positive : Error
  bad_resources bad_entry duplicate_physical bad_release missing_probe bad_members bad_alias : Error
  bad_kind unassignable_bundle unknown_or_cyclic : Error
  bad_needs bad_need bad_mode exclusive_units : Error
  key_error type_error : Error
  active_resource_change pending_requests : Error
  no_stages duplicate_stage cyclic_stages different_inputs unknown_dependency no_assignment : Error
  unknown_request unknown_stage revoked_intent stale_evidence bad_evidence revoked_token : Error
  bad_outcome stale_completion unowned_release coupled_release not_quiescent : Error
  contract_differs pinned_destination foreign_request : Error
  no_targets too_many_targets repeated_target bad_target bad_wait_mode unavailable_status : Error
  bad_interval bad_timeout bad_stale_threshold unreadable : Error
  unreadable_lease unexpected_kind no_identity : Error
  bad_event_id no_task_id no_operation_id no_source_kind bad_terminal_status no_file : Error
  unreadable_event conflicting_event bad_not_before naive_not_before : Error
  bad_event_schema bad_event_kind bad_event_identity bad_event_status no_artifact lost_artifact :
      Error
  changed_artifact : Error
  no_subject : Error
  bad_host no_thread_id bad_binding_schema bad_binding_kind bad_codex_command no_binding : Error
  bad_target_schema bad_target_kind no_captured_at bad_captured_at naive_captured_at : Error
  bad_subscription bad_wake bad_wake_policy bad_wake_target : Error
  exhausted : Error

-- A call that returns, or raises.
pub data Result {ℓ} (A : Type ℓ) : Type ℓ where
  ok : (value : A) → Result A
  err : (raised : Error) → Result A

abbrev pub or_raise {ℓ} : {A : Type ℓ} → Error → Option A → Result A
or_raise e none = err e
or_raise e (some a) = ok a

-- `if not test: raise e`
abbrev pub guard : Bool → Error → Result (Unit {0})
guard false e = err e
guard true e = ok tt

-- What follows a call is not run when it raises.
infixl 5 ◌>>=◌ ◌>>◌
abbrev pub ◌>>=◌ {ℓ κ} : {V : Type ℓ} {W : Type κ} → Result V → (V → Result W) → Result W
err raised >>= next_step = err raised
ok value >>= next_step = next_step value

abbrev pub ◌>>◌ {ℓ κ} : {V : Type ℓ} {W : Type κ} → Result V → Result W → Result W
first >> second = first >>= λ _. second

-- A loop over a list whose body may raise: the results, or the first exception.
module _ {ℓ κ} {A : Type ℓ} {B : Type κ} where
  unfoldable pub traverse : (A → Result B) → List A → Result (List B)
  traverse f [] = ok []
  traverse f (x ∷ xs) = do y ← f x; ys ← traverse f xs; ok (y ∷ ys)

  -- A chain that returns has a first call that returns, and then the rest.
  pub >>=-eq-ok :
      (call : Result A) (rest : A → Result B) {last : B}
      → (call >>= rest) ≡ ok last
      → (mid : A) × (call ≡ ok mid) × (rest mid ≡ ok last)
  >>=-eq-ok (err raised) rest chain_returns = cc
  >>=-eq-ok (ok mid) rest chain_returns = (mid, refl, chain_returns)

pub eq_of_ok {ℓ} : {A : Type ℓ} {a b : A} → ok a ≡ ok b → a ≡ b
eq_of_ok e = cc

pub guard-eq-ok : (b : Bool) (e : Error) {u : Unit} → guard b e ≡ ok u → b ≡ true
guard-eq-ok true e h = refl
guard-eq-ok false e h = cc

pub or_raise-eq-ok {ℓ} :
    {A : Type ℓ} (o : Option A) (e : Error) {a : A} → or_raise e o ≡ ok a → o ≡ some a
or_raise-eq-ok none e h = cc
or_raise-eq-ok (some b) e h = cc

-- any(generator), all(generator): the values after the deciding one are not computed.
module _ {ℓ} {A : Type ℓ} where
  unfoldable pub lazy_any : (A → Result Bool) → List A → Result Bool
  lazy_any f [] = ok false
  lazy_any f (x ∷ xs) = do b ← f x; elim b [ true ↦ ok true | false ↦ lazy_any f xs ]

  unfoldable pub lazy_all : (A → Result Bool) → List A → Result Bool
  lazy_all f [] = ok true
  lazy_all f (x ∷ xs) = do b ← f x; elim b [ true ↦ lazy_all f xs | false ↦ ok false ]
