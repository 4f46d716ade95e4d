-- ===== src/Service/Session.antt =====
-- How a method of `ControlService` runs. The two stores are two SQLite files, and each call of a
-- store is a transaction of its own: what it committed stays when the method raises later.
use workflow_helper_public.Base.{
  Option, none, some, Error, control_store_error, Result, ok, err, Tx, transaction,
}
use workflow_helper_public.Text.{Text}
use workflow_helper_public.Platform.{Timestamp}
use workflow_helper_public.Store.Rows.{ControlDb}
use workflow_helper_public.Retention.Rows.{RetentionDb}

-- `self._store` and `self._retention`
pub record ControlService : Type 0 where
  pub store : ControlDb
  pub retention : Option RetentionDb

-- What a request brings besides its own arguments: its correlation id, the times that the
-- authorization and the store read, and the identifiers that `uuid4()` gives.
pub record Request : Type 0 where
  pub correlation_id : Text
  pub idempotency_key : Option Text
  pub occurred_at : Timestamp
  pub now : Timestamp
  pub event_id : Text
  pub audit_event : Text

-- A method: its result or exception, and the stores after it in both cases.
abbrev pub Svc : Type 0 → Type 0
Svc A = ControlService → Result A × ControlService

infixl 5 ◌>>=◌ ◌>>◌
unfoldable pub ◌>>=◌ : {A B : Type 0} → Svc A → (A → Svc B) → Svc B
◌>>=◌ m f s = elim (m s).0 [ ok a ↦ f a (m s).1 | err e ↦ (err e, (m s).1) ]

abbrev pub ◌>>◌ : {B : Type 0} → Svc (Unit {0}) → Svc B → Svc B
m >> k = m >>= λ _. k

module _ {A : Type 0} where
  abbrev pub pure : A → Svc A
  pure a s = (ok a, s)

  abbrev pub raise : Error → Svc A
  raise e s = (err e, s)

  -- What only reads its arguments, and may raise.
  unfoldable pub attempt : Result A → Svc A
  attempt r s = (r, s)

  -- A transaction of the control store.
  unfoldable pub in_store : Tx ControlDb A → Svc A
  in_store tx s = ((transaction tx s.store).0, record s { store = (transaction tx s.store).1 })

  -- A read of the control store.
  unfoldable pub read_store : (ControlDb → Result A) → Svc A
  read_store read s = (read s.store, s)

  -- A transaction of the retention ledger, `_require_retention` included.
  unfoldable pub in_ledger : Tx RetentionDb A → Svc A
  in_ledger tx s = elim s.retention [
    | none ↦ (err (control_store_error "retention ledger unavailable"), s)
    | some db ↦ ((transaction tx db).0, record s { retention = some (transaction tx db).1 })
  ]

-- `_require_retention`
unfoldable pub require_retention : Svc (Unit {0})
require_retention s = elim s.retention [
  | none ↦ (err (control_store_error "retention ledger unavailable"), s)
  | some db ↦ (ok tt, s)
]
