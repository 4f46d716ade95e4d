-- ===== src/Safety/Engaged.antt =====
-- Repeating an engagement, and the switches after any engagements.
mod Evidence
use workflow_helper_public.Safety.Engaged.Evidence.{
  IsStored, Grows, Engagement, digest_of, engage-ok, engage-replayed,
}
use workflow_helper_public.Base.{
  ℕ, ◌+◌, ◌≡◌, refl, sym, ap, ◌∙◌, append-nil, map, true, not, List, [], ◌∷◌, ◌++◌, Option, none,
  some, arith, find, any, length, ◌==◌, find-append_new, find-append_old, lift-eq-ok,
  require_row-eq-ok, raise_if-eq-ok, Result, ok, err, Tx, transaction, any-find-none,
}
use workflow_helper_public.Text.{Text, text_eq}
use workflow_helper_public.Text.Equality.{text_eq_iff, text_eq_refl}
use workflow_helper_public.Platform.{Platform, Timestamp, to_micros}
use workflow_helper_public.Safety.{
  SafetyDomain, SafetySwitchState, SafetySwitchEvent, SafetyEventRow, SafetyDb, initial, domain_of,
  is_switch, event_of, bounded_text, safety_digest, read_all, read, domain_value, all_domains,
  has_key, has_event_id, engaged_event, engage_new, engage_found, engage,
}

pub record EngageCall : Type 0 where
  pub domain : Text
  pub idempotency_key : Text
  pub actor_id : Text
  pub correlation_id : Text
  pub reason : Text
  pub now : Timestamp
  pub event_id : Text

-- Every domain, engaged.
abbrev pub engaged_states : List SafetySwitchState
engaged_states = map (λ domain. record { domain = domain; engaged = true }) all_domains

module _ (platform : Platform) where
  abbrev pub engaged_by : EngageCall → Tx SafetyDb SafetySwitchEvent
  engaged_by call =
      engage platform call.domain call.idempotency_key call.actor_id call.correlation_id call.reason
        call.now call.event_id

  -- The ledger after calls, each of which returned or raised.
  unfoldable pub after : List EngageCall → SafetyDb → SafetyDb
  after [] db = db
  after (call ∷ calls) db = after calls (transaction (engaged_by call) db).1

  call-Grows : (call : EngageCall) (db : SafetyDb) → Grows db (transaction (engaged_by call) db).1
  call-Grows call db = outcome (engaged_by call db) refl
    where
      outcome :
          (r : Result (SafetySwitchEvent × SafetyDb))
          → engaged_by call db ≡ r
          → Grows db (transaction (λ _. r) db).1
      outcome (err e) p = record { new = []; events = sym (append-nil db.events); switches = refl }
      outcome (ok (event, db')) p =
          let (_, _, grows) =
            engage-ok platform call.domain call.idempotency_key call.actor_id call.correlation_id
              call.reason call.now call.event_id db p in
          grows

  after-IsStored :
      (calls : List EngageCall) (key digest : Text) (event : SafetySwitchEvent) (db : SafetyDb)
      → IsStored platform key digest event db
      → IsStored platform key digest event (after calls db)
  unfolding after
  after-IsStored [] key digest event db stored = stored
  after-IsStored (call ∷ calls) key digest event db stored =
      let grows = call-Grows call db in
      after-IsStored calls key digest event (transaction (engaged_by call) db).1 (record {
        row = stored.row;
        found =
            rw grows.events
              (find-append_old (has_key key) db.events grows.new stored.row stored.found);
        same = stored.same;
        returned = stored.returned;
      })

  after-switches :
      (calls : List EngageCall) (db : SafetyDb) → (after calls db).switches ≡ db.switches
  unfolding after
  after-switches [] db = refl
  after-switches (call ∷ calls) db =
      after-switches calls (transaction (engaged_by call) db).1 ∙ (call-Grows call db).switches

  -- An engagement that returned may be repeated at any later time, whatever was called in between:
  -- the same arguments give the same event back, and the ledger does not change.
  pub engage_idempotent :
      (call : EngageCall) (db db' : SafetyDb) (event : SafetySwitchEvent) (calls : List EngageCall)
      (now : Timestamp) (event_id : Text)
      → engaged_by call db ≡ ok (event, db')
      → now.aware ≡ true
      → engaged_by (record call { now = now; event_id = event_id }) (after calls db')
        ≡ ok (event, after calls db')
  engage_idempotent call db db' event calls now event_id h aware =
      let (checked, stored, _) =
        engage-ok platform call.domain call.idempotency_key call.actor_id call.correlation_id
          call.reason call.now call.event_id db h in
      engage-replayed platform call.domain call.idempotency_key call.actor_id call.correlation_id
        call.reason checked now event_id (after calls db') event
        (after-IsStored calls checked.key (digest_of checked) event db' stored) aware

  read_all-engaged :
      (db : SafetyDb) → db.switches ≡ initial.switches → read_all db ≡ ok (engaged_states, db)
  unfolding read_all read initial domain_of domain_value text_eq
  read_all-engaged db h = rw h refl

  -- Whatever was called on a new ledger, reading all switches returns every domain as engaged.
  pub all_engaged :
      (calls : List EngageCall)
      → read_all (after calls initial) ≡ ok (engaged_states, after calls initial)
  all_engaged calls = read_all-engaged (after calls initial) (after-switches calls initial)
