-- ===== src/Safety/Engaged/Evidence.antt =====
-- What one engagement that returns leaves in the ledger, and what its repetition finds there.
use workflow_helper_public.Base.{
  ℕ, ◌+◌, ◌≡◌, refl, sym, ap, ◌∙◌, append-nil, true, not, List, [], ◌∷◌, ◌++◌, Option, none, some,
  arith, find, any, length, ◌==◌, find-append_new, lift-eq-ok, require_row-eq-ok, raise_if-eq-ok,
  ok, any-find-none,
}
use workflow_helper_public.Text.{Text}
use workflow_helper_public.Text.Equality.{text_eq_iff, text_eq_refl}
use workflow_helper_public.Platform.{Platform, Timestamp, to_micros}
use workflow_helper_public.Safety.{
  SafetyDomain, SafetySwitchEvent, SafetyEventRow, SafetyDb, domain_of, is_switch, event_of,
  bounded_text, safety_digest, has_key, has_event_id, engaged_event, engage_new, engage_found,
  engage,
}

-- The evidence is in the ledger under its key.
pub record IsStored (platform : Platform) (key digest : Text) (event : SafetySwitchEvent)
    (db : SafetyDb) : Type 0 where
  pub row : SafetyEventRow
  pub found : find (has_key key) db.events ≡ some row
  pub same : row.content_digest ≡ digest
  pub returned : event ≡ event_of platform row

-- What a call adds to the tables.
pub record Grows (db db' : SafetyDb) : Type 0 where
  pub new : List SafetyEventRow
  pub events : db'.events ≡ db.events ++ new
  pub switches : db'.switches ≡ db.switches

module _ (platform : Platform) (domain : SafetyDomain) (key digest actor correlation why : Text)
    (us : ℕ) (event_id : Text) (db : SafetyDb) {event : SafetySwitchEvent} {db' : SafetyDb} where
  engage_new-ok :
      engage_new platform domain
          (engaged_event domain key digest actor correlation why us event_id)
          db
        ≡ ok (event, db')
      → let row =
          engaged_event domain key digest actor correlation why us event_id
            (length db.events + 1) in
        (db'.events ≡ db.events ++ row ∷ [])
        × (db'.switches ≡ db.switches)
        × (event ≡ event_of platform row)
  unfolding engage_new engaged_event
  engage_new-ok h =
      let (state, _, h1) = require_row-eq-ok (find (is_switch domain) db.switches) _ _ db h in
      let (_, h2) = raise_if-eq-ok (not (state.engaged == 1)) _ _ db h1 in
      let (unused, h3) = raise_if-eq-ok (any (has_event_id event_id) db.events) _ _ db h2 in
      let row =
        engaged_event domain key digest actor correlation why us event_id (length db.events + 1) in
      let back =
        find-append_new (has_event_id event_id) db.events row
          (any-find-none (has_event_id event_id) db.events unused) (text_eq_refl event_id) in
      let h4 = rw back at h3 in (ground arith, ground arith, ground arith)

  engage_found-ok :
      (existing : Option SafetyEventRow)
      → find (has_key key) db.events ≡ existing
      → engage_found platform domain digest
          (engaged_event domain key digest actor correlation why us event_id)
          existing
          db
        ≡ ok (event, db')
      → IsStored platform key digest event db' × Grows db db'
  unfolding engage_found engaged_event
  engage_found-ok (some existing) p h =
      let same : db' ≡ db = ground arith in
      let content : existing.content_digest ≡ digest =
        ground (arith, text_eq_iff existing.content_digest digest) in
      let back : event ≡ event_of platform existing = ground arith in
      (
        record {
          row = existing;
          found = ap (λ (d : SafetyDb). find (has_key key) d.events) same ∙ p;
          same = content;
          returned = back;
        },
        record {
          new = [];
          events = ap (λ (d : SafetyDb). d.events) same ∙ sym (append-nil db.events);
          switches = ap (λ (d : SafetyDb). d.switches) same;
        },
      )
  engage_found-ok none p h =
      let (events, switches, back) = engage_new-ok h in
      let row =
        engaged_event domain key digest actor correlation why us event_id (length db.events + 1) in
      (
        record {
          row = row;
          found = rw events (find-append_new (has_key key) db.events row p (text_eq_refl key));
          same = refl;
          returned = back;
        },
        record { new = row ∷ []; events = events; switches = switches },
      )

-- The arguments of an engagement, cleaned by the checks.
pub record Engagement (platform : Platform)
    (value idempotency_key actor_id correlation_id reason : Text) : Type 0 where
  pub domain : SafetyDomain
  pub key : Text
  pub actor : Text
  pub correlation : Text
  pub why : Text
  pub known : domain_of value ≡ ok domain
  pub keyed : bounded_text idempotency_key ≡ ok key
  pub acted : bounded_text actor_id ≡ ok actor
  pub correlated : bounded_text correlation_id ≡ ok correlation
  pub explained : bounded_text reason ≡ ok why

abbrev pub digest_of :
    {platform : Platform} {value k a c r : Text} → Engagement platform value k a c r → Text
digest_of {platform} checked =
    safety_digest platform checked.domain checked.actor checked.correlation checked.why

module _ (platform : Platform) (value k a c r : Text) where
  pub engage-ok :
      (now : Timestamp) (event_id : Text) (db : SafetyDb) {event : SafetySwitchEvent}
      {db' : SafetyDb}
      → engage platform value k a c r now event_id db ≡ ok (event, db')
      → (checked : Engagement platform value k a c r) × IsStored platform checked.key
          (digest_of checked)
          event
          db'
        × Grows db db'
  unfolding engage
  engage-ok now event_id db h =
      let (domain, p1, h1) = lift-eq-ok (domain_of value) _ db h in
      let (key, p2, h2) = lift-eq-ok (bounded_text k) _ db h1 in
      let (actor, p3, h3) = lift-eq-ok (bounded_text a) _ db h2 in
      let (correlation, p4, h4) = lift-eq-ok (bounded_text c) _ db h3 in
      let (why, p5, h5) = lift-eq-ok (bounded_text r) _ db h4 in
      let (us, _, h6) = lift-eq-ok (to_micros platform now) _ db h5 in
      let (stored, grows) =
        engage_found-ok platform domain key (safety_digest platform domain actor correlation why)
          actor correlation why us event_id db (find (has_key key) db.events) refl h6 in
      (
        record {
          domain = domain;
          key = key;
          actor = actor;
          correlation = correlation;
          why = why;
          known = p1;
          keyed = p2;
          acted = p3;
          correlated = p4;
          explained = p5;
        },
        stored,
        grows,
      )

  pub engage-replayed :
      (checked : Engagement platform value k a c r) (now : Timestamp) (event_id : Text)
      (db : SafetyDb) (event : SafetySwitchEvent)
      → IsStored platform checked.key (digest_of checked) event db
      → now.aware ≡ true
      → engage platform value k a c r now event_id db ≡ ok (event, db)
  unfolding engage engage_found event_of
  engage-replayed checked now event_id db event stored aware =
      rw
        (
          checked.known,
          checked.keyed,
          checked.acted,
          checked.correlated,
          checked.explained,
          aware,
          stored.found,
          stored.same,
          text_eq_refl (digest_of checked),
          stored.returned,
        )
        refl

-- A call of `engage` with its arguments, and the identifier that `uuid4()` gives to it.
