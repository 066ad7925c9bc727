-- ===== src/Historical/Session.antt =====
-- The database sessions of both historical services: `get_session` of the API's
-- app/database_engine/__init__.py and of the writer's src/database_engines/TimeScaleEngineManager.py,
-- DittoEventsManager over it, and the POST of events.
pub mod Atomic
mod Tests
use dt4mob_platform.Prelude.{◌≡◌, ◌≢◌, Bool, true, false, Option, none, some, List, [], ◌∷◌, ◌++◌}

-- What the services use of an SQLAlchemy session on a table: its rows to be written are pending until
-- a commit, which may raise (`false`). The laws are those of its documentation: a commit writes all
-- that is pending in one transaction, or raises and writes nothing; without anything pending it
-- writes nothing; a rollback forgets what is pending.
pub record Orm (Row Table : Type 0) : Type 1 where
  pub Session : Type 0
  pub new_session : Table → Session
  pub table : Session → Table
  pub pending : Session → List Row
  pub add : Row → Session → Session
  pub add_all : List Row → Session → Session
  pub commit : Session → Bool × Session
  pub rollback : Session → Session

pub record IsOrm {Row Table : Type 0} (insert_all : List Row → Table → Option Table)
    (orm : Orm Row Table) : Type 0 where
  pub new_table : (t : Table) → orm.table (orm.new_session t) ≡ t
  pub new_pending : (t : Table) → orm.pending (orm.new_session t) ≡ []
  pub add_table : (row : Row) (s : orm.Session) → orm.table (orm.add row s) ≡ orm.table s
  pub add_pending :
      (row : Row) (s : orm.Session) → orm.pending (orm.add row s) ≡ orm.pending s ++ (row ∷ [])
  pub add_all_table :
      (rows : List Row) (s : orm.Session) → orm.table (orm.add_all rows s) ≡ orm.table s
  pub add_all_pending :
      (rows : List Row) (s : orm.Session) → orm.pending (orm.add_all rows s) ≡ orm.pending s ++ rows
  pub rollback_table : (s : orm.Session) → orm.table (orm.rollback s) ≡ orm.table s
  pub rollback_pending : (s : orm.Session) → orm.pending (orm.rollback s) ≡ []
  pub commit_nothing :
      (s : orm.Session)
      → orm.pending s ≡ []
      → ((orm.commit s).0 ≡ true)
        × (orm.table (orm.commit s).1 ≡ orm.table s)
        × (orm.pending (orm.commit s).1 ≡ [])
  pub commit_stores :
      (s : orm.Session)
      → orm.pending s ≢ []
      → (orm.commit s).0 ≡ true
      → (insert_all (orm.pending s) (orm.table s) ≡ some (orm.table (orm.commit s).1))
        × (orm.pending (orm.commit s).1 ≡ [])
  pub commit_raises :
      (s : orm.Session)
      → orm.pending s ≢ []
      → (orm.commit s).0 ≡ false
      → (insert_all (orm.pending s) (orm.table s) ≡ none)
        × (orm.table (orm.commit s).1 ≡ orm.table s)

module _ {Row Table : Type 0} (orm : Orm Row Table) where
  open orm use {Session, new_session, table, add, add_all, commit, rollback}

  -- `except …: session.rollback(); raise`; `false` is a raised exception.
  abbrev pub rollback_raise : Bool × Session → Bool × Session
  rollback_raise (true, s) = (true, s)
  rollback_raise (false, s) = (false, rollback s)

  abbrev and_then : (Session → Bool × Session) → Bool × Session → Bool × Session
  and_then next (true, s) = next s
  and_then next (false, s) = (false, s)

  -- The writer's get_session, which commits behind the body.
  pub with_commit : (Session → Bool × Session) → Table → Bool × Session
  with_commit body t = rollback_raise (and_then commit (body (new_session t)))

  -- The API's get_session.
  pub with_session : (Session → Bool × Session) → Table → Bool × Session
  with_session body t = rollback_raise (body (new_session t))

  -- DittoEventsManager.write
  pub write : Row → Table → Bool × Session
  unfolding with_commit
  write event t = with_commit (λ s. (true, add event s)) t

  -- DittoEventsManager.write_batch, whose own `try` commits and rolls back too.
  pub write_batch : List Row → Table → Bool × Session
  unfolding with_commit
  write_batch events t = with_commit (λ s. rollback_raise (commit (add_all events s))) t

  add_each : List Row → Session → Session
  add_each [] s = s
  add_each (event ∷ events) s = add_each events (add event s)

  -- EventsService.insert_events, in the session of its request.
  pub insert_events : List Row → Table → Bool × Session
  unfolding with_session add_each
  insert_events events t = with_session (λ s. commit (add_each events s)) t
