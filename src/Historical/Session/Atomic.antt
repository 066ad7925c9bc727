-- ===== src/Historical/Session/Atomic.antt =====
-- Each write of the historical services stores all of its events or none, in whatever session.
use dt4mob_platform.Prelude.{
  ◌≡◌, ◌≢◌, refl, sym, ap, ◌∙◌, Bool, true, false, Option, none, some, List, [], ◌∷◌, ◌++◌,
  append_assoc, append-nil, is_some,
}
use dt4mob_platform.Historical.Writer.{write_batch as write_or_skip}
use dt4mob_platform.Historical.Session.{
  Orm, IsOrm, rollback_raise, and_then, with_commit, with_session, write, write_batch, add_each,
  insert_events,
}

module _ {Row Table : Type 0} (insert_all : List Row → Table → Option Table) (orm : Orm Row Table)
    (laws : IsOrm insert_all orm) where
  open orm use {Session, new_session, table, pending, add, add_all, commit, rollback}

  -- The end of a session that was to store some events in a table: it returned if the database took
  -- them all, and raised if not; the table is then the one that the consumer's loop goes on with,
  -- with all of them or unchanged; and nothing is left pending.
  pub record IsAtomic (events : List Row) (t : Table) (done : Bool × Session) : Type 0 where
    pub returned : done.0 ≡ is_some (insert_all events t)
    pub stored : table done.1 ≡ write_or_skip insert_all events t
    pub settled : pending done.1 ≡ []

  commit-IsAtomic :
      (events : List Row) (t : Table) (s : Session)
      → events ≢ []
      → pending s ≡ events
      → table s ≡ t
      → (done : Bool × Session) → commit s ≡ done
      → IsAtomic events t (rollback_raise orm done)
  commit-IsAtomic events t s some_events e f (true, after) c =
      let full : pending s ≢ [] = λ empty. some_events (sym e ∙ empty) in
      let (took, empty) = laws.commit_stores s full (ap (λ (d : Bool × Session). d.0) c) in
      let same : (commit s).1 ≡ after = ap (λ (d : Bool × Session). d.1) c in
      let took' : insert_all events t ≡ some (table after) = rw (e, f, same) at took in
      record { returned = rw took' refl; stored = rw took' refl; settled = rw same at empty }
  commit-IsAtomic events t s some_events e f (false, after) c =
      let full : pending s ≢ [] = λ empty. some_events (sym e ∙ empty) in
      let (refused, same_table) = laws.commit_raises s full (ap (λ (d : Bool × Session). d.0) c) in
      let same : (commit s).1 ≡ after = ap (λ (d : Bool × Session). d.1) c in
      let refused' : insert_all events t ≡ none = rw (e, f) at refused in
      record {
        returned = rw refused' refl;
        stored = rw refused' (laws.rollback_table after ∙ ap table (sym same) ∙ same_table ∙ f);
        settled = laws.rollback_pending after;
      }

  idle-IsAtomic :
      (events : List Row) (t : Table) (s : Session) (done : Bool × Session)
      → IsAtomic events t (true, s)
      → commit s ≡ done
      → IsAtomic events t (rollback_raise orm done)
  idle-IsAtomic events t s (true, after) a c =
      let (_, kept, empty) = laws.commit_nothing s a.settled in
      let same : (commit s).1 ≡ after = ap (λ (d : Bool × Session). d.1) c in
      record {
        returned = a.returned;
        stored = ap table (sym same) ∙ kept ∙ a.stored;
        settled = ap pending (sym same) ∙ empty;
      }
  idle-IsAtomic events t s (false, after) a c =
      let (fine, _, _) = laws.commit_nothing s a.settled in
      cc (fine, ap (λ (d : Bool × Session). d.0) c)

  -- A second commit, or a second rollback, changes nothing.
  again-IsAtomic :
      (events : List Row) (t : Table) (done : Bool × Session)
      → IsAtomic events t done
      → IsAtomic events t (rollback_raise orm (and_then orm commit done))
  again-IsAtomic events t (true, s) a = idle-IsAtomic events t s (commit s) a refl
  again-IsAtomic events t (false, s) a = record {
    returned = a.returned;
    stored = laws.rollback_table s ∙ a.stored;
    settled = laws.rollback_pending s;
  }

  add_each-pending :
      (events : List Row) (s : Session) → pending (add_each orm events s) ≡ pending s ++ events
  unfolding add_each
  add_each-pending [] s = sym (append-nil (pending s))
  add_each-pending (event ∷ events) s =
      add_each-pending events (add event s)
      ∙ ap (λ l. l ++ events) (laws.add_pending event s)
      ∙ append_assoc (pending s) (event ∷ []) events

  add_each-table : (events : List Row) (s : Session) → table (add_each orm events s) ≡ table s
  unfolding add_each
  add_each-table [] s = refl
  add_each-table (event ∷ events) s = add_each-table events (add event s) ∙ laws.add_table event s

  write-IsAtomic : (event : Row) (t : Table) → IsAtomic (event ∷ []) t (write orm event t)
  unfolding write with_commit
  write-IsAtomic event t =
      commit-IsAtomic (event ∷ []) t (add event (new_session t)) (λ e. cc e)
        (laws.add_pending event (new_session t) ∙ ap (λ l. l ++ (event ∷ [])) (laws.new_pending t))
        (laws.add_table event (new_session t) ∙ laws.new_table t)
        (commit (add event (new_session t))) refl

  write_batch-IsAtomic :
      (events : List Row) (t : Table) → events ≢ [] → IsAtomic events t (write_batch orm events t)
  unfolding write_batch with_commit
  write_batch-IsAtomic events t some_events =
      let s = add_all events (new_session t) in
      again-IsAtomic events t (rollback_raise orm (commit s)) (
        commit-IsAtomic events t s some_events
          (laws.add_all_pending events (new_session t) ∙ ap (λ l. l ++ events) (laws.new_pending t))
          (laws.add_all_table events (new_session t) ∙ laws.new_table t) (commit s) refl)

  insert_events-IsAtomic :
      (events : List Row) (t : Table) → events ≢ [] → IsAtomic events t (insert_events orm events t)
  unfolding insert_events with_session
  insert_events-IsAtomic events t some_events =
      let s = add_each orm events (new_session t) in
      commit-IsAtomic events t s some_events
        (add_each-pending events (new_session t) ∙ ap (λ l. l ++ events) (laws.new_pending t))
        (add_each-table events (new_session t) ∙ laws.new_table t) (commit s) refl

  -- Each way of storing events is one transaction: the writer's batch, its single event and the API's
  -- POST store all of their events, or raise and store none, by whether the database takes them; the
  -- table at the end is the one with which the writer's loop goes on; the second commit and the second
  -- rollback of `get_session` change nothing, and no session is left with pending events. The session
  -- keeps SQLAlchemy's documentation (IsOrm), and there is an event.
  pub sessions-IsAtomic :
      (event : Row) (events : List Row) (t : Table)
      → events ≢ []
      → IsAtomic (event ∷ []) t (write orm event t)
        × IsAtomic events t (write_batch orm events t)
        × IsAtomic events t (insert_events orm events t)
  sessions-IsAtomic event events t some_events = (
    write-IsAtomic event t,
    write_batch-IsAtomic events t some_events,
    insert_events-IsAtomic events t some_events,
  )
