-- ===== src/Historical/Pipeline.antt =====
-- The writer and the API on one table: what services/dt4mob-historical-api returns of the messages
-- that services/dt4mob-historical-writer has consumed.
pub mod Tests
use mathlib.Core.List.{Perm, map-append}
use mathlib.Core.List.Perm
use dt4mob_platform.Prelude.{
  ℕ, ◌<◌, ◌≡◌, refl, ap, sym, ◌∙◌, Option, none, some, List, [], ◌∷◌, ◌++◌, map, keep, length,
  append_assoc,
}
use dt4mob_platform.Prelude.Keep.{keep-perm, keep-append, swap_blocks-perm}
use dt4mob_platform.Prelude.Text.{String}
use dt4mob_platform.Historical.Event.{Action, DittoEvent}
use dt4mob_platform.Historical.Store.{Store, IsSql, IsNewestFirst}
use dt4mob_platform.Historical.Service.{get_events, or_default}
use dt4mob_platform.Historical.Service.Events.{is_wanted, IsPlainPrefix, get_events-perm}
use dt4mob_platform.Historical.Writer.{Polled, Consumer, consume, write_batch}
use dt4mob_platform.Historical.Writer.{DittoEvent as Message}
use dt4mob_platform.Historical.Writer.Batches.{
  events_of, write_all, IsHanded, consume-IsHanded, flatten,
}

module _ {Bytes Table : Type 0} (store : Store Table) (sql : IsSql store)
    (row : Message → DittoEvent)
    (accepts : (rows : List DittoEvent) (t : Table)
      → (u : Table) × (store.insert_all rows t ≡ some u))
    (parse : Bytes → Option Message) (batch_size batch_timeout : ℕ) where
  -- The session of DittoEventsManager.write_batch, on the table of the API.
  abbrev pub commit_rows : List Message → Table → Option Table
  commit_rows messages table = store.insert_all (map row messages) table

  batch-perm :
      (messages : List Message) (table : Table)
      → Perm
          (store.rows (write_batch commit_rows messages table))
          (map row messages ++ store.rows table)
  batch-perm messages table =
      let (u, e) = accepts (map row messages) table in
      rw e (sql.insert_rows (map row messages) table u e)

  batches-perm :
      (bs : List (List Message)) (table : Table)
      → Perm
          (store.rows (write_all parse commit_rows batch_size batch_timeout bs table))
          (map row (flatten bs) ++ store.rows table)
  batches-perm [] table = Perm.rfl
  batches-perm (b ∷ bs) table =
      let after = write_batch commit_rows b table in
      Perm.trans (batches-perm bs after) (
        Perm.trans (Perm.append_left (map row (flatten bs)) (batch-perm b table)) (
          rw
            (
              map-append row b (flatten bs),
              append_assoc (map row b) (map row (flatten bs)) (store.rows table),
            )
            (swap_blocks-perm (map row (flatten bs)) (map row b) (store.rows table))))

  handed-get :
      (t : Table) (bs : List (List Message)) (since : ℕ) (loaded_at : ℕ) (until : Option ℕ)
      (thing_id_prefix path_prefix : Option String) (action : Option Action) (table : Table)
      → t ≡ write_all parse commit_rows batch_size batch_timeout bs table
      → IsPlainPrefix thing_id_prefix
      → IsPlainPrefix path_prefix
      → Perm (get_events store loaded_at since until thing_id_prefix path_prefix action none t) (
          keep
            (is_wanted since (or_default loaded_at until) thing_id_prefix path_prefix action)
            (map row (flatten bs))
          ++ get_events store loaded_at since until thing_id_prefix path_prefix action none table)
  handed-get t bs since loaded_at until thing_id_prefix path_prefix action table e h k =
      let wanted =
        is_wanted since (or_default loaded_at until) thing_id_prefix path_prefix action in
      let got = λ (x : Table).
        (get_events-perm store sql loaded_at since until thing_id_prefix path_prefix action none x h
          k).0 in
      let rows = map row (flatten bs) in
      let stored : Perm (store.rows t) (rows ++ store.rows table) = rw e (batches-perm bs table) in
      Perm.trans (got t) (
        Perm.trans (keep-perm wanted stored) (
          rw (keep-append wanted rows (store.rows table))
            (Perm.append_left (keep wanted rows) (Perm.symm (got table)))))

  -- From an empty batch and any table, the messages that parse are, in order, first those in the table
  -- and then fewer than `batch_size` that wait; and GET /events returns what it returned before
  -- together with the rows of the former that the caller asks for, each as often as it is there; and
  -- what it returns is newest first. The table takes every row, the store has SQL's laws (IsSql), `batch_size` is positive, and
  -- the prefixes are free of LIKE's special characters.
  pub consume-get :
      (rounds : List (Polled Bytes × ℕ)) (started : ℕ) (loaded_at since : ℕ) (until : Option ℕ)
      (thing_id_prefix path_prefix : Option String) (action : Option Action) (table : Table)
      → 0 < batch_size
      → IsPlainPrefix thing_id_prefix
      → IsPlainPrefix path_prefix
      → (written : List Message) × (waiting : List Message) × (written ++ waiting
          ≡ events_of parse commit_rows batch_size batch_timeout rounds)
        × (length waiting < batch_size)
        × Perm
            (get_events store loaded_at since until thing_id_prefix path_prefix action none
              (consume parse commit_rows batch_size batch_timeout rounds
                (record { batch = []; last_flush_time = started })
                table).1)
            (keep
                (is_wanted since (or_default loaded_at until) thing_id_prefix path_prefix action)
                (map row written)
              ++ get_events store loaded_at since until thing_id_prefix path_prefix action none
                  table)
        × IsNewestFirst (
            get_events store loaded_at since until thing_id_prefix path_prefix action none
              (consume parse commit_rows batch_size batch_timeout rounds
                (record { batch = []; last_flush_time = started })
                table).1)
  consume-get rounds started loaded_at since until thing_id_prefix path_prefix action table room h
        k =
      let start : Consumer Message = record { batch = []; last_flush_time = started } in
      let final = consume parse commit_rows batch_size batch_timeout rounds start table in
      let (bs, filled, same, sizes, small) =
        consume-IsHanded parse commit_rows batch_size batch_timeout rounds start table room in
      (
        flatten bs,
        final.0.batch,
        same,
        small,
        handed-get final.1 bs since loaded_at until thing_id_prefix path_prefix action table filled
            h k,
        (get_events-perm store sql loaded_at since until thing_id_prefix path_prefix action none
            final.1 h k).1,
      )
