-- ===== src/Historical/Service/Buckets.antt =====
-- How the time buckets of app/services/events_service.py end.
use dt4mob_platform.Prelude.{
  ℕ, ◌≡◌, refl, ap, sym, Bool, true, false, Option, none, List, [], ◌∷◌, ◌⊎◌, inl, inr, Bool-cases,
}
use dt4mob_platform.Prelude.Int.{ℤ}
use dt4mob_platform.Prelude.Text.{String, ◌==◌}
use dt4mob_platform.Json.{Json}
use dt4mob_platform.Historical.Store.{
  Store, Agg, BucketResult, bucket_rows, data_error, programming_error,
}
use dt4mob_platform.Historical.Service.{
  Bucket, BucketReply, buckets, http_exception, raised, width_of, get_events_custom_time_buckets,
  first_value, reply, reply_by_path, shape, get_events_custom_time_buckets_with_path,
}

-- A reply with rows that left the session alone, or a refusal with status 400 that rolled it back.
abbrev pub IsSettled : BucketReply × Bool → Type 0
IsSettled r =
    ((bs : List Bucket) × (r ≡ (buckets bs, false)))
    ⊎ ((detail : String) × (r ≡ (http_exception 400 detail, true)))

module _ {Table : Type 0} (store : Store Table) where
  reply-IsSettled :
      (json_path : String) (agg : Agg) (since : ℕ) (width : Option ℕ) (result : BucketResult)
      → IsSettled (reply store json_path agg since width result)
  unfolding reply
  reply-IsSettled json_path agg since width (bucket_rows rows) = inl (_, refl)
  reply-IsSettled json_path agg since width (data_error text orig) = inr (_, refl)
  reply-IsSettled json_path agg since width (programming_error orig) = inr (_, refl)

  -- The buckets of a thing end in rows, or in status 400 with the session rolled back: no database
  -- exception that the method knows escapes it.
  pub get_events_custom_time_buckets-IsSettled :
      (json_path : String) (since until : ℕ) (bucket_minutes : Option ℤ) (agg : Agg)
      (thing_id : Option String) (t : Table)
      → IsSettled
          (get_events_custom_time_buckets store json_path since until bucket_minutes agg thing_id t)
  unfolding get_events_custom_time_buckets
  get_events_custom_time_buckets-IsSettled json_path since until bucket_minutes agg thing_id t =
      reply-IsSettled json_path agg since (width_of bucket_minutes) _

  reply_by_path-IsRaised :
      (since : ℕ) (width : Option ℕ) (result : BucketResult)
      → let r = (reply_by_path store since width result).0 in
        ((bs : List Bucket) × (r ≡ buckets bs)) ⊎ (r ≡ raised)
  unfolding reply_by_path
  reply_by_path-IsRaised since width (bucket_rows rows) = inl (_, refl)
  reply_by_path-IsRaised since width (data_error text orig) = inr refl
  reply_by_path-IsRaised since width (programming_error orig) = inr refl

  -- The buckets of a path end in rows, or in an exception that escapes the method.
  pub get_events_custom_time_buckets_with_path-IsRaised :
      (json_path : String) (since until : ℕ) (path_prefixes : String) (bucket_minutes : Option ℤ)
      (agg : Agg) (thing_id : Option String) (t : Table)
      → let r =
          (get_events_custom_time_buckets_with_path store json_path since until path_prefixes
            bucket_minutes agg thing_id t).0 in
        ((bs : List Bucket) × (r ≡ buckets bs)) ⊎ (r ≡ raised)
  unfolding get_events_custom_time_buckets_with_path
  get_events_custom_time_buckets_with_path-IsRaised json_path since until path_prefixes
        bucket_minutes agg thing_id t =
      elim (Bool-cases (path_prefixes == "")) [
        | inl e ↦ inr (rw e refl)
        | inr e ↦ rw e (reply_by_path-IsRaised since (width_of bucket_minutes) _)
      ]

  shown : BucketReply × Bool → List Bucket
  shown (buckets bs, back) = bs
  shown (http_exception status detail, back) = []
  shown (raised, back) = []

  reply-one :
      (json_path : String) (agg : Agg) (since : ℕ) (result : BucketResult) (bs : List Bucket)
      (back : Bool)
      → reply store json_path agg since none result ≡ (buckets bs, back)
      → (value : Option Json) × (bs
          ≡ (record { path = none; bucket = store.isoformat since; value = value } ∷ []))
  unfolding reply shape shown
  reply-one json_path agg since (bucket_rows rows) bs back e =
      (first_value store rows, sym (ap shown e))
  reply-one json_path agg since (data_error text orig) bs back e = cc e
  reply-one json_path agg since (programming_error orig) bs back e = cc e

  -- Without a positive width, a reply with rows has one row only, for all the time, and its label is
  -- `since`, whenever the first event was.
  pub get_events_custom_time_buckets-all_time :
      (json_path : String) (since until : ℕ) (bucket_minutes : Option ℤ) (agg : Agg)
      (thing_id : Option String) (t : Table) (bs : List Bucket) (back : Bool)
      → width_of bucket_minutes ≡ none
      → get_events_custom_time_buckets store json_path since until bucket_minutes agg thing_id t
        ≡ (buckets bs, back)
      → (value : Option Json) × (bs
          ≡ (record { path = none; bucket = store.isoformat since; value = value } ∷ []))
  unfolding get_events_custom_time_buckets
  get_events_custom_time_buckets-all_time json_path since until bucket_minutes agg thing_id t bs
        back h e =
      reply-one json_path agg since _ bs back (rw h at e)
