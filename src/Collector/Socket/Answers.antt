-- ===== src/Collector/Socket/Answers.antt =====
-- Who gets which answer over the websocket of src/services/ditto_api/ditto_api.py.
use dt4mob_platform.Prelude.{
  ℕ, ◌<◌, ◌≡◌, ◌≢◌, refl, sym, ap, ◌∙◌, inl, inr, true, false, Option, none, some, arith,
  if◌then◌else◌, Bool-cases,
}
use dt4mob_platform.Prelude.Text.{
  String, lookup, lookup-insert, lookup-remove, remove, eq_iff, ◌==◌ as str_eq,
}
use dt4mob_platform.Json.{Json, null, bool, num, str, arr, obj}
use dt4mob_platform.Collector.Socket.{
  Future, pending, resolved, acknowledged, cancelled, Socket, set, create_future, pop, acknowledge,
  resolve, deliver, on_corr_id, future_of, corr_id_of, on_ack, on_data,
}

-- The first of two that is not pending.
abbrev pub or_later : Future → Future → Future
or_later pending later = later
or_later first later = first

pub or_later_assoc : (a b c : Future) → or_later (or_later a b) c ≡ or_later a (or_later b c)
or_later_assoc pending b c = refl
or_later_assoc (resolved _) b c = refl
or_later_assoc acknowledged b c = refl
or_later_assoc cancelled b c = refl

pub or_later-pending : (a : Future) → or_later a pending ≡ a
or_later-pending pending = refl
or_later-pending (resolved _) = refl
or_later-pending acknowledged = refl
or_later-pending cancelled = refl

pub str_ne : (a b : String) → a ≢ b → str_eq a b ≡ false
str_ne a b h = elim (Bool-cases (str_eq a b)) [ inl e ↦ absurd (h ((eq_iff a b).0 e)) | inr e ↦ e ]

module _ (key : String) (id : ℕ) where
  abbrev pub entry_of : Future → Option ℕ
  entry_of pending = some id
  entry_of _ = none

  -- The future `id` waits under `key`, and nobody else does; once it is done, its entry is gone.
  pub record IsWaiting (s : Socket) (f : Future) : Type 0 where
    pub own : s.future id ≡ f
    pub entry : lookup key s.responses ≡ entry_of f
    pub alone : (k : String) → lookup k s.responses ≡ some id → k ≡ key
    pub known : id < s.next

  module _ (s : Socket) (f : Future) (w : IsWaiting s f) where
    pub pop-IsWaiting : (k : String) → k ≢ key → IsWaiting (pop k s) f
    pop-IsWaiting k other = record {
      own = w.own;
      entry = rw (lookup-remove k key s.responses, str_ne k key other) w.entry;
      alone = λ j h. elim (Bool-cases (str_eq k j)) [
        | inl e ↦ let gone = rw (lookup-remove k j s.responses, e) at h in cc gone
        | inr e ↦ w.alone j (rw (lookup-remove k j s.responses, e) at h)
      ];
      known = w.known;
    }

    pub set-IsWaiting :
        (i : ℕ) (value : Future) → i ≢ id → IsWaiting (record s { future = set i value s.future }) f
    set-IsWaiting i value other = record {
      own = ground (arith, w.own);
      entry = w.entry;
      alone = w.alone;
      known = w.known;
    }

    pub create_future-IsWaiting : (k : String) → k ≢ key → IsWaiting (create_future k s) f
    create_future-IsWaiting k other = record {
      own = let old = w.known in ground (arith, w.own);
      entry = rw (lookup-insert k key s.next s.responses, str_ne k key other) w.entry;
      alone = λ j h. elim (Bool-cases (str_eq k j)) [
        | inl e ↦
            let new = rw (lookup-insert k j s.next s.responses, e) at h in
            let old = w.known in ground (arith, old)
        | inr e ↦ w.alone j (rw (lookup-insert k j s.next s.responses, e) at h)
      ];
      known = let old = w.known in omega (arith, old);
    }

  settled-IsWaiting :
      (s : Socket) (value : Future)
      → IsWaiting s pending
      → entry_of value ≡ none
      → IsWaiting
          (record s { responses = remove key s.responses; future = set id value s.future })
          value
  settled-IsWaiting s value w done = record {
    own = ground arith;
    entry = rw (lookup-remove key key s.responses, (eq_iff key key).1 refl) (sym done);
    alone = λ j h. elim (Bool-cases (str_eq key j)) [
      | inl e ↦ sym ((eq_iff key j).0 e)
      | inr e ↦ w.alone j (rw (lookup-remove key j s.responses, e) at h)
    ];
    known = w.known;
  }

  elsewhere :
      (s : Socket) (f : Future) (w : IsWaiting s f) (k : String) (i : ℕ)
      → k ≢ key
      → lookup k s.responses ≡ some i
      → i ≢ id
  elsewhere s f w k i other e same = other (w.alone k (e ∙ ap {B = Option ℕ} some same))

  module _ (s : Socket) (f : Future) (w : IsWaiting s f) (k : String) (other : k ≢ key) where
    settled_elsewhere :
        (i : ℕ) (value : Future)
        → i ≢ id
        → IsWaiting (record s { responses = remove k s.responses; future = set i value s.future }) f
    settled_elsewhere i value ne =
        pop-IsWaiting (record s { future = set i value s.future }) f
          (set-IsWaiting s f w i value ne) k other

    acknowledge_elsewhere :
        (found : Option ℕ) (now : Future)
        → lookup k s.responses ≡ found
        → IsWaiting (acknowledge k found now s) f
    acknowledge_elsewhere none now e = w
    acknowledge_elsewhere (some i) pending e =
        settled_elsewhere i acknowledged (elsewhere s f w k i other e)
    acknowledge_elsewhere (some i) (resolved _) e = pop-IsWaiting s f w k other
    acknowledge_elsewhere (some i) acknowledged e = pop-IsWaiting s f w k other
    acknowledge_elsewhere (some i) cancelled e = pop-IsWaiting s f w k other

    resolve_elsewhere :
        (i : ℕ) (body : Json) (now : Future)
        → i ≢ id
        → (resolve k i body now s).listening ≡ true
        → IsWaiting (resolve k i body now s) f
    resolve_elsewhere i body pending ne h = settled_elsewhere i (resolved body) ne
    resolve_elsewhere i body (resolved _) ne h = cc h
    resolve_elsewhere i body acknowledged ne h = cc h
    resolve_elsewhere i body cancelled ne h = cc h

    deliver_elsewhere :
        (body : Json) (found : Option ℕ)
        → lookup k s.responses ≡ found
        → (deliver k body found s).listening ≡ true
        → IsWaiting (deliver k body found s) f
    deliver_elsewhere body none e h = w
    deliver_elsewhere body (some i) e h =
        resolve_elsewhere i body (s.future i) (elsewhere s f w k i other e) h

  -- Its own answer.
  deliver_own :
      (s : Socket) (f : Future) (w : IsWaiting s f) (body : Json)
      → IsWaiting (deliver key body (entry_of f) s) (or_later f (resolved body))
  deliver_own s pending w body = rw w.own (settled-IsWaiting s (resolved body) w refl)
  deliver_own s (resolved _) w body = w
  deliver_own s acknowledged w body = w
  deliver_own s cancelled w body = w

  acknowledge_own :
      (s : Socket) (f : Future) (w : IsWaiting s f)
      → IsWaiting
          (acknowledge key (entry_of f) (future_of (entry_of f) s) s)
          (or_later f acknowledged)
  acknowledge_own s pending w = rw w.own (settled-IsWaiting s acknowledged w refl)
  acknowledge_own s (resolved _) w = w
  acknowledge_own s acknowledged w = w
  acknowledge_own s cancelled w = w

  -- What a message tells the waiter, if anything.
  abbrev pub answer_to : Json → Option Json → Future
  answer_to body (some (str corr_id)) = if str_eq corr_id key then resolved body else pending
  answer_to body _ = pending

  abbrev pub answer_of : Option Json → Future
  answer_of none = pending
  answer_of (some body) = answer_to body (corr_id_of body)

  pub on_ack-IsWaiting :
      (s : Socket) (f : Future) (w : IsWaiting s f) (text : String)
      → IsWaiting (on_ack text s) (or_later f (if str_eq text key then acknowledged else pending))
  on_ack-IsWaiting s f w text = elim (Bool-cases (str_eq text key)) [
    | inl e ↦ rw (e, (eq_iff text key).0 e, w.entry) (acknowledge_own s f w)
    | inr e ↦
        rw (e, or_later-pending f)
          (acknowledge_elsewhere s f w text (λ same. cc (e, (eq_iff text key).1 same)) _ _ refl)
  ]

  on_corr_id-IsWaiting :
      (s : Socket) (f : Future) (w : IsWaiting s f) (body : Json) (corr_id : Option Json)
      → (on_corr_id body corr_id s).listening ≡ true
      → IsWaiting (on_corr_id body corr_id s) (or_later f (answer_to body corr_id))
  on_corr_id-IsWaiting s f w body none h = cc h
  on_corr_id-IsWaiting s f w body (some (str k)) h = elim (Bool-cases (str_eq k key)) [
    | inl e ↦ rw (e, (eq_iff k key).0 e, w.entry) (deliver_own s f w body)
    | inr e ↦
        rw (e, or_later-pending f)
          (deliver_elsewhere s f w k (λ same. cc (e, (eq_iff k key).1 same)) body _ refl h)
  ]
  on_corr_id-IsWaiting s f w body (some (arr _)) h = cc h
  on_corr_id-IsWaiting s f w body (some (obj _)) h = cc h
  on_corr_id-IsWaiting s f w body (some null) h = rw (or_later-pending f) w
  on_corr_id-IsWaiting s f w body (some (bool _)) h = rw (or_later-pending f) w
  on_corr_id-IsWaiting s f w body (some (num _)) h = rw (or_later-pending f) w

  pub on_data-IsWaiting :
      (s : Socket) (f : Future) (w : IsWaiting s f) (read : Option Json)
      → (on_data read s).listening ≡ true
      → IsWaiting (on_data read s) (or_later f (answer_of read))
  on_data-IsWaiting s f w none h = cc h
  on_data-IsWaiting s f w (some body) h = on_corr_id-IsWaiting s f w body (corr_id_of body) h
