-- ===== src/Historical/Writer/Batches.antt =====
-- What the consumer's loop hands to the database, in which order, in which batches, and when.
use dt4mob_platform.Prelude.{
  ℕ, ◌+◌, ◌≤◌, ◌<◌, ◌≡◌, refl, sym, ap, ◌∙◌, true, false, Option, none, some, List, [], ◌∷◌, ◌++◌,
  length, is_empty, All, append_assoc, append-nil, length-append, ◌⊎◌, inl, inr, Bool-cases, arith,
}
use dt4mob_platform.Historical.Writer.{
  Polled, Consumer, append, parsed, is_due, flush, round, consume, write_batch,
}

abbrev pub flatten {ℓ} : {A : Type ℓ} → List (List A) → List A
flatten [] = []
flatten (xs ∷ xss) = xs ++ flatten xss

abbrev pub option_list {ℓ} : {A : Type ℓ} → Option A → List A
option_list none = []
option_list (some a) = a ∷ []

append-list : {A : Type 0} (batch : List A) (o : Option A) → append batch o ≡ batch ++ option_list o
append-list batch none = sym (append-nil batch)
append-list batch (some a) = refl

length-append_one :
    {A : Type 0} (batch : List A) (o : Option A) → length (append batch o) ≤ length batch + 1
length-append_one batch none = omega arith
length-append_one batch (some a) = omega (arith, length-append batch (a ∷ []))

positive : {A : Type 0} (xs : List A) → is_empty xs ≡ false → 0 < length xs
positive [] h = cc h
positive (x ∷ xs) h = omega arith

empty_nil : {A : Type 0} (xs : List A) → is_empty xs ≡ true → xs ≡ []
empty_nil [] h = refl
empty_nil (x ∷ xs) h = cc h

empty_small : {A : Type 0} (xs : List A) → is_empty xs ≡ true → (n : ℕ) → 0 < n → length xs < n
empty_small [] h n room = room
empty_small (x ∷ xs) h n room = cc h

is_due-positive :
    {Event : Type 0} (batch_size batch_timeout now : ℕ) (c : Consumer Event)
    → is_due batch_size batch_timeout now c ≡ true
    → is_empty c.batch ≡ false
is_due-positive batch_size batch_timeout now c due = ground arith

small_unless_full :
    {Event : Type 0} (batch_size batch_timeout now : ℕ) (c : Consumer Event)
    → is_due batch_size batch_timeout now c ≡ false
    → 0 < batch_size
    → (length c.batch < batch_size) × ((c.batch ≡ []) ⊎ (now < c.last_flush_time + batch_timeout))
small_unless_full batch_size batch_timeout now c rest room = elim (Bool-cases (is_empty c.batch)) [
  | inl empty ↦ (empty_small c.batch empty batch_size room, inl (empty_nil c.batch empty))
  | inr full ↦ (ground arith, inr (ground arith))
]

module _ {Bytes Event World : Type 0} (parse : Bytes → Option Event)
    (commit : List Event → World → Option World) (batch_size batch_timeout : ℕ) where
  -- The events of the messages that parse, in the order in which they are polled.
  abbrev pub events_of : List (Polled Bytes × ℕ) → List Event
  events_of [] = []
  events_of ((polled, now) ∷ rounds) = option_list (parsed parse polled) ++ events_of rounds

  -- The table after the batches, written in order.
  abbrev pub write_all : List (List Event) → World → World
  write_all [] world = world
  write_all (b ∷ bs) world = write_all bs (write_batch commit b world)

  abbrev pub IsBatch : List Event → Type 0
  IsBatch b = (0 < length b) × (length b ≤ batch_size)

  grown : Polled Bytes → Consumer Event → Consumer Event
  grown polled c = record c { batch = append c.batch (parsed parse polled) }

  -- What a round does, in its two cases.
  round-cases :
      (polled : Polled Bytes) (now : ℕ) (c : Consumer Event) (world : World)
      → length c.batch < batch_size
      → ((round parse commit batch_size batch_timeout polled now c world ≡ (
        record { batch = []; last_flush_time = now },
        write_batch commit (append c.batch (parsed parse polled)) world,
      ))
          × IsBatch (append c.batch (parsed parse polled)))
        ⊎ ((round parse commit batch_size batch_timeout polled now c world
              ≡ (record c { batch = append c.batch (parsed parse polled) }, world))
            × (length (append c.batch (parsed parse polled)) < batch_size)
            × ((append c.batch (parsed parse polled) ≡ [])
                ⊎ (now < c.last_flush_time + batch_timeout)))
  unfolding round flush grown
  round-cases polled now c world room =
      elim (Bool-cases (is_due batch_size batch_timeout now (grown polled c))) [
        | inl due ↦ inl (
          rw due refl,
          (
            positive _ (is_due-positive batch_size batch_timeout now (grown polled c) due),
            omega (arith, length-append_one c.batch (parsed parse polled)),
          ),
        )
        | inr early ↦
            let (small, waits) =
              small_unless_full batch_size batch_timeout now (grown polled c) early (omega arith) in
            inr (rw early refl, small, waits)
      ]

  -- From a table, all these events are handed over in batches, but for the last ones, which wait.
  abbrev pub IsHanded : List Event → World → Consumer Event × World → Type 0
  IsHanded events world final =
      (bs : List (List Event)) × (final.1 ≡ write_all bs world)
      × (flatten bs ++ final.0.batch ≡ events)
      × All IsBatch bs
      × (length final.0.batch < batch_size)

  IsHanded-flush :
      (b rest : List Event) (world : World) (final : Consumer Event × World)
      → IsBatch b
      → IsHanded rest (write_batch commit b world) final
      → IsHanded (b ++ rest) world final
  IsHanded-flush b rest world final ok (bs, written, same, sizes, small) = (
    b ∷ bs,
    written,
    append_assoc b (flatten bs) final.0.batch ∙ ap (λ xs. b ++ xs) same,
    (ok, sizes),
    small,
  )

  regrouped :
      (batch : List Event) (o : Option Event) (rest : List Event)
      → append batch o ++ rest ≡ batch ++ (option_list o ++ rest)
  regrouped batch o rest =
      ap (λ xs. xs ++ rest) (append-list batch o) ∙ append_assoc batch (option_list o) rest

  -- The loop hands over to the database every event that it could parse, in the order of the
  -- messages and each once, in batches of at most `batch_size` events and never an empty one; what is
  -- not handed over yet are the last events, fewer than `batch_size`. A batch whose write fails is
  -- not handed over again. The batch at the start has room for an event.
  pub consume-IsHanded :
      (rounds : List (Polled Bytes × ℕ)) (c : Consumer Event) (world : World)
      → length c.batch < batch_size
      → IsHanded
          (c.batch ++ events_of rounds)
          world
          (consume parse commit batch_size batch_timeout rounds c world)
  unfolding consume
  consume-IsHanded [] c world room = ([], refl, sym (append-nil c.batch), tt, room)
  consume-IsHanded ((polled, now) ∷ rounds) c world room =
      rw (← regrouped c.batch (parsed parse polled) (events_of rounds))
        (elim (round-cases polled now c world room) [
          | inl (e, ok) ↦
              let full = append c.batch (parsed parse polled) in
              let fresh : Consumer Event = record { batch = []; last_flush_time = now } in
              let after = write_batch commit full world in
              rw (consume, e)
                (IsHanded-flush full (events_of rounds) world
                  (consume parse commit batch_size batch_timeout rounds fresh after) ok
                  (consume-IsHanded rounds fresh after (omega arith)))
          | inr (e, small, waits) ↦
              rw (consume, e)
                (consume-IsHanded rounds (record c { batch = append c.batch (parsed parse polled) })
                  world small)
        ])

  -- After a round on a batch that has room for an event, no event has waited for the time limit:
  -- the batch is empty, or its last flush is less than `batch_timeout` before the clock's reading
  -- in the round.
  pub round-punctual :
      (polled : Polled Bytes) (now : ℕ) (c : Consumer Event) (world : World)
      → length c.batch < batch_size
      → ((round parse commit batch_size batch_timeout polled now c world).0.batch ≡ [])
        ⊎ (now
            < (round parse commit batch_size batch_timeout polled now c world).0.last_flush_time
              + batch_timeout)
  round-punctual polled now c world room = elim (round-cases polled now c world room) [
    | inl (e, ok) ↦ rw e (inl refl)
    | inr (e, small, waits) ↦ rw e waits
  ]
