-- ===== src/Historical/Session/Tests.antt =====
-- Sessions over a table of numbers that refuses the zero.
use dt4mob_platform.Prelude.{
  ℕ, ◌≡◌, ◌≢◌, refl, Bool, true, false, Option, none, some, List, [], ◌∷◌, ◌++◌, any, ◌==◌,
  if◌then◌else◌,
}
use dt4mob_platform.Historical.Session.{Orm, IsOrm, write, write_batch, insert_events, with_commit}
use dt4mob_platform.Historical.Session.Atomic.{IsAtomic, sessions-IsAtomic}

abbrev insert_all : List ℕ → List ℕ → Option (List ℕ)
insert_all rows t = if any (λ row. row == 0) rows then none else some (rows ++ t)

-- The pending rows, and the table.
abbrev Session : Type 0
Session = List ℕ × List ℕ

abbrev ended : List ℕ → List ℕ → Option (List ℕ) → Bool × Session
ended rows t none = (false, (rows, t))
ended rows t (some stored) = (true, ([], stored))

abbrev commit : Session → Bool × Session
commit ([], t) = (true, ([], t))
commit (row ∷ rows, t) = ended (row ∷ rows) t (insert_all (row ∷ rows) t)

abbrev orm : Orm ℕ (List ℕ)
orm = record {
  Session = Session;
  new_session = λ t. ([], t);
  table = λ s. s.1;
  pending = λ s. s.0;
  add = λ row s. (s.0 ++ (row ∷ []), s.1);
  add_all = λ rows s. (s.0 ++ rows, s.1);
  commit = commit;
  rollback = λ s. ([], s.1);
}

ended-stores :
    (rows t : List ℕ) (found : Option (List ℕ))
    → (ended rows t found).0 ≡ true
    → (found ≡ some (ended rows t found).1.1) × ((ended rows t found).1.0 ≡ [])
ended-stores rows t none h = cc h
ended-stores rows t (some stored) h = (refl, refl)

ended-raises :
    (rows t : List ℕ) (found : Option (List ℕ))
    → (ended rows t found).0 ≡ false
    → (found ≡ none) × ((ended rows t found).1.1 ≡ t)
ended-raises rows t none h = (refl, refl)
ended-raises rows t (some stored) h = cc h

commit-nothing :
    (s : Session)
    → s.0 ≡ []
    → ((commit s).0 ≡ true) × ((commit s).1.1 ≡ s.1) × ((commit s).1.0 ≡ [])
commit-nothing ([], t) e = (refl, refl, refl)
commit-nothing (row ∷ rows, t) e = cc e

commit-stores :
    (s : Session)
    → s.0 ≢ []
    → (commit s).0 ≡ true
    → (insert_all s.0 s.1 ≡ some (commit s).1.1) × ((commit s).1.0 ≡ [])
commit-stores ([], t) full h = absurd (full refl)
commit-stores (row ∷ rows, t) full h = ended-stores (row ∷ rows) t (insert_all (row ∷ rows) t) h

commit-raises :
    (s : Session)
    → s.0 ≢ []
    → (commit s).0 ≡ false
    → (insert_all s.0 s.1 ≡ none) × ((commit s).1.1 ≡ s.1)
commit-raises ([], t) full h = absurd (full refl)
commit-raises (row ∷ rows, t) full h = ended-raises (row ∷ rows) t (insert_all (row ∷ rows) t) h

orm-IsOrm : IsOrm insert_all orm
orm-IsOrm = record {
  new_table = λ t. refl;
  new_pending = λ t. refl;
  add_table = λ row s. refl;
  add_pending = λ row s. refl;
  add_all_table = λ rows s. refl;
  add_all_pending = λ rows s. refl;
  rollback_table = λ s. refl;
  rollback_pending = λ s. refl;
  commit_nothing = commit-nothing;
  commit_stores = commit-stores;
  commit_raises = commit-raises;
}

sessions-IsAtomic_example :
    IsAtomic insert_all orm orm-IsOrm (7 ∷ []) (5 ∷ []) (write orm 7 (5 ∷ []))
    × IsAtomic insert_all orm orm-IsOrm
        (3 ∷ 0 ∷ [])
        (5 ∷ [])
        (write_batch orm (3 ∷ 0 ∷ []) (5 ∷ []))
    × IsAtomic insert_all orm orm-IsOrm
        (3 ∷ 0 ∷ [])
        (5 ∷ [])
        (insert_events orm (3 ∷ 0 ∷ []) (5 ∷ []))
sessions-IsAtomic_example =
    sessions-IsAtomic insert_all orm orm-IsOrm 7 (3 ∷ 0 ∷ []) (5 ∷ []) (λ e. cc e)

refused : write_batch orm (3 ∷ 0 ∷ []) (5 ∷ []) ≡ (false, ([], 5 ∷ []))
unfolding write_batch with_commit
refused = refl

written : write_batch orm (3 ∷ 4 ∷ []) (5 ∷ []) ≡ (true, ([], 3 ∷ 4 ∷ 5 ∷ []))
unfolding write_batch with_commit
written = refl
