-- ===== src/Controller/Http/Bind.antt =====
-- Taking apart a sequence of controller steps that returned.
use dt4mob_platform.Prelude.{◌≡◌, refl, ap, Bool, true, false, if◌then◌else◌}
use dt4mob_platform.Controller.Http.{Outcome, returned, panicked, Http, continue, ◌>>=◌, pure}

-- `m` returned `a` and left the world `w'`.
abbrev pub Runs : {World A : Type 0} → Http World A → World → A → World → Type 0
Runs m w a w' = m w ≡ (returned a, w')

module _ {World A B : Type 0} where
  continue-returned :
      (r : Outcome A) (f : A → Http World B) (w : World) {b : B} {w' : World}
      → continue r f w ≡ (returned b, w')
      → (a : A) × (r ≡ returned a) × (f a w ≡ (returned b, w'))
  continue-returned (returned a) f w h = (a, refl, h)
  continue-returned panicked f w h = cc (ap (λ (x : Outcome B × World). x.0) h)

  -- Both halves of a sequence that returned have returned.
  pub >>=-Runs :
      (m : Http World A) (f : A → Http World B) {w w' : World} {b : B}
      → Runs (m >>= f) w b w'
      → (a : A) × (u : World) × Runs m w a u × Runs (f a) u b w'
  >>=-Runs m f {w} h =
      let (a, e, rest) = continue-returned (m w).0 f (m w).1 h in
      (a, (m w).1, ap (λ (r : Outcome A). (r, (m w).1)) e, rest)

  pub Runs->>= :
      (m : Http World A) (f : A → Http World B) {w u w' : World} {a : A} {b : B}
      → Runs m w a u
      → Runs (f a) u b w'
      → Runs (m >>= f) w b w'
  Runs->>= m f e h = rw e h

module _ {World A : Type 0} where
  pub returned_value :
      {r : Outcome A} {a : A} {u w : World}
      → ◌≡◌ {A = Outcome A × World} (r, u) (returned a, w)
      → (r ≡ returned a) × (u ≡ w)
  returned_value h = (ap (λ x. x.0) h, ap (λ x. x.1) h)

  pub pure-Runs : (a : A) {b : A} {u w : World} → Runs (pure a) u b w → (a ≡ b) × (u ≡ w)
  pure-Runs a h = let (r, same) = returned_value h in (cc r, same)

-- From every world `m` returns a value, of which `Q` holds: it does not panic.
pub record Returns {World A : Type 0} (Q : A → Type 0) (m : Http World A) : Type 0 where
  pub at : (w : World) → (a : A) × (w' : World) × Runs m w a w' × Q a

abbrev pub Anything : {A : Type 0} → A → Type 0
Anything a = Unit {0}

module _ {World A : Type 0} (Q : A → Type 0) where
  pub Returns-pure : (a : A) → Q a → Returns {World = World} Q (pure a)
  Returns-pure a q = record { at = λ w. (a, w, refl, q) }

module _ {World A B : Type 0} {Q : A → Type 0} (R : B → Type 0) where
  pub Returns->>= :
      (m : Http World A) (f : A → Http World B)
      → Returns Q m
      → ((a : A) → Q a → Returns R (f a))
      → Returns R (m >>= f)
  Returns->>= m f hm hf = record {
    at = λ w.
        let (a, u, ran, q) = hm.at w in
        let (b, w', ran', r) = (hf a q).at u in (b, w', Runs->>= m f ran ran', r);
  }

pub Returns-if :
    {World A : Type 0} {Q : A → Type 0} (b : Bool) {m n : Http World A}
    → Returns Q m
    → Returns Q n
    → Returns Q (if b then m else n)
Returns-if true hm hn = hm
Returns-if false hm hn = hn
