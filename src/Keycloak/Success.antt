-- ===== src/Keycloak/Success.antt =====
-- What follows from the success of a piece of images/keycloak-config/setup.sh.
use dt4mob_platform.Prelude.{◌≡◌, ◌≢◌, refl, ap, Bool, true, false, Option, none, some}
use dt4mob_platform.Prelude.Text.{String, ◌==◌, eq_iff}
use dt4mob_platform.Keycloak.{Script, continue, ◌>>=◌, pure, tested, or_nothing}

module _ {World A B : Type 0} where
  continue-some :
      (f : A → Script World B) (r : Option A × World) {b : B} {v : World}
      → continue f r ≡ (some b, v)
      → (a : A) × (u : World) × (r ≡ (some a, u)) × (f a u ≡ (some b, v))
  continue-some f (none, u) h = cc (ap (λ (d : Option B × World). d.0) h)
  continue-some f (some a, u) h = (a, u, refl, h)

  -- Both halves of a sequence that succeeds succeed.
  pub >>=-some :
      (m : Script World A) (f : A → Script World B) {w : World} {b : B} {v : World}
      → (m >>= f) w ≡ (some b, v)
      → (a : A) × (u : World) × (m w ≡ (some a, u)) × (f a u ≡ (some b, v))
  >>=-some m f {w} h = continue-some f (m w) h

pub is_full : (text : String) → (text == "") ≡ false → text ≢ ""
is_full text h same = cc (h, (eq_iff text "").1 same)

module _ {World : Type 0} where
  abbrev status : Option Bool × World → Option Bool
  status r = r.0

  pub tested-true :
      {A : Type 0} (r : Option A × World) {u : World}
      → tested r ≡ (some true, u)
      → (a : A) × (r ≡ (some a, u))
  tested-true (none, v) h = cc (ap status h)
  tested-true (some a, v) h = (a, ap (λ (d : Option Bool × World). (some a, d.1)) h)

  pub pure-some :
      {A : Type 0} (a : A) {b : A} (u : World) {v : World}
      → pure a u ≡ (some b, v)
      → (some a ≡ some b) × (u ≡ v)
  pure-some {A = A} a u h =
      (ap (λ (d : Option A × World). d.0) h, ap (λ (d : Option A × World). d.1) h)

  pub or_nothing-some :
      (r : Option String × World) {text : String} {u : World}
      → text ≢ ""
      → or_nothing r ≡ (some text, u)
      → r ≡ (some text, u)
  or_nothing-some (none, v) some_text h =
      absurd (some_text (cc (ap (λ (d : Option String × World). d.0) h)))
  or_nothing-some (some found, v) some_text h = h
