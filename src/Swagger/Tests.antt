-- ===== src/Swagger/Tests.antt =====
-- The documentation page, run with a bundle that shows what it is given.
use dt4mob_platform.Prelude.{◌≡◌, refl, none, some, []}
use dt4mob_platform.Prelude.Text.{String}
use dt4mob_platform.Swagger.{SwaggerUiBundle, Window, options, onload}

abbrev sample_bundle : SwaggerUiBundle String String
sample_bundle = record { apis = "apis"; call = λ options. some options.url }

abbrev blank : Window String
blank = record { console = []; ui = none }

shown : (onload (some sample_bundle) blank).ui ≡ some "/historic/openapi.json"
unfolding onload options
shown = refl

not_loaded : (onload {Preset = String} none blank).ui ≡ none
unfolding onload
not_loaded = refl
