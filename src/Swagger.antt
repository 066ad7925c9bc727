-- ===== src/Swagger.antt =====
-- The documentation page of services/dt4mob-historical-api: the page that app/main.py sends, and the
-- script app/static/swagger-initializer.js that it loads last.
pub mod Tests
use Prim.Native.String.{◌++◌}
use dt4mob_platform.Prelude.{Option, none, some, List, [], ◌∷◌}
use dt4mob_platform.Prelude.Text.{String}

-- The argument of `SwaggerUIBundle(…)`; a preset is a value of the bundle's, or undefined.
pub record BundleOptions (Preset : Type 0) : Type 0 where
  pub url : String
  pub dom_id : String
  pub presets : List (Option Preset)
  pub layout : String

-- The global `SwaggerUIBundle`, which swagger-ui-bundle.js defines: a function that shows the
-- interface and returns it, or throws; of the two presets that the script names it has the first.
pub record SwaggerUiBundle (Preset Ui : Type 0) : Type 0 where
  pub apis : Preset
  pub call : BundleOptions Preset → Option Ui

-- What the script changes: the console, and the property `ui` of `window`.
pub record Window (Ui : Type 0) : Type 0 where
  pub console : List String
  pub ui : Option Ui

-- `window.ui = ui`, which an exception of the bundle skips.
abbrev pub assign_ui : {Ui : Type 0} → Window Ui → Option Ui → Window Ui
assign_ui window none = window
assign_ui window (some ui) = record { console = window.console; ui = some ui }

module _ {Preset Ui : Type 0} where
  -- The second preset, `SwaggerUIBundle.SwaggerUIStandalonePreset`, is undefined: the script of that
  -- preset defines a global of that name and no property of the bundle.
  pub options : SwaggerUiBundle Preset Ui → BundleOptions Preset
  options bundle = record {
    url = "/historic/openapi.json";
    dom_id = "#swagger-ui";
    presets = some bundle.apis ∷ none ∷ [];
    layout = "BaseLayout";
  }

  -- `window.onload`; `none` for the bundle is a script that did not load: its name is then unbound,
  -- and using it throws.
  pub onload : Option (SwaggerUiBundle Preset Ui) → Window Ui → Window Ui
  unfolding options
  onload none window = record {
    console = "Initializing Swagger..." ∷ window.console;
    ui = window.ui;
  }
  onload (some bundle) window =
      assign_ui (record { console = "Initializing Swagger..." ∷ window.console; ui = window.ui })
        (bundle.call (options bundle))

abbrev pub root_path : String
root_path = "/historic"

abbrev pub title : String
title = "Ditto Events API"

-- The elements of the page that have an attribute or a text.
pub data Element : Type 0 where
  stylesheet : String → Element
  page_title : String → Element
  division : String → Element
  script : String → Element

-- The document that `custom_swagger_ui_html` sends.
unfoldable pub custom_swagger_ui_html : List Element
custom_swagger_ui_html =
    stylesheet (root_path ++ "/static/swagger-ui.css")
    ∷ page_title (title ++ " - Swagger UI")
    ∷ division "swagger-ui"
    ∷ script (root_path ++ "/static/swagger-ui-bundle.js")
    ∷ script (root_path ++ "/static/swagger-ui-standalone-preset.js")
    ∷ script (root_path ++ "/static/swagger-initializer.js")
    ∷ []
