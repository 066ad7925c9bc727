-- ===== src/Collector/Settings/Url.antt =====
-- The address of the garbage collector's searches.
use Prim.Native.String.{◌++◌}
use dt4mob_platform.Prelude.{◌≡◌, refl, ℕ}
use dt4mob_platform.Prelude.Text.{String}
use dt4mob_platform.Prelude.Text.Strip.{
  rstrip_slash, strip_slash, slashes, rstrip_slash-append, strip_slash-slashes,
}
use dt4mob_platform.Collector.Settings.{DittoSettings, get_base_url, search_things_url}

-- The searches go to the base URL and the base path joined by one slash, however many slashes end the
-- base URL and surround the base path in the settings: `url` is a text that ends in no slash, and
-- `path` one that neither starts nor ends in one.
pub search_things_url-slashes :
    (s : DittoSettings) (url path : String) (k m n : ℕ)
    → rstrip_slash url ≡ url
    → strip_slash path ≡ path
    → s.api_url ≡ url ++ slashes k
    → s.base_api_path ≡ slashes m ++ (path ++ slashes n)
    → search_things_url s ≡ (url ++ ("/" ++ path)) ++ "/search/things"
unfolding search_things_url get_base_url
search_things_url-slashes s url path k m n bare_url bare_path api base =
    rw (api, base, rstrip_slash-append url k, strip_slash-slashes m path n, bare_url, bare_path)
      refl
