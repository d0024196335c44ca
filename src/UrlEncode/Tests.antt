-- ===== src/UrlEncode/Tests.antt =====
-- A text encoded by src/curl.c, and its theorems at it.
use ghcli.UrlEncode.{urlencode}
use ghcli.UrlEncode.RoundTrip.{urldecode, IsUrlSafe, urldecode-urlencode, urlencode_safe}
use ghcli.Prelude.{◌<◌, ◌≡◌, refl, length, All, arith, codes, some}

encoded : urlencode (codes "a/b c~") ≡ codes "a%2Fb%20c%7E"
unfolding urlencode
encoded = refl

urldecode-urlencode_example : urldecode (urlencode (codes "a/b c~")) ≡ some (codes "a/b c~")
urldecode-urlencode_example = urldecode-urlencode (codes "a/b c~") (omega arith)

urlencode_safe_example :
    All IsUrlSafe (urlencode (codes "a/b c~")) × (length (urlencode (codes "a/b c~")) < 19)
urlencode_safe_example = urlencode_safe (codes "a/b c~") (omega arith)
