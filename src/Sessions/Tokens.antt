-- ===== src/Sessions/Tokens.antt =====
-- The text of a refresh token names its session and its secret.
use Prim.Native.String.{◌++◌}
use text.Mathlib.TextLemmas.{nil-append, cons-append}
use mytenancyplus.Prelude.{Uuid, String, ◌≡◌, some, arith}
use mytenancyplus.Transaction.{ok}
use mytenancyplus.Security.Claims.{Rendering, NoDot}
use mytenancyplus.Sessions.{session_and_secret, split_dot, parse_token, raw_token}

split_dot-append : (s t : String) → NoDot s → split_dot (s ++ ("." ++ t)) ≡ some (s, t)
unfolding split_dot
split_dot-append String.[] t h = rw (nil-append, cons-append, nil-append)
split_dot-append (String.◌∷◌ c s) t h = rw cons-append (ground (arith, split_dot-append s t h.1))

-- Parsing gives back what a token was made of, whatever the secret.
pub parse-raw_token :
    (runtime : Rendering) (hash_secret : String → String) (session_id : Uuid) (secret : String)
    → parse_token runtime hash_secret (raw_token runtime hash_secret session_id secret)
      ≡ ok (session_id, secret)
unfolding parse_token
parse-raw_token runtime hash_secret session_id secret =
    rw (split_dot-append (runtime.show_uuid session_id) secret (runtime.show_uuid-NoDot session_id))
      (rw (runtime.parse-show session_id, session_and_secret))
