-- ===== src/Signing.antt =====
-- internal/signing/hmac.go, over HMAC-SHA256 and hex as one function of secret and payload.
use Prim.Native.String.{◌++◌}
use nitrohook.Prelude.{String, Bool, same}

module _ (hex_hmac : String → String → String) where
  unfoldable pub sign : String → String → String
  sign payload secret = "sha256=" ++ hex_hmac secret payload

  unfoldable pub verify : String → String → String → Bool
  unfolding sign
  verify payload secret signature = same (sign payload secret) signature
