-- ===== src/Auth/Jwt.antt =====
-- internal/auth/jwt.go: what Issue writes and what Parse accepts. Texts are lists of bytes.
pub mod Read
use echopay.Common.{
  ℕ, suc, ◌+◌, ◌/◌, String, Bool, true, false, not, Option, none, some, List, [], ◌∷◌, ◌++◌, leb,
  ◌==◌, if◌then◌else◌, Bytes, ◌&&◌,
}
use echopay.Codec.{Codec, Claims}
use echopay.World.{Env, failure, ok}
use echopay.Action.{Action, pure, raise, now, ◌>>=◌}

-- strings.Split(token, ".")
abbrev pub in_front : ℕ → List Bytes → List Bytes
in_front c [] = (c ∷ []) ∷ []
in_front c (part ∷ parts) = (c ∷ part) ∷ parts

unfoldable pub split_dots : Bytes → List Bytes
split_dots [] = [] ∷ []
split_dots (c ∷ cs) = let rest = split_dots cs in if c == b'.' then [] ∷ rest else in_front c rest

-- hmac.Equal
abbrev pub same_bytes : Bytes → Bytes → Bool
same_bytes [] [] = true
same_bytes (c ∷ cs) (d ∷ ds) = c == d && same_bytes cs ds
same_bytes _ _ = false

-- `.Unix()`
abbrev pub unix : ℕ → ℕ
unix t = t / 1_000_000_000

-- uuid.New()
unfoldable pub new_uuid : Action ℕ
new_uuid env w = (ok (env.random_uuid w.turn), record w { turn = suc w.turn })

unfoldable pub configured : Action Env
configured env w = (ok env, w)

-- header.payload.signature
unfoldable pub write_token : Codec → Claims → Bytes
write_token c claims =
    let signing_input = c.encode c.header_json ++ b'.' ∷ c.encode (c.claims_json claims) in
    signing_input ++ b'.' ∷ c.encode (c.sign signing_input)

-- Issue
unfoldable pub issue : ℕ → String → Action (Bytes × ℕ)
issue user_id phone = do
  jti ← new_uuid
  t ← now
  env ← configured
  pure (
    write_token env.codec (record {
      user_id = user_id;
      phone = phone;
      jti = jti;
      issued_at = unix t;
      expires_at = unix (t + env.jwt_ttl);
    }),
    jti,
  )

-- `claims`, once the payload is unmarshalled
abbrev pub unexpired : Option Claims → Action Claims
unexpired none = raise (failure "unmarshal claims")
unexpired (some claims) = do
  t ← now
  if leb claims.expires_at (unix t) then raise (failure "token expired") else pure claims

-- `payload`, once the signature fits
abbrev pub claims_of : Codec → Option Bytes → Action Claims
claims_of c none = raise (failure "decode claims")
claims_of c (some payload) = unexpired (c.unmarshal_claims payload)

-- `got`, the signature that the token carries
abbrev pub checked : Codec → Bytes → Bytes → Option Bytes → Action Claims
checked c header payload none = raise (failure "decode signature")
checked c header payload (some got) =
    if same_bytes (c.sign (header ++ b'.' ∷ payload)) got
    then claims_of c (c.decode payload)
    else raise (failure "signature mismatch")

abbrev pub parse_parts : Codec → List Bytes → Action Claims
parse_parts c (header ∷ payload ∷ signature ∷ []) = checked c header payload (c.decode signature)
parse_parts c _ = raise (failure "malformed token")

-- Parse
unfoldable pub parse : Bytes → Action Claims
unfolding split_dots
parse token = do env ← configured; parse_parts env.codec (split_dots token)
