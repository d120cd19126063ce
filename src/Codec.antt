-- ===== src/Codec.antt =====
-- What internal/auth/jwt.go takes from the standard library: HMAC-SHA256 under the secret, URL-safe
-- base64 and JSON. Texts are lists of bytes.
use echopay.Common.{ℕ, String, Option, some, [], ◌∷◌, Bytes, ◌==◌, false, Bool, ◌||◌, ◌≡◌}

-- Times are in seconds, from Go's zero time; the distance to 1970 is left out.
pub record Claims : Type 0 where
  pub user_id : ℕ
  pub phone : String
  pub jti : ℕ
  pub issued_at : ℕ
  pub expires_at : ℕ

pub record Codec : Type 0 where
  pub sign : Bytes → Bytes
  pub encode : Bytes → Bytes
  pub decode : Bytes → Option Bytes
  pub header_json : Bytes
  pub claims_json : Claims → Bytes
  pub unmarshal_claims : Bytes → Option Claims

abbrev pub has_dot : Bytes → Bool
has_dot [] = false
has_dot (c ∷ cs) = c == b'.' || has_dot cs

-- The documented behaviour of base64: what it wrote is read back, and its alphabet has no dot.
pub record IsCodec (c : Codec) : Type 0 where
  pub decode-encode : (b : Bytes) → c.decode (c.encode b) ≡ some b
  pub no_dot : (b : Bytes) → has_dot (c.encode b) ≡ false
