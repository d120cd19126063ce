-- ===== src/Auth/Jwt/Read.antt =====
-- A token that was issued is read back until it expires, and a token that is accepted was signed.
use mathlib.Core.List.{append_assoc}
use echopay.Common.{
  ℕ, ◌<◌, true, false, Option, none, some, List, [], ◌∷◌, ◌++◌, leb, if◌then◌else◌, Bytes, ◌≡◌,
  refl, ap, sym, arith, Bool-cases, inl, inr, ==_refl,
}
use echopay.Codec.{Codec, Claims, IsCodec, has_dot}
use echopay.World.{Env, World, ok, err, failure}
use echopay.Action.{pure, raise, now, ◌>>=◌}
use echopay.Auth.Jwt.{
  split_dots, same_bytes, unix, configured, write_token, unexpired, claims_of, checked, parse_parts,
  parse,
}

split_dots-last : (a : Bytes) → has_dot a ≡ false → split_dots a ≡ a ∷ []
unfolding split_dots
split_dots-last [] h = refl
split_dots-last (c ∷ a) h = ground (arith, split_dots-last a)

split_dots-part :
    (a rest : Bytes) → has_dot a ≡ false → split_dots (a ++ b'.' ∷ rest) ≡ a ∷ split_dots rest
unfolding split_dots
split_dots-part [] rest h = refl
split_dots-part (c ∷ a) rest h = ground (arith, split_dots-part a rest)

same_bytes_refl : (a : Bytes) → same_bytes a a ≡ true
same_bytes_refl [] = refl
same_bytes_refl (c ∷ a) = rw (==_refl c) (same_bytes_refl a)

same_bytes_eq : (a b : Bytes) → same_bytes a b ≡ true → a ≡ b
same_bytes_eq [] [] h = refl
same_bytes_eq [] (d ∷ b) h = cc
same_bytes_eq (c ∷ a) [] h = cc
same_bytes_eq (c ∷ a) (d ∷ b) h = ground (arith, same_bytes_eq a b)

split_dots-three :
    (h p s : Bytes)
    → has_dot h ≡ false
    → has_dot p ≡ false
    → has_dot s ≡ false
    → split_dots (h ++ b'.' ∷ p ++ b'.' ∷ s) ≡ h ∷ p ∷ s ∷ []
split_dots-three h p s dh dp ds =
    rw
      (
        append_assoc h (b'.' ∷ p) (b'.' ∷ s),
        split_dots-part h (p ++ b'.' ∷ s) dh,
        split_dots-part p s dp,
        split_dots-last s ds,
      )
      refl

parts_of :
    (c : Codec) (claims : Claims)
    → IsCodec c
    → split_dots (write_token c claims)
      ≡ c.encode c.header_json
        ∷ c.encode (c.claims_json claims)
        ∷ c.encode (c.sign (c.encode c.header_json ++ b'.' ∷ c.encode (c.claims_json claims)))
        ∷ []
unfolding write_token
parts_of c claims laws = split_dots-three _ _ _ (laws.no_dot _) (laws.no_dot _) (laws.no_dot _)

-- A token that was written for some claims is read as these claims, unless they have expired, which
-- is the error; this rests on JSON to read back the claims that it wrote.
pub parse-write_token :
    (claims : Claims) (env : Env) (w : World)
    → IsCodec env.codec
    → env.codec.unmarshal_claims (env.codec.claims_json claims) ≡ some claims
    → (parse (write_token env.codec claims) env w).0 ≡ (
        if leb claims.expires_at (unix (env.time w.turn))
        then err (failure "token expired")
        else ok claims)
unfolding parse configured ◌>>=◌ now pure raise
parse-write_token claims env w laws reads =
    rw
      (
        parts_of env.codec claims laws,
        laws.decode-encode,
        same_bytes_refl,
        laws.decode-encode,
        reads,
      )
      (ground arith)

-- Where a token is accepted: what it has in front of its last dot is signed by its last part, its
-- middle part holds the claims, and they have not expired.
pub record Signed (c : Codec) (token : Bytes) (claims : Claims) (t : ℕ) : Type 0 where
  pub header : Bytes
  pub body : Bytes
  pub signature : Bytes
  pub payload : Bytes
  pub parts : split_dots token ≡ header ∷ body ∷ signature ∷ []
  pub signed : c.decode signature ≡ some (c.sign (header ++ b'.' ∷ body))
  pub decoded : c.decode body ≡ some payload
  pub claimed : c.unmarshal_claims payload ≡ some claims
  pub fresh : unix t < claims.expires_at

module _ (env : Env) (w : World) (claims : Claims) where
  unexpired-ends :
      (o : Option Claims)
      → (unexpired o env w).0 ≡ ok claims
      → (o ≡ some claims) × (unix (env.time w.turn) < claims.expires_at)
  unfolding ◌>>=◌ now pure raise
  unexpired-ends none done = cc
  unexpired-ends (some x) done = ground arith

  claims_of-ends :
      (c : Codec) (o : Option Bytes)
      → (claims_of c o env w).0 ≡ ok claims
      → (payload : Bytes) × (o ≡ some payload)
        × (c.unmarshal_claims payload ≡ some claims)
        × (unix (env.time w.turn) < claims.expires_at)
  unfolding raise
  claims_of-ends c none done = cc
  claims_of-ends c (some payload) done =
      let (known, fresh) = unexpired-ends (c.unmarshal_claims payload) done in
      (payload, refl, known, fresh)

  checked-ends :
      (c : Codec) (header body : Bytes) (got : Option Bytes)
      → (checked c header body got env w).0 ≡ ok claims
      → (got ≡ some (c.sign (header ++ b'.' ∷ body)))
        × ((claims_of c (c.decode body) env w).0 ≡ ok claims)
  unfolding raise
  checked-ends c header body none done = cc
  checked-ends c header body (some got) done =
      elim (Bool-cases (same_bytes (c.sign (header ++ b'.' ∷ body)) got)) [
        | inl same ↦ (ap some (sym (same_bytes_eq _ got same)), ground arith)
        | inr differs ↦ ground arith
      ]

  parts-Signed :
      (c : Codec) (token : Bytes) (parts : List Bytes)
      → split_dots token ≡ parts
      → (parse_parts c parts env w).0 ≡ ok claims
      → Signed c token claims (env.time w.turn)
  unfolding raise
  parts-Signed c token [] known done = absurd (cc)
  parts-Signed c token (a ∷ []) known done = absurd (cc)
  parts-Signed c token (a ∷ b ∷ []) known done = absurd (cc)
  parts-Signed c token (a ∷ b ∷ s ∷ []) known done =
      let (fits, rest) = checked-ends c a b (c.decode s) done in
      let (payload, decoded, claimed, fresh) = claims_of-ends c (c.decode b) rest in
      record {
        header = a;
        body = b;
        signature = s;
        payload = payload;
        parts = known;
        signed = fits;
        decoded = decoded;
        claimed = claimed;
        fresh = fresh;
      }
  parts-Signed c token (a ∷ b ∷ s ∷ d ∷ more) known done = absurd (cc)

-- A token that is accepted is signed in its last part, and its claims have not expired.
pub parse-Signed :
    (token : Bytes) (env : Env) (w : World) (claims : Claims)
    → (parse token env w).0 ≡ ok claims
    → Signed env.codec token claims (env.time w.turn)
unfolding parse configured ◌>>=◌
parse-Signed token env w claims done = parts-Signed env w claims env.codec token _ refl done
