-- ===== src/WalletAuth/Sessions.antt =====
-- lib/wallet-auth.ts: what a session token is worth.
use stellar_batch_pay.Base.{
  none, inl, inr, true, false, ℕ, ◌+◌, ◌/◌, ◌≡◌, refl, String, Option, some, List, [], ◌∷◌, leb,
  if◌then◌else◌, arith, Option-cases, ◌<◌, str_eq_iff, ap, sym,
}
use stellar_batch_pay.WalletAuth.{
  Crypto, Config, Payload, RawPayload, valid, refused, differs, bytes_eq, split_dots,
  base64_url_encode, base64_url_decode, sign_session_token, checked_payload, parse_session_token,
  issue_wallet_session, validate_wallet_session_token, require_wallet_auth,
  extract_wallet_session_token,
}
use stellar_batch_pay.WalletAuth.Base64.{
  IsEncoding, base64_url_encode-IsPart, base64_url_decode-encode, split_two,
}

bytes_eq_refl : (xs : List ℕ) → bytes_eq xs xs ≡ true
unfolding bytes_eq
bytes_eq_refl [] = refl
bytes_eq_refl (x ∷ xs) = ground (arith, bytes_eq_refl xs)

bytes_eq_eq : (xs ys : List ℕ) → bytes_eq xs ys ≡ true → xs ≡ ys
unfolding bytes_eq
bytes_eq_eq [] [] h = refl
bytes_eq_eq [] (y ∷ ys) h = cc
bytes_eq_eq (x ∷ xs) [] h = cc
bytes_eq_eq (x ∷ xs) (y ∷ ys) h = ground (arith, bytes_eq_eq xs ys)

-- `JSON.parse` gives back the payload that `JSON.stringify` wrote.
abbrev pub IsJson : Crypto → Payload → Type 0
IsJson crypto p =
    crypto.json_parse (crypto.json_stringify p)
    ≡ some (record { sub = some p.sub; exp = some p.exp; iat = some p.iat; jti = some p.jti })

-- The payload of an issued token.
abbrev pub issued_payload : Config → ℕ → String → String → Payload
issued_payload config issued jti key = record {
  sub = key;
  iat = issued / 1000;
  exp = issued / 1000 + config.session_ttl_sec;
  jti = jti;
}

module _ (crypto : Crypto) (config : Config) where
  -- A signed payload is read back.
  parse-sign :
      IsEncoding crypto
      → (p : Payload) → IsJson crypto p
      → parse_session_token crypto config (sign_session_token crypto config p) ≡ some p
  unfolding parse_session_token sign_session_token checked_payload
  parse-sign encoding p json =
      let body = base64_url_encode crypto (crypto.json_stringify p) in
      let sig = crypto.hmac config.session_secret body in
      ground (
        arith,
        split_two body (base64_url_encode crypto sig)
            (base64_url_encode-IsPart crypto encoding (crypto.json_stringify p))
            (base64_url_encode-IsPart crypto encoding sig),
        base64_url_decode-encode crypto encoding sig,
        base64_url_decode-encode crypto encoding (crypto.json_stringify p),
        bytes_eq_refl sig,
        json,
      )

  -- A read token is one that is not empty.
  validate_parsed :
      (now : ℕ) (token : List ℕ) (expected : Option String) (p : Payload)
      → parse_session_token crypto config token ≡ some p
      → validate_wallet_session_token crypto config now (some token) expected ≡ (
          if leb p.exp (now / 1000)
          then refused 401
              "Wallet session token has expired. Re-authenticate via /api/auth/challenge."
          else if differs expected p.sub
          then refused 403 "Session token publicKey does not match the requested publicKey"
          else valid p.sub)
  unfolding validate_wallet_session_token parse_session_token split_dots
  validate_parsed now [] expected p e = cc
  validate_parsed now (c ∷ cs) expected p e = ground arith

  -- A token that was issued is valid for its address until its time to live is over, in whole seconds,
  -- and expired from then on; before, it is refused for every other address that is asked for.
  pub issued_session :
      IsEncoding crypto
      → (issued now : ℕ) (jti key : String) (expected : Option String)
      → IsJson crypto (issued_payload config issued jti key)
      → validate_wallet_session_token crypto config now
          (some (issue_wallet_session crypto config issued jti key))
          expected
        ≡ (if leb (issued / 1000 + config.session_ttl_sec) (now / 1000)
            then refused 401
                "Wallet session token has expired. Re-authenticate via /api/auth/challenge."
            else if differs expected key
            then refused 403 "Session token publicKey does not match the requested publicKey"
            else valid key)
  unfolding issue_wallet_session
  issued_session encoding issued now jti key expected json =
      let p = issued_payload config issued jti key in
      validate_parsed now (sign_session_token crypto config p) expected p
        (parse-sign encoding p json)

  -- The signature of a token that is read.
  abbrev pub IsSigned : List ℕ → Payload → Type 0
  IsSigned token p =
      (body : List ℕ) × (sig : List ℕ) × (raw : RawPayload) × (split_dots token ≡ body ∷ sig ∷ [])
      × (base64_url_decode crypto sig ≡ crypto.hmac config.session_secret body)
      × (crypto.json_parse (base64_url_decode crypto body) ≡ some raw)
      × (checked_payload crypto config raw ≡ some p)

  parts-IsSigned :
      (token : List ℕ) (p : Payload) (parts : List (List ℕ))
      → split_dots token ≡ parts
      → parse_session_token crypto config token ≡ some p
      → IsSigned token p
  unfolding parse_session_token
  parts-IsSigned token p [] e h = absurd (ground arith)
  parts-IsSigned token p (body ∷ []) e h = absurd (ground arith)
  parts-IsSigned token p (body ∷ sig ∷ part ∷ parts) e h = absurd (ground arith)
  parts-IsSigned token p (body ∷ sig ∷ []) e h =
      let decoded = base64_url_decode crypto sig in
      let signature = crypto.hmac config.session_secret body in
      elim (Option-cases (crypto.json_parse (base64_url_decode crypto body))) [
        | inl unread ↦ absurd (ground arith)
        | inr (raw, read) ↦ (
          body,
          sig,
          raw,
          e,
          sym (bytes_eq_eq signature decoded (ground arith)),
          read,
          ground arith,
        )
      ]

  validated :
      (now : ℕ) (token : Option (List ℕ)) (expected : Option String) (k : String)
      → validate_wallet_session_token crypto config now token expected ≡ valid k
      → (t : List ℕ) × (p : Payload) × (token ≡ some t)
        × (parse_session_token crypto config t ≡ some p)
        × (p.sub ≡ k)
        × (now / 1000 < p.exp)
        × (differs expected k ≡ false)
  unfolding validate_wallet_session_token
  validated now none expected k h = absurd (ground arith)
  validated now (some []) expected k h = absurd (ground arith)
  validated now (some (c ∷ cs)) expected k h =
      elim (Option-cases (parse_session_token crypto config (c ∷ cs))) [
        | inl unread ↦ absurd (ground arith)
        | inr (p, read) ↦ (c ∷ cs, p, refl, read, ground arith, ground arith, ground arith)
      ]

  -- A protected route answers for an address only where the query asks for that address, it is a valid
  -- one, and the request's token carries the server's signature, names that address and has not
  -- expired.
  pub require_wallet_auth-IsSigned :
      (now : ℕ) (authorization cookie : Option (List ℕ)) (public_key : Option String) (k : String)
      → require_wallet_auth crypto config now authorization cookie public_key ≡ valid k
      → (public_key ≡ some k)
        × (crypto.is_valid_public_key k ≡ true)
        × ((token : List ℕ) × (p : Payload) × (extract_wallet_session_token authorization cookie
              ≡ some token)
            × IsSigned token p
            × (p.sub ≡ k)
            × (now / 1000 < p.exp))
  unfolding require_wallet_auth differs
  require_wallet_auth-IsSigned now authorization cookie none k h = absurd (ground arith)
  require_wallet_auth-IsSigned now authorization cookie (some key) k h =
      let token = extract_wallet_session_token authorization cookie in
      let (t, p, e, read, sub, live, same) = validated now token (some key) k (ground arith) in
      let mine : key ≡ k = ground (arith, str_eq_iff k key) in
      (
        ap some mine,
        ground arith,
        (t, p, e, parts-IsSigned t p (split_dots t) refl read, sub, live),
      )
