-- ===== src/WalletAuth.antt =====
-- lib/wallet-auth.ts: the challenge that a wallet signs, the guard against its second use, and the session
-- token. A token is the list of its UTF-8 bytes, an address a text. Times are in milliseconds. What
-- Node and the SDK do is the record `Crypto`.
pub mod Base64
pub mod Challenges
pub mod Sessions
mod Tests
use stellar_batch_pay.Base.{
  ℕ, zero, suc, ◌+◌, ◌-◌, ◌*◌, ◌/◌, ◌%◌, max, String, Bool, true, false, not, ◌&&◌, ◌||◌, Option,
  none, some, List, [], ◌∷◌, ◌++◌, map, ltb, leb, ◌==◌, if◌then◌else◌, length, is_empty, str_eq,
  Result, ok, err, entry, set_entry,
}

pub record Payload : Type 0 where
  pub sub : String
  pub exp : ℕ
  pub iat : ℕ
  pub jti : String

-- The properties of a parsed object that have their type.
pub record RawPayload : Type 0 where
  pub sub : Option String
  pub exp : Option ℕ
  pub iat : Option ℕ
  pub jti : Option String

-- `verify_signers` answers at a time, for an envelope and the expected address; `json_parse` gives
-- `none` where it throws.
pub record Crypto : Type 0 where
  pub is_valid_public_key : String → Bool
  pub fingerprint : String → String
  pub verify_signers : ℕ → String → String → Result String (List String)
  pub hmac : String → List ℕ → List ℕ
  pub base64 : List ℕ → List ℕ
  pub base64_decode : List ℕ → List ℕ
  pub json_stringify : Payload → List ℕ
  pub json_parse : List ℕ → Option RawPayload

pub record Config : Type 0 where
  pub session_secret : String
  pub challenge_timeout_sec : ℕ
  pub session_ttl_sec : ℕ

-- The two limits, by what `parseInt` gives (`none` is NaN); a negative number is as good as 1.
pub challenge_timeout_sec : Option ℕ → ℕ
challenge_timeout_sec none = max 60 300
challenge_timeout_sec (some n) = max 60 (if n == 0 then 300 else n)

pub session_ttl_sec : Option ℕ → ℕ
session_ttl_sec none = max 300 3600
session_ttl_sec (some n) = max 300 (if n == 0 then 3600 else n)

pub to_url : ℕ → ℕ
to_url c = if c == b'+' then b'-' else if c == b'/' then b'_' else c

pub from_url : ℕ → ℕ
from_url c = if c == b'-' then b'+' else if c == b'_' then b'/' else c

-- `replace(/=+$/g, '')`
pub strip_pads : List ℕ → List ℕ
strip_pads [] = []
strip_pads (c ∷ cs) =
    let rest = strip_pads cs in if c == b'=' && is_empty rest then [] else c ∷ rest

pub pads : ℕ → List ℕ
pads zero = []
pads (suc n) = b'=' ∷ pads n

-- `split('.')`
pub split_dots : List ℕ → List (List ℕ)
split_dots [] = [] ∷ []
split_dots (c ∷ cs) =
    let rest = split_dots cs in
    if c == b'.'
    then [] ∷ rest
    else elim rest [ [] ↦ (c ∷ []) ∷ [] | part ∷ parts ↦ (c ∷ part) ∷ parts ]

pub bytes_eq : List ℕ → List ℕ → Bool
bytes_eq [] [] = true
bytes_eq (x ∷ xs) (y ∷ ys) = x == y && bytes_eq xs ys
bytes_eq _ _ = false

-- Of a map of consumed challenges, the entries that have not expired.
pub prune_consumed_challenges : ℕ → List (String × ℕ) → List (String × ℕ)
prune_consumed_challenges now [] = []
prune_consumed_challenges now ((hash, expires_at) ∷ m) =
    let rest = prune_consumed_challenges now m in
    if leb expires_at now then rest else (hash, expires_at) ∷ rest

pub includes : List String → String → Bool
includes [] s = false
includes (t ∷ ts) s = str_eq t s || includes ts s

pub data AuthResult : Type 0 where
  valid : String → AuthResult
  refused : ℕ → String → AuthResult

pub differs : Option String → String → Bool
differs none sub = false
differs (some key) sub = if str_eq key "" then false else not (str_eq sub key)

-- The white space of `\s`.
pub is_space : ℕ → Bool
is_space c =
    (leb 9 c && leb c 13)
    || c == 32
    || c == 160
    || c == 5760
    || (leb 8192 c && leb c 8202)
    || c == 8232
    || c == 8233
    || c == 8239
    || c == 8287
    || c == 12288
    || c == 65279

-- `/^Bearer\s+(\S+)$/i`: the word, in any case, then white space, then the token.
abbrev pub bearer : List ℕ
bearer = b'b' ∷ b'e' ∷ b'a' ∷ b'r' ∷ b'e' ∷ b'r' ∷ []

pub after_word : List ℕ → List ℕ → Option (List ℕ)
after_word [] cs = some cs
after_word (w ∷ ws) [] = none
after_word (w ∷ ws) (c ∷ cs) = if c == w || c + 32 == w then after_word ws cs else none

pub skip_space : List ℕ → List ℕ
unfolding is_space
skip_space [] = []
skip_space (c ∷ cs) = if is_space c then skip_space cs else c ∷ cs

pub has_space : List ℕ → Bool
unfolding is_space
has_space [] = false
has_space (c ∷ cs) = is_space c || has_space cs

pub extract_bearer_token : Option (List ℕ) → Option (List ℕ)
unfolding after_word skip_space has_space
extract_bearer_token none = none
extract_bearer_token (some header) = elim (after_word bearer header) [
  | none ↦ none
  | some [] ↦ none
  | some (c ∷ cs) ↦
      let token = skip_space cs in
      if is_space c && not (is_empty token) && not (has_space token) then some token else none
]

pub extract_wallet_session_token : Option (List ℕ) → Option (List ℕ) → Option (List ℕ)
unfolding extract_bearer_token
extract_wallet_session_token authorization cookie = elim (extract_bearer_token authorization) [
  | none ↦ cookie
  | some token ↦ some token
]

module _ (crypto : Crypto) where
  pub base64_url_encode : List ℕ → List ℕ
  unfolding to_url strip_pads
  base64_url_encode input = strip_pads (map to_url (crypto.base64 input))

  pub base64_url_decode : List ℕ → List ℕ
  unfolding from_url pads
  base64_url_decode input =
      let padded = map from_url input in
      crypto.base64_decode (padded ++ pads ((4 - length padded % 4) % 4))

  pub mark_challenge_consumed : ℕ → ℕ → String → List (String × ℕ) → List (String × ℕ)
  unfolding prune_consumed_challenges
  mark_challenge_consumed now ttl_sec xdr m =
      set_entry (crypto.fingerprint xdr) (now + ttl_sec * 1000) (prune_consumed_challenges now m)

  pub is_challenge_consumed : ℕ → String → List (String × ℕ) → Bool × List (String × ℕ)
  unfolding prune_consumed_challenges
  is_challenge_consumed now xdr m =
      let pruned = prune_consumed_challenges now m in
      (
        elim (entry (crypto.fingerprint xdr) pruned) [
          | none ↦ false
          | some expires_at ↦ ltb now expires_at
        ],
        pruned,
      )

  module _ (config : Config) where
    -- `now` is the time of the look, `later` that of the SDK's check and of the mark.
    pub verify_signed_challenge :
        ℕ → ℕ → String → String → List (String × ℕ) → Result String String × List (String × ℕ)
    unfolding is_challenge_consumed mark_challenge_consumed includes
    verify_signed_challenge now later xdr key m =
        let (consumed, m') = is_challenge_consumed now xdr m in
        if crypto.is_valid_public_key key
        then if consumed
          then (err "Challenge has already been used", m')
          else elim (crypto.verify_signers later xdr key) [
            | err message ↦ (err message, m')
            | ok signers ↦
                if includes signers key
                then (ok key, mark_challenge_consumed later config.challenge_timeout_sec xdr m')
                else (err "Signed challenge does not match the requested publicKey", m')
          ]
        else (err "Invalid Stellar public key", m)

    pub sign_session_token : Payload → List ℕ
    unfolding base64_url_encode
    sign_session_token payload =
        let body = base64_url_encode (crypto.json_stringify payload) in
        body ++ b'.' ∷ base64_url_encode (crypto.hmac config.session_secret body)

    pub checked_payload : RawPayload → Option Payload
    checked_payload raw = elim raw.sub [
      | none ↦ none
      | some sub ↦ elim raw.exp [
        | none ↦ none
        | some exp ↦ elim raw.iat [
          | none ↦ none
          | some iat ↦ elim raw.jti [
            | none ↦ none
            | some jti ↦ some (record { sub = sub; exp = exp; iat = iat; jti = jti })
          ]
        ]
      ]
    ]

    pub parse_session_token : List ℕ → Option Payload
    unfolding split_dots base64_url_decode bytes_eq checked_payload
    parse_session_token token = elim (split_dots token) [
      | body ∷ sig ∷ [] ↦
          if bytes_eq (crypto.hmac config.session_secret body) (base64_url_decode sig)
          then elim (crypto.json_parse (base64_url_decode body)) [
            | none ↦ none
            | some raw ↦ checked_payload raw
          ]
          else none
      | _ ↦ none
    ]

    -- The token of `issueWalletSession`, for the random bytes `jti`.
    pub issue_wallet_session : ℕ → String → String → List ℕ
    unfolding sign_session_token
    issue_wallet_session now jti key = sign_session_token (record {
      sub = key;
      iat = now / 1000;
      exp = now / 1000 + config.session_ttl_sec;
      jti = jti;
    })

    -- An expected address that is empty is none.
    pub validate_wallet_session_token : ℕ → Option (List ℕ) → Option String → AuthResult
    unfolding parse_session_token
    validate_wallet_session_token now token expected =
        let invalid = refused 401 "Invalid or malformed wallet session token" in
        let missing =
          refused 401
            "Wallet authentication required. Sign the SEP-10 challenge via POST /api/auth/verify and include the session token in Authorization: Bearer <token> or the wallet_session cookie." in
        elim token [
          | none ↦ missing
          | some [] ↦ missing
          | some (c ∷ cs) ↦ elim (parse_session_token (c ∷ cs)) [
            | none ↦ invalid
            | some payload ↦
                if leb payload.exp (now / 1000)
                then refused 401
                    "Wallet session token has expired. Re-authenticate via /api/auth/challenge."
                else if differs expected payload.sub
                then refused 403 "Session token publicKey does not match the requested publicKey"
                else valid payload.sub
          ]
        ]

    -- The header `authorization`, the cookie and the query's address.
    pub require_wallet_auth : ℕ → Option (List ℕ) → Option (List ℕ) → Option String → AuthResult
    unfolding validate_wallet_session_token
    require_wallet_auth now authorization cookie public_key =
        let denied = refused 400 "A valid publicKey query parameter is required" in
        elim public_key [
          | none ↦ denied
          | some key ↦
              if str_eq key "" || not (crypto.is_valid_public_key key)
              then denied
              else validate_wallet_session_token now
                  (extract_wallet_session_token authorization cookie) (some key)
        ]
