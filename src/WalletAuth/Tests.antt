-- ===== src/WalletAuth/Tests.antt =====
-- Runs of the authentication with an encoding in unary numbers, and the theorems at these inputs.
use stellar_batch_pay.Base.{
  ℕ, zero, suc, ◌+◌, ◌-◌, ◌/◌, ◌%◌, ◌≡◌, refl, ap, ◌∙◌, String, true, Option, none, some, List, [],
  ◌∷◌, ◌++◌, ◌==◌, leb, if◌then◌else◌, length, str_eq, ok, err, arith, All, All-append,
  append_assoc, entry, ◌<◌, not,
}
use stellar_batch_pay.WalletAuth.{
  Crypto, Config, Payload, valid, refused, differs, pads, bytes_eq, split_dots,
  verify_signed_challenge, is_challenge_consumed, prune_consumed_challenges, includes,
  issue_wallet_session, sign_session_token, parse_session_token, base64_url_encode,
  base64_url_decode, to_url, from_url, strip_pads, checked_payload, validate_wallet_session_token,
  require_wallet_auth, extract_wallet_session_token, extract_bearer_token,
}
use stellar_batch_pay.WalletAuth.Base64.{is_base64, IsBase64, IsEncoding}
use stellar_batch_pay.WalletAuth.Challenges.{
  Verification, verifications, challenge_once, challenge_forgotten,
}
use stellar_batch_pay.WalletAuth.Sessions.{IsSigned, issued_session, require_wallet_auth-IsSigned}

copies : ℕ → List ℕ
copies zero = []
copies (suc n) = b'A' ∷ copies n

unary : List ℕ → List ℕ
unfolding copies
unary [] = []
unary (n ∷ ns) = copies n ++ b'B' ∷ unary ns

padded : List ℕ → List ℕ
unfolding unary
padded b = unary b ++ pads ((4 - length (unary b) % 4) % 4)

read_unary : ℕ → List ℕ → List ℕ
read_unary n [] = []
read_unary n (c ∷ cs) =
    if c == b'A' then read_unary (suc n) cs else if c == b'B' then n ∷ read_unary 0 cs else []

read_copies :
    (k n : ℕ) (rest : List ℕ) → read_unary k (copies n ++ b'B' ∷ rest) ≡ (k + n) ∷ read_unary 0 rest
unfolding read_unary copies
read_copies k zero rest = ground arith
read_copies k (suc n) rest =
    read_copies (suc k) n rest ∙ ap (λ m. m ∷ read_unary 0 rest) (omega arith)

read_pads : (k : ℕ) → read_unary 0 (pads k) ≡ []
unfolding read_unary pads
read_pads zero = refl
read_pads (suc k) = refl

read_padded : (b : List ℕ) (k : ℕ) → read_unary 0 (unary b ++ pads k) ≡ b
unfolding unary
read_padded [] k = read_pads k
read_padded (n ∷ ns) k =
    ap (read_unary 0) (append_assoc (copies n) (b'B' ∷ unary ns) (pads k))
    ∙ read_copies 0 n (unary ns ++ pads k)
    ∙ ground (arith, read_padded ns k)

copies-IsBase64 : (n : ℕ) → All IsBase64 (copies n)
unfolding copies is_base64
copies-IsBase64 zero = tt
copies-IsBase64 (suc n) = (refl, copies-IsBase64 n)

unary-IsBase64 : (b : List ℕ) → All IsBase64 (unary b)
unfolding unary is_base64
unary-IsBase64 [] = tt
unary-IsBase64 (n ∷ ns) =
    All-append IsBase64 (copies n) (b'B' ∷ unary ns) (copies-IsBase64 n) (refl, unary-IsBase64 ns)

abbrev ga_payload : Payload
ga_payload = record { sub = "GA"; exp = 3601; iat = 1; jti = "r" }

abbrev crypto : Crypto
crypto = record {
  is_valid_public_key = λ key. not (str_eq key "");
  fingerprint = λ xdr. xdr;
  verify_signers = λ now xdr key. ok (key ∷ []);
  hmac = λ secret body. 7 ∷ [];
  base64 = padded;
  base64_decode = read_unary 0;
  json_stringify = λ p. 1 ∷ 2 ∷ [];
  json_parse =
      λ cs. some (record { sub = some "GA"; exp = some 3601; iat = some 1; jti = some "r" });
}

abbrev config : Config
config = record { session_secret = "s"; challenge_timeout_sec = 300; session_ttl_sec = 3600 }

crypto-IsEncoding : IsEncoding crypto
unfolding padded
crypto-IsEncoding = record {
  decoded = λ b. read_padded b ((4 - length (unary b) % 4) % 4);
  shape = λ b.
      (unary b, (4 - length (unary b) % 4) % 4, refl, unary-IsBase64 b, omega arith, omega arith);
}

issued_session_example :
    validate_wallet_session_token crypto config 3600999
      (some (issue_wallet_session crypto config 1500 "r" "GA"))
      (some "GB")
    ≡ (if leb 3601 3600
        then refused 401
            "Wallet session token has expired. Re-authenticate via /api/auth/challenge."
        else if differs (some "GB") "GA"
        then refused 403 "Session token publicKey does not match the requested publicKey"
        else valid "GA")
issued_session_example =
    issued_session crypto config crypto-IsEncoding 1500 3600999 "r" "GA" (some "GB") refl

abbrev ga_token : List ℕ
ga_token = issue_wallet_session crypto config 1500 "r" "GA"

let_in : require_wallet_auth crypto config 2000000 none (some ga_token) (some "GA") ≡ valid "GA"
unfolding require_wallet_auth validate_wallet_session_token extract_wallet_session_token
    extract_bearer_token differs parse_session_token issue_wallet_session sign_session_token
    base64_url_encode base64_url_decode to_url from_url strip_pads pads split_dots bytes_eq
    checked_payload padded unary copies read_unary
let_in = refl

require_wallet_auth-IsSigned_example :
    (◌≡◌ {A = Option String} (some "GA") (some "GA"))
    × (crypto.is_valid_public_key "GA" ≡ true)
    × ((token : List ℕ) × (p : Payload) × (extract_wallet_session_token none (some ga_token)
          ≡ some token)
        × IsSigned crypto config token p
        × (p.sub ≡ "GA")
        × (2000000 / 1000 < p.exp))
require_wallet_auth-IsSigned_example =
    require_wallet_auth-IsSigned crypto config 2000000 none (some ga_token) (some "GA") "GA" let_in

accepted : (verify_signed_challenge crypto config 1000 1001 "x" "GA" []).0 ≡ ok "GA"
unfolding verify_signed_challenge is_challenge_consumed prune_consumed_challenges includes entry
accepted = refl

abbrev other_call : Verification
other_call = record { now = 2000; later = 2001; xdr = "y"; key = "GA" }

challenge_once_example :
    (verify_signed_challenge crypto config 300000 300001 "x" "GB" (
      verifications crypto config
        (other_call ∷ [])
        (verify_signed_challenge crypto config 1000 1001 "x" "GA" []).1)).0
    ≡ (if crypto.is_valid_public_key "GB"
        then err "Challenge has already been used"
        else err "Invalid Stellar public key")
challenge_once_example =
    challenge_once crypto config 1000 1001 "x" "GA" [] accepted (other_call ∷ [])
      ((omega arith, omega arith), tt) 300000 300001 "GB" (omega arith)

challenge_forgotten_example :
    (verify_signed_challenge crypto config 400000 400001 "x" "GA"
      (verify_signed_challenge crypto config 1000 1001 "x" "GA" []).1).0
    ≡ (verify_signed_challenge crypto config 400000 400001 "x" "GA" []).0
challenge_forgotten_example =
    challenge_forgotten crypto config 1000 1001 "x" "GA" [] accepted 400000 400001 "GA"
      (omega arith)
