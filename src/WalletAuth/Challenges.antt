-- ===== src/WalletAuth/Challenges.antt =====
-- lib/wallet-auth.ts: a challenge that was used, within its timeout and after it.
use stellar_batch_pay.Base.{
  ℕ, ◌+◌, ◌*◌, ◌<◌, ◌≤◌, ◌≡◌, refl, String, none, some, List, [], ◌∷◌, if◌then◌else◌, str_eq_iff,
  str_eq_refl, ok, err, arith, entry, set_entry, delete_entry, entry-set_entry, entry-delete_entry,
  All,
}
use stellar_batch_pay.WalletAuth.{
  Crypto, Config, prune_consumed_challenges, mark_challenge_consumed, is_challenge_consumed,
  verify_signed_challenge,
}

prune_kept :
    (now e : ℕ) (hash : String) (m : List (String × ℕ))
    → now < e
    → entry hash m ≡ some e
    → entry hash (prune_consumed_challenges now m) ≡ some e
unfolding prune_consumed_challenges entry
prune_kept now e hash [] live h = h
prune_kept now e hash ((k, x) ∷ m) live h = ground (arith, prune_kept now e hash m live)

prune_absent :
    (now : ℕ) (hash : String) (m : List (String × ℕ))
    → entry hash m ≡ none
    → entry hash (prune_consumed_challenges now m) ≡ none
unfolding prune_consumed_challenges entry
prune_absent now hash [] h = refl
prune_absent now hash ((k, x) ∷ m) h = ground (arith, prune_absent now hash m)

-- A call of `verifySignedChallenge`.
pub record Verification : Type 0 where
  pub now : ℕ
  pub later : ℕ
  pub xdr : String
  pub key : String

module _ (crypto : Crypto) (config : Config) where
  pub verifications : List Verification → List (String × ℕ) → List (String × ℕ)
  unfolding verify_signed_challenge
  verifications [] m = m
  verifications (v ∷ vs) m =
      verifications vs (verify_signed_challenge crypto config v.now v.later v.xdr v.key m).1

  accepted_entry :
      (now later : ℕ) (xdr key : String) (m : List (String × ℕ))
      → (verify_signed_challenge crypto config now later xdr key m).0 ≡ ok key
      → entry (crypto.fingerprint xdr) (verify_signed_challenge crypto config now later xdr key m).1
        ≡ some (later + config.challenge_timeout_sec * 1000)
  unfolding verify_signed_challenge is_challenge_consumed mark_challenge_consumed
  accepted_entry now later xdr key m h =
      let pruned = prune_consumed_challenges later (prune_consumed_challenges now m) in
      ground (
        arith,
        entry-set_entry (crypto.fingerprint xdr) (crypto.fingerprint xdr)
            (later + config.challenge_timeout_sec * 1000) pruned,
        str_eq_refl (crypto.fingerprint xdr),
      )

  -- A live entry makes every call for it fail, and stays through the calls before its expiry.
  used_refused :
      (e now later : ℕ) (xdr key : String) (m : List (String × ℕ))
      → now < e
      → entry (crypto.fingerprint xdr) m ≡ some e
      → (verify_signed_challenge crypto config now later xdr key m).0 ≡ (
          if crypto.is_valid_public_key key
          then err "Challenge has already been used"
          else err "Invalid Stellar public key")
  unfolding verify_signed_challenge is_challenge_consumed
  used_refused e now later xdr key m live h =
      ground (arith, prune_kept now e (crypto.fingerprint xdr) m live h)

  entry_stays :
      (e : ℕ) (hash : String) (v : Verification) (m : List (String × ℕ))
      → v.now < e
      → v.later < e
      → entry hash m ≡ some e
      → entry hash (verify_signed_challenge crypto config v.now v.later v.xdr v.key m).1 ≡ some e
  unfolding verify_signed_challenge is_challenge_consumed mark_challenge_consumed
  entry_stays e hash v m live live' h =
      let once = prune_kept v.now e hash m live h in
      let twice = prune_kept v.later e hash (prune_consumed_challenges v.now m) live' once in
      ground (
        arith,
        once,
        twice,
        str_eq_iff (crypto.fingerprint v.xdr) hash,
        entry-set_entry (crypto.fingerprint v.xdr) hash
            (v.later + config.challenge_timeout_sec * 1000)
            (prune_consumed_challenges v.later (prune_consumed_challenges v.now m)),
      )

  verifications-entry :
      (e : ℕ) (hash : String) (vs : List Verification) (m : List (String × ℕ))
      → All (λ (v : Verification). (v.now < e) × (v.later < e)) vs
      → entry hash m ≡ some e
      → entry hash (verifications vs m) ≡ some e
  unfolding verifications
  verifications-entry e hash [] m live h = h
  verifications-entry e hash (v ∷ vs) m ((live, live'), rest) h =
      verifications-entry e hash vs
        (verify_signed_challenge crypto config v.now v.later v.xdr v.key m).1 rest
        (entry_stays e hash v m live live' h)

  -- A challenge that was accepted is refused before the timeout that starts with its acceptance is over,
  -- for every address and whatever other challenges are verified in between.
  pub challenge_once :
      (now later : ℕ) (xdr key : String) (m : List (String × ℕ))
      → (verify_signed_challenge crypto config now later xdr key m).0 ≡ ok key
      → (vs : List Verification)
      → let until = later + config.challenge_timeout_sec * 1000 in
        All (λ (v : Verification). (v.now < until) × (v.later < until)) vs
        → (now' later' : ℕ) (key' : String) → now' < until
        → (verify_signed_challenge crypto config now' later' xdr key'
            (verifications vs (verify_signed_challenge crypto config now later xdr key m).1)).0
          ≡ (if crypto.is_valid_public_key key'
              then err "Challenge has already been used"
              else err "Invalid Stellar public key")
  challenge_once now later xdr key m h vs live now' later' key' soon =
      let until = later + config.challenge_timeout_sec * 1000 in
      let m' = (verify_signed_challenge crypto config now later xdr key m).1 in
      used_refused until now' later' xdr key' (verifications vs m') soon (
        verifications-entry until (crypto.fingerprint xdr) vs m' live
          (accepted_entry now later xdr key m h))

  mark_forgotten :
      (later now' : ℕ) (xdr : String) (m : List (String × ℕ))
      → later + config.challenge_timeout_sec * 1000 ≤ now'
      → entry (crypto.fingerprint xdr) (
          prune_consumed_challenges now'
            (mark_challenge_consumed crypto later config.challenge_timeout_sec xdr m))
        ≡ none
  unfolding mark_challenge_consumed prune_consumed_challenges set_entry
  mark_forgotten later now' xdr m over =
      let hash = crypto.fingerprint xdr in
      let rest = delete_entry hash (prune_consumed_challenges later m) in
      ground (
        arith,
        prune_absent now' hash rest,
        entry-delete_entry hash hash (prune_consumed_challenges later m),
        str_eq_refl hash,
      )

  accepted_map :
      (now later : ℕ) (xdr key : String) (m : List (String × ℕ))
      → (verify_signed_challenge crypto config now later xdr key m).0 ≡ ok key
      → (verify_signed_challenge crypto config now later xdr key m).1
        ≡ mark_challenge_consumed crypto later config.challenge_timeout_sec xdr
            (prune_consumed_challenges now m)
  unfolding verify_signed_challenge is_challenge_consumed
  accepted_map now later xdr key m h = ground arith

  unseen :
      (now later : ℕ) (xdr key : String) (m : List (String × ℕ))
      → entry (crypto.fingerprint xdr) (prune_consumed_challenges now m) ≡ none
      → (verify_signed_challenge crypto config now later xdr key m).0
        ≡ (verify_signed_challenge crypto config now later xdr key []).0
  unfolding verify_signed_challenge is_challenge_consumed prune_consumed_challenges entry
  unseen now later xdr key m h = ground arith

  -- From the end of that timeout on, the guard has forgotten the challenge: the answer is the one that
  -- a server gives which never saw it.
  pub challenge_forgotten :
      (now later : ℕ) (xdr key : String) (m : List (String × ℕ))
      → (verify_signed_challenge crypto config now later xdr key m).0 ≡ ok key
      → (now' later' : ℕ) (key' : String) → later + config.challenge_timeout_sec * 1000 ≤ now'
      → (verify_signed_challenge crypto config now' later' xdr key'
          (verify_signed_challenge crypto config now later xdr key m).1).0
        ≡ (verify_signed_challenge crypto config now' later' xdr key' []).0
  challenge_forgotten now later xdr key m h now' later' key' over =
      unseen now' later' xdr key' (verify_signed_challenge crypto config now later xdr key m).1 (
        rw (accepted_map now later xdr key m h)
          (mark_forgotten later now' xdr (prune_consumed_challenges now m) over))
