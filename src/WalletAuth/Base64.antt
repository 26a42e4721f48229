-- ===== src/WalletAuth/Base64.antt =====
-- lib/wallet-auth.ts: base64 in the form for URLs is read back.
use stellar_batch_pay.Base.{
  ℕ, zero, suc, ◌+◌, ◌-◌, ◌%◌, ◌<◌, ◌≡◌, refl, ap, sym, ◌∙◌, Bool, true, false, ◌&&◌, ◌||◌, List,
  [], ◌∷◌, ◌++◌, map, leb, ◌==◌, length, arith, All,
}
use stellar_batch_pay.WalletAuth.{
  Crypto, to_url, from_url, strip_pads, pads, split_dots, base64_url_encode, base64_url_decode,
}

-- The alphabet of base64, without the pads.
unfoldable pub is_base64 : ℕ → Bool
is_base64 c =
    (leb b'A' c && leb c b'Z')
    || (leb b'a' c && leb c b'z')
    || (leb b'0' c && leb c b'9')
    || c == b'+'
    || c == b'/'

abbrev pub IsBase64 : ℕ → Type 0
IsBase64 c = is_base64 c ≡ true

-- What Node documents of base64: it is read back, and it is characters of the alphabet and then pads, to
-- a multiple of four.
pub record IsEncoding (crypto : Crypto) : Type 0 where
  pub decoded : (b : List ℕ) → crypto.base64_decode (crypto.base64 b) ≡ b
  pub shape :
      (b : List ℕ)
      → (body : List ℕ) × (k : ℕ) × (crypto.base64 b ≡ body ++ pads k)
        × All IsBase64 body
        × (k < 4)
        × ((length body + k) % 4 ≡ 0)

-- A part of a token: no dot and no pad.
abbrev pub IsPart : ℕ → Type 0
IsPart c = ((c == b'.') ≡ false) × ((c == b'=') ≡ false)

to_url-pads : (body : List ℕ) (k : ℕ) → map to_url (body ++ pads k) ≡ map to_url body ++ pads k
unfolding to_url pads
to_url-pads [] zero = refl
to_url-pads [] (suc k) = ap (◌∷◌ b'=') (to_url-pads [] k)
to_url-pads (c ∷ cs) k = ap (◌∷◌ (to_url c)) (to_url-pads cs k)

to_url-IsPart : (body : List ℕ) → All IsBase64 body → All IsPart (map to_url body)
unfolding to_url is_base64
to_url-IsPart [] h = tt
to_url-IsPart (c ∷ cs) (d, h) = ((ground arith, ground arith), to_url-IsPart cs h)

from_url-to_url : (body : List ℕ) → All IsBase64 body → map from_url (map to_url body) ≡ body
unfolding to_url from_url is_base64
from_url-to_url [] h = refl
from_url-to_url (c ∷ cs) (d, h) = ground (arith, from_url-to_url cs h)

strip_pads-pads : (k : ℕ) → strip_pads (pads k) ≡ []
unfolding strip_pads pads
strip_pads-pads zero = refl
strip_pads-pads (suc k) = ground (arith, strip_pads-pads k)

strip_pads-append : (xs : List ℕ) (k : ℕ) → All IsPart xs → strip_pads (xs ++ pads k) ≡ xs
unfolding strip_pads
strip_pads-append [] k h = strip_pads-pads k
strip_pads-append (c ∷ cs) k (d, h) = ground (arith, strip_pads-append cs k h)

length-map : (f : ℕ → ℕ) (xs : List ℕ) → length (map f xs) ≡ length xs
length-map f [] = refl
length-map f (x ∷ xs) = ap suc (length-map f xs)

module _ (crypto : Crypto) (encoding : IsEncoding crypto) where
  encoded : (b : List ℕ) → base64_url_encode crypto b ≡ map to_url (encoding.shape b).0
  unfolding base64_url_encode
  encoded b =
      let (body, k, e, h, few, even) = encoding.shape b in
      ap (λ x. strip_pads (map to_url x)) e
      ∙ ap strip_pads (to_url-pads body k)
      ∙ strip_pads-append (map to_url body) k (to_url-IsPart body h)

  pub base64_url_encode-IsPart : (b : List ℕ) → All IsPart (base64_url_encode crypto b)
  base64_url_encode-IsPart b =
      rw (encoded b) (to_url-IsPart (encoding.shape b).0 (encoding.shape b).3)

  -- What is encoded is read back.
  pub base64_url_decode-encode :
      (b : List ℕ) → base64_url_decode crypto (base64_url_encode crypto b) ≡ b
  unfolding base64_url_decode
  base64_url_decode-encode b =
      let (body, k, e, h, few, even) = encoding.shape b in
      let back : map from_url (base64_url_encode crypto b) ≡ body =
        ap (map from_url) (encoded b) ∙ from_url-to_url body h in
      let padding : (4 - length body % 4) % 4 ≡ k = omega arith in
      ap (λ x. crypto.base64_decode (x ++ pads ((4 - length x % 4) % 4))) back
      ∙ ap (λ n. crypto.base64_decode (body ++ pads n)) padding
      ∙ ap crypto.base64_decode (sym e)
      ∙ encoding.decoded b

split_one : (part : List ℕ) → All IsPart part → split_dots part ≡ part ∷ []
unfolding split_dots
split_one [] h = refl
split_one (c ∷ cs) (d, h) = ground (arith, split_one cs h)

pub split_two :
    (a b : List ℕ) → All IsPart a → All IsPart b → split_dots (a ++ b'.' ∷ b) ≡ a ∷ b ∷ []
unfolding split_dots
split_two [] b h k = ground (arith, split_one b k)
split_two (c ∷ cs) b (d, h) k = ground (arith, split_two cs b h k)
