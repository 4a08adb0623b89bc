-- ===== src/Identity/Secrets.antt =====
-- internal/domain/identity/tokens.go: secrets, their lookup prefixes and their hashes. A text is its
-- characters, its length and prefix are counted in bytes.
use Prim.Native.String.{len, slice}
use seatd_v.Base.{ℕ, ltb, Bool, String, if◌then◌else◌, is_empty}
use seatd_v.Store.{Bytes, Outcome, ok, err, bytes_equal}
use seatd_v.Identity.Schema.{Texts}
use seatd_v.Identity.Transaction.{Error, invalid_secret}

abbrev pub prefix_of : ℕ → String → Outcome Error String
prefix_of n text = if ltb (len text) n then err invalid_secret else ok (slice text 0 n)

-- LookupPrefix
abbrev pub lookup_prefix : Texts → String → Outcome Error String
lookup_prefix texts secret = prefix_of 16 (texts.trim_space secret)

-- NormalizePairingCode
abbrev pub normalize_pairing_code : Texts → String → String
normalize_pairing_code texts code = texts.to_upper (texts.without_dashes (texts.trim_space code))

-- PairingCodeLookupPrefix
abbrev pub pairing_code_lookup_prefix : Texts → String → Outcome Error String
pairing_code_lookup_prefix texts code = prefix_of 4 (normalize_pairing_code texts code)

-- HashSecret
abbrev pub hash_secret : Texts → String → Outcome Error Bytes
hash_secret texts secret =
    if is_empty (texts.trim_space secret)
    then err invalid_secret
    else ok (texts.sha256 (texts.trim_space secret))

-- SecretMatches
abbrev pub hash_matches : Bytes → Outcome Error Bytes → Outcome Error Bool
hash_matches expected (err e) = err e
hash_matches expected (ok actual) = ok (bytes_equal actual expected)

abbrev pub secret_matches : Texts → String → Bytes → Outcome Error Bool
secret_matches texts secret expected = hash_matches expected (hash_secret texts secret)

-- A secret with its prefix and its hash
pub record Token : Type 0 where
  pub secret : String
  pub prefix : String
  pub hash : Bytes

abbrev pub token_of : String → Outcome Error String → Outcome Error Bytes → Outcome Error Token
token_of secret (err e) hash = err e
token_of secret (ok prefix) (err e) = err e
token_of secret (ok prefix) (ok hash) =
    ok (record { secret = secret; prefix = prefix; hash = hash })
