-- ===== src/Auth/Keys.antt =====
-- internal/auth/keygen.go and hash.go. The base64 text of the random bytes is an argument, `none`
-- where the system's source of randomness fails, and so is the hexadecimal SHA-256 of a text.
pub mod Laws
use nexus_ai_gateway.Prelude.{
  String, ◌^◌, len, Bool, false, ◌||◌, Option, none, some, ◌==◌, leb, if◌then◌else◌, has_prefix,
  first_chars,
}
use nexus_ai_gateway.Domain.Errors.{plain, Result, ok, err}

abbrev pub key_prefix : String
key_prefix = "ngk_"

unfoldable pub environment_prefix : String → String
environment_prefix env =
    if env == "test" || env == "development"
    then "ngk_test_"
    else if env == "live" || env == "production"
    then "ngk_live_"
    else key_prefix

-- Keys are ASCII, so their first 12 bytes are their first 12 characters.
unfoldable pub extract_prefix : String → String
extract_prefix key = if leb (len key) 12 then key else first_chars 12 key ^ "..."

-- The plaintext key and its display prefix.
unfoldable pub generate_key : String → Option String → Result (String × String)
unfolding environment_prefix extract_prefix
generate_key env none = err (plain "failed to generate random bytes")
generate_key env (some encoded) =
    let full_key = environment_prefix env ^ encoded in ok (full_key, extract_prefix full_key)

unfoldable pub is_valid_key_format : String → Bool
is_valid_key_format key = has_prefix key key_prefix

module _ (sha256_hex : String → String) where
  unfoldable pub hash_key : String → Result String
  hash_key plaintext =
      if plaintext == ""
      then err (plain "plaintext key cannot be empty")
      else ok (sha256_hex plaintext)

  same_hash : String → Result String → Bool
  same_hash stored (ok computed) = computed == stored
  same_hash stored (err e) = false

  -- The comparison in constant time is true for equal texts alone.
  unfoldable pub compare_key : String → String → Bool
  unfolding same_hash
  compare_key plaintext stored = same_hash stored (hash_key plaintext)
