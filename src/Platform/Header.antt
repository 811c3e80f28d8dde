-- ===== src/Platform/Header.antt =====
-- Reading the command headers (apps/api/src/platform/commands.ts): the idempotency key and the digest
-- that a client may supply. A header is a sequence of character codes.
use topology_supply_chain.Common.{
  ℕ, ◌+◌, Bool, true, false, not, ◌&&◌, ◌||◌, List, [], ◌∷◌, length, map, leb, ◌==◌, if◌then◌else◌,
}
use topology_supply_chain.Platform.Failure.{bad}
use topology_supply_chain.Platform.Tx.{Outcome, ok, fail}

-- A text as the codes of its characters.
abbrev pub Text : Type 0
Text = List ℕ

-- A header of a request: missing, given once, or given several times.
pub data Header : Type 0 where
  absent : Header
  single : Text → Header
  several : List Text → Header

abbrev pub all : (ℕ → Bool) → Text → Bool
all p [] = true
all p (c ∷ cs) = p c && all p cs

unfoldable pub is_digit : ℕ → Bool
is_digit c = leb b'0' c && leb c b'9'

unfoldable pub is_alphanumeric : ℕ → Bool
unfolding is_digit
is_alphanumeric c = (leb b'A' c && leb c b'Z') || ((leb b'a' c && leb c b'z') || is_digit c)

is_key_character : ℕ → Bool
unfolding is_alphanumeric
is_key_character c = is_alphanumeric c || (c == b'.' || (c == b'_' || (c == b':' || c == b'-')))

-- IDEMPOTENCY_KEY_PATTERN: /^[A-Za-z0-9][A-Za-z0-9._:-]{15,127}$/
unfoldable pub is_idempotency_key : Text → Bool
unfolding is_key_character
is_idempotency_key [] = false
is_idempotency_key (c ∷ cs) =
    is_alphanumeric c && (all is_key_character cs && (leb 15 (length cs) && leb (length cs) 127))

is_hex : ℕ → Bool
unfolding is_digit
is_hex c = is_digit c || (leb b'a' c && leb c b'f')

-- SHA256_PATTERN: /^[a-f\d]{64}$/
unfoldable pub is_sha256 : Text → Bool
unfolding is_hex
is_sha256 t = all is_hex t && length t == 64

-- toLowerCase, on the letters that the pattern can accept.
abbrev lower_code : ℕ → ℕ
lower_code c = if leb b'A' c && leb c b'Z' then c + 32 else c

abbrev pub lower : Text → Text
lower = map lower_code

abbrev pub text_eq : Text → Text → Bool
text_eq [] [] = true
text_eq [] (d ∷ ds) = false
text_eq (c ∷ cs) [] = false
text_eq (c ∷ cs) (d ∷ ds) = c == d && text_eq cs ds

-- commandIdempotencyKey
unfoldable pub command_idempotency_key : Header → (missing_is_invalid : Bool) → Outcome Text
unfolding is_idempotency_key
command_idempotency_key (single value) missing_is_invalid =
    if is_idempotency_key value then ok value else fail (bad "Invalid idempotency key")
command_idempotency_key _ missing_is_invalid = fail (
    if missing_is_invalid
    then bad "Invalid idempotency key"
    else bad "Missing idempotency-key header")

-- verifyClientDigest
unfoldable pub verify_client_digest :
    Header → (digest : Text) → (only_when_string : Bool) → Outcome (Unit {0})
unfolding is_sha256
verify_client_digest absent digest only_when_string = ok tt
verify_client_digest (several values) digest only_when_string =
    if only_when_string then ok tt else fail (bad "Request digest mismatch")
verify_client_digest (single supplied) digest only_when_string =
    if not (is_sha256 (lower supplied)) || not (text_eq (lower supplied) digest)
    then fail (bad "Request digest mismatch")
    else ok tt
