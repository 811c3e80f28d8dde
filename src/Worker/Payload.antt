-- ===== src/Worker/Payload.antt =====
-- Reading the payload of a message (parsePayload, payloadText and requireDomainEvent of
-- apps/worker/src/server.ts). The length of a text, in UTF-16 code units, is a parameter.
use topology_supply_chain.Common.{
  ℕ, String, Bool, true, false, ◌&&◌, ◌||◌, Option, none, some, [], ◌∷◌, length, ltb, leb, ◌==◌,
  if◌then◌else◌,
}
use topology_supply_chain.Common.Int.{pos, pos_part, ltb_ℤ, eq_ℤ, is_safe_integer}
use topology_supply_chain.Platform.Header.{Text, all, is_digit, is_alphanumeric}
use topology_supply_chain.Platform.Canonical.{keyword}
use topology_supply_chain.Ops.Values.{
  JsNumber, int, other_number, JsValue, number, text, to_number, is_text,
}
use topology_supply_chain.Worker.Job.{permanent, invalid_payload, Result, done, raise}
use topology_supply_chain.Worker.Rows.{
  PayloadText, malformed, redacted, object, Payload, no_fields, RecipientFields,
}

abbrev pub invalid : {A : Type 0} → Result A
invalid = raise (permanent invalid_payload)

-- parsePayload
unfoldable pub parse_payload : PayloadText → Result Payload
parse_payload malformed = invalid
parse_payload redacted = done no_fields
parse_payload (object p) = done p

-- payloadText, of the value of one field
unfoldable pub payload_text : (length_of : String → ℕ) → JsValue → Result String
payload_text length_of (text s t n) =
    if length_of s == 0 || ltb 10000 (length_of s) then invalid else done s
payload_text length_of _ = invalid

-- A safe integer above 0, the one condition on ids that the worker writes.
unfoldable pub positive : JsNumber → Option ℕ
positive other_number = none
positive (int z) = if is_safe_integer z && ltb_ℤ (pos 0) z then some (pos_part z) else none

abbrev or_invalid : Option ℕ → Result ℕ
or_invalid none = invalid
or_invalid (some n) = done n

-- `const id = Number(value)` and its check
unfoldable pub positive_id : JsValue → Result ℕ
unfolding positive to_number
positive_id v = or_invalid (positive (to_number v))

is_lower : ℕ → Bool
is_lower c = leb b'a' c && leb c b'z'

is_upper : ℕ → Bool
is_upper c = leb b'A' c && leb c b'Z'

is_snake : ℕ → Bool
unfolding is_lower is_digit
is_snake c = is_lower c || (is_digit c || c == b'_')

-- /^[a-z][a-z0-9_]{1,63}$/
unfoldable pub is_entity_type : Text → Bool
unfolding is_snake is_lower
is_entity_type [] = false
is_entity_type (c ∷ cs) =
    is_lower c && (all is_snake cs && (leb 1 (length cs) && leb (length cs) 63))

-- /^[A-Z][A-Za-z0-9]{2,127}$/
unfoldable pub is_event_type : Text → Bool
unfolding is_alphanumeric is_upper
is_event_type [] = false
is_event_type (c ∷ cs) =
    is_upper c && (all is_alphanumeric cs && (leb 2 (length cs) && leb (length cs) 127))

-- /^[1-9]\d*$/
unfoldable pub is_decimal_id : Text → Bool
unfolding is_digit
is_decimal_id [] = false
is_decimal_id (c ∷ cs) = (leb b'1' c && leb c b'9') && all is_digit cs

-- DomainEventRecipient. The id of an entity is the text in the payload.
pub data Recipient : Type 0 where
  nobody supply_chain : Recipient
  user : ℕ → Recipient
  entity_binding : (entity_type : String) → (entity_id : JsValue) → Recipient

-- `typeof value === "string"`, with a decimal id in it
unfoldable pub is_id_text : JsValue → Bool
unfolding is_decimal_id
is_id_text (text s t n) = is_decimal_id (keyword s)
is_id_text _ = false

unfoldable pub raw_text : JsValue → Option String
raw_text (text s t n) = some s
raw_text _ = none

unfoldable pub user_id_of : JsValue → Option ℕ
unfolding positive
user_id_of (number n) = positive n
user_id_of _ = none

-- The test for "entity_binding", and its recipient.
unfoldable pub bound_entity : RecipientFields → Option Recipient
unfolding is_id_text raw_text
bound_entity r =
    if is_text "entity_binding" r.kind && (is_text "factory" r.role && is_id_text r.entity_id)
    then elim (raw_text r.entity_type) [
      | none ↦ none
      | some t ↦ some (entity_binding t r.entity_id)
    ]
    else none

abbrev or_else : Option Recipient → Option Recipient → Option Recipient
or_else none o = o
or_else (some r) o = some r

unfoldable pub user_recipient : RecipientFields → Option Recipient
unfolding user_id_of
user_recipient r =
    if is_text "user" r.kind
    then elim (user_id_of r.user_id) [ none ↦ none | some id ↦ some (user id) ]
    else none

-- The recipient, in the order of the source's tests.
unfoldable pub normalized : RecipientFields → Option Recipient
unfolding bound_entity user_recipient
normalized r =
    if is_text "none" r.kind
    then some nobody
    else if is_text "role" r.kind && is_text "supply_chain" r.role
    then some supply_chain
    else or_else (user_recipient r) (bound_entity r)

-- DomainEventPayload
pub record DomainEvent : Type 0 where
  pub data_text : String
  pub entity_id : ℕ
  pub entity_type : String
  pub event_type : String
  pub recipient : Recipient

infixl 5 ◌>>=◌
abbrev pub ◌>>=◌ : {A B : Type 0} → Result A → (A → Result B) → Result B
done a >>= f = f a
raise e >>= f = raise e

infixl 5 ◌>>◌
abbrev ◌>>◌ : {A B : Type 0} → Result A → Result B → Result B
m >> k = m >>= λ _. k

abbrev pub require : Bool → Result (Unit {0})
require true = done tt
require false = invalid

abbrev recipient_of : Option RecipientFields → Option Recipient
recipient_of none = none
recipient_of (some r) = normalized r

abbrev or_invalid_recipient : Option Recipient → Result Recipient
or_invalid_recipient none = invalid
or_invalid_recipient (some r) = done r

is_one : JsValue → Bool
is_one (number (int z)) = eq_ℤ z (pos 1)
is_one _ = false

-- requireDomainEvent
unfoldable pub require_domain_event : (length_of : String → ℕ) → Payload → Result DomainEvent
unfolding is_one payload_text positive_id is_entity_type is_event_type normalized
require_domain_event length_of p = do
  require (is_one p.schema_version)
  entity_type ← payload_text length_of p.entity_type
  entity_id_text ← payload_text length_of p.entity_id
  event_type ← payload_text length_of p.event_type
  entity_id ← positive_id p.entity_id
  require (is_entity_type (keyword entity_type) && is_event_type (keyword event_type))
  recipient ← or_invalid_recipient (recipient_of p.recipient)
  done (record {
    data_text = p.data_text;
    entity_id = entity_id;
    entity_type = entity_type;
    event_type = event_type;
    recipient = recipient;
  })
