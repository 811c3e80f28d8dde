-- ===== src/Worker/Providers.antt =====
-- The calls of the providers (apps/worker/src/providers.ts). What a provider answers is an argument, and so is
-- whether AES-GCM accepts a sealed code.
use topology_supply_chain.Common.{
  ℕ, String, Bool, true, false, not, ◌&&◌, Option, none, some, List, any, ltb, leb, ◌==◌,
  if◌then◌else◌,
}
use topology_supply_chain.Ops.Values.{JsValue, is_text}
use topology_supply_chain.Worker.Job.{
  permanent, unexpected, invalid_sealed_otp, otp_sealing_key_unavailable, invalid_scanner_response,
  provider, Result, done, raise,
}
use topology_supply_chain.Worker.Rows.{SealedFields, Payload, ScanStatus, clean, rejected}
use topology_supply_chain.Worker.Payload.{◌>>=◌, raw_text}

-- What `fetch` gives: an error (also a timeout), or a response, with `status` of its body where that is an object
-- which has one.
pub data Response : Type 0 where
  no_response : Response
  response : (status : ℕ) → (body_status : Option JsValue) → Response

-- The check of `response.ok`.
unfoldable pub check_status : ℕ → Result (Unit {0})
check_status status =
    if leb 200 status && ltb status 300
    then done tt
    else if leb 400 status && (ltb status 500 && not (status == 429))
    then raise (permanent (provider status))
    else raise unexpected

-- request: the `status` of the response's body
unfoldable pub request : Response → Result (Option JsValue)
unfolding check_status
request no_response = raise unexpected
request (response status body_status) = check_status status >>= λ _. done body_status

-- deliverEmail
unfoldable pub deliver_email : Response → Result (Unit {0})
unfolding request
deliver_email r = request r >>= λ _. done tt

-- The four parts of a sealed code are texts.
unfoldable pub is_sealed : SealedFields → Bool
unfolding raw_text
is_sealed s = is_string s.key_id && (is_string s.iv && (is_string s.ciphertext && is_string s.tag))
  where
    is_string : JsValue → Bool
    is_string v = elim (raw_text v) [ none ↦ false | some t ↦ true ]

module _ (sealing_keys : List String) (opens : SealedFields → Bool) where
  -- unsealOtp; the code itself goes to the provider only.
  unfoldable pub unseal_otp : Option SealedFields → Result (Unit {0})
  unfolding is_sealed
  unseal_otp none = raise (permanent invalid_sealed_otp)
  unseal_otp (some s) =
      if not (is_sealed s)
      then raise (permanent invalid_sealed_otp)
      else if not (any (λ k. is_text k s.key_id) sealing_keys)
      then raise (permanent otp_sealing_key_unavailable)
      else if opens s
      then done tt
      else raise (permanent invalid_sealed_otp)

  -- deliverSms
  unfoldable pub deliver_sms : Payload → Response → Result (Unit {0})
  unfolding unseal_otp request
  deliver_sms p r = unseal_otp p.sealed_code >>= λ _. (request r >>= λ _. done tt)

unfoldable pub scan_status : Option JsValue → Result ScanStatus
scan_status none = raise (permanent invalid_scanner_response)
scan_status (some v) =
    if is_text "clean" v
    then done clean
    else if is_text "rejected" v
    then done rejected
    else raise (permanent invalid_scanner_response)

-- scanFile
unfoldable pub scan_file : Response → Result ScanStatus
unfolding request scan_status
scan_file r = request r >>= scan_status
