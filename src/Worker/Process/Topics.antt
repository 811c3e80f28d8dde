-- ===== src/Worker/Process/Topics.antt =====
-- The `switch` of processMessage (apps/worker/src/server.ts), case by case.
use topology_supply_chain.Common.{ℕ, str_eq, ◌≡◌, false, Bool-cases, inl, inr}
use topology_supply_chain.Worker.Job.{permanent, unknown_topic}
use topology_supply_chain.Worker.Rows.{Db, Payload}
use topology_supply_chain.Worker.Lease.{Held}
use topology_supply_chain.Worker.Providers.{deliver_email, deliver_sms, scan_file}
use topology_supply_chain.Worker.Process.{
  Services, Circumstances, Phase, delivered, scanned, raised, call, conclude, dispatch_notification,
  dispatch_domain_event, handle,
}

-- What holds of the outcome of each case holds of the outcome. A transaction is run for other topics than `sms.deliver`
-- only.
pub handle_cases :
    (P : Phase × Db → Type 0) (w : ℕ) (c : Circumstances) (services : Services) (row : Held)
    (p : Payload) (s : Db)
    → P (call w c services "outbox.worker" (deliver_email c.response) (λ a. delivered row) row s)
    → P (
        call w c services "outbox.worker"
          (deliver_sms services.sealing_keys services.opens p c.response)
          (λ a. delivered row)
          row
          s)
    → (str_eq row.topic "sms.deliver" ≡ false
        → P (conclude row (dispatch_notification w c services row p s)))
    → (str_eq row.topic "sms.deliver" ≡ false
        → P (conclude row (dispatch_domain_event w c services row p s)))
    → (str_eq row.topic "sms.deliver" ≡ false
        → P (call w c services "files.worker" (scan_file c.response) (scanned row p) row s))
    → P (raised row (permanent unknown_topic), s)
    → P (handle w c services row p s)
unfolding handle
handle_cases P w c services row p s mail code notices event scan unknown =
    elim (Bool-cases (str_eq row.topic "email.deliver")) [
      | inl e ↦ rw e mail
      | inr e ↦ rw e (elim (Bool-cases (str_eq row.topic "sms.deliver")) [
        | inl sms ↦ rw sms code
        | inr other ↦
            let notices' = notices other in
            let event' = event other in
            let scan' = scan other in
            rw other (elim (Bool-cases (str_eq row.topic "notification.dispatch")) [
              | inl n ↦ rw n notices'
              | inr n ↦ rw n (elim (Bool-cases (str_eq row.topic "domain.event")) [
                | inl d ↦ rw d event'
                | inr d ↦ rw d (elim (Bool-cases (str_eq row.topic "file.scan")) [
                  | inl f ↦ rw f scan'
                  | inr f ↦ rw f unknown
                ])
              ])
            ])
      ])
    ]
