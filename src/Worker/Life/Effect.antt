-- ===== src/Worker/Life/Effect.antt =====
-- What the transaction of a domain event (dispatchDomainEvent of apps/worker/src/server.ts) writes.
use topology_supply_chain.Common.{
  ℕ, String, Option-cases, ◌≡◌, ◌∙◌, refl, sym, ap, true, some, List, [], ◌∷◌, Bool-cases, inl, inr,
  arith,
}
use mathlib.Core.Path.{subst}
use topology_supply_chain.Sql.{find, adjust}
use topology_supply_chain.Sql.Laws.{find-adjust_self}
use topology_supply_chain.Worker.Job.{Job, done, for_each, ◌>>=◌, ◌>>◌}
use topology_supply_chain.Worker.Job.Ensures.{bind-done}
use topology_supply_chain.Worker.Rows.{Db, Message, Notice, User}
use topology_supply_chain.Worker.Lease.{Held, is_held, completed_in_dispatch}
use topology_supply_chain.Worker.Fence.{check_fence, require_fence}
use topology_supply_chain.Worker.Payload.{
  DomainEvent, Recipient, nobody, supply_chain, user, entity_binding,
}
use topology_supply_chain.Worker.Dispatch.{
  event_notice, insert_notice, notify, recipients, bound_users, factory_query, complete_lease,
  domain_event_body,
}

-- The rows of a table without their ids, the latest first.
abbrev pub contents : List (ℕ × Notice) → List Notice
contents [] = []
contents ((i, n) ∷ rows) = n ∷ contents rows

-- The notices of an event, one for each user, in front of the notices that were there; the last user's is the latest.
abbrev pub announced : DomainEvent → List (ℕ × User) → List Notice → List Notice
announced e [] ns = ns
announced e (u ∷ us) ns = announced e us (event_notice e u ∷ ns)

notify_lem :
    (e : DomainEvent) (u : ℕ × User) (s t : Db) (x : Unit {0})
    → notify e u s ≡ done (x, t)
    → (contents t.notices.rows ≡ event_notice e u ∷ contents s.notices.rows) × (t.outbox ≡ s.outbox)
unfolding notify insert_notice
notify_lem e u s t x h = ground arith

for_each-notify :
    (e : DomainEvent) (us : List (ℕ × User)) (s t : Db) (x : Unit {0})
    → for_each (notify e) us s ≡ done (x, t)
    → (contents t.notices.rows ≡ announced e us (contents s.notices.rows)) × (t.outbox ≡ s.outbox)
for_each-notify e [] s t x h =
    let same : s ≡ t = cc in
    (ap (λ d. contents d.notices.rows) (sym same), ap (λ d. d.outbox) (sym same))
for_each-notify e (u ∷ us) s t x h =
    let (a, mid, first, rest) = bind-done (notify e u) (λ _. for_each (notify e) us) s h in
    let (shown, kept) = notify_lem e u s mid a first in
    let (all, kept') = for_each-notify e us mid t x rest in
    (all ∙ ap (announced e us) shown, kept' ∙ kept)

-- The queries write nothing.
recipients_read :
    (r : Recipient) (s t : Db) (us : List (ℕ × User)) → recipients r s ≡ done (us, t) → s ≡ t
unfolding recipients bound_users factory_query
recipients_read nobody s t us h = cc
recipients_read supply_chain s t us h = cc
recipients_read (user id) s t us h = cc
recipients_read (entity_binding type id) s t us h = ground arith

fence_read :
    (resource : String) (s t : Db) (x : Unit {0}) → require_fence resource s ≡ done (x, t) → s ≡ t
unfolding require_fence check_fence
fence_read resource s t x h = ground arith

complete_lease_lem :
    (w : ℕ) (row : Held) (s t : Db) (x : Unit {0})
    → complete_lease w row s ≡ done (x, t)
    → (m : Message) × (find row.id s.outbox.rows ≡ some m)
      × (is_held w m ≡ true)
      × (find row.id t.outbox.rows ≡ some (completed_in_dispatch m))
      × (t.notices ≡ s.notices)
unfolding complete_lease
complete_lease_lem w row s t x h = elim (Option-cases (find row.id s.outbox.rows)) [
  | inl e ↦ cc (rw e at h)
  | inr (m, e) ↦ elim (Bool-cases (is_held w m)) [
    | inr n ↦ cc (rw (e, n) at h)
    | inl y ↦
        let after : Db = record s {
          outbox = record s.outbox { rows = adjust row.id completed_in_dispatch s.outbox.rows };
        } in
        let returned = rw (e, y) at h in
        let same : after ≡ t = cc in
        subst
          (λ d.
            (n : Message) × (find row.id s.outbox.rows ≡ some n)
            × (is_held w n ≡ true)
            × (find row.id d.outbox.rows ≡ some (completed_in_dispatch n))
            × (d.notices ≡ s.notices))
          same (m, e, y, find-adjust_self row.id completed_in_dispatch s.outbox.rows e, refl)
  ]
]

-- The transaction of a domain event that returns was run under the worker's lease: it writes one notice for each recipient and
-- completes the message, both or neither.
pub domain_event_effect :
    (w : ℕ) (row : Held) (e : DomainEvent) (s t : Db) (x : Unit {0})
    → domain_event_body w row e s ≡ done (x, t)
    → (us : List (ℕ × User)) × (recipients e.recipient s ≡ done (us, s))
      × (contents t.notices.rows ≡ announced e us (contents s.notices.rows))
      × ((m : Message) × (find row.id s.outbox.rows ≡ some m)
          × (is_held w m ≡ true)
          × (find row.id t.outbox.rows ≡ some (completed_in_dispatch m)))
unfolding domain_event_body
domain_event_effect w row e s t x h =
    let rest1 : Job Db (Unit {0}) =
      recipients e.recipient >>= λ us. for_each (notify e) us >> complete_lease w row in
    let (a, s1, fence, after1) = bind-done (require_fence "outbox.worker") (λ _. rest1) s h in
    let (us, s2, query, after2) =
      bind-done (recipients e.recipient) (λ us. for_each (notify e) us >> complete_lease w row) s1
        after1 in
    let (b, s3, notices, after3) =
      bind-done (for_each (notify e) us) (λ _. complete_lease w row) s2 after2 in
    let same1 : s ≡ s1 = fence_read "outbox.worker" s s1 a fence in
    let same2 : s1 ≡ s2 = recipients_read e.recipient s1 s2 us query in
    let (shown, kept) = for_each-notify e us s2 s3 b notices in
    let (m, found, held, completed, same3) = complete_lease_lem w row s3 t x after3 in
    (
      us,
      subst (λ d. recipients e.recipient d ≡ done (us, d)) (sym same1)
          (subst (λ d. recipients e.recipient s1 ≡ done (us, d)) (sym same2) query),
      ap (λ n. contents n.rows) same3
          ∙ shown
          ∙ ap (λ d. announced e us (contents d.notices.rows)) (sym (same1 ∙ same2)),
      (
        m,
        subst (λ o. find row.id o.rows ≡ some m) (kept ∙ ap (λ d. d.outbox) (sym (same1 ∙ same2)))
            found,
        held,
        completed,
      ),
    )
