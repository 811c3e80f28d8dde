-- ===== src/Worker/Job.antt =====
-- The functions of the worker (apps/worker/src/server.ts): they read and write the state `S` and may
-- throw. A connection that throws between BEGIN and COMMIT is rolled back.
pub mod Ensures
use topology_supply_chain.Common.{ℕ, Bool, true, false, List, [], ◌∷◌, if◌then◌else◌}

-- The texts of `last_error_code`: the codes of PermanentFailure and PermanentProviderFailure, and those that
-- the worker writes itself. `provider` stands for PROVIDER_${status}.
pub data ErrorCode : Type 0 where
  invalid_payload recipient_not_found file_not_found unknown_topic invalid_reminder : ErrorCode
  invalid_sealed_otp otp_sealing_key_unavailable invalid_scanner_response : ErrorCode
  provider : (status : ℕ) → ErrorCode
  lease_exhausted delivery_failed writer_fence_paused : ErrorCode

-- What the worker tells apart in a `catch`: PermanentFailure and PermanentProviderFailure with their
-- code, FencePaused, and every other error.
pub data Fault : Type 0 where
  permanent : (code : ErrorCode) → Fault
  fence_paused unexpected : Fault

pub data Result (A : Type 0) : Type 0 where
  done : A → Result A
  raise : Fault → Result A

abbrev pub Job : Type 0 → Type 0 → Type 0
Job S A = S → Result (A × S)

module _ {S A : Type 0} where
  abbrev pub pure : A → Job S A
  pure a s = done (a, s)

  abbrev pub throw : Fault → Job S A
  throw e s = raise e

  abbrev pub gets : (S → A) → Job S A
  gets f s = done (f s, s)

  -- A statement that returns a value.
  abbrev pub statement : (S → A × S) → Job S A
  statement f s = done (f s)

  abbrev pub lift : Result A → Job S A
  lift (done a) = pure a
  lift (raise e) = throw e

module _ {S A B : Type 0} where
  abbrev pub continue : (A → Job S B) → Result (A × S) → Result (B × S)
  continue f (done (a, s)) = f a s
  continue f (raise e) = raise e

  infixl 5 ◌>>=◌ ◌>>◌
  abbrev pub ◌>>=◌ : Job S A → (A → Job S B) → Job S B
  ◌>>=◌ m f s = continue f (m s)

  abbrev pub ◌>>◌ : Job S A → Job S B → Job S B
  m >> k = m >>= λ _. k

module _ {S : Type 0} where
  abbrev pub skip : Job S (Unit {0})
  skip = pure tt

  abbrev pub throw_if : Bool → Fault → Job S (Unit {0})
  throw_if true e = throw e
  throw_if false e = skip

-- `for (const item of items)`
abbrev pub for_each : {S A : Type 0} → (A → Job S (Unit {0})) → List A → Job S (Unit {0})
for_each body [] = skip
for_each body (x ∷ xs) = body x >> for_each body xs

-- Whether the server acknowledged what it was sent, or else, whether it applied it.
pub data Answer : Type 0 where
  acknowledged : Answer
  lost : (applied : Bool) → Answer

-- A connection of the pool: whether the transaction begins, and what becomes of its commit.
pub record Connection : Type 0 where
  pub begins : Bool
  pub commits : Answer

-- The end of a transaction: what the function returns or throws, and the durable state.
unfoldable pub commit : {S A : Type 0} → Answer → S → A × S → Result A × S
commit acknowledged s (a, s') = (done a, s')
commit (lost applied) s (a, s') = (raise unexpected, if applied then s' else s)

abbrev pub settle : {S A : Type 0} → Answer → S → Result (A × S) → Result A × S
settle commits s (done r) = commit commits s r
settle commits s (raise e) = (raise e, s)

-- getConnection, beginTransaction, the body, commit; a `catch` that rolls back and throws again
unfoldable pub transact : {S A : Type 0} → Connection → Job S A → S → Result A × S
transact c body s = if c.begins then settle c.commits s (body s) else (raise unexpected, s)

-- pool.execute: one statement, committed by itself, and a check of its answer.
unfoldable pub autocommit :
    {S A : Type 0} → Answer → (S → A × S) → (A → Result (Unit {0})) → S → Result (Unit {0}) × S
autocommit acknowledged f check s = (check (f s).0, (f s).1)
autocommit (lost applied) f check s = (raise unexpected, if applied then (f s).1 else s)
