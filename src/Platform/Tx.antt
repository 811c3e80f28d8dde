-- ===== src/Platform/Tx.antt =====
-- The body of a transaction: it reads and writes the state `S` and may throw. A throw carries no
-- state, since the transaction that runs the body is rolled back (Platform/Transaction).
use topology_supply_chain.Common.{Bool, true, false, Option, none, some, ◌≡◌, refl}
use topology_supply_chain.Platform.Failure.{Failure}

pub data Outcome (A : Type 0) : Type 0 where
  ok : A → Outcome A
  fail : Failure → Outcome A

abbrev pub Tx : Type 0 → Type 0 → Type 0
Tx S A = S → Outcome (A × S)

module _ {S A : Type 0} where
  abbrev pub pure : A → Tx S A
  pure a s = ok (a, s)

  abbrev pub throw : Failure → Tx S A
  throw e s = fail e

  abbrev pub gets : (S → A) → Tx S A
  gets f s = ok (f s, s)

  -- The value of an optional row, or a throw.
  abbrev pub or_throw : Option A → Failure → Tx S A
  or_throw none e = throw e
  or_throw (some a) e = pure a

  -- A pure check.
  abbrev pub lift : Outcome A → Tx S A
  lift (ok a) = pure a
  lift (fail e) = throw e

module _ {S A B : Type 0} where
  abbrev continue : (A → Tx S B) → Outcome (A × S) → Outcome (B × S)
  continue f (ok (a, s)) = f a s
  continue f (fail e) = fail e

  infixl 5 ◌>>=◌ ◌>>◌
  abbrev pub ◌>>=◌ : Tx S A → (A → Tx S B) → Tx S B
  ◌>>=◌ m f s = continue f (m s)

  abbrev pub ◌>>◌ : Tx S A → Tx S B → Tx S B
  m >> k = m >>= λ _. k

module _ {S : Type 0} where
  abbrev pub modify : (S → S) → Tx S (Unit {0})
  modify f s = ok (tt, f s)

  abbrev pub throw_if : Bool → Failure → Tx S (Unit {0})
  throw_if true e = throw e
  throw_if false e = pure tt

  abbrev pub skip : Tx S (Unit {0})
  skip = pure tt

pub ok-state :
    {S A : Type 0} {a b : A} {s t : S} → ◌≡◌ {A = Outcome (A × S)} (ok (a, s)) (ok (b, t)) → s ≡ t
ok-state h = cc

pub ok-value :
    {S A : Type 0} {a b : A} {s t : S} → ◌≡◌ {A = Outcome (A × S)} (ok (a, s)) (ok (b, t)) → a ≡ b
ok-value h = cc

-- Inversion of a body that returned, for proofs where its parts stay shut.
pub bind-ok :
    {S A B : Type 0} (m : Tx S A) (f : A → Tx S B) (s : S) {r : B × S}
    → (m >>= f) s ≡ ok r
    → (a : A) × (t : S) × (m s ≡ ok (a, t)) × (f a t ≡ ok r)
bind-ok {S} {A} {B} m f s {r} h = go (m s) refl h
  where
    go :
        (o : Outcome (A × S))
        → m s ≡ o
        → continue f o ≡ ok r
        → (a : A) × (t : S) × (m s ≡ ok (a, t)) × (f a t ≡ ok r)
    go (ok (a, t)) e h' = (a, t, e, h')
    go (fail e') e h' = cc
