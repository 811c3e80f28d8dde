-- ===== src/Platform/Keeps.antt =====
-- Invariants of transaction bodies: one rule for each way to build a body.
use topology_supply_chain.Common.{◌≡◌, refl, Bool, true, false, Option, none, some, if◌then◌else◌}
use mathlib.Core.Path.{subst}
use topology_supply_chain.Platform.Failure.{Failure}
use topology_supply_chain.Platform.Tx.{
  Outcome, ok, fail, Tx, pure, throw, gets, or_throw, lift, ◌>>=◌, throw_if, bind-ok,
}

-- A body that returns leaves a state with the property, if it began in one. A body that throws is
-- rolled back.
pub record Keeps {S A : Type 0} (P : S → Type 0) (m : Tx S A) : Type 0 where
  pub at : (s : S) (a : A) (t : S) → P s → m s ≡ ok (a, t) → P t

module _ {S A : Type 0} {P : S → Type 0} where
  pub Keeps-pure : (a : A) → Keeps P (pure a)
  Keeps-pure a = record { at = λ s b t h e. let same : s ≡ t = cc in subst P same h }

  pub Keeps-throw : (e : Failure) → Keeps P (throw {A = A} e)
  Keeps-throw e = record { at = λ s b t h k. cc }

  pub Keeps-gets : (f : S → A) → Keeps P (gets f)
  Keeps-gets f = record { at = λ s b t h e. let same : s ≡ t = cc in subst P same h }

  pub Keeps-lift : (r : Outcome A) → Keeps P (lift r)
  Keeps-lift (ok a) = Keeps-pure a
  Keeps-lift (fail e) = Keeps-throw e

  pub Keeps-or_throw : (o : Option A) (e : Failure) → Keeps P (or_throw o e)
  Keeps-or_throw none e = Keeps-throw e
  Keeps-or_throw (some a) e = Keeps-pure a

  -- Each branch may use how the test came out.
  pub Keeps-branch :
      (test : Bool) {then_body else_body : Tx S A}
      → (test ≡ false → Keeps P else_body)
      → (test ≡ true → Keeps P then_body)
      → Keeps P (if test then then_body else else_body)
  Keeps-branch false otherwise so = otherwise refl
  Keeps-branch true otherwise so = so refl

module _ {S : Type 0} {P : S → Type 0} where
  pub Keeps-throw_if : (b : Bool) (e : Failure) → Keeps P (throw_if b e)
  Keeps-throw_if true e = Keeps-throw e
  Keeps-throw_if false e = Keeps-pure tt

module _ {S A B : Type 0} {P : S → Type 0} where
  pub Keeps-bind :
      (m : Tx S A) (f : A → Tx S B) → Keeps P m → ((a : A) → Keeps P (f a)) → Keeps P (m >>= f)
  Keeps-bind m f km kf = record {
    at = λ s b t h e.
        let (a, u, first, rest) = bind-ok m f s e in (kf a).at u b t (km.at s a u h first) rest;
  }

pub ruleset keeps_rules = (
  Keeps-pure, Keeps-throw, Keeps-gets, Keeps-lift, Keeps-or_throw, Keeps-branch, Keeps-throw_if,
  Keeps-bind,
)
