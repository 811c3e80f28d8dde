-- ===== src/Platform/Leads.antt =====
-- Transaction bodies from a property of the state to a property of the result and the state.
use topology_supply_chain.Common.{if◌then◌else◌}
use topology_supply_chain.Common.{◌≡◌, refl, Bool, true, false, Option, none, some}
use mathlib.Core.Path.{subst}
use topology_supply_chain.Platform.Failure.{Failure}
use topology_supply_chain.Platform.Tx.{ok, Tx, gets, or_throw, ◌>>=◌, throw_if, bind-ok}
use topology_supply_chain.Platform.Keeps.{Keeps}

-- A body that returns from a state with `P` leaves a result and a state with `Q`.
pub record Leads {S A : Type 0} (P : S → Type 0) (m : Tx S A) (Q : A → S → Type 0) : Type 0 where
  pub at : (s : S) (a : A) (t : S) → P s → m s ≡ ok (a, t) → Q a t

module _ {S A : Type 0} {P : S → Type 0} where
  pub Leads-Keeps : (m : Tx S A) → Keeps P m → Leads P m (λ a. P)
  Leads-Keeps m k = record { at = k.at }

  -- What the state says of the value that is read.
  pub Leads-gets : (f : S → A) → Leads P (gets f) (λ a s. P s × (f s ≡ a))
  Leads-gets f = record {
    at = λ s a t h e.
        let same : s ≡ t = cc in
        let value : f s ≡ a = cc in subst (λ x. P x × (f x ≡ a)) same (h, value);
  }

  pub Leads-or_throw :
      (o : Option A) (e : Failure) → Leads P (or_throw o e) (λ a s. P s × (o ≡ some a))
  Leads-or_throw none e = record { at = λ s a t h k. cc }
  Leads-or_throw (some b) e = record {
    at = λ s a t h k.
        let same : s ≡ t = cc in let value : some b ≡ some a = cc in (subst P same h, value);
  }

module _ {S : Type 0} {P : S → Type 0} where
  pub Leads-throw_if : (b : Bool) (e : Failure) → Leads P (throw_if b e) (λ u s. P s × (b ≡ false))
  Leads-throw_if true e = record { at = λ s a t h k. cc }
  Leads-throw_if false e = record {
    at = λ s a t h k. let same : s ≡ t = cc in (subst P same h, refl);
  }

module _ {S A B : Type 0} {P : S → Type 0} {M : A → S → Type 0} {Q : B → S → Type 0} where
  pub Leads-bind :
      (m : Tx S A) (f : A → Tx S B)
      → Leads P m M
      → ((a : A) → Leads (M a) (f a) Q)
      → Leads P (m >>= f) Q
  Leads-bind m f lm lf = record {
    at = λ s b t h e.
        let (a, u, first, rest) = bind-ok m f s e in (lf a).at u b t (lm.at s a u h first) rest;
  }

module _ {S A : Type 0} {P : S → Type 0} {Q : A → S → Type 0} {B : Type 0} (m : Tx S A) where
  -- A fact that no state changes, as a hypothesis and as a result.
  pub Leads-given : (B → Leads P m Q) → Leads (λ s. P s × B) m Q
  Leads-given l = record { at = λ s a t h e. (l h.1).at s a t h.0 e }

  pub Leads-fact : B → Leads P m Q → Leads P m (λ a s. Q a s × B)
  Leads-fact b l = record { at = λ s a t h e. (l.at s a t h e, b) }

module _ {S A : Type 0} {P : S → Type 0} {Q : A → S → Type 0} where
  -- Each branch may use how the test came out.
  pub Leads-branch :
      (test : Bool) {then_body else_body : Tx S A}
      → (test ≡ true → Leads P then_body Q)
      → (test ≡ false → Leads P else_body Q)
      → Leads P (if test then then_body else else_body) Q
  Leads-branch true so otherwise = so refl
  Leads-branch false so otherwise = otherwise refl

  -- A weaker property to begin with.
  pub Leads-from :
      {P' : S → Type 0} {m : Tx S A} → ((s : S) → P' s → P s) → Leads P m Q → Leads P' m Q
  Leads-from w l = record { at = λ s a t h e. l.at s a t (w s h) e }

  -- A weaker property to end with.
  pub Leads-to :
      {Q' : A → S → Type 0} {m : Tx S A}
      → ((a : A) (s : S) → Q a s → Q' a s)
      → Leads P m Q
      → Leads P m Q'
  Leads-to w l = record { at = λ s a t h e. w a t (l.at s a t h e) }
