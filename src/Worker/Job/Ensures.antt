-- ===== src/Worker/Job/Ensures.antt =====
-- What a job does to the state, as a relation between the state before and the state after: one rule for each way to
-- build a job.
use topology_supply_chain.Common.{
  ◌≡◌, refl, Bool, true, false, List, [], ◌∷◌, Bool-cases, inl, inr, if◌then◌else◌,
}
use mathlib.Core.Path.{subst}
use topology_supply_chain.Worker.Job.{
  Connection, Answer, acknowledged, lost, transact, commit, autocommit, settle, Fault, Result, done,
  raise, Job, pure, throw, gets, statement, lift, ◌>>=◌, continue, throw_if, for_each,
}

pub record Ensures {S A : Type 0} (R : S → S → Type 0) (m : Job S A) : Type 0 where
  pub at : (s : S) (a : A) (t : S) → m s ≡ done (a, t) → R s t

-- The relation is one of states that a job may pass through.
pub record IsPreorder {S : Type 0} (R : S → S → Type 0) : Type 0 where
  pub same : (s : S) → R s s
  pub compose : (s t u : S) → R s t → R t u → R s u

-- Inversion of a job that returned.
pub bind-done :
    {S A B : Type 0} (m : Job S A) (f : A → Job S B) (s : S) {r : B × S}
    → (m >>= f) s ≡ done r
    → (a : A) × (t : S) × (m s ≡ done (a, t)) × (f a t ≡ done r)
bind-done {S} {A} {B} m f s {r} h = go (m s) refl h
  where
    go :
        (o : Result (A × S))
        → m s ≡ o
        → continue f o ≡ done r
        → (a : A) × (t : S) × (m s ≡ done (a, t)) × (f a t ≡ done r)
    go (done (a, t)) e h' = (a, t, e, h')
    go (raise e') e h' = cc

module _ {S A : Type 0} {R : S → S → Type 0} (order : IsPreorder R) where
  pub Ensures-pure : (a : A) → Ensures R (pure a)
  Ensures-pure a = record { at = λ s b t e. let k : s ≡ t = cc in subst (R s) k (order.same s) }

  pub Ensures-throw : (e : Fault) → Ensures R (throw {A = A} e)
  Ensures-throw e = record { at = λ s b t k. cc }

  pub Ensures-gets : (f : S → A) → Ensures R (gets f)
  Ensures-gets f = record { at = λ s b t e. let k : s ≡ t = cc in subst (R s) k (order.same s) }

  pub Ensures-lift : (r : Result A) → Ensures R (lift r)
  Ensures-lift (done a) = Ensures-pure a
  Ensures-lift (raise e) = Ensures-throw e

  pub Ensures-statement : (f : S → A × S) → ((s : S) → R s (f s).1) → Ensures R (statement f)
  Ensures-statement f h = record { at = λ s b t e. let k : (f s).1 ≡ t = cc in subst (R s) k (h s) }

  -- A test of the state, and a job for each way it comes out.
  pub Ensures-test :
      (test : S → Bool) (x y : Job S A)
      → Ensures R x
      → Ensures R y
      → Ensures R (λ s. if test s then x s else y s)
  Ensures-test test x y hx hy = record {
    at = λ s a t e. elim (Bool-cases (test s)) [
      | inl h ↦ hx.at s a t (rw h at e)
      | inr h ↦ hy.at s a t (rw h at e)
    ];
  }

  pub Ensures-branch :
      (test : Bool) {x y : Job S A} → Ensures R x → Ensures R y → Ensures R (if test then x else y)
  Ensures-branch true hx hy = hx
  Ensures-branch false hx hy = hy

module _ {S : Type 0} {R : S → S → Type 0} (order : IsPreorder R) where
  pub Ensures-throw_if : (b : Bool) (e : Fault) → Ensures R (throw_if b e)
  Ensures-throw_if true e = Ensures-throw order e
  Ensures-throw_if false e = Ensures-pure order tt

module _ {S A B : Type 0} {R : S → S → Type 0} (order : IsPreorder R) where
  pub Ensures-bind :
      (m : Job S A) (f : A → Job S B)
      → Ensures R m
      → ((a : A) → Ensures R (f a))
      → Ensures R (m >>= f)
  Ensures-bind m f hm hf = record {
    at = λ s b t e.
        let (a, u, first, rest) = bind-done m f s e in
        order.compose s u t (hm.at s a u first) ((hf a).at u b t rest);
  }

module _ {S A : Type 0} {R : S → S → Type 0} (order : IsPreorder R) where
  pub Ensures-for_each :
      (body : A → Job S (Unit {0})) (xs : List A)
      → ((a : A) → Ensures R (body a))
      → Ensures R (for_each body xs)
  Ensures-for_each body [] h = Ensures-pure order tt
  Ensures-for_each body (x ∷ xs) h =
      Ensures-bind order (body x) (λ _. for_each body xs) (h x) (λ _. Ensures-for_each body xs h)

-- A transaction, and a statement by itself: what the caller sees last.
module _ {S A : Type 0} {R : S → S → Type 0} (order : IsPreorder R) (c : Connection) where
  pub transact-Ensures : (body : Job S A) (s : S) → Ensures R body → R s (transact c body s).1
  unfolding transact commit
  transact-Ensures body s h = elim (Bool-cases c.begins) [
    | inr e ↦ rw e (order.same s)
    | inl e ↦ rw e (go c.commits (body s) refl)
  ]
    where
      go : (commits : Answer) (r : Result (A × S)) → body s ≡ r → R s (settle commits s r).1
      go commits (raise f) k = order.same s
      go acknowledged (done (a, t)) k = h.at s a t k
      go (lost true) (done (a, t)) k = h.at s a t k
      go (lost false) (done (a, t)) k = order.same s

  pub autocommit-Ensures :
      (answer : Answer) (f : S → A × S) (check : A → Result (Unit {0})) (s : S)
      → R s (f s).1
      → R s (autocommit answer f check s).1
  unfolding autocommit
  autocommit-Ensures acknowledged f check s h = h
  autocommit-Ensures (lost true) f check s h = h
  autocommit-Ensures (lost false) f check s h = order.same s
