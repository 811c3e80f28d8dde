-- ===== src/Worker/Life/Outbox.antt =====
-- The outbox as a whole under the statements of apps/worker/src/server.ts: every row is sound, and keeps what a worker knows
-- of it.
use topology_supply_chain.Common.{
  ℕ, ◌<◌, ◌≡◌, ◌∙◌, refl, sym, true, false, none, some, List, [], ◌∷◌, arith, ◌==◌, ==_iff,
  Bool-cases, Option-cases, inl, inr, if◌then◌else◌, ap,
}
use mathlib.Core.Path.{subst}
use topology_supply_chain.Sql.{Table, find, adjust, update, insert}
use topology_supply_chain.Sql.Laws.{find-adjust, map_row, IsUnique, adjust-IsUnique}
use topology_supply_chain.Worker.Rows.{Message}
use topology_supply_chain.Worker.Lease.{Held, is_held, expire, is_exhausted, exhausted}
use topology_supply_chain.Worker.Life.{
  IsSound, IsKnown, Evolves, Evolves-same, Evolves-compose, Evolves-exhausted, exhausted-IsSound,
}

-- The ids are below AUTO_INCREMENT and stand for one row each, and the rows are sound.
pub record IsSoundTable (t : Table Message) : Type 0 where
  pub unique : IsUnique t.rows
  pub keyed : (id : ℕ) (m : Message) → find id t.rows ≡ some m → id < t.next_id
  pub sound : (id : ℕ) (m : Message) → find id t.rows ≡ some m → IsSound m

abbrev pub TableEvolves : Table Message → Table Message → Type 0
TableEvolves s t =
    (id : ℕ) (m : Message)
    → find id s.rows ≡ some m
    → (n : Message) × (find id t.rows ≡ some n) × Evolves m n

-- The table has the message that a worker holds, and the worker knows it.
abbrev pub IsHeldIn : ℕ → Held → Table Message → Type 0
IsHeldIn w row t = (m : Message) × (find row.id t.rows ≡ some m) × IsKnown row w m

pub IsKnown-Evolves :
    (row : Held) (w : ℕ) (m n : Message) → IsKnown row w m → Evolves m n → IsKnown row w n
IsKnown-Evolves row w m n k e = record {
  topic = k.topic ∙ e.topic;
  limit = k.limit ∙ e.limit;
  count = λ h. let (before, same) = e.kept w h in k.count before ∙ same;
}

pub IsHeldIn-Evolves :
    (w : ℕ) (row : Held) (s t : Table Message)
    → IsHeldIn w row s
    → TableEvolves s t
    → IsHeldIn w row t
IsHeldIn-Evolves w row s t (m, f, k) e =
    let (n, g, c) = e row.id m f in (n, g, IsKnown-Evolves row w m n k c)

pub TableEvolves-same : (t : Table Message) → TableEvolves t t
TableEvolves-same t id m f = (m, f, Evolves-same m)

pub TableEvolves-compose :
    (s t u : Table Message) → TableEvolves s t → TableEvolves t u → TableEvolves s u
TableEvolves-compose s t u p q id m f =
    let (n, g, c) = p id m f in let (o, h, d) = q id n g in (o, h, Evolves-compose m n o c d)

-- One row of the table is rewritten.
module _ (t : Table Message) (id : ℕ) (f : Message → Message) (r : Message)
    (found : find id t.rows ≡ some r) where
  abbrev rewritten : Table Message
  rewritten = record t { rows = adjust id f t.rows }

  find-rewritten : (j : ℕ) → find j rewritten.rows ≡ (if id == j then some (f r) else find j t.rows)
  find-rewritten j = rw find-adjust (elim (Bool-cases (id == j)) [
    | inl e ↦ let same : id ≡ j = (==_iff id j).0 e in rw (e, ← same, found) refl
    | inr e ↦ rw e refl
  ])

  find_self : (j : ℕ) → (id == j) ≡ true → find j rewritten.rows ≡ some (f r)
  find_self j e = find-rewritten j ∙ rw e refl

  find_other : (j : ℕ) → (id == j) ≡ false → find j rewritten.rows ≡ find j t.rows
  find_other j e = find-rewritten j ∙ rw e refl

  pub adjust-IsSoundTable : IsSoundTable t → IsSound (f r) → IsSoundTable rewritten
  adjust-IsSoundTable s k = record {
    unique = adjust-IsUnique id f t.rows s.unique;
    keyed = λ j m g. elim (Bool-cases (id == j)) [
      | inl e ↦ subst (λ i. i < t.next_id) ((==_iff id j).0 e) (s.keyed id r found)
      | inr e ↦ s.keyed j m (sym (find_other j e) ∙ g)
    ];
    sound = λ j m g. elim (Bool-cases (id == j)) [
      | inl e ↦ let self = find_self j e in let same : f r ≡ m = cc in subst IsSound same k
      | inr e ↦ s.sound j m (sym (find_other j e) ∙ g)
    ];
  }

  pub adjust-TableEvolves : Evolves r (f r) → TableEvolves t rewritten
  adjust-TableEvolves k j m g = elim (Bool-cases (id == j)) [
    | inl e ↦
        let same_id : id ≡ j = (==_iff id j).0 e in
        let same : r ≡ m = cc in (f r, find_self j e, subst (λ x. Evolves x (f r)) same k)
    | inr e ↦ (m, find_other j e ∙ g, Evolves-same m)
  ]

-- A statement that guards a row by its lease.
module _ (t : Table Message) (w : ℕ) (row : Held) (f : Message → Message)
    (changes : (m : Message)
      → is_held w m ≡ true
      → IsKnown row w m
      → IsSound m
      → IsSound (f m) × Evolves m (f m)) where
  pub update_held_lem :
      IsSoundTable t
      → IsHeldIn w row t
      → IsSoundTable (update row.id (is_held w) f t).0
        × TableEvolves t (update row.id (is_held w) f t).0
  update_held_lem s (m, found, k) = elim (Bool-cases (is_held w m)) [
    | inl h ↦
        let (sound, evolves) = changes m h k (s.sound row.id m found) in
        rw (found, h)
          (
            adjust-IsSoundTable t row.id f m found s sound,
            adjust-TableEvolves t row.id f m found evolves,
          )
    | inr h ↦ rw (found, h) (s, TableEvolves-same t)
  ]

-- INSERT of a sound row.
module _ (n : Message) (t : Table Message) (s : IsSoundTable t) where
  absent : find t.next_id t.rows ≡ none
  absent = elim (Option-cases (find t.next_id t.rows)) [
    | inl e ↦ e
    | inr (m, e) ↦ absurd (omega (arith, s.keyed t.next_id m e))
  ]

  pub insert-IsSoundTable : IsSound n → IsSoundTable (insert n t).0
  insert-IsSoundTable k = record {
    unique = (absent, s.unique);
    keyed = λ j m g. elim (Bool-cases (t.next_id == j)) [
      | inl e ↦ ground arith
      | inr e ↦ let old = s.keyed j m (rw e at g) in omega arith
    ];
    sound = λ j m g. elim (Bool-cases (t.next_id == j)) [
      | inl e ↦ let new = rw e at g in let same : n ≡ m = cc in subst IsSound same k
      | inr e ↦ s.sound j m (rw e at g)
    ];
  }

  pub insert-TableEvolves : TableEvolves t (insert n t).0
  insert-TableEvolves j m g = elim (Bool-cases (t.next_id == j)) [
    | inl e ↦ let same : t.next_id ≡ j = (==_iff t.next_id j).0 e in cc (absent)
    | inr e ↦ (m, rw e g, Evolves-same m)
  ]

-- The UPDATE of claim that ends exhausted leases.
abbrev pub expired : ℕ → Message → Message
expired stale m = if is_exhausted stale m then exhausted m else m

pub find-expire :
    (stale j : ℕ) (rows : List (ℕ × Message))
    → find j (expire stale rows) ≡ map_row (expired stale) (find j rows)
unfolding expire
find-expire stale j [] = refl
find-expire stale j ((i, m) ∷ rows) = ground (arith, find-expire stale j rows)

expired-IsSound : (stale : ℕ) (m : Message) → IsSound m → IsSound (expired stale m)
expired-IsSound stale m s = elim (Bool-cases (is_exhausted stale m)) [
  | inl e ↦ rw e (exhausted-IsSound m s)
  | inr e ↦ rw e s
]

expired-Evolves : (stale : ℕ) (m : Message) → Evolves m (expired stale m)
expired-Evolves stale m = elim (Bool-cases (is_exhausted stale m)) [
  | inl e ↦ rw e (Evolves-exhausted m stale e)
  | inr e ↦ rw e (Evolves-same m)
]

module _ (stale : ℕ) (t : Table Message) where
  abbrev pub expired_table : Table Message
  expired_table = record t { rows = expire stale t.rows }

  expire-IsUnique : (rows : List (ℕ × Message)) → IsUnique rows → IsUnique (expire stale rows)
  unfolding expire
  expire-IsUnique [] u = u
  expire-IsUnique ((i, m) ∷ rows) u =
      (find-expire stale i rows ∙ ap (map_row (expired stale)) u.0, expire-IsUnique rows u.1)

  pub expire-TableEvolves : TableEvolves t expired_table
  expire-TableEvolves j m g =
      (expired stale m, find-expire stale j t.rows ∙ rw g refl, expired-Evolves stale m)

  pub expire-IsSoundTable : IsSoundTable t → IsSoundTable expired_table
  expire-IsSoundTable s = record {
    unique = expire-IsUnique t.rows s.unique;
    keyed = λ j m g. elim (Option-cases (find j t.rows)) [
      | inl e ↦
          let gone : find j (expire stale t.rows) ≡ none =
            find-expire stale j t.rows ∙ ap (map_row (expired stale)) e in
          cc
      | inr (r, e) ↦ s.keyed j r e
    ];
    sound = λ j m g. elim (Option-cases (find j t.rows)) [
      | inl e ↦
          let gone : find j (expire stale t.rows) ≡ none =
            find-expire stale j t.rows ∙ ap (map_row (expired stale)) e in
          cc
      | inr (r, e) ↦
          let one = find-expire stale j t.rows ∙ ap (map_row (expired stale)) e in
          let same : expired stale r ≡ m = cc in
          subst IsSound same (expired-IsSound stale r (s.sound j r e))
    ];
  }
