-- ===== src/Platform/Canonical.antt =====
-- The canonical text of a command's payload and its digest (canonicalJson and canonicalRequestDigest
-- of apps/api/src/platform/commands.ts). The hash function and JSON.stringify of a text are
-- parameters. A number is given by the text that JSON.stringify prints for it.
use topology_supply_chain.Common.{
  Bool, true, false, String, List, [], ◌∷◌, ◌++◌, map, ltb, ◌==◌, if◌then◌else◌,
}
use topology_supply_chain.Platform.Failure.{bad}
use topology_supply_chain.Platform.Tx.{Outcome, ok, fail}
use topology_supply_chain.Platform.Header.{Text}
use Prim.Native.Char.{code}

-- JsonValue
mutual
  pub data Json : Type 0 where
    null : Json
    bool : Bool → Json
    text : Text → Json
    number : (finite : Bool) → Text → Json
    array : Items → Json
    object : Fields → Json

  pub data Items : Type 0 where
    nil : Items
    cons : Json → Items → Items

  pub data Fields : Type 0 where
    end : Fields
    field : Text → Json → Fields → Fields

-- The order of `Array.prototype.sort` on texts: by their UTF-16 code units.
unfoldable pub before : Text → Text → Bool
before cs [] = false
before [] (d ∷ ds) = true
before (c ∷ cs) (d ∷ ds) = if ltb c d then true else if c == d then before cs ds else false

-- Insertion of a key, after the keys that are not above it.
unfoldable pub insert : Text × Text → List (Text × Text) → List (Text × Text)
unfolding before
insert e [] = e ∷ []
insert e (d ∷ ds) = if before e.0 d.0 then e ∷ d ∷ ds else d ∷ insert e ds

unfoldable pub sort : List (Text × Text) → List (Text × Text)
unfolding insert
sort [] = []
sort (e ∷ es) = insert e (sort es)

abbrev pub join : List Text → Text
join [] = []
join (t ∷ []) = t
join (t ∷ ts) = t ++ (b',' ∷ join ts)

infixl 5 ◌>>=◌
abbrev ◌>>=◌ : {A B : Type 0} → Outcome A → (A → Outcome B) → Outcome B
ok a >>= f = f a
fail e >>= f = fail e

abbrev pub keyword : String → Text
keyword String.[] = []
keyword (String.◌∷◌ c s) = code c ∷ keyword s

module _ (quote : Text → Text) where
  abbrev entry : Text × Text → Text
  entry (key, value) = quote key ++ (b':' ∷ value)

  unfoldable mutual
    unfolding sort

    -- canonicalJson
    pub canonical : Json → Outcome Text
    canonical null = ok (keyword "null")
    canonical (bool true) = ok (keyword "true")
    canonical (bool false) = ok (keyword "false")
    canonical (text t) = ok (quote t)
    canonical (number finite t) = if finite then ok t else fail (bad "Invalid command payload")
    canonical (array xs) = canonical_items xs >>= λ ts. ok (b'[' ∷ (join ts ++ (b']' ∷ [])))
    canonical (object fs) =
        canonical_fields fs >>= λ es. ok (b'{' ∷ (join (map entry (sort es)) ++ (b'}' ∷ [])))

    pub canonical_items : Items → Outcome (List Text)
    canonical_items nil = ok []
    canonical_items (cons j js) = canonical j >>= λ t. canonical_items js >>= λ ts. ok (t ∷ ts)

    pub canonical_fields : Fields → Outcome (List (Text × Text))
    canonical_fields end = ok []
    canonical_fields (field key j fs) =
        canonical j >>= λ t. canonical_fields fs >>= λ es. ok ((key, t) ∷ es)

  -- canonicalRequestDigest, with the hash function as an argument
  unfoldable pub canonical_request_digest :
      (sha256 : Text → Text) → (command : Text) → Json → Outcome Text
  unfolding canonical
  canonical_request_digest sha256 command payload =
      canonical
        (object (field (keyword "command") (text command) (field (keyword "payload") payload end)))
      >>= λ t. ok (sha256 t)
