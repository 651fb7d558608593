-- ===== src/Signing/Canonical.antt =====
-- The text that is signed: `canonicalizeBotBlockerArtifact` of
-- backend/packages/contracts/src/botblocker-signing.ts. `JSON.stringify` of a string and of a number
-- are parameters.
pub mod Keyed
use powerotp.Prelude.{ℕ, Bool, true, false, List, [], ◌∷◌, ◌++◌, Text, text, text_less, sort}

-- What JSON can represent: the numbers of the artifacts are whole.
mutual
  pub data Json : Type 0 where
    null : Json
    boolean : Bool → Json
    number : ℕ → Json
    string : Text → Json
    array : Items → Json
    object : Fields → Json

  pub data Items : Type 0 where
    no_items : Items
    item : Json → Items → Items

  pub data Fields : Type 0 where
    no_fields : Fields
    field : Text → Json → Fields → Fields

-- `parts.join(",")`
abbrev pub join_commas : List Text → Text
join_commas [] = []
join_commas (part ∷ []) = part
join_commas (part ∷ next ∷ parts) = part ++ (44 ∷ join_commas (next ∷ parts))

-- A key before another; the keys of an object differ.
abbrev pub by_key : Text × Text → Text × Text → Bool
by_key left right = text_less left.0 right.0

-- The keys of an object with the texts of its values.
abbrev pub parts_of : (Text → Text) → List (Text × Text) → List Text
parts_of quote [] = []
parts_of quote ((key, value) ∷ rest) = (quote key ++ (58 ∷ value)) ∷ parts_of quote rest

module _ (quote : Text → Text) (print : ℕ → Text) where
  unfoldable mutual
    -- `canonicalize`
    pub canonicalize : Json → Text
    canonicalize null = text "null"
    canonicalize (boolean true) = text "true"
    canonicalize (boolean false) = text "false"
    canonicalize (number n) = print n
    canonicalize (string s) = quote s
    canonicalize (array items) = 91 ∷ (join_commas (canonicalize_items items) ++ text "]")
    canonicalize (object fields) =
        123 ∷ (join_commas (parts_of quote (sort by_key (canonicalize_fields fields))) ++ text "}")

    pub canonicalize_items : Items → List Text
    canonicalize_items no_items = []
    canonicalize_items (item j items) = canonicalize j ∷ canonicalize_items items

    pub canonicalize_fields : Fields → List (Text × Text)
    canonicalize_fields no_fields = []
    canonicalize_fields (field key j fields) = (key, canonicalize j) ∷ canonicalize_fields fields
