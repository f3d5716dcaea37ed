-- ===== src/Evidence/Json.antt =====
-- The JSON values that `encoding/json` decodes into an `interface{}`. A number is its literal, as
-- `UseNumber` keeps it; an object lists each of its members once.
use agent_governance_evidenc.Base.{Bool, ℕ, suc, Bytes, Option, some, none, if◌then◌else◌, equal}

mutual
  pub data Json : Type 0 where
    null : Json
    bool : Bool → Json
    number : Bytes → Json
    string : Bytes → Json
    array : Items → Json
    object : Members → Json

  pub data Items : Type 0 where
    nil : Items
    cons : Json → Items → Items

  pub data Members : Type 0 where
    end : Members
    member : Bytes → Json → Members → Members

-- `len` of a decoded array and of a decoded object.
abbrev pub items_length : Items → ℕ
items_length nil = 0
items_length (cons v vs) = suc (items_length vs)

abbrev pub members_length : Members → ℕ
members_length end = 0
members_length (member k v ms) = suc (members_length ms)

-- `v, present := object[name]`.
unfoldable pub find : Bytes → Members → Option Json
unfolding equal
find name end = none
find name (member k v ms) = if equal k name then some v else find name ms
