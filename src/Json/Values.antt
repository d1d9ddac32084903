-- ===== src/Json/Values.antt =====
-- The values of JSON, as `encoding/json` reads them.
use cribe.Prelude.{String, Bool}

-- A number is its text. The members of an object stand in their order, those with one key too.
mutual
  pub data Json : Type 0 where
    null : Json
    boolean : Bool → Json
    number : String → Json
    text : String → Json
    array : Items → Json
    object : Members → Json

  pub data Items : Type 0 where
    no_items : Items
    item : Json → Items → Items

  pub data Members : Type 0 where
    no_members : Members
    member : String → Json → Members → Members

unfoldable pub add_item : Items → Json → Items
add_item no_items v = item v no_items
add_item (item w xs) v = item w (add_item xs v)

unfoldable pub add_member : Members → String → Json → Members
add_member no_members k v = member k v no_members
add_member (member j w ms) k v = member j w (add_member ms k v)
