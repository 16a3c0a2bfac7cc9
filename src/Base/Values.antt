-- ===== src/Base/Values.antt =====
-- JSON values as Python holds them: the payloads that pass through the services.
use Prim.Native.String.{String}
use mathlib.Core.Bool.{Bool}

mutual
  pub data Json : Type 0 where
    null : Json
    boolean : Bool → Json
    -- a number, by the text that `json.dumps` prints for it
    number : String → Json
    text : String → Json
    array : Items → Json
    object : Fields → Json

  pub data Items : Type 0 where
    end : Items
    item : Json → Items → Items

  pub data Fields : Type 0 where
    stop : Fields
    field : String → Json → Fields → Fields
