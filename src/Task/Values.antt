-- ===== src/Task/Values.antt =====
-- The JSON values that metadata and checkpoint payloads hold.
use novel_crawler.Prelude.{Bool, String}

mutual
  -- A number stands by its JSON text: the program never computes with one.
  pub data Value : Type 0 where
    null : Value
    bool : Bool → Value
    number : String → Value
    text : String → Value
    array : Items → Value
    object : Fields → Value

  pub data Items : Type 0 where
    nil : Items
    item : Value → Items → Items

  pub data Fields : Type 0 where
    end : Fields
    field : String → Value → Fields → Fields
