-- ===== src/Handler.antt =====
-- src/handler.rs: one constructor of `Event` for each callback of `ContentHandler` that reports
-- something. The handler is the caller's code: its state has any type, and a callback gives the
-- next state and `Ok` or its error.
use rjsonparser.Prelude.{Bool, Bytes}
use rjsonparser.Error.{Result}
use rjsonparser.Number.{Number}
use rjsonparser.Locator.{SharedLocator}

pub data Event (F : Type 0) : Type 0 where
  start_object end_object start_array end_array : Event F
  number_value : Number F → Event F
  start_string_value : Event F
  string_value_content : Bytes → Event F
  end_string_value : Event F
  boolean_value : Bool → Event F
  null_value : Event F
  whitespace : Bytes → Event F
  key : Bytes → Event F

-- `report` also sees the locator, which a handler may keep and read inside a callback.
pub record ContentHandler (F H : Type 0) : Type 0 where
  pub report : Event F → SharedLocator → H → Result (Unit {0}) × H
  pub set_locator : H → H
  pub needs_whitespace : H → Bool
