-- ===== src/Poll/Handler.antt =====
-- An EventHandler: four callbacks and four flags. A callback is a value of `C`, and an empty
-- std::function is `none`.
use kknet.Prelude.{Bool, true, false, Option, none, some, List, [], ◌∷◌, ◌++◌}

-- `EventType` of typedef.h
pub data EventType : Type 0 where
  read write error close : EventType

pub record EventHandler (C : Type 0) : Type 0 where
  pub read_callback : Option C
  pub write_callback : Option C
  pub error_callback : Option C
  pub close_callback : Option C
  pub read : Bool
  pub write : Bool
  pub error : Bool
  pub close : Bool

module _ {C : Type 0} where
  unfoldable pub set_event_flag : EventHandler C → EventType → EventHandler C
  set_event_flag h EventType.close = record h { close = true }
  set_event_flag h EventType.read = record h { read = true }
  set_event_flag h EventType.write = record h { write = true }
  set_event_flag h EventType.error = record h { error = true }

  abbrev pub clear_event : EventHandler C → EventHandler C
  clear_event h = record h { read = false; write = false; error = false; close = false }

  -- The callback, if the flag is up and it is not empty.
  abbrev pub fire : Bool → Option C → List C
  fire true (some c) = c ∷ []
  fire true none = []
  fire false o = []

  -- The callbacks that are called, in order, and the handler afterwards.
  unfoldable pub handle_events : EventHandler C → List C × EventHandler C
  handle_events h = (
    fire h.close h.close_callback
        ++ fire h.read h.read_callback
        ++ fire h.write h.write_callback
        ++ fire h.error h.error_callback,
    clear_event h,
  )
