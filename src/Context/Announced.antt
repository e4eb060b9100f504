-- ===== src/Context/Announced.antt =====
-- Whom a received message is announced to: the callback `new_message_cb` of include/libsmp.h.
use libsmp.Base.{List, [], ◌∷◌, if◌then◌else◌}
use libsmp.Message.Store.{Message}
use libsmp.Context.State.{Context}
use libsmp.Context.Receive.{Event, new_message}

-- The user hears of the message once, where the callback is given.
abbrev pub announced : Context → Message → List Event
announced ctx msg = if ctx.cbs.has_new_message_cb then new_message msg ∷ [] else []
