-- ===== src/Client/Interleaved.antt =====
-- TransportManager of lib/transport.ts where its methods overlap: `closeTransport` runs up to its
-- `await` when it is called, and goes on when the promise of `disconnect` settles.
use sshclient_sftp_wasm.Base.{
  ℕ, zero, suc, Bool, true, false, Option, none, some, List, [], ◌∷◌, ◌++◌, if◌then◌else◌, Text,
  text_eq,
}
use sshclient_sftp_wasm.Client.Program.{Outcome, resolved, rejected}
use sshclient_sftp_wasm.Client.State.{
  Transport, Call, transport_disconnect, wasm_close_transport, wasm_create_transport, get, delete,
  set,
}

-- The manager: its Map, the ids of the calls of `closeTransport` that wait, and what has been called
-- for which id.
pub record Sharing : Type 0 where
  pub wasm_set : Bool
  pub transports : List (Text × ℕ)
  pub waiting : List Text
  pub log : List (Text × Call)

-- `createTransport` is called, and the module's `createTransport` comes to an outcome;
-- `closeTransport` is called; the promise of `disconnect` that a call of it waits for settles, and
-- the module's `closeTransport` would come to an outcome.
pub data Moment : Type 0 where
  creates : Transport → Outcome (Unit {0}) → Moment
  close_starts : Text → Moment
  close_settles : Text → Outcome (Unit {0}) → Outcome (Unit {0}) → Moment

abbrev pub id_of : Moment → Text
id_of (creates t r) = t.id
id_of (close_starts i) = i
id_of (close_settles i r q) = i

abbrev pub noted : Text → Call → Sharing → Sharing
noted i k s = record s { log = s.log ++ ((i, k) ∷ []) }

-- What `createTransport` does with the Map behind the module's outcome.
abbrev pub held_since : Transport → Outcome (Unit {0}) → Sharing → Sharing
held_since t (resolved u) s = record s { transports = set t.id t.object s.transports }
held_since t (rejected e) s = s

abbrev pub close_started : Text → Option ℕ → Sharing → Sharing
close_started i none s = s
close_started i (some o) s = noted i (transport_disconnect o) (record s { waiting = i ∷ s.waiting })

abbrev pub removed : Text → Outcome (Unit {0}) → Sharing → Sharing
removed i (resolved u) s = record s { transports = delete i s.transports }
removed i (rejected e) s = s

-- The part of `closeTransport` behind its `await`.
abbrev pub close_ended : Text → Outcome (Unit {0}) → Outcome (Unit {0}) → Sharing → Sharing
close_ended i (resolved u) q s =
    if s.wasm_set
    then removed i q (noted i (wasm_close_transport i) s)
    else removed i (resolved tt) s
close_ended i (rejected e) q s = s

-- Does a call for the id wait? And the list without one such call.
unfoldable pub waits : Text → List Text → Bool
waits i [] = false
waits i (j ∷ js) = if text_eq i j then true else waits i js

unfoldable pub without_one : Text → List Text → List Text
without_one i [] = []
without_one i (j ∷ js) = if text_eq i j then js else j ∷ without_one i js

unfoldable pub manager_step : Moment → Sharing → Sharing
manager_step (creates t r) s =
    if s.wasm_set then held_since t r (noted t.id (wasm_create_transport t.id) s) else s
manager_step (close_starts i) s = close_started i (get i s.transports) s
manager_step (close_settles i r q) s =
    if waits i s.waiting
    then close_ended i r q (record s { waiting = without_one i s.waiting })
    else s

-- What a manager of one id does: the transport it holds, how many calls of `closeTransport` wait, and
-- what has been called.
pub record Slot : Type 0 where
  pub held : Option ℕ
  pub closing : ℕ
  pub calls : List Call

abbrev pub slot_asked : Call → Slot → Slot
slot_asked k s = record s { calls = s.calls ++ (k ∷ []) }

abbrev pub filled : ℕ → Outcome (Unit {0}) → Slot → Slot
filled o (resolved u) s = record s { held = some o }
filled o (rejected e) s = s

abbrev pub closing_more : Option ℕ → Slot → Slot
closing_more none s = s
closing_more (some o) s = slot_asked (transport_disconnect o) (record s { closing = suc s.closing })

abbrev pub emptied : Outcome (Unit {0}) → Slot → Slot
emptied (resolved u) s = record s { held = none }
emptied (rejected e) s = s

abbrev pub closed_slot : Bool → Text → Outcome (Unit {0}) → Outcome (Unit {0}) → Slot → Slot
closed_slot w i (resolved u) q s =
    if w then emptied q (slot_asked (wasm_close_transport i) s) else emptied (resolved tt) s
closed_slot w i (rejected e) q s = s

abbrev pub closing_less : Bool → Text → Outcome (Unit {0}) → Outcome (Unit {0}) → ℕ → Slot → Slot
closing_less w i r q zero s = s
closing_less w i r q (suc n) s = closed_slot w i r q (record s { closing = n })

unfoldable pub slot_step : Bool → Moment → Slot → Slot
slot_step w (creates t r) s =
    if w then filled t.object r (slot_asked (wasm_create_transport t.id) s) else s
slot_step w (close_starts i) s = closing_more s.held s
slot_step w (close_settles i r q) s = closing_less w i r q s.closing s

-- What the manager has for one id, and the moments of one id.
unfoldable pub count_waiting : Text → List Text → ℕ
count_waiting i [] = 0
count_waiting i (j ∷ js) = if text_eq i j then suc (count_waiting i js) else count_waiting i js

unfoldable pub calls_for : Text → List (Text × Call) → List Call
calls_for i [] = []
calls_for i ((j, k) ∷ ks) = if text_eq i j then k ∷ calls_for i ks else calls_for i ks

abbrev pub slot : Text → Sharing → Slot
slot i s = record {
  held = get i s.transports;
  closing = count_waiting i s.waiting;
  calls = calls_for i s.log;
}

unfoldable pub only_for : Text → List Moment → List Moment
only_for i [] = []
only_for i (m ∷ ms) = if text_eq i (id_of m) then m ∷ only_for i ms else only_for i ms
