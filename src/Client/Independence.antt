-- ===== src/Client/Independence.antt =====
-- Overlapping calls of TransportManager of lib/transport.ts for different ids, and for one id that is
-- used again.
use sshclient_sftp_wasm.Base.{
  ℕ, ◌≡◌, refl, ap, ◌∙◌, Bool, true, false, Bool-cases, if◌then◌else◌, inl, inr, Option, none, some,
  List, [], ◌∷◌, ◌++◌, append_assoc, each, Text, text_eq, text_eq→eq,
}
use sshclient_sftp_wasm.Client.Program.{Outcome, resolved, rejected}
use sshclient_sftp_wasm.Client.State.{
  Transport, transport_disconnect, wasm_close_transport, wasm_create_transport, get,
}
use sshclient_sftp_wasm.Client.Interleaved.{
  Sharing, Moment, creates, close_starts, close_settles, id_of, held_since, close_started, removed,
  close_ended, waits, manager_step, Slot, slot_step, calls_for, slot, only_for,
}
use sshclient_sftp_wasm.Client.Slots.{step-slot_step, step_other}

if_flag :
    (w b : Bool) (x y : Sharing)
    → x.wasm_set ≡ b
    → y.wasm_set ≡ b
    → (if w then x else y).wasm_set ≡ b
if_flag true b x y p q = p
if_flag false b x y p q = q

removed_flag :
    (i : Text) (q : Outcome (Unit {0})) (s : Sharing) → (removed i q s).wasm_set ≡ s.wasm_set
removed_flag i (resolved u) s = refl
removed_flag i (rejected e) s = refl

close_ended_flag :
    (i : Text) (r q : Outcome (Unit {0})) (s : Sharing)
    → (close_ended i r q s).wasm_set ≡ s.wasm_set
close_ended_flag i (rejected e) q s = refl
close_ended_flag i (resolved u) q s =
    if_flag s.wasm_set _ _ _ (removed_flag i q _) (removed_flag i (resolved tt) s)

held_since_flag :
    (t : Transport) (r : Outcome (Unit {0})) (s : Sharing)
    → (held_since t r s).wasm_set ≡ s.wasm_set
held_since_flag t (resolved u) s = refl
held_since_flag t (rejected e) s = refl

close_started_flag :
    (i : Text) (o : Option ℕ) (s : Sharing) → (close_started i o s).wasm_set ≡ s.wasm_set
close_started_flag i none s = refl
close_started_flag i (some o) s = refl

step_flag : (m : Moment) (s : Sharing) → (manager_step m s).wasm_set ≡ s.wasm_set
unfolding manager_step
step_flag (creates t r) s = if_flag s.wasm_set _ _ _ (held_since_flag t r _) refl
step_flag (close_starts i) s = close_started_flag i (get i s.transports) s
step_flag (close_settles i r q) s =
    if_flag (waits i s.waiting) _ _ _ (close_ended_flag i r q _) refl

step-slot_step_at :
    (i : Text) (m : Moment) (s : Sharing)
    → text_eq i (id_of m) ≡ true
    → slot i (manager_step m s) ≡ slot_step s.wasm_set m (slot i s)
step-slot_step_at i m s h = rw (text_eq→eq i (id_of m) h) (step-slot_step m s)

-- However the calls of `createTransport` and `closeTransport` for all ids overlap, what the manager
-- holds for an id, how many calls of `closeTransport` for it wait, and what is called for it, is what
-- a manager of this one id comes to over the moments of this id alone.
pub slots_independent :
    (i : Text) (ms : List Moment) (s : Sharing)
    → slot i (each manager_step ms s) ≡ each (slot_step s.wasm_set) (only_for i ms) (slot i s)
unfolding only_for
slots_independent i [] s = refl
slots_independent i (m ∷ ms) s = elim (Bool-cases (text_eq i (id_of m))) [
  | inl p ↦ rw p (
      slots_independent i ms (manager_step m s)
      ∙ rw (step_flag m s, step-slot_step_at i m s p) refl)
  | inr p ↦
      rw p (slots_independent i ms (manager_step m s) ∙ rw (step_flag m s, step_other i m s p) refl)
]

in_order :
    {A : Type 0} (ks : List A) (x y z : A)
    → ((ks ++ (x ∷ [])) ++ (y ∷ [])) ++ (z ∷ []) ≡ ks ++ (x ∷ y ∷ z ∷ [])
in_order ks x y z =
    rw (append_assoc ks (x ∷ []) (y ∷ []), append_assoc ks (x ∷ y ∷ []) (z ∷ [])) refl

-- The moments of an id that is used again while its transport is being closed.
abbrev pub reused : Transport → List Moment
reused t =
    close_starts t.id
    ∷ creates t (resolved tt)
    ∷ close_settles t.id (resolved tt) (resolved tt)
    ∷ []

each-reused :
    (t : Transport) (o : ℕ) (w : Bool) (ms : List Moment) (s : Slot)
    → w ≡ true
    → s.held ≡ some o
    → ms ≡ reused t
    → let d = each (slot_step w) ms s in
      (d.held ≡ none)
      × (d.calls
          ≡ s.calls
            ++ (transport_disconnect o
                ∷ wasm_create_transport t.id
                ∷ wasm_close_transport t.id
                ∷ []))
unfolding slot_step
each-reused t o w ms s p q h = rw (h, p, q) (refl, in_order s.calls _ _ _)

-- A transport that is created under the id of another one, whose `closeTransport` waits for its
-- `disconnect`, is closed in the module and taken from the Map with that one, and never disconnected.
pub reused_id_lost :
    (t : Transport) (o : ℕ) (ms : List Moment) (s : Sharing)
    → s.wasm_set ≡ true
    → get t.id s.transports ≡ some o
    → only_for t.id ms ≡ reused t
    → let d = each manager_step ms s in
      (get t.id d.transports ≡ none)
      × (calls_for t.id d.log
          ≡ calls_for t.id s.log
            ++ (transport_disconnect o
                ∷ wasm_create_transport t.id
                ∷ wasm_close_transport t.id
                ∷ []))
reused_id_lost t o ms s w g h =
    rw (ap Slot.held (slots_independent t.id ms s), ap Slot.calls (slots_independent t.id ms s))
      (each-reused t o s.wasm_set (only_for t.id ms) (slot t.id s) w g h)
