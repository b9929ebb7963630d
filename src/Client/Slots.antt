-- ===== src/Client/Slots.antt =====
-- TransportManager of lib/transport.ts with overlapping calls, one id at a time.
use sshclient_sftp_wasm.Base.{
  ℕ, suc, ◌≡◌, refl, ap, ◌∙◌, ◌⊎◌, inl, inr, Bool, true, false, Bool-cases, if◌then◌else◌, Option,
  none, some, List, [], ◌∷◌, ◌++◌, append-nil, Text, text_eq, text_eq_refl,
}
use sshclient_sftp_wasm.Client.Program.{Outcome, resolved, rejected}
use sshclient_sftp_wasm.Client.State.{
  Transport, Call, wasm_close_transport, wasm_create_transport, get,
}
use sshclient_sftp_wasm.Client.Transports.{
  get-set, get-set_other, get-delete, get-delete_other, text_eq-trans_false,
}
use sshclient_sftp_wasm.Client.Interleaved.{
  Sharing, Moment, creates, close_starts, close_settles, id_of, noted, held_since, close_started,
  removed, close_ended, waits, without_one, manager_step, slot_asked, filled, closing_more, emptied,
  closed_slot, closing_less, slot_step, count_waiting, calls_for, slot,
}

calls_for-append :
    (i : Text) (ks ls : List (Text × Call))
    → calls_for i (ks ++ ls) ≡ calls_for i ks ++ calls_for i ls
unfolding calls_for
calls_for-append i [] ls = refl
calls_for-append i ((j, k) ∷ ks) ls = elim (Bool-cases (text_eq i j)) [
  | inl p ↦ rw (p, calls_for-append i ks ls) refl
  | inr p ↦ rw (p, calls_for-append i ks ls) refl
]

calls_for_own :
    (i : Text) (k : Call) (ks : List (Text × Call))
    → calls_for i (ks ++ ((i, k) ∷ [])) ≡ calls_for i ks ++ (k ∷ [])
unfolding calls_for
calls_for_own i k ks = rw (calls_for-append i ks _, text_eq_refl i) refl

calls_for_other :
    (i j : Text) (k : Call) (ks : List (Text × Call))
    → text_eq i j ≡ false
    → calls_for i (ks ++ ((j, k) ∷ [])) ≡ calls_for i ks
unfolding calls_for
calls_for_other i j k ks h = rw (calls_for-append i ks _, h, append-nil (calls_for i ks)) refl

waits-count :
    (i : Text) (js : List Text)
    → ((waits i js ≡ false) × (count_waiting i js ≡ 0))
      ⊎ ((waits i js ≡ true) × (count_waiting i js ≡ suc (count_waiting i (without_one i js))))
unfolding waits count_waiting without_one
waits-count i [] = inl (refl, refl)
waits-count i (j ∷ js) = elim (Bool-cases (text_eq i j)) [
  | inl p ↦ rw p (inr (refl, refl))
  | inr p ↦ elim (waits-count i js) [
    | inl (a, b) ↦ rw p (inl (a, b))
    | inr (a, b) ↦ rw (p, p) (inr (a, b))
  ]
]

count-without_other :
    (i k : Text) (js : List Text)
    → text_eq i k ≡ false
    → count_waiting i (without_one k js) ≡ count_waiting i js
unfolding count_waiting without_one
count-without_other i k [] h = refl
count-without_other i k (j ∷ js) h = elim (Bool-cases (text_eq k j)) [
  | inl p ↦ rw (p, text_eq-trans_false i k j h p) refl
  | inr p ↦ rw (p, count_waiting, count-without_other i k js h) refl
]

slot-noted : (i : Text) (k : Call) (s : Sharing) → slot i (noted i k s) ≡ slot_asked k (slot i s)
slot-noted i k s = rw (calls_for_own i k s.log) refl

slot-noted_other :
    (i j : Text) (k : Call) (s : Sharing) → text_eq i j ≡ false → slot i (noted j k s) ≡ slot i s
slot-noted_other i j k s h = rw (calls_for_other i j k s.log h) refl

held_since-slot :
    (t : Transport) (r : Outcome (Unit {0})) (s : Sharing)
    → slot t.id (held_since t r s) ≡ filled t.object r (slot t.id s)
held_since-slot t (resolved u) s = rw (get-set t.id t.object s.transports) refl
held_since-slot t (rejected e) s = refl

held_since_other :
    (i : Text) (t : Transport) (r : Outcome (Unit {0})) (s : Sharing)
    → text_eq i t.id ≡ false
    → slot i (held_since t r s) ≡ slot i s
held_since_other i t (resolved u) s h = rw (get-set_other i t.id t.object s.transports h) refl
held_since_other i t (rejected e) s h = refl

removed-slot :
    (i : Text) (q : Outcome (Unit {0})) (s : Sharing)
    → slot i (removed i q s) ≡ emptied q (slot i s)
removed-slot i (resolved u) s = rw (get-delete i s.transports) refl
removed-slot i (rejected e) s = refl

removed_other :
    (i j : Text) (q : Outcome (Unit {0})) (s : Sharing)
    → text_eq i j ≡ false
    → slot i (removed j q s) ≡ slot i s
removed_other i j (resolved u) s h = rw (get-delete_other i j s.transports h) refl
removed_other i j (rejected e) s h = refl

close_started-slot :
    (i : Text) (o : Option ℕ) (s : Sharing)
    → slot i (close_started i o s) ≡ closing_more o (slot i s)
unfolding count_waiting
close_started-slot i none s = refl
close_started-slot i (some o) s = rw (calls_for_own i _ s.log, text_eq_refl i) refl

close_started_other :
    (i j : Text) (o : Option ℕ) (s : Sharing)
    → text_eq i j ≡ false
    → slot i (close_started j o s) ≡ slot i s
unfolding count_waiting
close_started_other i j none s h = refl
close_started_other i j (some o) s h = rw (calls_for_other i j _ s.log h, h) refl

ended-slot :
    (w : Bool) (i : Text) (q : Outcome (Unit {0})) (s : Sharing)
    → slot i
        (if w then removed i q (noted i (wasm_close_transport i) s) else removed i (resolved tt) s)
      ≡ (if w
          then emptied q (slot_asked (wasm_close_transport i) (slot i s))
          else emptied (resolved tt) (slot i s))
ended-slot true i q s =
    removed-slot i q (noted i (wasm_close_transport i) s)
    ∙ ap (emptied q) (slot-noted i (wasm_close_transport i) s)
ended-slot false i q s = removed-slot i (resolved tt) s

close_ended-slot :
    (i : Text) (r q : Outcome (Unit {0})) (s : Sharing)
    → slot i (close_ended i r q s) ≡ closed_slot s.wasm_set i r q (slot i s)
close_ended-slot i (rejected e) q s = refl
close_ended-slot i (resolved u) q s = ended-slot s.wasm_set i q s

ended_other :
    (w : Bool) (i j : Text) (q : Outcome (Unit {0})) (s : Sharing)
    → text_eq i j ≡ false
    → slot i
        (if w then removed j q (noted j (wasm_close_transport j) s) else removed j (resolved tt) s)
      ≡ slot i s
ended_other true i j q s h =
    removed_other i j q (noted j (wasm_close_transport j) s) h
    ∙ slot-noted_other i j (wasm_close_transport j) s h
ended_other false i j q s h = removed_other i j (resolved tt) s h

close_ended_other :
    (i j : Text) (r q : Outcome (Unit {0})) (s : Sharing)
    → text_eq i j ≡ false
    → slot i (close_ended j r q s) ≡ slot i s
close_ended_other i j (rejected e) q s h = refl
close_ended_other i j (resolved u) q s h = ended_other s.wasm_set i j q s h

creating :
    (w : Bool) (t : Transport) (r : Outcome (Unit {0})) (s : Sharing)
    → slot t.id (if w then held_since t r (noted t.id (wasm_create_transport t.id) s) else s) ≡ (
        if w
        then filled t.object r (slot_asked (wasm_create_transport t.id) (slot t.id s))
        else slot t.id s)
creating true t r s =
    held_since-slot t r (noted t.id (wasm_create_transport t.id) s)
    ∙ ap (filled t.object r) (slot-noted t.id (wasm_create_transport t.id) s)
creating false t r s = refl

creating_other :
    (w : Bool) (i : Text) (t : Transport) (r : Outcome (Unit {0})) (s : Sharing)
    → text_eq i t.id ≡ false
    → slot i (if w then held_since t r (noted t.id (wasm_create_transport t.id) s) else s)
      ≡ slot i s
creating_other true i t r s h =
    held_since_other i t r (noted t.id (wasm_create_transport t.id) s) h
    ∙ slot-noted_other i t.id (wasm_create_transport t.id) s h
creating_other false i t r s h = refl

settling-slot :
    (i : Text) (r q : Outcome (Unit {0})) (s : Sharing)
    → slot i (manager_step (close_settles i r q) s)
      ≡ closing_less s.wasm_set i r q (count_waiting i s.waiting) (slot i s)
unfolding manager_step
settling-slot i r q s = elim (waits-count i s.waiting) [
  | inl (a, b) ↦ rw (a, b) refl
  | inr (a, b) ↦ rw (a, b) (close_ended-slot i r q (record s { waiting = without_one i s.waiting }))
]

settling_other :
    (i j : Text) (r q : Outcome (Unit {0})) (s : Sharing)
    → text_eq i j ≡ false
    → slot i (manager_step (close_settles j r q) s) ≡ slot i s
unfolding manager_step
settling_other i j r q s h = elim (Bool-cases (waits j s.waiting)) [
  | inl p ↦ rw p (
      close_ended_other i j r q (record s { waiting = without_one j s.waiting }) h
      ∙ ap (λ n. record (slot i s) { closing = n }) (count-without_other i j s.waiting h))
  | inr p ↦ rw p refl
]

pub step-slot_step :
    (m : Moment) (s : Sharing)
    → slot (id_of m) (manager_step m s) ≡ slot_step s.wasm_set m (slot (id_of m) s)
unfolding manager_step slot_step
step-slot_step (creates t r) s = creating s.wasm_set t r s
step-slot_step (close_starts i) s = close_started-slot i (get i s.transports) s
step-slot_step (close_settles i r q) s = settling-slot i r q s

pub step_other :
    (i : Text) (m : Moment) (s : Sharing)
    → text_eq i (id_of m) ≡ false
    → slot i (manager_step m s) ≡ slot i s
unfolding manager_step
step_other i (creates t r) s h = creating_other s.wasm_set i t r s h
step_other i (close_starts j) s h = close_started_other i j (get j s.transports) s h
step_other i (close_settles j r q) s h = settling_other i j r q s h
