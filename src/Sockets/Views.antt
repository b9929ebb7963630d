-- ===== src/Sockets/Views.antt =====
-- What WebSocketTransport of lib/transport.ts puts on the wire, and what the other end gets.
use sshclient_sftp_wasm.Base.{
  ℕ, zero, ◌≡◌, ◌≤◌, refl, sym, ap, ◌∙◌, true, some, List, [], ◌∷◌, ◌++◌, map, take, drop, length,
  All, each, arith, Bytes, append_assoc, append-nil, append_cancel_left, suc,
}
use sshclient_sftp_wasm.Tunnel.State.{ws_open}
use sshclient_sftp_wasm.Client.Program.{resolved}
use sshclient_sftp_wasm.Sockets.WebSocketTransport.{
  Uint8Array, elements, SocketEffect, sent, data_out, WebSocketTransport, emit, Message, binary,
  on_message, send, send_on, is_open, call_back,
}

-- The messages that a socket was given, as the other end's socket reports them.
abbrev pub messages : List SocketEffect → List Message
messages [] = []
messages (sent b ∷ es) = binary b ∷ messages es
messages (e ∷ es) = messages es

send_open :
    (v : Uint8Array) (t : WebSocketTransport)
    → t.ws ≡ some ws_open
    → send v t ≡ (resolved tt, emit (sent v.buffer) t)
unfolding send
send_open v t p = ap (λ s. send_on (is_open s) v t) p

-- The view covers its buffer.
abbrev pub IsWhole : Uint8Array → Type 0
IsWhole v = (v.offset ≡ 0) × (length v.buffer ≤ v.count)

take_all : (n : ℕ) (xs : Bytes) → length xs ≤ n → take n xs ≡ xs
unfolding take
take_all zero [] h = refl
take_all zero (x ∷ xs) h = absurd (omega arith)
take_all (suc n) [] h = refl
take_all (suc n) (x ∷ xs) h = ap (◌∷◌ x) (take_all n xs (omega arith))

drop_none : (n : ℕ) (xs : Bytes) → n ≡ 0 → drop n xs ≡ xs
unfolding drop
drop_none zero xs h = refl
drop_none (suc n) xs h = absurd (omega arith)

elements_whole : (v : Uint8Array) → IsWhole v → elements v ≡ v.buffer
elements_whole v h = rw (drop_none v.offset v.buffer h.0) (take_all v.count v.buffer h.1)

messages-append : (es fs : List SocketEffect) → messages (es ++ fs) ≡ messages es ++ messages fs
messages-append [] fs = refl
messages-append (sent b ∷ es) fs = ap (◌∷◌ (binary b)) (messages-append es fs)
messages-append (e ∷ es) fs = messages-append es fs

abbrev pub send_step : Uint8Array → WebSocketTransport → WebSocketTransport
send_step v t = (send v t).1

each-send_open :
    (vs : List Uint8Array) (t : WebSocketTransport)
    → t.ws ≡ some ws_open
    → messages (each send_step vs t).effects ≡ messages t.effects ++ map (λ v. binary v.buffer) vs
each-send_open [] t p = sym (append-nil (messages t.effects))
each-send_open (v ∷ vs) t p =
    ap (λ r. messages (each send_step vs r.1).effects) (send_open v t p)
    ∙ each-send_open vs (emit (sent v.buffer) t) p
    ∙ rw (messages-append t.effects (sent v.buffer ∷ [])) (append_assoc (messages t.effects) _ _)

on_message_binary :
    (v : Uint8Array) (r : WebSocketTransport)
    → IsWhole v
    → r.has_on_data ≡ true
    → on_message (binary v.buffer) r ≡ emit (data_out (elements v)) r
unfolding on_message
on_message_binary v r h p =
    ap (λ b. call_back b (data_out v.buffer) r) p
    ∙ ap (λ b. emit (data_out b) r) (sym (elements_whole v h))

each-on_message :
    (vs : List Uint8Array) (r : WebSocketTransport)
    → All IsWhole vs
    → r.has_on_data ≡ true
    → each on_message (map (λ v. binary v.buffer) vs) r
      ≡ record r { effects = r.effects ++ map (λ v. data_out (elements v)) vs }
each-on_message [] r h p = ap (λ es. record r { effects = es }) (sym (append-nil r.effects))
each-on_message (v ∷ vs) r h p =
    ap (each on_message (map (λ x. binary x.buffer) vs)) (on_message_binary v r h.0 p)
    ∙ each-on_message vs (emit (data_out (elements v)) r) h.1 p
    ∙ ap (λ es. record r { effects = es }) (append_assoc r.effects _ _)

-- Views that cover their buffers, sent on an open socket: when the other end's socket reports the
-- messages that the calls added, in order, its owner is given exactly the views' elements, in order,
-- one call of onData for each view, and nothing else happens there.
pub views_arrive :
    (vs : List Uint8Array) (t r : WebSocketTransport) (ms : List Message)
    → All IsWhole vs
    → t.ws ≡ some ws_open
    → r.has_on_data ≡ true
    → messages (each send_step vs t).effects ≡ messages t.effects ++ ms
    → each on_message ms r ≡ record r { effects = r.effects ++ map (λ v. data_out (elements v)) vs }
views_arrive vs t r ms h p q e =
    ap (λ l. each on_message l r)
      (append_cancel_left (messages t.effects) _ _ (sym e ∙ each-send_open vs t p))
    ∙ each-on_message vs r h q
