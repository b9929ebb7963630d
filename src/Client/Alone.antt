-- ===== src/Client/Alone.antt =====
-- A call of `closeTransport` of lib/transport.ts that nothing overlaps, in its two parts and as one
-- program.
use sshclient_sftp_wasm.Base.{
  ℕ, ◌≡◌, refl, ap, Bool, true, false, some, List, [], ◌∷◌, ◌++◌, each, Text, text_eq_refl,
}
use sshclient_sftp_wasm.Client.Program.{Outcome, resolved, rejected}
use sshclient_sftp_wasm.Client.State.{
  Call, transport_disconnect, wasm_close_transport, Env, Client, get,
}
use sshclient_sftp_wasm.Client.Manager.{close_transport}
use sshclient_sftp_wasm.Client.Interleaved.{
  Sharing, close_starts, close_settles, waits, without_one, manager_step,
}

unfoldable calls_of : List (Text × Call) → List Call
calls_of [] = []
calls_of ((i, k) ∷ ks) = k ∷ calls_of ks

calls_of-append :
    (ks : List (Text × Call)) (i : Text) (k : Call)
    → calls_of (ks ++ ((i, k) ∷ [])) ≡ calls_of ks ++ (k ∷ [])
unfolding calls_of
calls_of-append [] i k = refl
calls_of-append ((j, l) ∷ ks) i k = ap (λ ls. l ∷ ls) (calls_of-append ks i k)

-- The client whose manager is in this state.
abbrev client_of : Client → Sharing → Client
client_of c s = record c {
  wasm_set = s.wasm_set;
  transports = s.transports;
  calls = calls_of s.log;
}

abbrev sharing : Bool → List (Text × ℕ) → List Text → List (Text × Call) → Sharing
sharing w ts js ks = record { wasm_set = w; transports = ts; waiting = js; log = ks }

abbrev asked_to_disconnect : ℕ → List (Text × Call) → List Call
asked_to_disconnect o ks = calls_of ks ++ (transport_disconnect o ∷ [])

ended_alone :
    (env : Env) (i : Text) (o : ℕ) (w : Bool) (ts : List (Text × ℕ)) (js : List Text)
    (ks : List (Text × Call)) (c : Client) (r q : Outcome (Unit {0}))
    → env.disconnects (calls_of ks) o ≡ r
    → env.closes (asked_to_disconnect o ks) i ≡ q
    → get i ts ≡ some o
    → (close_transport env i (client_of c (sharing w ts js ks))).1
      ≡ client_of c
          (each manager_step (close_starts i ∷ close_settles i r q ∷ []) (sharing w ts js ks))
unfolding close_transport manager_step waits without_one
ended_alone env i o w ts js ks c (rejected e) q a b g =
    rw (g, a, text_eq_refl i, calls_of-append ks i (transport_disconnect o)) refl
ended_alone env i o true ts js ks c (resolved u) (resolved v) a b g =
    rw
      (
        g,
        a,
        b,
        text_eq_refl i,
        calls_of-append (ks ++ _) i (wasm_close_transport i),
        calls_of-append ks i (transport_disconnect o),
      )
      refl
ended_alone env i o true ts js ks c (resolved u) (rejected e) a b g =
    rw
      (
        g,
        a,
        b,
        text_eq_refl i,
        calls_of-append (ks ++ _) i (wasm_close_transport i),
        calls_of-append ks i (transport_disconnect o),
      )
      refl
ended_alone env i o false ts js ks c (resolved u) q a b g =
    rw (g, a, text_eq_refl i, calls_of-append ks i (transport_disconnect o)) refl

-- A call of `closeTransport` that nothing overlaps is its two parts, one after the other, with what
-- the calls of foreign code come to at that point.
close_transport_alone :
    (env : Env) (i : Text) (o : ℕ) (c : Client) (s : Sharing)
    → get i s.transports ≡ some o
    → (close_transport env i (client_of c s)).1
      ≡ client_of c (
          each manager_step
            (close_starts i
              ∷ close_settles i
                  (env.disconnects (calls_of s.log) o)
                  (env.closes (asked_to_disconnect o s.log) i)
              ∷ [])
            s)
close_transport_alone env i o c s g =
    ended_alone env i o s.wasm_set s.transports s.waiting s.log c _ _ refl refl g
