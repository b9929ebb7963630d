-- ===== src/Tunnel/Pipe/Passing.antt =====
-- The pipe that specifies SecureTunnelTransport of lib/aws-iot-tunnel.ts: once it is open, all has
-- passed.
use sshclient_sftp_wasm.Base.{
  ◌≡◌, refl, sym, ap, ◌∙◌, true, Bool-cases, inl, inr, List, [], ◌∷◌, ◌++◌, concat, each, Bytes,
  append_assoc, append-nil,
}
use sshclient_sftp_wasm.Messages.Class.{Received}
use sshclient_sftp_wasm.Tunnel.State.{ClientMode}
use sshclient_sftp_wasm.Tunnel.Pipe.{
  Pipe, write, Operation, sends, receives, ends_handshake, specified,
}
use sshclient_sftp_wasm.Tunnel.Pipe.Refinement.{write_open, write_shut}
use sshclient_sftp_wasm.Tunnel.Pipe.Carried.{concat-append}

abbrev pub data_of : List Operation → List Bytes
data_of [] = []
data_of (sends d ∷ os) = d ∷ data_of os
data_of (receives m ∷ os) = data_of os

-- Nothing waits in an open pipe.
abbrev pub IsTidy : Pipe → Type 0
IsTidy p = p.has_opened ≡ true → p.waiting ≡ []

abbrev all_of : Pipe → Bytes
all_of p = p.passed ++ p.waiting

each-append {ℓ κ} :
    {A : Type ℓ} {S : Type κ} (f : A → S → S) (xs ys : List A) (s : S)
    → each f (xs ++ ys) s ≡ each f ys (each f xs s)
each-append f [] ys s = refl
each-append f (x ∷ xs) ys s = each-append f xs ys (f x s)

module _ (mode : ClientMode) where
  write-IsTidy : (d : Bytes) (p : Pipe) → IsTidy p → IsTidy (write d p)
  write-IsTidy d p t = elim (Bool-cases p.has_opened) [
    | inl e ↦ simp e (λ h. t e)
    | inr e ↦ simp e (λ h. cc)
  ]

  specified-IsTidy : (o : Operation) (p : Pipe) → IsTidy p → IsTidy (specified mode o p)
  specified-IsTidy (sends d) p t = write-IsTidy d p t
  specified-IsTidy (receives m) p t = elim (Bool-cases (ends_handshake mode m)) [
    | inl e ↦ rw e (λ h. refl)
    | inr e ↦ rw e t
  ]

  -- An operation adds its data to what has passed and what waits, behind the rest.
  all_of-specified :
      (o : Operation) (p : Pipe)
      → IsTidy p
      → all_of (specified mode o p) ≡ all_of p ++ concat (data_of (o ∷ []))
  all_of-specified (sends d) p t = elim (Bool-cases p.has_opened) [
    | inl e ↦ ap all_of (write_open d p e) ∙ simp (t e, append-nil)
    | inr e ↦ ap all_of (write_shut d p e) ∙ simp (append-nil, append_assoc)
  ]
  all_of-specified (receives m) p t = elim (Bool-cases (ends_handshake mode m)) [
    | inl e ↦ rw e refl
    | inr e ↦ rw e (sym (append-nil (all_of p)))
  ]

  data_of-cons :
      (o : Operation) (os : List Operation) → data_of (o ∷ os) ≡ data_of (o ∷ []) ++ data_of os
  data_of-cons (sends d) os = refl
  data_of-cons (receives m) os = refl

  all_of-each :
      (os : List Operation) (p : Pipe)
      → IsTidy p
      → (all_of (each (specified mode) os p) ≡ all_of p ++ concat (data_of os))
        × IsTidy (each (specified mode) os p)
  all_of-each [] p t = (sym (append-nil (all_of p)), t)
  all_of-each (o ∷ os) p t =
      let (rest, tidy) = all_of-each os (specified mode o p) (specified-IsTidy o p t) in
      (
        rest
            ∙ ap (λ x. x ++ concat (data_of os)) (all_of-specified o p t)
            ∙ append_assoc (all_of p) (concat (data_of (o ∷ []))) (concat (data_of os))
            ∙ ap (◌++◌ (all_of p)) (
                sym (concat-append (data_of (o ∷ [])) (data_of os))
                ∙ ap concat (sym (data_of-cons o os))),
        tidy,
      )

  -- A pipe that is open stays open.
  specified_open :
      (o : Operation) (p : Pipe) → p.has_opened ≡ true → (specified mode o p).has_opened ≡ true
  specified_open (sends d) p e = rw (write_open d p e) e
  specified_open (receives m) p e = elim (Bool-cases (ends_handshake mode m)) [
    | inl h ↦ rw h refl
    | inr h ↦ rw h e
  ]

  each_open :
      (os : List Operation) (p : Pipe)
      → p.has_opened ≡ true
      → (each (specified mode) os p).has_opened ≡ true
  each_open [] p e = e
  each_open (o ∷ os) p e = each_open os (specified mode o p) (specified_open o p e)

  opening :
      (m : Received) (p : Pipe)
      → ends_handshake mode m ≡ true
      → (specified mode (receives m) p).has_opened ≡ true
  opening m p h = rw h refl

  -- Once the pipe has been opened, all has passed.
  pub opened_passes :
      (before after : List Operation) (m : Received) (p : Pipe)
      → IsTidy p
      → ends_handshake mode m ≡ true
      → let r = each (specified mode) (before ++ (receives m ∷ after)) p in
        (r.has_opened ≡ true)
        × (r.waiting ≡ [])
        × (r.passed ≡ all_of p ++ concat (data_of (before ++ (receives m ∷ after))))
  opened_passes before after m p t h =
      let os = before ++ (receives m ∷ after) in
      let r = each (specified mode) os p in
      let between = each (specified mode) before p in
      let has_opened : r.has_opened ≡ true =
        rw (each-append (specified mode) before (receives m ∷ after) p)
          (each_open after (specified mode (receives m) between) (opening m between h)) in
      let (all, tidy) = all_of-each os p t in
      let none_waits : r.waiting ≡ [] = tidy has_opened in
      (
        has_opened,
        none_waits,
        sym (append-nil r.passed) ∙ ap (◌++◌ r.passed) (sym none_waits) ∙ all,
      )
