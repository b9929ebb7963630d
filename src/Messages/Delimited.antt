-- ===== src/Messages/Delimited.antt =====
-- What `decodeDelimited` shares in lib/aws-iot-tunnel/protobuf-messages.js and
-- lib/tunnel.js: a message behind its length is read from a reader that may hold more.
use sshclient_sftp_wasm.Base.{
  ℕ, zero, suc, ◌-◌, ◌≤◌, ◌≡◌, Option, none, some, [], ◌∷◌, ◌++◌, length, append_assoc,
  length-append, Option-cases, inl, inr, arith, Bytes,
}
use sshclient_sftp_wasm.Wire.{Wire, ReadsBack, Consumes, Extends, IsLocal, IsUint32}
use sshclient_sftp_wasm.Messages.Fields.{Decoded, ok, thrown, stuck, decode_loop, decode_all}

extended {ℓ} :
    {A : Type ℓ} (t : Bytes) (o o' : Option (A × Bytes)) (v : A) (r : Bytes)
    → o ≡ some (v, r)
    → Extends t o o'
    → o' ≡ some (v, r ++ t)
extended t none o' v r p e = cc
extended t (some (v', r')) o' v r p e = ground (arith, e)

bytes_left :
    (s t r : Bytes)
    → length r ≤ suc (length s)
    → suc (length s) - (suc (length (s ++ t)) - length (r ++ t)) ≡ length r
bytes_left s t r h = omega (arith, length-append s t, length-append r t)

module _ (w : Wire) where
  -- The package's `ldelim` puts the length of what a writer holds in front of it.
  abbrev pub Delimits : (Bytes → Bytes) → Type 0
  Delimits ldelim = (s : Bytes) → ldelim s ≡ w.write_uint32 (length s) ++ s

  module _ {ℓ} {M : Type ℓ} (read_field : ℕ → Bytes → M → Option (M × Bytes)) where
    -- `decode(reader, length)`, with the bytes that the reader holds and `end - reader.pos`; the
    -- last field may run past the end. The reader's rest is what the next call finds.
    unfoldable pub decode_within : ℕ → ℕ → Bytes → M → Decoded (M × Bytes)
    decode_within fuel zero s m = ok (m, s)
    decode_within zero (suc n) s m = stuck
    decode_within (suc fuel) (suc n) s m = elim (w.read_uint32 s) [
      | none ↦ thrown
      | some (tag, r) ↦ elim (read_field tag r m) [
        | none ↦ thrown
        | some (m', r') ↦ decode_within fuel (suc n - (length s - length r')) r' m'
      ]
    ]

    -- `this.decode(reader, reader.uint32())`. Each round takes a byte at least, so the length
    -- read is fuel enough.
    unfoldable pub decode_prefixed : Bytes → M → Decoded (M × Bytes)
    unfolding decode_within
    decode_prefixed s new = elim (w.read_uint32 s) [
      | none ↦ thrown
      | some (n, r) ↦ decode_within n n r new
    ]

    module _ (takes : Consumes w) (here : IsLocal w)
        (field_takes : (tag : ℕ) (s : Bytes) (m m' : M) (r : Bytes)
          → read_field tag s m ≡ some (m', r)
          → length r ≤ length s)
        (field_extends : (tag : ℕ) (s t : Bytes) (m : M)
          → Extends t (read_field tag s m) (read_field tag (s ++ t) m)) where
      -- The rounds of the bounded loop are those of the loop over the message's own bytes.
      decode_within-decode_loop :
          (fuel : ℕ) (s t : Bytes) (m r : M)
          → decode_loop w read_field fuel s m ≡ ok r
          → decode_within fuel (length s) (s ++ t) m ≡ ok (r, t)
      unfolding decode_loop decode_within
      decode_within-decode_loop zero [] t m r h = ground arith
      decode_within-decode_loop (suc fuel) [] t m r h = ground arith
      decode_within-decode_loop zero (b ∷ s) t m r h = cc
      decode_within-decode_loop (suc fuel) (b ∷ s) t m r h =
          elim (Option-cases (w.read_uint32 (b ∷ s))) [
            | inl p ↦ let h' : thrown ≡ ok r = rw (p, decode_loop) at h in cc
            | inr ((tag, r1), p) ↦ elim (Option-cases (read_field tag r1 m)) [
              | inl q ↦ let h' : thrown ≡ ok r = rw (p, q, decode_loop) at h in cc
              | inr ((m', r2), q) ↦
                  let h' : decode_loop w read_field fuel r2 m' ≡ ok r =
                    rw (p, q, decode_loop) at h in
                  rw
                    (
                      extended t _ _ tag r1 p (here.uint32_extends (b ∷ s) t),
                      extended t _ _ m' r2 q (field_extends tag r1 t m),
                      decode_within,
                      bytes_left s t r2 (
                          omega (
                            arith,
                            takes.uint32_takes (b ∷ s) tag r1 p,
                            field_takes tag r1 m m' r2 q,
                          )),
                    )
                    (decode_within-decode_loop fuel r2 t m' r h')
            ]
          ]

      -- A message behind its length is decoded, and the reader stands behind it.
      pub decode_prefixed_lem :
          (s t : Bytes) (new m : M)
          → ReadsBack w
          → IsUint32 (length s)
          → decode_all w read_field s new ≡ ok m
          → decode_prefixed ((w.write_uint32 (length s) ++ s) ++ t) new ≡ ok (m, t)
      unfolding decode_prefixed decode_all
      decode_prefixed_lem s t new m back h e =
          rw
            (
              append_assoc (w.write_uint32 (length s)) s t,
              back.uint32_back (length s) (s ++ t) h,
              decode_prefixed,
            )
            (decode_within-decode_loop (length s) s t new m e)
