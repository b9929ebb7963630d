-- ===== src/Messages/Fields.antt =====
-- What the message classes of lib/aws-iot-tunnel/protobuf-messages.js share: a field is written if
-- the message has it as its own property, and the fields are read in a loop over their tags.
use sshclient_sftp_wasm.Base.{
  ℕ, zero, suc, ◌≤◌, ◌<◌, ◌≡◌, ◌≢◌, refl, ◌∙◌, Option, none, some, List, [], ◌∷◌, ◌++◌, length, All,
  arith, Bytes, append-nil, append_assoc, length-append, Option-cases, inl, inr,
}
use sshclient_sftp_wasm.Wire.{Wire, ReadsBack, Consumes, IsUint32}

-- What `decode` does: it returns a message or throws. `stuck` is neither: the loop ran out of fuel.
pub data Decoded {ℓ} (M : Type ℓ) : Type ℓ where
  ok : M → Decoded M
  thrown : Decoded M
  stuck : Decoded M

-- An absent property satisfies everything.
abbrev pub Own {ℓ κ} : {A : Type ℓ} → (A → Type κ) → Option A → Type κ
Own P none = Unit
Own P (some a) = P a

module _ (w : Wire) where
  -- `if (message.x != null && hasOwnProperty(message, "x")) writer.uint32(tag).put(message.x)`
  abbrev pub write_own {ℓ} : {A : Type ℓ} → ℕ → (A → Bytes) → Option A → Bytes
  write_own tag put none = []
  write_own tag put (some v) = w.write_uint32 tag ++ put v

  -- `for (i …) writer.uint32(tag).put(message.xs[i])`
  abbrev pub write_each {ℓ} : {A : Type ℓ} → ℕ → (A → Bytes) → List A → Bytes
  write_each tag put [] = []
  write_each tag put (v ∷ vs) = w.write_uint32 tag ++ (put v ++ write_each tag put vs)

  module _ {ℓ} {M : Type ℓ} (read_field : ℕ → Bytes → M → Option (M × Bytes)) where
    -- `while (reader.pos < end) { let tag = reader.uint32(); switch (tag >>> 3) … }`, where the
    -- list is what the reader has left. A tag is a number, so the test `tag === undefined` fails.
    unfoldable pub decode_loop : ℕ → Bytes → M → Decoded M
    decode_loop fuel [] m = ok m
    decode_loop zero (b ∷ s) m = stuck
    decode_loop (suc fuel) (b ∷ s) m = elim (w.read_uint32 (b ∷ s)) [
      | none ↦ thrown
      | some (tag, r) ↦ elim (read_field tag r m) [
        | none ↦ thrown
        | some (m', r') ↦ decode_loop fuel r' m'
      ]
    ]

    -- Each round reads a tag of one byte at least, so this fuel is enough.
    unfoldable pub decode_all : Bytes → M → Decoded M
    unfolding decode_loop
    decode_all s m = decode_loop (length s) s m

    -- From `m` with `s` left, the loop ends in `r`, whatever fuel beyond the length it has.
    abbrev pub Ends : Bytes → M → M → Type ℓ
    Ends s m r = (fuel : ℕ) → length s ≤ fuel → decode_loop fuel s m ≡ ok r

    pub Ends-nil : (m : M) → Ends [] m m
    unfolding decode_loop
    Ends-nil m fuel h = refl

    pub Ends-decode_all : (s : Bytes) (m r : M) → Ends s m r → decode_all s m ≡ ok r
    unfolding decode_all
    Ends-decode_all s m r e = e (length s) (omega arith)

    decode_loop_step :
        (fuel : ℕ) (s : Bytes) (m : M) {tag : ℕ} {r : Bytes} {m' : M} {r' : Bytes}
        → 0 < length s
        → w.read_uint32 s ≡ some (tag, r)
        → read_field tag r m ≡ some (m', r')
        → decode_loop (suc fuel) s m ≡ decode_loop fuel r' m'
    unfolding decode_loop
    decode_loop_step fuel [] m h p q = absurd (omega arith)
    decode_loop_step fuel (b ∷ s) m h p q = rw (p, q, decode_loop)

    module _ (back : ReadsBack w) (takes : Consumes w) where
      -- One field: its tag and value are read, and the loop goes on behind them.
      pub Ends-field :
          (tag : ℕ) (value rest : Bytes) (m m' r : M)
          → IsUint32 tag
          → read_field tag (value ++ rest) m ≡ some (m', rest)
          → Ends rest m' r
          → Ends ((w.write_uint32 tag ++ value) ++ rest) m r
      Ends-field tag value rest m m' r ht e k fuel h = run fuel h
        where
          s : Bytes
          s = (w.write_uint32 tag ++ value) ++ rest

          tag_read : w.read_uint32 s ≡ some (tag, value ++ rest)
          tag_read =
              rw (append_assoc (w.write_uint32 tag) value rest)
                (back.uint32_back tag (value ++ rest) ht)

          shorter : length rest < length s
          shorter =
              omega
                (arith, takes.uint32_takes s tag (value ++ rest) tag_read, length-append value rest)

          run : (fuel : ℕ) → length s ≤ fuel → decode_loop fuel s m ≡ ok r
          run zero h = absurd (omega (arith, shorter))
          run (suc n) h =
              decode_loop_step n s m (omega (arith, shorter)) tag_read e
              ∙ k n (omega (arith, shorter))

      pub Ends-write_own {κ μ} :
          {A : Type κ} (P : A → Type μ) (tag : ℕ) (put : A → Bytes) (rest : Bytes) (m : M)
          (with_field : Option A → M) (r : M) (o : Option A)
          → IsUint32 tag
          → m ≡ with_field none
          → ((v : A) → P v → read_field tag (put v ++ rest) m ≡ some (with_field (some v), rest))
          → Own P o
          → Ends rest (with_field o) r
          → Ends (write_own tag put o ++ rest) m r
      Ends-write_own P tag put rest m with_field r none ht z e p k = rw z k
      Ends-write_own P tag put rest m with_field r (some v) ht z e p k =
          Ends-field tag (put v) rest m (with_field (some v)) r ht (e v p) k

      -- A repeated field, read one value after the other.
      pub Ends-write_each :
          {A : Type 0} (P : A → Type 0) (tag : ℕ) (put : A → Bytes) (rest : Bytes)
          (with_fields : List A → M) (r : M) (done vs : List A)
          → IsUint32 tag
          → ((before : List A) (v : A) (more : Bytes)
              → P v
              → read_field tag (put v ++ more) (with_fields before)
                ≡ some (with_fields (before ++ (v ∷ [])), more))
          → All P vs
          → Ends rest (with_fields (done ++ vs)) r
          → Ends (write_each tag put vs ++ rest) (with_fields done) r
      Ends-write_each P tag put rest with_fields r done [] ht e p k = rw append-nil at k
      Ends-write_each P tag put rest with_fields r done (v ∷ vs) ht e p k =
          rw
            (
              ← append_assoc (w.write_uint32 tag) (put v) (write_each tag put vs),
              append_assoc (w.write_uint32 tag ++ put v) (write_each tag put vs) rest,
            )
            (Ends-field tag (put v) (write_each tag put vs ++ rest) (with_fields done)
              (with_fields (done ++ (v ∷ []))) r ht (e done v _ p.0)
              (Ends-write_each P tag put rest with_fields r (done ++ (v ∷ [])) vs ht e p.1
                (rw append_assoc k)))

    -- A field read that gives no bytes back keeps the loop within its fuel.
    module _ (takes : Consumes w)
        (field_takes : (tag : ℕ) (s : Bytes) (m m' : M) (r : Bytes)
          → read_field tag s m ≡ some (m', r)
          → length r ≤ length s) where
      decode_loop-ne-stuck :
          (fuel : ℕ) (s : Bytes) (m : M) → length s ≤ fuel → decode_loop fuel s m ≢ stuck
      unfolding decode_loop
      decode_loop-ne-stuck fuel [] m h = λ e. cc
      decode_loop-ne-stuck zero (b ∷ s) m h = absurd (omega arith)
      decode_loop-ne-stuck (suc fuel) (b ∷ s) m h = elim (Option-cases (w.read_uint32 (b ∷ s))) [
        | inl p ↦ rw (p, decode_loop) (λ e. cc)
        | inr ((tag, r), p) ↦ elim (Option-cases (read_field tag r m)) [
          | inl q ↦ rw (p, q, decode_loop) (λ e. cc)
          | inr ((m', r'), q) ↦
              rw (p, q, decode_loop)
                (decode_loop-ne-stuck fuel r' m'
                  (omega (arith, takes.uint32_takes _ tag r p, field_takes tag r m m' r' q)))
        ]
      ]

      pub decode_all-ne-stuck : (s : Bytes) (m : M) → decode_all s m ≢ stuck
      unfolding decode_all
      decode_all-ne-stuck s m = decode_loop-ne-stuck (length s) s m (omega arith)
