-- ===== src/Messages/Total.antt =====
-- `decode` on any bytes, well formed or not: the loop over the fields ends.
use mathlib.Core.Option
use sshclient_sftp_wasm.Base.{ℕ, ◌%◌, ◌≤◌, ◌≡◌, ◌≢◌, refl, Option, none, some, length, arith, Bytes}
use sshclient_sftp_wasm.Wire.{Wire, Consumes}
use sshclient_sftp_wasm.Messages.Fields.{stuck, decode_all-ne-stuck}
use sshclient_sftp_wasm.Messages.V1
use sshclient_sftp_wasm.Messages.V1.{ProtocolV1Message}
use sshclient_sftp_wasm.Messages.V2
use sshclient_sftp_wasm.Messages.V2.{ProtocolV2Message}
use sshclient_sftp_wasm.Messages.V3
use sshclient_sftp_wasm.Messages.V3.{ProtocolV3Message}

-- A read that leaves at most `n` bytes.
abbrev pub Leaves {ℓ} : {A : Type ℓ} → ℕ → Option (A × Bytes) → Type 0
Leaves n none = Unit {0}
Leaves n (some (v, r)) = length r ≤ n

pub Leaves-read :
    {A : Type 0} (n : ℕ) (o : Option (A × Bytes))
    → ((v : A) (r : Bytes) → o ≡ some (v, r) → length r ≤ n)
    → Leaves n o
Leaves-read n none h = tt
Leaves-read n (some (v, r)) h = h v r refl

pub Leaves-skip :
    {M : Type 0} (n : ℕ) (m : M) (o : Option Bytes)
    → ((r : Bytes) → o ≡ some r → length r ≤ n)
    → Leaves n (Option.map (λ r. (m, r)) o)
Leaves-skip n m none h = tt
Leaves-skip n m (some r) h = h r refl

pub Leaves-bound :
    {A : Type 0} (n : ℕ) (o : Option (A × Bytes))
    → Leaves n o
    → (v : A) (r : Bytes) → o ≡ some (v, r)
    → length r ≤ n
Leaves-bound n none h v r e = cc
Leaves-bound n (some (v', r')) h v r e = ground arith

module _ (w : Wire) (takes : Consumes w) where
  pub v1_read_field :
      (tag : ℕ) (s : Bytes) (m : ProtocolV1Message) → Leaves (length s) (V1.read_field w tag s m)
  unfolding V1.read_field
  v1_read_field tag s m = ground (
    arith,
    Leaves-read (length s) (w.read_int32 s) (takes.int32_takes s),
    Leaves-read (length s) (w.read_bool s) (takes.bool_takes s),
    Leaves-read (length s) (w.read_bytes s) (takes.bytes_takes s),
    Leaves-skip (length s) m (w.skip_type (tag % 8) s) (takes.skip_takes (tag % 8) s),
  )

  pub v2_read_field :
      (tag : ℕ) (s : Bytes) (m : ProtocolV2Message) → Leaves (length s) (V2.read_field w tag s m)
  unfolding V2.read_field
  v2_read_field tag s m = ground (
    arith,
    Leaves-read (length s) (w.read_int32 s) (takes.int32_takes s),
    Leaves-read (length s) (w.read_bool s) (takes.bool_takes s),
    Leaves-read (length s) (w.read_bytes s) (takes.bytes_takes s),
    Leaves-read (length s) (w.read_string s) (takes.string_takes s),
    Leaves-skip (length s) m (w.skip_type (tag % 8) s) (takes.skip_takes (tag % 8) s),
  )

  pub v3_read_field :
      (tag : ℕ) (s : Bytes) (m : ProtocolV3Message) → Leaves (length s) (V3.read_field w tag s m)
  unfolding V3.read_field
  v3_read_field tag s m = ground (
    arith,
    Leaves-read (length s) (w.read_int32 s) (takes.int32_takes s),
    Leaves-read (length s) (w.read_bool s) (takes.bool_takes s),
    Leaves-read (length s) (w.read_bytes s) (takes.bytes_takes s),
    Leaves-read (length s) (w.read_string s) (takes.string_takes s),
    Leaves-read (length s) (w.read_uint32 s) (λ v r e. omega (arith, takes.uint32_takes s v r e)),
    Leaves-skip (length s) m (w.skip_type (tag % 8) s) (takes.skip_takes (tag % 8) s),
  )

  -- On any bytes each of the three decoders returns a message or throws: the fuel suffices.
  pub decode-ne-stuck :
      (s : Bytes) → (V1.decode w s ≢ stuck) × (V2.decode w s ≢ stuck) × (V3.decode w s ≢ stuck)
  unfolding V1.decode V2.decode V3.decode
  decode-ne-stuck s = (
    decode_all-ne-stuck w _ takes (λ tag t m m' r. Leaves-bound _ _ (v1_read_field tag t m) m' r) s
        V1.new,
    decode_all-ne-stuck w _ takes (λ tag t m m' r. Leaves-bound _ _ (v2_read_field tag t m) m' r) s
        V2.new,
    decode_all-ne-stuck w _ takes (λ tag t m m' r. Leaves-bound _ _ (v3_read_field tag t m) m' r) s
        V3.new,
  )
