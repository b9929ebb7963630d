-- ===== src/Wire.antt =====
-- The Writer and Reader of the package protobufjs, which the message classes of
-- lib/aws-iot-tunnel/protobuf-messages.js call. The package is not part of the repository, so it
-- is a parameter: what a writer call appends, and what a reader call takes from the bytes left.
-- `none` is a call that throws.
use sshclient_sftp_wasm.Base.{
  ℕ, ◌+◌, ◌^◌, ◌≤◌, ◌<◌, ◌≡◌, ℤ, IsInt32, Bool, Option, none, some, ◌++◌, length, All, Bytes, Text,
}

pub record Wire : Type 0 where
  pub write_uint32 : ℕ → Bytes
  pub write_int32 : ℤ → Bytes
  pub write_bool : Bool → Bytes
  pub write_bytes : Bytes → Bytes
  pub write_string : Text → Bytes
  pub read_uint32 : Bytes → Option (ℕ × Bytes)
  pub read_int32 : Bytes → Option (ℤ × Bytes)
  pub read_bool : Bytes → Option (Bool × Bytes)
  pub read_bytes : Bytes → Option (Bytes × Bytes)
  pub read_string : Bytes → Option (Text × Bytes)
  pub skip_type : ℕ → Bytes → Option Bytes

abbrev pub IsUint32 : ℕ → Type 0
IsUint32 v = v < 2 ^ 32

-- What a length prefix of 32 bits can announce.
abbrev pub IsBlob : Bytes → Type 0
IsBlob b = length b < 2 ^ 32

-- UTF-8 leaves ASCII as it is; other text is outside the laws.
abbrev pub IsAscii : Text → Type 0
IsAscii s = All (λ c. c < 128) s × (length s < 2 ^ 32)

-- A read takes back what a write appended, and leaves the rest.
pub record ReadsBack (w : Wire) : Type 0 where
  pub uint32_back :
      (v : ℕ) (rest : Bytes)
      → IsUint32 v
      → w.read_uint32 (w.write_uint32 v ++ rest) ≡ some (v, rest)
  pub int32_back :
      (v : ℤ) (rest : Bytes) → IsInt32 v → w.read_int32 (w.write_int32 v ++ rest) ≡ some (v, rest)
  pub bool_back : (v : Bool) (rest : Bytes) → w.read_bool (w.write_bool v ++ rest) ≡ some (v, rest)
  pub bytes_back :
      (v : Bytes) (rest : Bytes)
      → IsBlob v
      → w.read_bytes (w.write_bytes v ++ rest) ≡ some (v, rest)
  pub string_back :
      (v : Text) (rest : Bytes)
      → IsAscii v
      → w.read_string (w.write_string v ++ rest) ≡ some (v, rest)
  -- Wire type 0 is a varint, wire type 2 a length and that many bytes.
  pub skip_uint32 :
      (v : ℕ) (rest : Bytes) → IsUint32 v → w.skip_type 0 (w.write_uint32 v ++ rest) ≡ some rest
  pub skip_string :
      (v : Text) (rest : Bytes) → IsAscii v → w.skip_type 2 (w.write_string v ++ rest) ≡ some rest

-- No read gives bytes back, and a number takes at least one.
pub record Consumes (w : Wire) : Type 0 where
  pub uint32_takes :
      (s : Bytes) (v : ℕ) (r : Bytes) → w.read_uint32 s ≡ some (v, r) → length r < length s
  pub int32_takes :
      (s : Bytes) (v : ℤ) (r : Bytes) → w.read_int32 s ≡ some (v, r) → length r ≤ length s
  pub bool_takes :
      (s : Bytes) (v : Bool) (r : Bytes) → w.read_bool s ≡ some (v, r) → length r ≤ length s
  pub bytes_takes :
      (s : Bytes) (v : Bytes) (r : Bytes) → w.read_bytes s ≡ some (v, r) → length r ≤ length s
  pub string_takes :
      (s : Bytes) (v : Text) (r : Bytes) → w.read_string s ≡ some (v, r) → length r ≤ length s
  pub skip_takes : (k : ℕ) (s : Bytes) (r : Bytes) → w.skip_type k s ≡ some r → length r ≤ length s

-- How many bytes a write appends at most.
pub record Sizes (w : Wire) : Type 0 where
  pub uint32_size : (v : ℕ) → IsUint32 v → length (w.write_uint32 v) ≤ 5
  pub int32_size : (v : ℤ) → IsInt32 v → length (w.write_int32 v) ≤ 10
  pub bytes_size : (v : Bytes) → IsBlob v → length (w.write_bytes v) ≤ length v + 5
  pub string_size : (v : Text) → IsAscii v → length (w.write_string v) ≤ length v + 5

-- What a read has taken with its outcome: with more bytes behind, it takes the same and leaves them.
abbrev pub Extends {ℓ} : {A : Type ℓ} → Bytes → Option (A × Bytes) → Option (A × Bytes) → Type ℓ
Extends t none o = Unit
Extends t (some (v, r)) o = o ≡ some (v, r ++ t)

-- A read that succeeds does not look at the bytes behind those that it takes.
pub record IsLocal (w : Wire) : Type 0 where
  pub uint32_extends : (s t : Bytes) → Extends t (w.read_uint32 s) (w.read_uint32 (s ++ t))
  pub int32_extends : (s t : Bytes) → Extends t (w.read_int32 s) (w.read_int32 (s ++ t))
  pub bool_extends : (s t : Bytes) → Extends t (w.read_bool s) (w.read_bool (s ++ t))
  pub bytes_extends : (s t : Bytes) → Extends t (w.read_bytes s) (w.read_bytes (s ++ t))
  pub string_extends : (s t : Bytes) → Extends t (w.read_string s) (w.read_string (s ++ t))
  pub skip_extends :
      (k : ℕ) (s t r : Bytes) → w.skip_type k s ≡ some r → w.skip_type k (s ++ t) ≡ some (r ++ t)
