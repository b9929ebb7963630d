-- ===== src/FixedWire.antt =====
-- A wire format that meets the laws of Wire, for the tests: numbers take four bytes, lowest first,
-- and bytes and text stand behind their length.
use mathlib.Core.Option
use sshclient_sftp_wasm.Base.{
  ℕ, ◌+◌, ◌*◌, ◌/◌, ◌%◌, ◌≤◌, ◌≡◌, refl, ap, ℤ, pos, negsuc, IsInt32, Bool, Option, none, some, [],
  ◌∷◌, ◌++◌, length, take, drop, ltb, ◌==◌, if◌then◌else◌, arith, Bytes, le→ltb, length-append,
  length-drop, take-append_eq, drop-append_eq, take-append_le, drop-append_le, inl, inr,
  Option-cases,
}
use sshclient_sftp_wasm.Wire.{Wire, ReadsBack, Consumes, Sizes, IsUint32, IsBlob, Extends, IsLocal}

abbrev write4 : ℕ → Bytes
write4 v = (v % 256) ∷ (v / 256 % 256) ∷ (v / 65536 % 256) ∷ (v / 16777216) ∷ []

abbrev read4 : Bytes → Option (ℕ × Bytes)
read4 (a ∷ b ∷ c ∷ d ∷ r) = some (a + b * 256 + c * 65536 + d * 16777216, r)
read4 _ = none

abbrev write_signed : ℤ → Bytes
write_signed (pos n) = 0 ∷ write4 n
write_signed (negsuc n) = 1 ∷ write4 n

abbrev read_signed : Bytes → Option (ℤ × Bytes)
read_signed [] = none
read_signed (s ∷ r) = Option.map (λ (n, r'). ((if s == 0 then pos n else negsuc n), r')) (read4 r)

abbrev write_flag : Bool → Bytes
write_flag b = (if b then 1 else 0) ∷ []

abbrev read_flag : Bytes → Option (Bool × Bytes)
read_flag [] = none
read_flag (b ∷ r) = some (b == 1, r)

abbrev write_block : Bytes → Bytes
write_block b = write4 (length b) ++ b

abbrev split_at : ℕ → Bytes → Option (Bytes × Bytes)
split_at n r = if ltb (length r) n then none else some (take n r, drop n r)

abbrev block_after : Option (ℕ × Bytes) → Option (Bytes × Bytes)
block_after none = none
block_after (some (n, r)) = split_at n r

abbrev read_block : Bytes → Option (Bytes × Bytes)
read_block s = block_after (read4 s)

abbrev skip : ℕ → Bytes → Option Bytes
skip k s =
    if k == 0
    then Option.map (λ (v, r). r) (read4 s)
    else if k == 2
    then Option.map (λ (v, r). r) (read_block s)
    else none

abbrev pub fixed : Wire
fixed = record {
  write_uint32 = write4;
  write_int32 = write_signed;
  write_bool = write_flag;
  write_bytes = write_block;
  write_string = write_block;
  read_uint32 = read4;
  read_int32 = read_signed;
  read_bool = read_flag;
  read_bytes = read_block;
  read_string = read_block;
  skip_type = skip;
}

read4-write4 : (v : ℕ) (rest : Bytes) → IsUint32 v → read4 (write4 v ++ rest) ≡ some (v, rest)
read4-write4 v rest h = ground arith

read_signed-write_signed :
    (v : ℤ) (rest : Bytes) → IsInt32 v → read_signed (write_signed v ++ rest) ≡ some (v, rest)
read_signed-write_signed (pos n) rest h = ground arith
read_signed-write_signed (negsuc n) rest h = ground arith

split_at-append : (n : ℕ) (v rest : Bytes) → n ≡ length v → split_at n (v ++ rest) ≡ some (v, rest)
split_at-append n v rest h = rw (
  le→ltb (length (v ++ rest)) n (omega (arith, length-append v rest)),
  take-append_eq n v rest h,
  drop-append_eq n v rest h,
)

read_block-write_block :
    (v rest : Bytes) → IsBlob v → read_block (write_block v ++ rest) ≡ some (v, rest)
read_block-write_block v rest h = split_at-append _ v rest (omega arith)

pub fixed-ReadsBack : ReadsBack fixed
fixed-ReadsBack = record {
  uint32_back = read4-write4;
  int32_back = read_signed-write_signed;
  bool_back = λ v rest. ground arith;
  bytes_back = read_block-write_block;
  string_back = λ v rest h. read_block-write_block v rest h.1;
  skip_uint32 = λ v rest h. refl;
  skip_string =
      λ v rest h. ap (Option.map (λ (p : Bytes × Bytes). p.1)) (read_block-write_block v rest h.1);
}

read4_takes : (s : Bytes) (v : ℕ) (r : Bytes) → read4 s ≡ some (v, r) → length r + 4 ≡ length s
read4_takes (a ∷ b ∷ c ∷ d ∷ t) v r e = ground arith
read4_takes [] v r e = cc
read4_takes (a ∷ []) v r e = cc
read4_takes (a ∷ b ∷ []) v r e = cc
read4_takes (a ∷ b ∷ c ∷ []) v r e = cc

read_signed_takes :
    (s : Bytes) (v : ℤ) (r : Bytes) → read_signed s ≡ some (v, r) → length r ≤ length s
read_signed_takes [] v r e = cc
read_signed_takes (b ∷ s) v r e = elim (Option-cases (read4 s)) [
  | inl p ↦ ground (arith, p)
  | inr ((n, r'), p) ↦ ground (arith, p, read4_takes s n r' p)
]

read_flag_takes :
    (s : Bytes) (v : Bool) (r : Bytes) → read_flag s ≡ some (v, r) → length r ≤ length s
read_flag_takes [] v r e = cc
read_flag_takes (b ∷ s) v r e = ground arith

read_block_takes : (s v r : Bytes) → read_block s ≡ some (v, r) → length r ≤ length s
read_block_takes s v r e = elim (Option-cases (read4 s)) [
  | inl p ↦ ground (arith, p)
  | inr ((n, r'), p) ↦ ground (arith, p, read4_takes s n r' p, length-drop n r')
]

skip_takes : (k : ℕ) (s r : Bytes) → skip k s ≡ some r → length r ≤ length s
skip_takes k s r e = elim (Option-cases (read4 s)) [
  | inl p ↦ ground (arith, p)
  | inr ((n, r'), p) ↦ ground (arith, p, read4_takes s n r' p, length-drop n r')
]

pub fixed-Consumes : Consumes fixed
fixed-Consumes = record {
  uint32_takes = λ s v r e. omega (arith, read4_takes s v r e);
  int32_takes = read_signed_takes;
  bool_takes = read_flag_takes;
  bytes_takes = read_block_takes;
  string_takes = read_block_takes;
  skip_takes = skip_takes;
}

write_signed_size : (v : ℤ) → length (write_signed v) ≤ 10
write_signed_size (pos n) = omega arith
write_signed_size (negsuc n) = omega arith

pub fixed-Sizes : Sizes fixed
fixed-Sizes = record {
  uint32_size = λ v h. omega arith;
  int32_size = λ v h. write_signed_size v;
  bytes_size = λ v h. omega arith;
  string_size = λ v h. omega arith;
}

read4-Extends : (s t : Bytes) → Extends t (read4 s) (read4 (s ++ t))
read4-Extends [] t = tt
read4-Extends (a ∷ []) t = tt
read4-Extends (a ∷ b ∷ []) t = tt
read4-Extends (a ∷ b ∷ c ∷ []) t = tt
read4-Extends (a ∷ b ∷ c ∷ d ∷ r) t = refl

read_signed-Extends : (s t : Bytes) → Extends t (read_signed s) (read_signed (s ++ t))
read_signed-Extends [] t = tt
read_signed-Extends (b ∷ s) t = ground (arith, read4-Extends s t)

read_flag-Extends : (s t : Bytes) → Extends t (read_flag s) (read_flag (s ++ t))
read_flag-Extends [] t = tt
read_flag-Extends (b ∷ s) t = refl

split_at-Extends : (n : ℕ) (s t : Bytes) → Extends t (split_at n s) (split_at n (s ++ t))
split_at-Extends n s t =
    ground (arith, length-append s t, take-append_le n s t, drop-append_le n s t)

block_after-Extends :
    (t : Bytes) (o o' : Option (ℕ × Bytes))
    → Extends t o o'
    → Extends t (block_after o) (block_after o')
block_after-Extends t none o' h = tt
block_after-Extends t (some (n, r)) o' h = rw h (split_at-Extends n r t)

read_block-Extends : (s t : Bytes) → Extends t (read_block s) (read_block (s ++ t))
read_block-Extends s t = block_after-Extends t (read4 s) (read4 (s ++ t)) (read4-Extends s t)

skip-Extends : (k : ℕ) (s t r : Bytes) → skip k s ≡ some r → skip k (s ++ t) ≡ some (r ++ t)
skip-Extends k s t r e = ground (arith, read4-Extends s t, read_block-Extends s t)

pub fixed-IsLocal : IsLocal fixed
fixed-IsLocal = record {
  uint32_extends = read4-Extends;
  int32_extends = read_signed-Extends;
  bool_extends = read_flag-Extends;
  bytes_extends = read_block-Extends;
  string_extends = read_block-Extends;
  skip_extends = skip-Extends;
}
