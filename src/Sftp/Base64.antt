-- ===== src/Sftp/Base64.antt =====
-- `toBase64` of lib/sftp.ts, and `toBase64` and `fromBase64` of PacketTransformer in lib/index.ts,
-- with JavaScript's btoa and atob. `none` is a call that throws.
use mathlib.Core.Option
use sshclient_sftp_wasm.Base.{
  ℕ, zero, suc, ◌+◌, ◌-◌, ◌*◌, ◌/◌, ◌%◌, ◌^◌, Bool, true, ◌&&◌, ◌||◌, Option, none, some, List, [],
  ◌∷◌, ◌++◌, map, take, drop, length, ltb, leb, ◌==◌, if◌then◌else◌, Bytes, Text,
}

-- A-Z a-z 0-9 + /
unfoldable pub digit : ℕ → ℕ
digit d =
    if ltb d 26
    then 65 + d
    else if ltb d 52
    then 71 + d
    else if ltb d 62
    then d - 4
    else if d == 62
    then 43
    else 47

unfoldable pub value : ℕ → Option ℕ
value c =
    if leb 65 c && leb c 90
    then some (c - 65)
    else if leb 97 c && leb c 122
    then some (c - 71)
    else if leb 48 c && leb c 57
    then some (c + 4)
    else if c == 43
    then some 62
    else if c == 47
    then some 63
    else none

-- Three bytes give four digits; `=` fills up the last four.
unfoldable pub groups : Text → Text
groups [] = []
groups (a ∷ []) = digit (a / 4) ∷ digit (a % 4 * 16) ∷ 61 ∷ 61 ∷ []
groups (a ∷ b ∷ []) = digit (a / 4) ∷ digit (a % 4 * 16 + b / 16) ∷ digit (b % 16 * 4) ∷ 61 ∷ []
groups (a ∷ b ∷ c ∷ s) =
    digit (a / 4)
    ∷ digit (a % 4 * 16 + b / 16)
    ∷ digit (b % 16 * 4 + c / 64)
    ∷ digit (c % 64)
    ∷ groups s

abbrev pub all_bytes : Text → Bool
all_bytes [] = true
all_bytes (c ∷ s) = ltb c 256 && all_bytes s

unfoldable pub btoa : Text → Option Text
btoa s = if all_bytes s then some (groups s) else none

abbrev pub is_space : ℕ → Bool
is_space c = c == 9 || c == 10 || c == 12 || c == 13 || c == 32

unfoldable pub strip_spaces : Text → Text
strip_spaces [] = []
strip_spaces (c ∷ s) = if is_space c then strip_spaces s else c ∷ strip_spaces s

-- Takes `=` off the end.
unfoldable pub unpad : Text → Text
unpad [] = []
unpad (c ∷ []) = if c == 61 then [] else c ∷ []
unpad (c ∷ d ∷ s) = c ∷ unpad (d ∷ s)

abbrev pub two : ℕ → ℕ → Bytes
two p q = (p * 4 + q / 16) ∷ []

abbrev pub three : ℕ → ℕ → ℕ → Bytes
three p q r = (p * 4 + q / 16) ∷ (q % 16 * 16 + r / 4) ∷ []

abbrev pub four : ℕ → ℕ → ℕ → ℕ → Bytes
four p q r s = (p * 4 + q / 16) ∷ (q % 16 * 16 + r / 4) ∷ (r % 4 * 64 + s) ∷ []

abbrev pub cons_value : Option ℕ → Option (List ℕ) → Option (List ℕ)
cons_value none vs = none
cons_value (some v) vs = Option.map (λ l. v ∷ l) vs

-- What the digits stand for.
unfoldable pub values : Text → Option (List ℕ)
values [] = some []
values (c ∷ s) = cons_value (value c) (values s)

-- One digit that is left over is an error.
unfoldable pub ungroup : List ℕ → Option Bytes
ungroup [] = some []
ungroup (p ∷ []) = none
ungroup (p ∷ q ∷ []) = some (two p q)
ungroup (p ∷ q ∷ r ∷ []) = some (three p q r)
ungroup (p ∷ q ∷ r ∷ s ∷ vs) = Option.map (λ bytes. four p q r s ++ bytes) (ungroup vs)

abbrev pub ungroup_values : Option (List ℕ) → Option Bytes
ungroup_values none = none
ungroup_values (some vs) = ungroup vs

abbrev pub decode_digits : Text → Option Bytes
decode_digits s = ungroup_values (values s)

unfoldable pub atob : Text → Option Text
atob s =
    let t = strip_spaces s in
    if length t % 4 == 0 then decode_digits (unpad (unpad t)) else decode_digits t

-- `String.fromCharCode` on the elements, where the call has no more arguments than the engine takes.
-- lib/sftp.ts gives it 32768 at most, which engines take.
unfoldable pub from_char_code : Bytes → Text
from_char_code bytes = map (λ b. b % 2 ^ 16) bytes

abbrev pub chunk_size : ℕ
chunk_size = 0x8000

-- The loop of `toBase64` in lib/sftp.ts: `binary` so far, and the bytes from `i` on.
unfoldable pub binary_loop : ℕ → Text → Bytes → Text
binary_loop fuel binary [] = binary
binary_loop zero binary (b ∷ s) = binary
binary_loop (suc fuel) binary (b ∷ s) =
    binary_loop fuel (binary ++ from_char_code (take chunk_size (b ∷ s))) (drop chunk_size (b ∷ s))

-- Every round takes a byte at least, so the length is fuel enough.
unfoldable pub chunked_base64 : Bytes → Option Text
chunked_base64 bytes = btoa (binary_loop (length bytes) [] bytes)

-- PacketTransformer spreads the whole array into one call. `limit` is the number of arguments that a
-- call may have, which the engine sets; with more of them the call throws a RangeError.
unfoldable pub to_base64 : ℕ → Bytes → Option Text
to_base64 limit bytes = if leb (length bytes) limit then btoa (from_char_code bytes) else none

-- A Uint8Array keeps each number modulo 2^8.
unfoldable pub from_base64 : Text → Option Bytes
from_base64 s = Option.map (λ binary. map (λ c. c % 256) binary) (atob s)
