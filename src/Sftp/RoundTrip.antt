-- ===== src/Sftp/RoundTrip.antt =====
-- Base64 in lib/sftp.ts and lib/index.ts: chunks change nothing, and decoding takes encoding back.
use sshclient_sftp_wasm.Base.{
  ℕ, zero, suc, ◌+◌, ◌*◌, ◌/◌, ◌%◌, ◌≤◌, ◌<◌, ◌≡◌, refl, ap, lt→ltb, sym, ◌∙◌, true, false, some,
  le→leb, List, [], ◌∷◌, ◌++◌, map, take, drop, length, All, arith, ◌==◌, Bytes, Text, append-nil,
  append_assoc, take-append-drop, length-drop,
}
use sshclient_sftp_wasm.Sftp.Base64.{
  digit, value, groups, all_bytes, btoa, is_space, strip_spaces, unpad, values, ungroup, atob,
  from_char_code, chunk_size, binary_loop, chunked_base64, to_base64, from_base64,
}

abbrev pub IsByte : ℕ → Type 0
IsByte b = b < 256

from_char_code-append :
    (xs ys : Bytes) → from_char_code (xs ++ ys) ≡ from_char_code xs ++ from_char_code ys
unfolding from_char_code
from_char_code-append [] ys = refl
from_char_code-append (x ∷ xs) ys = ap (◌∷◌ (x % 65536)) (from_char_code-append xs ys)

binary_loop-from_char_code :
    (fuel : ℕ) (binary : Text) (s : Bytes)
    → length s ≤ fuel
    → binary_loop fuel binary s ≡ binary ++ from_char_code s
unfolding binary_loop from_char_code
binary_loop-from_char_code fuel binary [] h = sym (append-nil binary)
binary_loop-from_char_code zero binary (b ∷ s) h = absurd (omega arith)
binary_loop-from_char_code (suc fuel) binary (b ∷ s) h =
    binary_loop-from_char_code fuel _ _ (omega (arith, length-drop chunk_size (b ∷ s)))
    ∙ append_assoc binary _ _
    ∙ ap (◌++◌ binary) (
        sym (from_char_code-append (take chunk_size (b ∷ s)) (drop chunk_size (b ∷ s)))
        ∙ ap from_char_code (take-append-drop chunk_size (b ∷ s)))

pub chunked_base64-btoa : (bytes : Bytes) → chunked_base64 bytes ≡ btoa (from_char_code bytes)
unfolding chunked_base64
chunked_base64-btoa bytes =
    ap btoa (binary_loop-from_char_code (length bytes) [] bytes (omega arith))

value-digit : (d : ℕ) → d < 64 → value (digit d) ≡ some d
unfolding value digit
value-digit d h = ground arith

digit_no_pad : (d : ℕ) → d < 64 → (digit d == 61) ≡ false
unfolding digit
digit_no_pad d h = ground arith

digit_no_space : (d : ℕ) → d < 64 → is_space (digit d) ≡ false
unfolding digit
digit_no_space d h = ground arith

-- The digits of an encoding without the padding, as numbers.
six : Bytes → List ℕ
six [] = []
six (a ∷ []) = (a / 4) ∷ (a % 4 * 16) ∷ []
six (a ∷ b ∷ []) = (a / 4) ∷ (a % 4 * 16 + b / 16) ∷ (b % 16 * 4) ∷ []
six (a ∷ b ∷ c ∷ s) = (a / 4) ∷ (a % 4 * 16 + b / 16) ∷ (b % 16 * 4 + c / 64) ∷ (c % 64) ∷ six s

ungroup-six : (s : Bytes) → All IsByte s → ungroup (six s) ≡ some s
unfolding ungroup six
ungroup-six [] h = refl
ungroup-six (a ∷ []) h = ap (λ x. some (x ∷ [])) (omega arith)
ungroup-six (a ∷ b ∷ []) h = grind arith
ungroup-six (a ∷ b ∷ c ∷ s) h = rw (ungroup-six s h.1.1.1) (grind arith)

strip-digit : (d : ℕ) (s : Text) → d < 64 → strip_spaces (digit d ∷ s) ≡ digit d ∷ strip_spaces s
unfolding strip_spaces
strip-digit d s h = rw (digit_no_space d h)

groups-no_space : (s : Bytes) → All IsByte s → strip_spaces (groups s) ≡ groups s
unfolding groups
groups-no_space [] h = unfold strip_spaces in refl
groups-no_space (a ∷ []) h =
    rw (strip-digit (a / 4) _ (omega arith), strip-digit (a % 4 * 16) _ (omega arith))
      (unfold strip_spaces in refl)
groups-no_space (a ∷ b ∷ []) h =
    rw
      (
        strip-digit (a / 4) _ (omega arith),
        strip-digit (a % 4 * 16 + b / 16) _ (omega arith),
        strip-digit (b % 16 * 4) _ (omega arith),
      )
      (unfold strip_spaces in refl)
groups-no_space (a ∷ b ∷ c ∷ s) h = rw (
  strip-digit (a / 4) _ (omega arith),
  strip-digit (a % 4 * 16 + b / 16) _ (omega arith),
  strip-digit (b % 16 * 4 + c / 64) _ (omega arith),
  strip-digit (c % 64) _ (omega arith),
  groups-no_space s h.1.1.1,
)

groups_whole : (s : Bytes) → length (groups s) % 4 ≡ 0
unfolding groups
groups_whole [] = refl
groups_whole (a ∷ []) = refl
groups_whole (a ∷ b ∷ []) = refl
groups_whole (a ∷ b ∷ c ∷ s) = omega (arith, groups_whole s)

values-digit :
    (d : ℕ) (s : Text) (vs : List ℕ)
    → d < 64
    → values s ≡ some vs
    → values (digit d ∷ s) ≡ some (d ∷ vs)
unfolding values
values-digit d s vs h e = rw (e, value-digit d h)

unpad-digit : (d : ℕ) (s : Text) → d < 64 → unpad (digit d ∷ s) ≡ digit d ∷ unpad s
unfolding unpad
unpad-digit d [] h = rw (digit_no_pad d h)
unpad-digit d (c ∷ s) h = refl

unpadded-digit :
    (d : ℕ) (s : Text) (vs : List ℕ)
    → d < 64
    → values (unpad (unpad s)) ≡ some vs
    → values (unpad (unpad (digit d ∷ s))) ≡ some (d ∷ vs)
unpadded-digit d s vs h e =
    rw (unpad-digit d s h, unpad-digit d (unpad s) h) (values-digit d _ vs h e)

padding_two : values (unpad (unpad (61 ∷ 61 ∷ []))) ≡ some []
unfolding values unpad
padding_two = refl

padding_one : values (unpad (unpad (61 ∷ []))) ≡ some []
unfolding values unpad
padding_one = refl

no_padding : values (unpad (unpad [])) ≡ some []
unfolding values unpad
no_padding = refl

-- Without its padding an encoding is the digits of `six`.
values-unpad : (s : Bytes) → All IsByte s → values (unpad (unpad (groups s))) ≡ some (six s)
unfolding groups six
values-unpad [] h = no_padding
values-unpad (a ∷ []) h =
    unpadded-digit (a / 4) _ _ (omega arith)
      (unpadded-digit (a % 4 * 16) _ _ (omega arith) padding_two)
values-unpad (a ∷ b ∷ []) h = unpadded-digit (a / 4) _ _ (omega arith) (
    unpadded-digit (a % 4 * 16 + b / 16) _ _ (omega arith)
      (unpadded-digit (b % 16 * 4) _ _ (omega arith) padding_one))
values-unpad (a ∷ b ∷ c ∷ s) h = unpadded-digit (a / 4) _ _ (omega arith) (
    unpadded-digit (a % 4 * 16 + b / 16) _ _ (omega arith) (
      unpadded-digit (b % 16 * 4 + c / 64) _ _ (omega arith)
        (unpadded-digit (c % 64) _ _ (omega arith) (values-unpad s h.1.1.1))))

atob-groups : (s : Bytes) → All IsByte s → atob (groups s) ≡ some s
unfolding atob
atob-groups s h = rw (groups-no_space s h, groups_whole s, values-unpad s h, ungroup-six s h)

from_char_code_id : (s : Bytes) → All IsByte s → from_char_code s ≡ s
unfolding from_char_code
from_char_code_id [] h = refl
from_char_code_id (b ∷ s) h = rw (from_char_code_id s h.1) (ap (λ x. x ∷ s) (omega arith))

bytes_kept : (s : Bytes) → All IsByte s → map (λ c. c % 256) s ≡ s
bytes_kept [] h = refl
bytes_kept (b ∷ s) h = rw (bytes_kept s h.1) (ap (λ x. x ∷ s) (omega arith))

all_bytes-true : (s : Bytes) → All IsByte s → all_bytes s ≡ true
all_bytes-true [] h = refl
all_bytes-true (b ∷ s) h = rw (lt→ltb b 256 h.0) (all_bytes-true s h.1)

-- The chunked encoder encodes every array of bytes, and its text decodes to them.
pub from_base64-chunked_base64 :
    (s : Bytes)
    → All IsByte s
    → (text : Text) × (chunked_base64 s ≡ some text) × (from_base64 text ≡ some s)
unfolding from_base64 btoa
from_base64-chunked_base64 s h = (
  groups s,
  chunked_base64-btoa s ∙ rw (from_char_code_id s h, all_bytes-true s h) refl,
  rw (atob-groups s h, bytes_kept s h) refl,
)

-- PacketTransformer encodes every array of bytes (numbers below 256) that has no more elements than
-- the engine takes arguments, without throwing, and decodes it again unchanged.
pub from_base64-to_base64 :
    (limit : ℕ) (s : Bytes)
    → All IsByte s
    → length s ≤ limit
    → (text : Text) × (to_base64 limit s ≡ some text) × (from_base64 text ≡ some s)
unfolding to_base64
from_base64-to_base64 limit s h few =
    let (text, e, back) = from_base64-chunked_base64 s h in
    (text, rw (le→leb (length s) limit few) (sym (chunked_base64-btoa s) ∙ e), back)
