-- ===== src/Plain/Names.antt =====
-- The names of an enum, read back by the cases of `fromObject`
-- (lib/aws-iot-tunnel/protobuf-messages.js and lib/tunnel.js).
use sshclient_sftp_wasm.Base.{
  ℕ, zero, suc, ◌+◌, ◌≡◌, refl, ap, ◌∙◌, ℤ, pos, negsuc, is_nat, false, some, List, [], ◌∷◌, All,
  text_eq, text_eq_refl, Bool-cases, Option-cases, inl, inr, arith, Text,
}
use sshclient_sftp_wasm.Plain.Value.{Number, integer, fraction, infinity, nan, number, string, nat}
use sshclient_sftp_wasm.Plain.Fields.{case_of, type_field, name_of}

-- No two values of the enum have the same name.
abbrev pub AreDistinct : List Text → Type 0
AreDistinct [] = Unit
AreDistinct (name ∷ names) = All (λ s. text_eq s name ≡ false) names × AreDistinct names

name_of-All :
    (name s : Text) (names : List Text) (k : ℕ)
    → All (λ t. text_eq t name ≡ false) names
    → name_of names (pos k) ≡ some s
    → text_eq s name ≡ false
unfolding name_of
name_of-All name s [] k all e = cc
name_of-All name s (t ∷ names) zero all e = let same : t ≡ s = cc in rw (← same) all.0
name_of-All name s (t ∷ names) (suc k) all e = name_of-All name s names k all.1 e

case_of-name_of :
    (i : ℕ) (s : Text) (names : List Text) (k : ℕ)
    → AreDistinct names
    → name_of names (pos k) ≡ some s
    → case_of i names (string s) ≡ some (i + k)
unfolding name_of case_of
case_of-name_of i s [] k d e = cc
case_of-name_of i s (t ∷ names) zero d e =
    let same : t ≡ s = cc in rw (same, text_eq_refl s) (ap some (omega arith))
case_of-name_of i s (t ∷ names) (suc k) d e =
    rw (name_of-All t s names k d.0 e)
      (case_of-name_of (suc i) s names k d.1 e ∙ ap some (omega arith))

-- The name of an enum value is converted to its number.
pub type_field-name_of :
    (names : List Text) (z : ℤ) (s : Text)
    → AreDistinct names
    → name_of names z ≡ some s
    → type_field names (string s) ≡ number (integer z)
unfolding type_field
type_field-name_of names (pos k) s d e =
    rw (case_of-name_of 0 s names k d e, type_field) (ap nat (omega arith))
type_field-name_of [] (negsuc k) s d e = unfold name_of in cc
type_field-name_of (t ∷ names) (negsuc k) s d e = unfold name_of in cc

case_of-number :
    (i j : ℕ) (names : List Text) (x : Number)
    → case_of i names (number x) ≡ some j
    → nat j ≡ number x
unfolding case_of
case_of-number i j [] x e = cc
case_of-number i j (t ∷ names) (integer (pos n)) e = elim (Bool-cases (is_nat i (pos n))) [
  | inl p ↦ ground (arith, case_of-number (suc i) j names (integer (pos n)))
  | inr p ↦ ground (arith, case_of-number (suc i) j names (integer (pos n)))
]
case_of-number i j (t ∷ names) (integer (negsuc n)) e =
    case_of-number (suc i) j names (integer (negsuc n)) e
case_of-number i j (t ∷ names) (fraction z d) e = case_of-number (suc i) j names (fraction z d) e
case_of-number i j (t ∷ names) (infinity b) e = case_of-number (suc i) j names (infinity b) e
case_of-number i j (t ∷ names) nan e = case_of-number (suc i) j names nan e

-- A number stays as it is, known or not.
pub type_field-number : (names : List Text) (x : Number) → type_field names (number x) ≡ number x
unfolding type_field
type_field-number names x = elim (Option-cases (case_of 0 names (number x))) [
  | inl p ↦ rw (p, type_field) refl
  | inr (j, p) ↦ rw (p, type_field) (case_of-number 0 j names x p)
]
