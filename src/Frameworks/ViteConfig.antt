-- ===== src/Frameworks/ViteConfig.antt =====
-- ViteConfig of lib/vite.ts. An object is a list of its keys with their values; the value that comes
-- first is the one that a key has.
use sshclient_sftp_wasm.Base.{
  Bool, ltb, length, drop, false, ◌-◌, ◌≢◌, ◌≡◌, refl, sym, ◌∙◌, inl, inr, Bool-cases, Option,
  Option-cases, none, some, List, [], ◌∷◌, ◌++◌, codes, Text, text_eq, text_eq→eq, if◌then◌else◌,
}

-- A value of a section, or of a key at the top: an object, or something that is none.
pub data Leaf : Type 0 where
  text : Text → Leaf
  texts : List Text → Leaf
  headers : List (Text × Text) → Leaf
  -- rollupOptions, with the names of the assets
  rollup : (Option Text → Text) → Leaf

pub data Value : Type 0 where
  object : List (Text × Leaf) → Value
  plain : Leaf → Value

unfoldable pub lookup {ℓ} : {A : Type ℓ} → Text → List (Text × A) → Option A
lookup k [] = none
lookup k ((j, v) ∷ o) = if text_eq k j then some v else lookup k o

-- `{ ...base, ...over }`
abbrev pub spread {ℓ} : {A : Type ℓ} → List (Text × A) → List (Text × A) → List (Text × A)
spread base over = over ++ base

-- What `...value` spreads; undefined has no keys.
abbrev pub fields : Option Value → List (Text × Leaf)
fields (some (object o)) = o
fields v = []

abbrev pub server_config : List (Text × Leaf)
server_config =
    (
      codes "headers",
      headers (
          (codes "Cross-Origin-Embedder-Policy", codes "require-corp")
          ∷ (codes "Cross-Origin-Opener-Policy", codes "same-origin")
          ∷ []),
    )
    ∷ (codes "middlewares", texts [])
    ∷ []

abbrev pub optimize_deps_config : List (Text × Leaf)
optimize_deps_config = (codes "exclude", texts (codes "sshclient-wasm" ∷ [])) ∷ []

unfoldable pub ends_with : Text → Text → Bool
ends_with suffix s =
    if ltb (length s) (length suffix)
    then false
    else text_eq (drop (length s - length suffix) s) suffix

-- `assetFileNames`, for the name of an asset that may have none.
unfoldable pub asset_file_names : Option Text → Text
asset_file_names none = codes "[name].[hash][extname]"
asset_file_names (some name) =
    if ends_with (codes ".wasm") name
    then codes "[name][extname]"
    else codes "[name].[hash][extname]"

abbrev pub build_config : List (Text × Leaf)
build_config =
    (codes "target", text (codes "esnext")) ∷ (codes "rollupOptions", rollup asset_file_names) ∷ []

unfoldable pub get_vite_config : List (Text × Value) → List (Text × Value)
get_vite_config custom =
    spread
      ((codes "server", object (spread server_config (fields (lookup (codes "server") custom))))
        ∷ (codes "build", object (spread build_config (fields (lookup (codes "build") custom))))
        ∷ (
          codes "optimizeDeps",
          object (spread optimize_deps_config (fields (lookup (codes "optimizeDeps") custom))),
        )
        ∷ [])
      custom

-- The recommended sections.
abbrev pub recommended : List (Text × Value)
recommended =
    (codes "server", object server_config)
    ∷ (codes "build", object build_config)
    ∷ (codes "optimizeDeps", object optimize_deps_config)
    ∷ []

some_ne_none {ℓ} : {A : Type ℓ} (v : A) → some v ≢ none
some_ne_none v = λ e. cc

lookup-append {ℓ} :
    {A : Type ℓ} (k : Text) (xs ys : List (Text × A))
    → lookup k xs ≡ none
    → lookup k (xs ++ ys) ≡ lookup k ys
unfolding lookup
lookup-append k [] ys h = refl
lookup-append k ((j, v) ∷ xs) ys h = elim (Bool-cases (text_eq k j)) [
  | inl p ↦ absurd (some_ne_none v (rw p at h))
  | inr p ↦ rw p (lookup-append k xs ys (rw p at h))
]

lookup-append_some {ℓ} :
    {A : Type ℓ} (k : Text) (xs ys : List (Text × A)) (v : A)
    → lookup k xs ≡ some v
    → lookup k (xs ++ ys) ≡ some v
unfolding lookup
lookup-append_some k [] ys v h = cc
lookup-append_some k ((j, w) ∷ xs) ys v h = elim (Bool-cases (text_eq k j)) [
  | inl p ↦ rw p (rw p at h)
  | inr p ↦ rw p (lookup-append_some k xs ys v (rw p at h))
]

-- A key that the custom configuration lacks: a section is the recommended one as it is.
section_kept :
    (section k : Text) (config : List (Text × Leaf)) (custom : List (Text × Value))
    (rest other : List (Text × Value))
    → lookup k custom ≡ none
    → lookup k rest ≡ lookup k other
    → lookup k ((section, object (spread config (fields (lookup section custom)))) ∷ rest)
      ≡ lookup k ((section, object config) ∷ other)
unfolding lookup
section_kept section k config custom rest other h e = elim (Bool-cases (text_eq k section)) [
  | inr p ↦ rw (p, e)
  | inl p ↦ rw (p, ← text_eq→eq k section p, h)
]

-- For every key, `getViteConfig` has the custom configuration's value, if it has one, and else the
-- recommended one: a custom section takes the place of the recommended section, no key of which is
-- left, and the sections that the function merges are never seen.
pub get_vite_config-lookup :
    (k : Text) (custom : List (Text × Value))
    → lookup k (get_vite_config custom) ≡ lookup k (spread recommended custom)
unfolding get_vite_config
get_vite_config-lookup k custom = elim (Option-cases (lookup k custom)) [
  | inr (v, p) ↦
      lookup-append_some k custom _ v p ∙ sym (lookup-append_some k custom recommended v p)
  | inl p ↦
      lookup-append k custom _ p
      ∙ section_kept (codes "server") k server_config custom _ _ p (
          section_kept (codes "build") k build_config custom _ _ p
            (section_kept (codes "optimizeDeps") k optimize_deps_config custom [] [] p refl))
      ∙ sym (lookup-append k custom recommended p)
]
