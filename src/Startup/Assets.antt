-- ===== src/Startup/Assets.antt =====
-- The options of SSHClient.initialize in lib/index.ts, `detectFramework` and `getAssetPaths`.
use mathlib.Core.Option
use sshclient_sftp_wasm.Base.{
  ℕ, ◌≡◌, refl, Bool, Bool-cases, true, false, not, ◌&&◌, ◌||◌, Option, none, some, [], ◌∷◌, ◌++◌,
  codes, if◌then◌else◌, Text, ◌⊎◌, inl, inr,
}

pub data Framework : Type 0 where
  nextjs vite webpack generic : Framework

-- What `detectFramework` looks for.
pub record Globals : Type 0 where
  pub has_window : Bool
  pub has_next_data : Bool
  pub has_next : Bool
  pub has_vite_preamble : Bool
  pub has_webpack_require : Bool

unfoldable pub detect_framework : Globals → Framework
detect_framework g =
    if not g.has_window
    then generic
    else if g.has_next_data || g.has_next
    then nextjs
    else if g.has_vite_preamble
    then vite
    else if g.has_webpack_require
    then webpack
    else generic

pub record InitializationOptions : Type 0 where
  pub wasm_path : Option Text
  pub wasm_exec_path : Option Text
  pub auto_detect : Option Bool
  pub public_dir : Option Text
  pub cache_busting : Option Bool
  pub timeout : Option ℕ

pub record AssetPaths : Type 0 where
  pub wasm_path : Text
  pub wasm_exec_path : Text

-- `text || fallback`
abbrev pub or_text : Option Text → Text → Text
or_text none fallback = fallback
or_text (some []) fallback = fallback
or_text (some (c ∷ s)) fallback = c ∷ s

abbrev pub is_given : Option Text → Bool
is_given none = false
is_given (some []) = false
is_given (some (c ∷ s)) = true

abbrev pub is_set : Option Bool → Bool
is_set o = Option.get_or o false

abbrev pub public_paths : Text → InitializationOptions → AssetPaths
public_paths dir o = record {
  wasm_path = or_text o.wasm_path (dir ++ codes "sshclient.wasm");
  wasm_exec_path = or_text o.wasm_exec_path (dir ++ codes "wasm_exec.js");
}

-- `switch (framework)`
abbrev pub framework_paths : Framework → Text → InitializationOptions → AssetPaths
framework_paths nextjs dir o = public_paths dir o
framework_paths vite dir o = public_paths dir o
framework_paths f dir o = public_paths dir o

abbrev explicit_paths : InitializationOptions → AssetPaths
explicit_paths o = record {
  wasm_path = Option.get_or o.wasm_path [];
  wasm_exec_path = Option.get_or o.wasm_exec_path [];
}

abbrev pub default_dir : Text
default_dir = codes "/"

unfoldable pub get_asset_paths : Globals → InitializationOptions → AssetPaths
get_asset_paths g o =
    if is_given o.wasm_path && is_given o.wasm_exec_path
    then explicit_paths o
    else framework_paths (detect_framework g) (or_text o.public_dir default_dir) o

-- The argument of `initialize`: a path, as in older versions, or options over the defaults.
unfoldable pub init_options : Text ⊎ InitializationOptions → InitializationOptions
init_options (inl path) = record {
  wasm_path = some path;
  wasm_exec_path = none;
  auto_detect = some false;
  public_dir = none;
  cache_busting = none;
  timeout = none;
}
init_options (inr o) = record o {
  auto_detect = some (Option.get_or o.auto_detect true);
  cache_busting = some (Option.get_or o.cache_busting true);
  timeout = some (Option.get_or o.timeout 10000);
}

framework_paths_same :
    (f : Framework) (dir : Text) (o : InitializationOptions)
    → framework_paths f dir o ≡ public_paths dir o
framework_paths_same nextjs dir o = refl
framework_paths_same vite dir o = refl
framework_paths_same f dir o = refl

given_paths :
    (dir : Text) (p q : Option Text) (o : InitializationOptions)
    → o.wasm_path ≡ p
    → o.wasm_exec_path ≡ q
    → ((is_given p && is_given q) ≡ true)
    → Path AssetPaths
        (record { wasm_path = Option.get_or p []; wasm_exec_path = Option.get_or q [] })
        (public_paths dir o)
given_paths dir (some (c ∷ s)) (some (d ∷ t)) o a b h = rw (a, b)
given_paths dir none q o a b h = cc
given_paths dir (some []) q o a b h = cc
given_paths dir (some (c ∷ s)) none o a b h = cc
given_paths dir (some (c ∷ s)) (some []) o a b h = cc

-- `getAssetPaths` gives the same on every page, whatever framework is detected: each path that the
-- options give, and for one that they do not the file of its usual name in the public directory,
-- which is `/` if the options name none.
pub get_asset_paths_lem :
    (g : Globals) (o : InitializationOptions)
    → get_asset_paths g o ≡ public_paths (or_text o.public_dir default_dir) o
unfolding get_asset_paths
get_asset_paths_lem g o = elim (Bool-cases (is_given o.wasm_path && is_given o.wasm_exec_path)) [
  | inl p ↦ rw p (given_paths _ o.wasm_path o.wasm_exec_path o refl refl p)
  | inr p ↦ rw p (framework_paths_same (detect_framework g) _ o)
]
