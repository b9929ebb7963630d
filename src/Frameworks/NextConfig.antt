-- ===== src/Frameworks/NextConfig.antt =====
-- NextJSConfig of lib/next.ts. A method of an object sees the object that it is called on as `this`.
use mathlib.Core.Option
use sshclient_sftp_wasm.Base.{
  ◌≡◌, refl, Bool, true, Option, none, some, List, [], ◌∷◌, ◌++◌, codes, Text,
}
use sshclient_sftp_wasm.Client.Errors.{Thrown, plain_error}
use sshclient_sftp_wasm.Client.Program.{Outcome, resolved, rejected}
use sshclient_sftp_wasm.Frameworks.ViteConfig.{spread, Leaf}

pub record HeaderRule : Type 0 where
  pub source : Text
  pub headers : List (Text × Text)

-- `getWebpackConfig().experiments`
abbrev pub wasm_experiments : List (Text × Bool)
wasm_experiments = (codes "asyncWebAssembly", true) ∷ (codes "layers", true) ∷ []

-- `getCORSHeaders()`
abbrev pub cors_headers : List HeaderRule
cors_headers =
    record {
      source = codes "/(.*)";
      headers =
          (codes "Cross-Origin-Embedder-Policy", codes "require-corp")
          ∷ (codes "Cross-Origin-Opener-Policy", codes "same-origin")
          ∷ [];
    }
    ∷ []

-- A configuration of webpack: its experiments, if it has them, and all else.
pub record WebpackConfig : Type 0 where
  pub experiments : Option (List (Text × Bool))
  pub rest : List (Text × Leaf)

-- What the caller of `getNextConfig` may give: a function, what the promise of a call of
-- `headers` comes to, and, if it has such a method, what `getCORSHeaders` returns.
pub record CustomConfig : Type 0 where
  pub webpack : Option (WebpackConfig → WebpackConfig)
  pub headers : Option (Outcome (List HeaderRule))
  pub get_cors_headers : Option (List HeaderRule)

-- The object that is returned. `headers` depends on what `this` has for `getCORSHeaders`.
pub record NextConfig : Type 0 where
  pub webpack : WebpackConfig → WebpackConfig
  pub headers : Option (List HeaderRule) → Outcome (List HeaderRule)
  pub get_cors_headers : Option (List HeaderRule)

-- `config.experiments = { ...config.experiments, ...wasmConfig.experiments }`
abbrev pub with_wasm : WebpackConfig → WebpackConfig
with_wasm config = record config {
  experiments = some (spread (Option.get_or config.experiments []) wasm_experiments);
}

unfoldable pub merged_webpack : CustomConfig → WebpackConfig → WebpackConfig
merged_webpack custom config = elim custom.webpack [
  | none ↦ with_wasm config
  | some f ↦ f (with_wasm config)
]

abbrev after_cors : List HeaderRule → Option (Outcome (List HeaderRule)) → Outcome (List HeaderRule)
after_cors cors none = resolved cors
after_cors cors (some (resolved custom)) = resolved (cors ++ custom)
after_cors cors (some (rejected e)) = rejected e

-- Calling a property that is undefined throws a TypeError.
abbrev pub no_function : Thrown
no_function = plain_error (codes "this.getCORSHeaders is not a function")

unfoldable pub merged_headers : CustomConfig → Option (List HeaderRule) → Outcome (List HeaderRule)
merged_headers custom none = rejected no_function
merged_headers custom (some cors) = after_cors cors custom.headers

-- `{ webpack: …, async headers() { … }, ...customConfig }`
unfoldable pub get_next_config : CustomConfig → NextConfig
unfolding merged_webpack merged_headers
get_next_config custom = record {
  webpack = Option.get_or custom.webpack (merged_webpack custom);
  headers = elim custom.headers [ none ↦ merged_headers custom | some given ↦ λ this. given ];
  get_cors_headers = custom.get_cors_headers;
}

-- `config.headers()`, as Next.js calls it.
abbrev pub ask_headers : NextConfig → Outcome (List HeaderRule)
ask_headers config = config.headers config.get_cors_headers

-- `getNextConfig` merges nothing. With a custom `webpack` the result's is that function, and the
-- experiments are not set; without one they are. With a custom `headers` the result's gives what
-- that gives, with no CORS header added; without one it rejects, for the returned object has no
-- `getCORSHeaders`. So it is for every custom configuration that has no such method of its own.
pub get_next_config_merges_nothing :
    (custom : CustomConfig) (config : WebpackConfig)
    → custom.get_cors_headers ≡ none
    → ((get_next_config custom).webpack config ≡ Option.get_or custom.webpack with_wasm config)
      × (ask_headers (get_next_config custom) ≡ Option.get_or custom.headers (rejected no_function))
unfolding get_next_config merged_webpack merged_headers
get_next_config_merges_nothing custom config e =
    (webpack custom.webpack refl, headers custom.headers refl)
  where
    webpack :
        (o : Option (WebpackConfig → WebpackConfig))
        → custom.webpack ≡ o
        → Option.get_or o (merged_webpack custom) config ≡ Option.get_or o with_wasm config
    webpack none p = rw p refl
    webpack (some f) p = refl

    headers :
        (o : Option (Outcome (List HeaderRule)))
        → custom.headers ≡ o
        → (get_next_config custom).headers custom.get_cors_headers
          ≡ Option.get_or o (rejected no_function)
    headers none p = rw (p, e) refl
    headers (some h) p = rw p refl
