-- ===== src/Tests/Hooks.antt =====
-- NextJSConfig of lib/next.ts and `useSSHClient` at concrete inputs.
use sshclient_sftp_wasm.Base.{◌≡◌, refl, none, some, List, [], ◌∷◌, each, codes}
use sshclient_sftp_wasm.Client.Errors.{plain_error}
use sshclient_sftp_wasm.Client.Program.{resolved, rejected}
use sshclient_sftp_wasm.Frameworks.NextConfig.{
  WebpackConfig, CustomConfig, wasm_experiments, no_function, get_next_config, ask_headers,
  get_next_config_merges_nothing,
}
use sshclient_sftp_wasm.Frameworks.SshInit.{
  InitEvent, effect_runs, cleans_up, settles, finishes, start, step, is_among, with_ssh_client,
  component, initializing,
}
use sshclient_sftp_wasm.Frameworks.Rendering.{Shows, run-Shows}

-- A custom configuration that keeps webpack's own as it is.
abbrev custom : CustomConfig
custom = record { webpack = some (λ config. config); headers = none; get_cors_headers = none }

abbrev bare : WebpackConfig
bare = record { experiments = none; rest = [] }

get_next_config_merges_nothing_example :
    ((get_next_config custom).webpack bare ≡ bare)
    × (ask_headers (get_next_config custom) ≡ rejected no_function)
get_next_config_merges_nothing_example = get_next_config_merges_nothing custom bare refl

-- Without custom settings the experiments are set.
experiments_set :
    ((get_next_config (record custom { webpack = none })).webpack bare).experiments
    ≡ some wasm_experiments
unfolding get_next_config
experiments_set = refl

-- The options change before the first promise settles, and both fail or not.
abbrev changed_options : List InitEvent
changed_options =
    effect_runs
    ∷ cleans_up
    ∷ effect_runs
    ∷ settles 0 (rejected (plain_error (codes "gone")))
    ∷ finishes 0
    ∷ settles 1 (resolved tt)
    ∷ []

run-Shows_example : Shows initializing (each step changed_options start)
unfolding with_ssh_client step is_among
run-Shows_example = run-Shows changed_options

-- The second promise counts.
component_shown : with_ssh_client (step (finishes 1) (each step changed_options start)) ≡ component
unfolding with_ssh_client step
component_shown = refl
