-- ===== src/Frameworks/Rendering.antt =====
-- What `withSSHClient` of lib/react.ts shows of the state of `useSSHClient`.
use sshclient_sftp_wasm.Base.{
  ℕ, ◌<◌, ◌≡◌, ◌≢◌, refl, ◌⊎◌, inl, inr, Bool, true, false, Bool-cases, Option, none, some, List,
  [], ◌∷◌, each, ltb, ◌==◌, ltb→lt, if◌then◌else◌, arith,
}
use sshclient_sftp_wasm.Client.Errors.{Thrown}
use sshclient_sftp_wasm.Client.Program.{Outcome, resolved, rejected}
use sshclient_sftp_wasm.Frameworks.SshInit.{
  SshInit, start, InitEvent, effect_runs, cleans_up, settles, finishes, is_among, is_mounted,
  settled, step, Rendered, initializing, uninitialized, component, failed, rendered_error,
  with_ssh_client,
}

-- The last settled run left a client or an error.
abbrev HasOutcome : SshInit → Type 0
HasOutcome h = (h.is_initialized ≡ true) ⊎ (h.init_error ≢ none)

pub record IsSound (h : SshInit) : Type 0 where
  pub alone : h.is_initialized ≡ true → h.init_error ≡ none
  pub counted : (n : ℕ) → is_among n h.awaiting ≡ true → n < h.effects_run
  pub mounted_counted : (n : ℕ) → h.mounted ≡ some n → n < h.effects_run
  pub due : (n : ℕ) → h.mounted ≡ some n → is_among n h.awaiting ≡ true → HasOutcome h
  pub done : h.is_loading ≡ false → HasOutcome h

mounted_eq : (n : ℕ) (o : Option ℕ) → is_mounted n o ≡ true → o ≡ some n
mounted_eq n none h = cc
mounted_eq n (some k) h = ground arith

module _ (n : ℕ) (h : SshInit) (started : n < h.effects_run) (s : IsSound h) where
  among_counted : (k : ℕ) → is_among k (n ∷ h.awaiting) ≡ true → k < h.effects_run
  unfolding is_among
  among_counted k e = elim (Bool-cases (n == k)) [
    | inl p ↦ ground arith
    | inr p ↦ s.counted k (rw p at e)
  ]

  -- The callback of a run that is mounted leaves an outcome.
  settled-IsSound :
      (o : Outcome (Unit {0})) → IsSound (record (settled o h) { awaiting = n ∷ h.awaiting })
  settled-IsSound (resolved u) = record {
    alone = λ e. refl;
    counted = among_counted;
    mounted_counted = s.mounted_counted;
    due = λ k e a. inl refl;
    done = λ e. inl refl;
  }
  settled-IsSound (rejected x) = record {
    alone = λ e. cc;
    counted = among_counted;
    mounted_counted = s.mounted_counted;
    due = λ k e a. inr (λ c. cc);
    done = λ e. inr (λ c. cc);
  }

  still_due :
      (k : ℕ)
      → is_mounted n h.mounted ≡ false
      → h.mounted ≡ some k
      → is_among k (n ∷ h.awaiting) ≡ true
      → HasOutcome h
  unfolding is_among
  still_due k m e a = elim (Bool-cases (n == k)) [
    | inl p ↦ absurd (let no : is_mounted n (some k) ≡ false = rw e at m in ground arith)
    | inr p ↦ s.due k e (rw p at a)
  ]

  settles-IsSound :
      (o : Outcome (Unit {0}))
      → IsSound
          (record (if is_mounted n h.mounted then settled o h else h) { awaiting = n ∷ h.awaiting })
  settles-IsSound o = elim (Bool-cases (is_mounted n h.mounted)) [
    | inl m ↦ rw m (settled-IsSound o)
    | inr m ↦ rw m (record {
      alone = s.alone;
      counted = among_counted;
      mounted_counted = s.mounted_counted;
      due = λ k e a. still_due k m e a;
      done = s.done;
    })
  ]

  finishes-IsSound :
      is_among n h.awaiting ≡ true
      → is_mounted n h.mounted ≡ true
      → IsSound (record h { is_loading = false })
  finishes-IsSound a m = record {
    alone = s.alone;
    counted = s.counted;
    mounted_counted = s.mounted_counted;
    due = s.due;
    done = λ e. s.due n (mounted_eq n h.mounted m) a;
  }

step-IsSound : (v : InitEvent) (h : SshInit) → IsSound h → IsSound (step v h)
unfolding step
step-IsSound effect_runs h s = record {
  alone = s.alone;
  counted = λ n e. omega (arith, s.counted n e);
  mounted_counted = λ n e. ground (arith, e);
  due = λ n e a.
      absurd
        (let same : h.effects_run ≡ n = ground (arith, e) in omega (arith, s.counted n a, same));
  done = s.done;
}
step-IsSound cleans_up h s = record {
  alone = s.alone;
  counted = s.counted;
  mounted_counted = λ n e. cc;
  due = λ n e a. cc;
  done = s.done;
}
step-IsSound (settles n o) h s = elim (Bool-cases (ltb n h.effects_run)) [
  | inl started ↦ rw started (settles-IsSound n h (ltb→lt n h.effects_run started) s o)
  | inr unknown ↦ rw unknown s
]
step-IsSound (finishes n) h s = elim (Bool-cases (is_among n h.awaiting)) [
  | inr none_due ↦ rw none_due s
  | inl a ↦ rw a (elim (Bool-cases (is_mounted n h.mounted)) [
    | inr gone ↦ rw gone s
    | inl m ↦ rw m (finishes-IsSound n h (s.counted n a) s a m)
  ])
]

run_keeps : (vs : List InitEvent) (h : SshInit) → IsSound h → IsSound (each step vs h)
run_keeps [] h s = s
run_keeps (v ∷ vs) h s = run_keeps vs (step v h) (step-IsSound v h s)

start-IsSound : IsSound start
unfolding is_among
start-IsSound = record {
  alone = λ e. refl;
  counted = λ n e. cc;
  mounted_counted = λ n e. cc;
  due = λ n e a. cc;
  done = λ e. cc;
}

-- What is rendered while the promise is awaited, and what with an outcome.
abbrev pub Shows : Rendered → SshInit → Type 0
Shows initializing h = h.is_loading ≡ true
Shows uninitialized h = ⊥
Shows component h = (h.is_loading ≡ false) × (h.is_initialized ≡ true)
Shows (failed e) h = (h.is_loading ≡ false) × (h.is_initialized ≡ false) × (h.init_error ≡ some e)

rendered-Shows : (h : SshInit) → IsSound h → Shows (with_ssh_client h) h
unfolding with_ssh_client
rendered-Shows h s = go h.is_loading h.init_error h.is_initialized refl refl refl
  where
    unready : HasOutcome h → h.init_error ≡ none → h.is_initialized ≡ false → ⊥
    unready (inl i) q r = cc
    unready (inr k) q r = k q

    go :
        (l : Bool) (e : Option Thrown) (b : Bool)
        → h.is_loading ≡ l
        → h.init_error ≡ e
        → h.is_initialized ≡ b
        → Shows (if l then initializing else rendered_error e b) h
    go true e b p q r = p
    go false (some x) true p q r = let none_there = s.alone r in cc
    go false (some x) false p q r = (p, r, q)
    go false none true p q r = (p, r)
    go false none false p q r = unready (s.done p) q r

-- Whatever happens, in whatever order, from the hook's start, with any runs of its effect and any
-- outcomes of their promises: `withSSHClient` shows the component only if a client is initialized
-- and nothing is loading, an error only if there is that one and no client, and it never shows
-- "SSH client not initialized".
pub run-Shows :
    (vs : List InitEvent) → Shows (with_ssh_client (each step vs start)) (each step vs start)
run-Shows vs = rendered-Shows (each step vs start) (run_keeps vs start start-IsSound)
