-- ===== src/Startup/Together.antt =====
-- What overlapping calls of SSHClient.initialize of lib/index.ts keep.
use sshclient_sftp_wasm.Base.{
  ℕ, zero, suc, ◌≡◌, refl, Bool, true, false, List, [], ◌∷◌, each, if◌then◌else◌,
}
use sshclient_sftp_wasm.Client.Program.{Outcome, resolved, rejected, catching}
use sshclient_sftp_wasm.Startup.Initialize.{Request, Page, Loader, Load, take_instance, fail}
use sshclient_sftp_wasm.Startup.Ready.{IsReady, IsSettled, Leads-bind, Leads-tail, handled}
use sshclient_sftp_wasm.Startup.Overlap.{
  Loading, LoadMoment, starts, waited, asks, throws, asked_by, settled_by, finish, load_step,
}

-- An initialized client has the module.
abbrev pub IsSound : Loader → Type 0
IsSound l = l.initialized ≡ true → IsReady l

settled-IsSound : (r : Outcome (Unit {0}) × Loader) → IsSettled r → IsSound r.1
settled-IsSound (resolved u, l) h e = h
settled-IsSound (rejected x, l) h e = cc

settled_by-IsSound :
    (n : ℕ) (m : Load (Unit {0})) (s : Loading)
    → IsSettled (m s.loader)
    → IsSound s.loader
    → IsSound (settled_by n m s).loader
settled_by-IsSound zero m s k h = h
settled_by-IsSound (suc n) m s k h = settled-IsSound (m s.loader) k

asked_by-IsSound :
    (n : ℕ) (k : Request) (s : Loading) → IsSound s.loader → IsSound (asked_by n k s).loader
asked_by-IsSound zero k s h = h
asked_by-IsSound (suc n) k s h = λ e.
    let r = h e in
    record {
      is_initialized = r.is_initialized;
      instance_there = r.instance_there;
      manager_there = r.manager_there;
    }

started-IsSound :
    (b : Bool) (s : Loading)
    → IsSound s.loader
    → IsSound (if b then s else record s { pending = suc s.pending }).loader
started-IsSound true s h = h
started-IsSound false s h = h

module _ (page : Page) where
  finish-IsSettled : (l : Loader) → IsSettled (catching (finish page) (fail page) l)
  finish-IsSettled l =
      handled page (finish page l)
        ((Leads-bind (take_instance page) _ (λ _. Leads-tail page)).leads l)

  step-IsSound :
      (m : LoadMoment) (s : Loading) → IsSound s.loader → IsSound (load_step page m s).loader
  unfolding load_step
  step-IsSound starts s h = started-IsSound s.loader.initialized s h
  step-IsSound (asks k) s h = asked_by-IsSound s.pending k s h
  step-IsSound waited s h =
      settled_by-IsSound s.pending (catching (finish page) (fail page)) s
        (finish-IsSettled s.loader) h
  step-IsSound (throws e) s h = settled_by-IsSound s.pending (fail page e) s refl h

  -- If the client and TransportManager have the WebAssembly module where `initialized` is set, then
  -- so they do after any overlapping calls of `initialize`, whatever the page answers.
  pub overlapping_loads_ready :
      (ms : List LoadMoment) (s : Loading)
      → IsSound s.loader
      → IsSound (each (load_step page) ms s).loader
  overlapping_loads_ready [] s h = h
  overlapping_loads_ready (m ∷ ms) s h =
      overlapping_loads_ready ms (load_step page m s) (step-IsSound m s h)
