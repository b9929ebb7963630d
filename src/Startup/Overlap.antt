-- ===== src/Startup/Overlap.antt =====
-- Calls of SSHClient.initialize of lib/index.ts that overlap: a call that has not settled has passed
-- the test of `initialized`, and goes on between its awaits while others do.
use sshclient_sftp_wasm.Base.{ℕ, zero, suc, List, [], ◌∷◌, ◌++◌, if◌then◌else◌}
use sshclient_sftp_wasm.Client.Errors.{Thrown}
use sshclient_sftp_wasm.Client.Program.{◌>>◌, catching}
use sshclient_sftp_wasm.Startup.Initialize.{
  Request, Page, Loader, Load, take_instance, require_instance, set_ready, log_version, fail,
}

-- The static fields, and how many calls of `initialize` have not settled.
pub record Loading : Type 0 where
  pub loader : Loader
  pub pending : ℕ

-- `initialize` is called; a pending call asks for something; one has waited for the module and runs
-- to its end; one throws before that.
pub data LoadMoment : Type 0 where
  starts waited : LoadMoment
  asks : Request → LoadMoment
  throws : Thrown → LoadMoment

abbrev pub requested : List Request → Loader → Loader
requested ks l = record l { requests = l.requests ++ ks }

abbrev pub asked_by : ℕ → Request → Loading → Loading
asked_by zero k s = s
asked_by (suc n) k s = record s { loader = requested (k ∷ []) s.loader }

-- One of the pending calls settles.
abbrev pub settled_by : ℕ → Load (Unit {0}) → Loading → Loading
settled_by zero m s = s
settled_by (suc n) m s = record { loader = (m s.loader).1; pending = n }

module _ (page : Page) where
  -- What `initialize` does behind its last `await`.
  abbrev pub finish : Load (Unit {0})
  finish = do take_instance page; require_instance page; set_ready page; log_version page

  unfoldable pub load_step : LoadMoment → Loading → Loading
  load_step starts s = if s.loader.initialized then s else record s { pending = suc s.pending }
  load_step (asks k) s = asked_by s.pending k s
  load_step waited s = settled_by s.pending (catching finish (fail page)) s
  load_step (throws e) s = settled_by s.pending (fail page e) s
