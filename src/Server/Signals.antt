-- ===== src/Server/Signals.antt =====
-- The thread for signals of src/server.c, `thr_sig_handler`, over what `sigwait` answers.
use celeritas.Prelude.{ℕ, ◌≡◌, refl, Option, none, some, List, [], ◌∷◌, Bytes}
use celeritas.Config.{ConfigData}
use celeritas.Config.Load.{reload_configuration}
use celeritas.Config.Invariant.{ConfigOk}
use celeritas.Config.Loaded.{reload_configuration-ConfigOk}

-- What `sigwait` answers. For SIGHUP, what the reload is given: memory, the number of processors, and
-- the configuration file.
pub data SigWait : Type 0 where
  sighup : Option ConfigData → ℕ → Option Bytes → SigWait
  sigterm sigwait_failed : SigWait
  unexpected : ℕ → SigWait

-- The thread waits for the next signal, or has called `server_shutdown` with a status; with the
-- configuration in force.
pub record SigState : Type 0 where
  pub shutdown_status : Option ℕ
  pub conf_data : ConfigData

-- The loop, over the answers in turn; `server_shutdown` does not return. `none` would be a reload
-- that does not end.
unfoldable pub thr_sig_handler : List SigWait → ConfigData → Option SigState
thr_sig_handler [] conf_data = some (record { shutdown_status = none; conf_data = conf_data })
thr_sig_handler (sigwait_failed ∷ later) conf_data =
    some (record { shutdown_status = some 1; conf_data = conf_data })
thr_sig_handler (sigterm ∷ later) conf_data =
    some (record { shutdown_status = some 0; conf_data = conf_data })
thr_sig_handler (unexpected sig_no ∷ later) conf_data = thr_sig_handler later conf_data
thr_sig_handler (sighup memory ncpu file ∷ later) conf_data =
    elim (reload_configuration memory ncpu file conf_data) [
      | none ↦ none
      | some new_config ↦ thr_sig_handler later new_config
    ]

-- The status for the first answer that ends the server.
abbrev pub first_end : List SigWait → Option ℕ
first_end [] = none
first_end (sigwait_failed ∷ later) = some 1
first_end (sigterm ∷ later) = some 0
first_end (unexpected sig_no ∷ later) = first_end later
first_end (sighup memory ncpu file ∷ later) = first_end later

-- Whatever signals arrive, and whatever configuration files are found at each SIGHUP: from a valid
-- configuration, the thread always comes to its next wait or to the shutdown, the first SIGTERM or
-- failed wait ends the server with status 0 or 1, no other signal ends it, and the configuration in
-- force is valid then.
pub thr_sig_handler-ConfigOk :
    (signals : List SigWait) (conf_data : ConfigData)
    → ConfigOk conf_data
    → (out : SigState) × (thr_sig_handler signals conf_data ≡ some out)
      × (out.shutdown_status ≡ first_end signals)
      × ConfigOk out.conf_data
unfolding thr_sig_handler
thr_sig_handler-ConfigOk [] conf_data h =
    (record { shutdown_status = none; conf_data = conf_data }, refl, refl, h)
thr_sig_handler-ConfigOk (sigwait_failed ∷ later) conf_data h =
    (record { shutdown_status = some 1; conf_data = conf_data }, refl, refl, h)
thr_sig_handler-ConfigOk (sigterm ∷ later) conf_data h =
    (record { shutdown_status = some 0; conf_data = conf_data }, refl, refl, h)
thr_sig_handler-ConfigOk (unexpected sig_no ∷ later) conf_data h =
    thr_sig_handler-ConfigOk later conf_data h
thr_sig_handler-ConfigOk (sighup memory ncpu file ∷ later) conf_data h =
    let (new_config, e, ok) = reload_configuration-ConfigOk memory ncpu file conf_data h in
    let (out, f, s, ok') = thr_sig_handler-ConfigOk later new_config ok in
    (out, rw (e, thr_sig_handler) f, s, ok')
