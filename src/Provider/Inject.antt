-- ===== src/Provider/Inject.antt =====
-- `injectBootstrap` and `guest` of internal/provider/bootstrap.go.
use garm_provider_orbstack.Prelude.{String, Bool, true, false, List, [], ◌∷◌}
use garm_provider_orbstack.Error.{Error, Result, ok, err, message, wrapped, sentinel, context_done}
use garm_provider_orbstack.Exec.{Exec, pure, lift, attempt, ◌>>=◌, ◌>>◌}
use garm_provider_orbstack.Orbstack.{RunOptions}
use garm_provider_orbstack.Provider.World.{Machines, World, on_machines, run_request}
use garm_provider_orbstack.Provider.Bootstrap.{Tooling, BootstrapPlan}

-- what `guest` makes of a failed command, by whether the context is done
abbrev pub guest_error : Bool → Error
guest_error true = wrapped "guest bootstrap injection" (sentinel context_done)
guest_error false =
    message "guest bootstrap injection failed; inspect the disposable machine locally"

abbrev pub guest_options : String → List String → String → RunOptions
guest_options id argv stdin = record {
  machine = id;
  user = "root";
  workdir = "";
  command = argv;
  stdin = stdin;
}

-- the commands of `injectBootstrap`, in its order
abbrev pub clear_cache : List String
clear_cache = "rm" ∷ "-rf" ∷ "/home/runner/actions-runner" ∷ []

abbrev pub make_directory : List String
make_directory = "install" ∷ "-d" ∷ "-m" ∷ "0711" ∷ "-o" ∷ "root" ∷ "-g" ∷ "root" ∷ "/run/garm" ∷ []

abbrev pub extract : List String
extract = "tar" ∷ "-xf" ∷ "-" ∷ "-C" ∷ "/run/garm" ∷ "--no-same-owner" ∷ []

abbrev pub own_script : List String
own_script = "chown" ∷ "runner:runner" ∷ "/run/garm/runner-install.sh" ∷ []

abbrev pub install_unit : List String
install_unit =
    "install" ∷ "-m" ∷ "0644" ∷ "/run/garm/garm-bootstrap.service"
    ∷ "/etc/systemd/system/garm-bootstrap.service" ∷ []

abbrev pub reload_units : List String
reload_units = "systemctl" ∷ "daemon-reload" ∷ []

abbrev pub start_unit : List String
start_unit = "systemctl" ∷ "start" ∷ "--no-block" ∷ "garm-bootstrap.service" ∷ []

module _ {O : Type 0} (orb : Machines O) where
  abbrev pub guest_result : Result (Unit {0}) → Exec (World O) (Unit {0})
  guest_result (ok _) = pure tt
  guest_result (err e) = λ w. (err (guest_error (orb.cancelled w.machines)), w)

  -- `guest`
  unfoldable pub guest : String → List String → String → Exec (World O) (Unit {0})
  guest id argv stdin = do
    done ← attempt (
        on_machines (run_request (guest_options id argv stdin))
          (orb.run (guest_options id argv stdin)))
    guest_result done

  abbrev pub remove_cached : Bool → String → Exec (World O) (Unit {0})
  remove_cached true id = guest id clear_cache ""
  remove_cached false id = pure tt

  -- `injectBootstrap`
  unfoldable pub inject_bootstrap : Tooling → String → BootstrapPlan → Exec (World O) (Unit {0})
  inject_bootstrap tooling id plan = do
    remove_cached plan.remove_cache id
    guest id make_directory ""
    payload ← lift (tooling.tar plan.files)
    guest id extract payload
    guest id own_script ""
    guest id install_unit ""
    guest id reload_units ""
    guest id start_unit ""
