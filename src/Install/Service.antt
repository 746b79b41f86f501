-- ===== src/Install/Service.antt =====
-- internal/install/service.go and `ensureProvider` of internal/install/cli.go: the controller as a job
-- of launchd.
pub mod Restarts
pub mod Stopped
mod Examples
use garm_provider_orbstack.Prelude.{
  ◌+◌, ◌-◌, ℕ, zero, suc, String, Bool, true, false, not, ◌==◌, ◌&&◌, ◌||◌, eqb, ltb, leb, List, [],
  ◌∷◌, Option, none, some, contains, split_on, trim_space, trim_prefix, has_prefix, all_chars,
  is_digit, if◌then◌else◌,
}
use Prim.Native.Char.{code}
use Prim.Native.Nat.{◌*◌}
use garm_provider_orbstack.Error.{
  Error, Result, ok, err, message, external, wrapped, joined, sentinel, is, context_done,
  provider_not_registered,
}
use garm_provider_orbstack.Exec.{Exec, pure, raise, lift, attempt, raise_if, ◌>>=◌, ◌>>◌}

-- what a run of `launchctl` gives: its output, the standard error of an exit with an error, or another
-- failure
pub data Ran : Type 0 where
  done exited broken : String → Ran

-- what signal 0 to a process gives: the process is there, there is none (ESRCH), or another error
pub data Signal : Type 0 where
  alive gone : Signal
  denied : String → Signal

-- what a request to the controller gives: the status of the response, or an error
pub data Probe : Type 0 where
  status : ℕ → Probe
  unreachable : String → Probe

-- what `garm-cli provider list` gives through `cliJSON`: the names of the providers, or an error
pub data Answer : Type 0 where
  listed : List String → Answer
  unanswered : String → Answer

-- what the operations ask for
pub record Desk (W : Type 0) : Type 0 where
  pub launchctl : List String → W → Ran × W
  pub kill : ℕ → W → Signal × W
  pub probe : W → Probe × W
  pub providers : W → Answer × W
  pub domain : String
  pub target : String
  pub plist : String

pub data Event : Type 0 where
  ran : List String → Ran → Event
  signalled : ℕ → Signal → Event

-- the log has the latest event first
pub record Session (W : Type 0) : Type 0 where
  pub world : W
  pub log : List Event

-- `strings.Contains`
unfoldable pub has_infix : String → String → Bool
has_infix part String.[] = part == ""
has_infix part (String.◌∷◌ c s) = has_prefix (String.◌∷◌ c s) part || has_infix part s

abbrev pub missing : Ran → Bool
missing (exited stderr) = has_infix "Could not find service" stderr
missing _ = false

-- the status of the job, and whether it is loaded
unfoldable pub read_status : Ran → Result (String × Bool)
unfolding has_infix
read_status (done output) = ok (output, true)
read_status (exited stderr) =
    if has_infix "Could not find service" stderr
    then ok ("", false)
    else err (wrapped "reading LaunchAgent status" (external stderr))
read_status (broken e) = err (wrapped "reading LaunchAgent status" (external e))

unfoldable pub number_from : ℕ → String → ℕ
number_from n String.[] = n
number_from n (String.◌∷◌ c s) = number_from (n * 10 + (code c - b'0')) s

abbrev pub unsigned : String → String
unsigned s = if has_prefix s "+" then trim_prefix s "+" else s

-- `strconv.Atoi` to 64 bits, where the number is at least one
unfoldable pub parse_pid : String → Option ℕ
unfolding number_from all_chars trim_prefix has_prefix
parse_pid s =
    let digits = unsigned s in
    let n = number_from 0 digits in
    if not (digits == "") && all_chars is_digit digits && leb 1 n && ltb n 9223372036854775808
    then some n
    else none

abbrev pub pid_or : Option ℕ → Result ℕ
pid_or (some n) = ok n
pid_or none = err (message "cannot establish controller PID")

-- the loop over the lines of the status, with the PID found so far
unfoldable pub scan_pid : ℕ → List String → Result ℕ
unfolding parse_pid trim_space
scan_pid pid [] = ok pid
scan_pid pid (line ∷ rest) =
    let others : ℕ → Result ℕ = λ n. scan_pid n rest in
    if has_prefix (trim_space line) "pid = "
    then scanned others (pid_or (parse_pid (trim_prefix (trim_space line) "pid = ")))
    else others pid
  where
    scanned : (ℕ → Result ℕ) → Result ℕ → Result ℕ
    scanned next (ok n) = next n
    scanned next (err e) = err e

abbrev pub check_running : String → Result ℕ → Result ℕ
check_running text (err e) = err e
check_running text (ok pid) =
    if has_infix "state = running" text && eqb pid 0
    then err (message "running LaunchAgent did not report a controller PID")
    else ok pid

-- `launchPID`
unfoldable pub launch_pid : String → Result ℕ
unfolding scan_pid split_on has_infix
launch_pid text = check_running text (scan_pid 0 (split_on b'\n' text))

abbrev pub required : String → Ran → Result String
required m (done output) = ok output
required m (exited e) = err (wrapped m (external e))
required m (broken e) = err (wrapped m (external e))

abbrev pub ready : ℕ → Bool
ready n = eqb n 401 || eqb n 403 || eqb n 409

abbrev pub judge_probe : Probe → Result ℕ
judge_probe (unreachable e) = err (external e)
judge_probe (status n) = if ready n then ok n else err (message "unexpected controller status")

abbrev pub judge_answer : Answer → Result (Unit {0})
judge_answer (unanswered e) =
    err (wrapped "querying controller providers (no restart)" (external e))
judge_answer (listed names) =
    if contains "orbstack" names then ok tt else err (sentinel provider_not_registered)

abbrev pub still_alive : Error
still_alive =
    message
      "previous controller PID remains alive; refusing live-data backup/removal or stale readiness"

abbrev pub never_ready : Error → Error
never_ready last =
    wrapped "waiting for CA-validated controller HTTPS" (joined (sentinel context_done) last)

module _ {W : Type 0} (desk : Desk W) where
  -- `outputCommand` of `launchctl`
  abbrev pub output_command : List String → Exec (Session W) Ran
  output_command args s =
      let (r, w) = desk.launchctl args s.world in
      (ok r, record { world = w; log = ran args r ∷ s.log })

  abbrev pub send_signal : ℕ → Exec (Session W) Signal
  send_signal pid s =
      let (k, w) = desk.kill pid s.world in
      (ok k, record { world = w; log = signalled pid k ∷ s.log })

  abbrev pub must_run : String → List String → Exec (Session W) String
  must_run m args = output_command args >>= λ r. lift (required m r)

  -- `launchStatus`
  unfoldable pub launch_status : Exec (Session W) (String × Bool)
  unfolding read_status
  launch_status = do r ← output_command ("print" ∷ desk.target ∷ []); lift (read_status r)

  abbrev pub exit_or : Signal → Exec (Session W) (Unit {0}) → Exec (Session W) (Unit {0})
  exit_or gone next = pure tt
  exit_or alive next = next
  exit_or (denied e) next = raise (wrapped "checking stopped controller PID" (external e))

  -- The loop of `waitProcessExit`, where the deadline or the context is done after `ticks` ticks.
  unfoldable pub await_exit : ℕ → ℕ → Exec (Session W) (Unit {0})
  await_exit pid zero = do k ← send_signal pid; exit_or k (raise still_alive)
  await_exit pid (suc ticks) = do k ← send_signal pid; exit_or k (await_exit pid ticks)

  -- `waitProcessExit`
  unfoldable pub wait_process_exit : ℕ → ℕ → Exec (Session W) (Unit {0})
  unfolding await_exit
  wait_process_exit ticks pid = if eqb pid 0 then pure tt else await_exit pid ticks

  abbrev pub bootstrap_unless : Bool → Exec (Session W) String
  bootstrap_unless true = pure ""
  bootstrap_unless false =
      must_run "bootstrap LaunchAgent" ("bootstrap" ∷ desk.domain ∷ desk.plist ∷ [])

  abbrev pub kickstart_args : Bool → List String
  kickstart_args true = "kickstart" ∷ "-k" ∷ desk.target ∷ []
  kickstart_args false = "kickstart" ∷ desk.target ∷ []

  abbrev pub started : ℕ → ℕ → Bool → Bool → Exec (Session W) Bool
  started ticks pid loaded true = do wait_process_exit ticks pid; pure false
  started ticks pid loaded false = pure (not loaded)

  -- `startService`: whether the job was not loaded before
  unfoldable pub start_service : ℕ → Bool → Exec (Session W) Bool
  unfolding launch_status launch_pid wait_process_exit
  start_service ticks restart = do
    found ← launch_status
    pid ← lift (launch_pid found.0)
    _ ← bootstrap_unless found.1
    _ ← must_run "kickstart LaunchAgent" (kickstart_args restart)
    started ticks pid found.1 restart

  -- The loop of `stopService`, where the deadline has passed or the context is done after `ticks`
  -- rounds, with the error for that.
  unfoldable pub await_unloaded : Error → ℕ → Exec (Session W) (Unit {0})
  unfolding launch_status
  await_unloaded late zero = do found ← launch_status; raise_if found.1 late
  await_unloaded late (suc ticks) = do
    found ← launch_status
    (let next = await_unloaded late ticks in if found.1 then next else pure tt)

  -- the rest of `stopService` for a job that is loaded, with its status
  unfoldable pub stop_loaded : Error → ℕ → ℕ → String → Exec (Session W) (Unit {0})
  unfolding launch_pid await_unloaded wait_process_exit
  stop_loaded late rounds ticks text = do
    pid ← lift (launch_pid text)
    _ ← must_run "bootout LaunchAgent" ("bootout" ∷ desk.target ∷ [])
    await_unloaded late rounds
    wait_process_exit ticks pid

  -- `stopService`
  unfoldable pub stop_service : Error → ℕ → ℕ → Exec (Session W) (Unit {0})
  unfolding launch_status stop_loaded
  stop_service late rounds ticks = do
    found ← launch_status
    if found.1 then stop_loaded late rounds ticks found.0 else pure tt

  abbrev pub probe_http : Exec (Session W) (Result ℕ)
  probe_http s =
      let (p, w) = desk.probe s.world in (ok (judge_probe p), record { world = w; log = s.log })

  abbrev pub ready_or : Result ℕ → (Error → Exec (Session W) ℕ) → Exec (Session W) ℕ
  ready_or (ok n) next = pure n
  ready_or (err e) next = next e

  -- `waitController`, where the context is done after `ticks` ticks
  unfoldable pub wait_controller : ℕ → Exec (Session W) ℕ
  wait_controller zero = do r ← probe_http; ready_or r (λ last. raise (never_ready last))
  wait_controller (suc ticks) = do r ← probe_http; ready_or r (λ last. wait_controller ticks)

  -- `checkProvider`
  unfoldable pub check_provider : Exec (Session W) (Unit {0})
  check_provider s =
      let (a, w) = desk.providers s.world in (judge_answer a, record { world = w; log = s.log })

  -- `errors.Join(err, other)`
  abbrev pub joining : Error → Result (Unit {0}) → Result (Unit {0})
  joining e (ok u) = ok u
  joining e (err other) = err (joined e other)

  -- the restart of `ensureProvider`, after the error of the first check
  unfoldable pub recheck : ℕ → ℕ → Error → Exec (Session W) (Unit {0})
  unfolding start_service wait_controller check_provider
  recheck exits ticks e = do
    restarted ← attempt (start_service exits true >>= λ _. pure tt)
    lift (joining e restarted)
    waited ← attempt (wait_controller ticks >>= λ _. pure tt)
    lift (joining e waited)
    check_provider

  abbrev pub ensure_from : ℕ → ℕ → Result (Unit {0}) → Exec (Session W) (Unit {0})
  ensure_from exits ticks (ok u) = pure u
  ensure_from exits ticks (err e) =
      if is e provider_not_registered then recheck exits ticks e else raise e

  -- `ensureProvider`
  unfoldable pub ensure_provider : ℕ → ℕ → Exec (Session W) (Unit {0})
  unfolding check_provider recheck
  ensure_provider exits ticks = do checked ← attempt check_provider; ensure_from exits ticks checked
