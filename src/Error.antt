-- ===== src/Error.antt =====
-- Go errors as values: the sentinels that the code compares by `errors.Is`, messages, wrapping by
-- `%w` and `errors.Join`. A message is the constant part of its format string.
use garm_provider_orbstack.Prelude.{String, Bool, true, false, ◌||◌}

pub data Sentinel : Type 0 where
  -- internal/state/registry.go
  not_found conflict capacity busy unchanged : Sentinel
  -- garm-provider-common/errors: ErrNotFound, ErrDuplicateEntity
  entity_not_found duplicate_entity : Sentinel
  -- internal/orbstack/cli.go: ErrNotFound
  machine_not_found : Sentinel
  -- internal/install/cli.go: errProviderNotRegistered
  provider_not_registered : Sentinel
  -- os.ErrNotExist, and the error of a context that is done
  not_exist context_done : Sentinel

pub data Error : Type 0 where
  sentinel : Sentinel → Error
  message : String → Error
  -- what the operating system or another program reports
  external : String → Error
  wrapped : String → Error → Error
  joined : Error → Error → Error

abbrev pub same_sentinel : Sentinel → Sentinel → Bool
same_sentinel not_found not_found = true
same_sentinel conflict conflict = true
same_sentinel capacity capacity = true
same_sentinel busy busy = true
same_sentinel unchanged unchanged = true
same_sentinel entity_not_found entity_not_found = true
same_sentinel duplicate_entity duplicate_entity = true
same_sentinel machine_not_found machine_not_found = true
same_sentinel provider_not_registered provider_not_registered = true
same_sentinel not_exist not_exist = true
same_sentinel context_done context_done = true
same_sentinel _ _ = false

-- `errors.Is(err, target)` for a sentinel target
abbrev pub is : Error → Sentinel → Bool
is (sentinel s) t = same_sentinel s t
is (message m) t = false
is (external m) t = false
is (wrapped m e) t = is e t
is (joined a b) t = is a t || is b t

pub data Result {ℓ} (A : Type ℓ) : Type ℓ where
  ok : A → Result A
  err : Error → Result A
