-- ===== src/State/Examples.antt =====
-- Runs of the registry (internal/state) on small registries.
use garm_provider_orbstack.Prelude.{
  String, true, false, ◌≡◌, ◌↔◌, refl, [], ◌∷◌, ℤ, pos, count, arith, contains, contains_rune,
}
use garm_provider_orbstack.Error.{ok, err, sentinel, capacity}
use garm_provider_orbstack.Disk.{
  array, write_atomic, acquire, close_lock, poll_lock, sync_dir, system_call, then_close,
}
use garm_provider_orbstack.State.Record.{record_key, valid}
use garm_provider_orbstack.State.Validate.{validate_records, check_record, is_duplicate, mark}
use garm_provider_orbstack.State.Validate.Sound.{IsWellFormed, validate_records_iff}
use garm_provider_orbstack.State.Sort.{sort_records}
use garm_provider_orbstack.State.Registry.{
  reserve, save, transaction, Callback, decode_records, read_records,
}
use garm_provider_orbstack.State.Registry.Update.{save_update, remove_update, reserve_update}
use garm_provider_orbstack.State.Registry.Transaction.{
  Holds, FilesSay, files_at_lock, transaction-all_or_nothing,
}
use garm_provider_orbstack.State.Registry.Reserve.{FreshlyReserved, reserve-within_capacity}
use garm_provider_orbstack.State.Registry.Lifecycle.{
  Replaced, Removed, save_update-Replaced, remove_update-Removed,
}
use garm_provider_orbstack.State.Registry.History.{
  begin, then, Step, reserving, IsWithin, History-IsWithin,
}
use garm_provider_orbstack.State.Registry.{publish_records}
use garm_provider_orbstack.State.Validate.{check_record}
use garm_provider_orbstack.Prelude.{count}
use garm_provider_orbstack.State.Registry.Calm.{calm, IsLaidOut, transaction-calm}
use garm_provider_orbstack.State.Registry.Calm.Reserve.{
  Fits, answer_to, reserve-calm, reserve-idempotent,
}
use garm_provider_orbstack.State.Registry.Serial.{reserve_call, run, OneStep, run-OneStep}
use garm_provider_orbstack.Samples.{
  files_with, plain_platform, alpha, alpha_created, beta, disk_with, registry,
}

-- a fresh reservation, one too many, a repeated request, and a system call that fails
reserve-alpha : (reserve registry alpha (pos 1) (disk_with [])).0 ≡ ok (alpha, true)
unfolding reserve transaction acquire system_call contains poll_lock then_close read_records
    decode_records validate_records reserve_update check_record valid contains_rune is_duplicate
    write_atomic sync_dir
reserve-alpha = refl

reserve-full : (reserve registry beta (pos 1) (disk_with (alpha ∷ []))).0 ≡ err (sentinel capacity)
unfolding reserve transaction acquire system_call contains poll_lock then_close read_records
    decode_records validate_records check_record valid contains_rune is_duplicate reserve_update
reserve-full = refl

reserve-again : (reserve registry alpha (pos 1) (disk_with (alpha ∷ []))).0 ≡ ok (alpha, false)
unfolding reserve transaction acquire system_call contains poll_lock then_close read_records
    decode_records validate_records check_record valid contains_rune is_duplicate reserve_update
reserve-again = refl

save-created :
    (save registry alpha_created (disk_with (alpha ∷ []))).1.files.content
    ≡ array (alpha_created ∷ []) false
unfolding save transaction acquire system_call contains poll_lock then_close close_lock read_records
    decode_records validate_records check_record valid contains_rune is_duplicate save_update
    write_atomic sync_dir sort_records
save-created = refl

-- The properties at work.
beta_valid : IsWellFormed (alpha_created ∷ beta ∷ [])
unfolding validate_records check_record valid contains_rune is_duplicate contains mark record_key
beta_valid = (validate_records_iff (alpha_created ∷ beta ∷ [])).0 refl

alpha_valid : IsWellFormed (alpha ∷ [])
unfolding validate_records check_record valid contains_rune is_duplicate contains
alpha_valid = (validate_records_iff (alpha ∷ [])).0 refl

abbrev limit_one : String → ℤ
limit_one c = pos 1

none-IsWithin : IsWithin limit_one []
unfolding count
none-IsWithin = record { capacity = λ c. 1; limits = λ c. refl; fits = λ c. omega arith }

alpha-Step : Step limit_one [] (alpha ∷ [])
unfolding reserve_update validate_records check_record valid contains_rune is_duplicate contains
    sort_records
alpha-Step = record {
  update = λ rs. (reserve_update "c" alpha (pos 1) rs).1;
  operation = reserving "c" alpha refl;
  updated = alpha ∷ [];
  returns = refl;
  valid = refl;
  sorted = refl;
}

History-IsWithin_example : IsWellFormed (alpha ∷ []) × IsWithin limit_one (alpha ∷ [])
History-IsWithin_example = History-IsWithin tt none-IsWithin (then begin alpha-Step)

run-OneStep_example :
    OneStep limit_one
      (disk_with [])
      (run limit_one registry (reserve_call alpha) (disk_with [])).1.files
run-OneStep_example = run-OneStep limit_one registry (reserve_call alpha) (disk_with [])

abbrev save_alpha : Callback (Unit {0})
save_alpha records = (tt, save_update "c" alpha_created records)

transaction-all_or_nothing_example :
    FilesSay save_alpha
      (files_at_lock (disk_with (alpha ∷ [])))
      (transaction save_alpha (disk_with (alpha ∷ []))).0
      (transaction save_alpha (disk_with (alpha ∷ []))).1
transaction-all_or_nothing_example = transaction-all_or_nothing save_alpha (disk_with (alpha ∷ []))

reserve-within_capacity_example :
    (alpha ≡ alpha)
    × FreshlyReserved "c" alpha
        (pos 1)
        (files_at_lock (disk_with []))
        (reserve registry alpha (pos 1) (disk_with [])).1.files
reserve-within_capacity_example =
    reserve-within_capacity registry alpha (pos 1) (disk_with []) alpha reserve-alpha

save_alpha_result :
    save_update "c" alpha_created (beta ∷ alpha ∷ []) ≡ ok (beta ∷ alpha_created ∷ [])
unfolding save_update
save_alpha_result = refl

save_update-Replaced_example :
    Replaced "c" alpha_created (beta ∷ alpha ∷ []) (beta ∷ alpha_created ∷ [])
save_update-Replaced_example =
    save_update-Replaced "c" alpha_created (beta ∷ alpha ∷ []) (beta ∷ alpha_created ∷ [])
      save_alpha_result

remove_alpha_result : remove_update "c" "alpha" (beta ∷ alpha ∷ []) ≡ ok (beta ∷ [])
unfolding remove_update
remove_alpha_result = refl

remove_update-Removed_example : Removed "c" "alpha" (beta ∷ alpha ∷ []) (beta ∷ [])
remove_update-Removed_example =
    remove_update-Removed "c" "alpha" (beta ∷ alpha ∷ []) (beta ∷ []) remove_alpha_result

validate_records_iff_example :
    (validate_records (alpha_created ∷ beta ∷ []) ≡ ok tt)
    ↔ IsWellFormed (alpha_created ∷ beta ∷ [])
validate_records_iff_example = validate_records_iff (alpha_created ∷ beta ∷ [])

no_records : Holds (files_with []) []
unfolding validate_records
no_records = record { stored = refl; valid = refl }

laid_out : IsLaidOut (files_with [])
unfolding contains
laid_out = record { lock = refl; records = refl }

alpha-Fits : Fits alpha []
unfolding check_record valid contains_rune
alpha-Fits = record { valid = refl; apart = tt }

reserve_alpha_result : reserve_update "c" alpha (pos 1) [] ≡ ((alpha, true), ok (alpha ∷ []))
unfolding reserve_update
reserve_alpha_result = refl

alpha_accepted : validate_records (alpha ∷ []) ≡ ok tt
unfolding validate_records check_record valid contains_rune is_duplicate contains
alpha_accepted = refl

transaction-calm_example :
    transaction (reserve_update "c" alpha (pos 1)) (calm (files_with []) [])
    ≡ (ok (alpha, true), calm (publish_records (sort_records (alpha ∷ [])) (files_with [])) [])
transaction-calm_example =
    transaction-calm (reserve_update "c" alpha (pos 1)) (alpha, true) (files_with []) [] []
      (alpha ∷ []) laid_out no_records reserve_alpha_result alpha_accepted

reserve-calm_example :
    reserve registry alpha (pos 1) (calm (files_with []) [])
    ≡ (ok (alpha, true), calm (publish_records (sort_records (alpha ∷ [])) (files_with [])) [])
unfolding count
reserve-calm_example =
    reserve-calm registry alpha (pos 1) (files_with []) [] [] laid_out no_records refl tt refl
      alpha-Fits

alpha_held : Holds (files_with (alpha ∷ [])) (alpha ∷ [])
alpha_held = record { stored = refl; valid = alpha_accepted }

alpha-IsLaidOut : IsLaidOut (files_with (alpha ∷ []))
unfolding contains
alpha-IsLaidOut = record { lock = refl; records = refl }

reserve-idempotent_example :
    reserve registry alpha (pos 1) (calm (files_with (alpha ∷ [])) [])
    ≡ (answer_to alpha alpha, calm (files_with (alpha ∷ [])) [])
reserve-idempotent_example =
    reserve-idempotent registry alpha (pos 1) (files_with (alpha ∷ [])) [] [] [] alpha
      alpha-IsLaidOut alpha_held refl tt refl
