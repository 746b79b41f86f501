-- ===== src/State/Registry/Health.antt =====
-- Every registry operation leaves `records.json` readable and its locks released, on success and
-- on every failure (internal/state/registry.go).
pub mod Operations
pub mod Locks
use garm_provider_orbstack.Prelude.{
  String, Bool, true, false, ◌≡◌, ◌⊎◌, inl, inr, refl, List, [], ◌∷◌, ℤ, ap, not, ◌==◌, ◌||◌, arith,
  eq_iff, Option-cases, Bool-cases, Option, some, none, All, if◌then◌else◌, eq_refl, ◌∙◌, filter,
  contains,
}
use garm_provider_orbstack.Error.{
  Error, Result, ok, err, sentinel, external, context_done, busy, conflict, not_found,
}
use garm_provider_orbstack.Platform.{Platform}
use garm_provider_orbstack.Exec.{
  Exec, pure, raise, lift, gets, continue, ◌>>=◌, ◌>>◌, raise_if, refuse_if,
}
use garm_provider_orbstack.Exec.Keeps.{
  Moves, Preorder, Moves-pure, Moves-raise, Moves-lift, Moves-gets, Moves-if, Moves-bind,
}
use garm_provider_orbstack.Disk.{
  Kind, regular, symlink, Files, Disk, Poll, Flock, granted, would_block, failed, array, outcome,
  system_call, acquire, verdict, poll_lock, after_polls, open_existing, drop_lock, close_lock,
  then_close, sync_dir, write_atomic, change,
}
use garm_provider_orbstack.State.Record.{Record}
use garm_provider_orbstack.State.Validate.{validate_records}
use garm_provider_orbstack.State.Validate.Sound.{validate_records_iff}
use garm_provider_orbstack.State.Sort.{sort_records, sort_records-IsWellFormed}
use garm_provider_orbstack.State.Registry.{
  Registry, Callback, transaction, reserve, save, remove, snapshot, find, check_layout,
  read_records, mark_clone_intent, clear_clone_intent, clone_uncertain, commit, publish_records,
  check_names, open_registry, belongs, open_records, decode_records, lock_instance, lock_template,
  instance_lock, template_lock, is_unchanged, check_entry, right_kind, directory_names,
  layout_names,
}
use garm_provider_orbstack.State.Registry.Transaction.{
  Holds, Accepts, Changes, Committed, untouched, done, FilesSay, files_at_lock,
  transaction-all_or_nothing,
}

module _ ⦃p : Platform⦄ where
  pub record IsReadable (f : Files) : Type 0 where
    pub records : List Record
    pub holds : Holds f records

  -- the other processes leave a readable registry readable
  abbrev pub Respectful : List Poll → Type 0
  Respectful polls = All (λ q. (f : Files) → IsReadable f → IsReadable (q.meanwhile f)) polls

  pub record IsSound (d : Disk) : Type 0 where
    pub readable : IsReadable d.files
    pub others : Respectful d.polls

  -- a readable registry stays readable, and the locks held are the ones held before
  pub record Tidy (s t : Disk) : Type 0 where
    pub sound : IsSound s → IsSound t
    pub held : t.held ≡ s.held

  pub Tidy-order : Preorder Tidy
  Tidy-order = record {
    same = λ s. record { sound = λ h. h; held = refl };
    chain = λ a b. record { sound = λ h. b.sound (a.sound h); held = b.held ∙ a.held };
  }

  poll_lock_sound :
      (shared wait : Bool) (polls : List Poll) (files : Files)
      → Respectful polls
      → IsReadable files
      → Respectful (poll_lock shared wait polls files).1
        × IsReadable (poll_lock shared wait polls files).2
  unfolding poll_lock
  poll_lock_sound shared wait [] files h r = (tt, r)
  poll_lock_sound shared wait (q ∷ rest) files (keeps, h) r =
      elim (Option-cases (verdict q.cancelled (q.flock shared) wait q.expired)) [
        | inl again ↦
            rw (again, poll_lock)
              (poll_lock_sound shared wait rest (q.meanwhile files) h (keeps files r))
        | inr (_, ends) ↦ rw (ends, poll_lock) (h, keeps files r)
      ]

  -- What asking for a lock does: after a success the lock is held, else nothing more than before.
  pub record Asked (path : String) (r : Result (Unit {0})) (s t : Disk) : Type 0 where
    pub sound : IsSound s → IsSound t
    pub taken : r ≡ ok tt → t.held ≡ path ∷ s.held
    pub refused : (e : Error) → r ≡ err e → t.held ≡ s.held

  pub system_call-Tidy : Moves Tidy system_call
  unfolding system_call
  system_call-Tidy = record { at = λ s. go s.faults s }
    where
      go : (l : List (Option String)) (s : Disk) → Tidy s (outcome l s).1
      go [] s = Tidy-order.same s
      go (none ∷ rest) s = record {
        sound = λ h. record { readable = h.readable; others = h.others };
        held = refl;
      }
      go (some e ∷ rest) s = record {
        sound = λ h. record { readable = h.readable; others = h.others };
        held = refl;
      }

  after_polls-Asked :
      (path : String) (s : Disk) (o : Result (Unit {0}) × List Poll × Files)
      → (IsSound s → Respectful o.1 × IsReadable o.2)
      → Asked path (after_polls o path s).0 s (after_polls o path s).1
  after_polls-Asked path s (ok _, polls, files) h = record {
    sound = λ k. record { readable = (h k).1; others = (h k).0 };
    taken = λ _. refl;
    refused = λ e q. cc;
  }
  after_polls-Asked path s (err x, polls, files) h = record {
    sound = λ k. record { readable = (h k).1; others = (h k).0 };
    taken = λ q. cc;
    refused = λ e q. refl;
  }

  after-Tidy :
      (path : String) (m f : Exec Disk (Unit {0})) (s : Disk)
      → Moves Tidy m
      → ((t : Disk) → Asked path (f t).0 t (f t).1)
      → Asked path ((m >>= λ _. f) s).0 s ((m >>= λ _. f) s).1
  after-Tidy path m f s moves asked = go (m s).0 (m s).1 (moves.at s)
    where
      go :
          (r : Result (Unit {0})) (t : Disk)
          → Tidy s t
          → Asked path (continue r (λ _. f) t).0 s (continue r (λ _. f) t).1
      go (ok _) t k = record {
        sound = λ h. (asked t).sound (k.sound h);
        taken = λ q. (asked t).taken q ∙ ap (◌∷◌ path) k.held;
        refused = λ e q. (asked t).refused e q ∙ k.held;
      }
      go (err x) t k = record { sound = k.sound; taken = λ q. cc; refused = λ e q. k.held }

  open_existing-Tidy : (k : Option Kind) (s : Disk) → Tidy s (open_existing k s).1
  open_existing-Tidy none s = Tidy-order.same s
  open_existing-Tidy (some regular) s = Tidy-order.same s
  open_existing-Tidy (some _) s = Tidy-order.same s

  open_lock_file-Tidy :
      (create : Bool) (path : String)
      → Moves Tidy
          (λ d. if create then (ok (tt {0}), d) else open_existing (d.files.entries path) d)
  open_lock_file-Tidy true path = record { at = Tidy-order.same }
  open_lock_file-Tidy false path = record { at = λ s. open_existing-Tidy (s.files.entries path) s }

  pub acquire-Asked :
      (path : String) (create shared wait : Bool) (s : Disk)
      → Asked path (acquire path create shared wait s).0 s (acquire path create shared wait s).1
  unfolding acquire
  acquire-Asked path create shared wait s = after-Tidy path system_call _ s system_call-Tidy λ t.
      after-Tidy path _ _ t (open_lock_file-Tidy create path) λ u.
        after_polls-Asked path u (poll_lock shared wait u.polls u.files)
          (λ h. poll_lock_sound shared wait u.polls u.files h.others h.readable)

  pub drop_lock-head : (path : String) (held : List String) → drop_lock path (path ∷ held) ≡ held
  drop_lock-head path held = rw (eq_refl path)

  -- What is done between taking a lock and the deferred closing of it.
  pub under_lock :
      {A : Type 0} (path : String) (create shared wait : Bool) (body : Exec Disk A)
      → Moves Tidy body
      → Moves Tidy (acquire path create shared wait >>= λ _. then_close path body)
  unfolding then_close close_lock
  under_lock {A} path create shared wait body moves = record {
    at = λ s.
        go s (acquire path create shared wait s).0 (acquire path create shared wait s).1
          (acquire-Asked path create shared wait s);
  }
    where
      go :
          (s : Disk) (r : Result (Unit {0})) (t : Disk)
          → Asked path r s t
          → Tidy s (continue r (λ _. then_close path body) t).1
      go s (ok _) t asked = record {
        sound = λ h.
            let after = (moves.at t).sound (asked.sound h) in
            record { readable = after.readable; others = after.others };
        held = rw ((moves.at t).held, asked.taken refl) (drop_lock-head path s.held);
      }
      go s (err e) t asked = record { sound = asked.sound; held = asked.refused e refl }

  pub and_then :
      {A B : Type 0} (m : Exec Disk A) (f : A → Exec Disk B)
      → Moves Tidy m
      → ((a : A) → Moves Tidy (f a))
      → Moves Tidy (m >>= f)
  and_then m f = Moves-bind Tidy-order m f

  pub then_call :
      {A : Type 0} (k : Exec Disk A) → Moves Tidy k → Moves Tidy (system_call >>= λ _. k)
  then_call k h = and_then system_call (λ _. k) system_call-Tidy (λ _. h)

  pub change-Tidy :
      (f : Files → Files) → ((g : Files) → IsReadable g → IsReadable (f g)) → Moves Tidy (change f)
  change-Tidy f keeps = record {
    at = λ s. record {
      sound = λ h. record { readable = keeps s.files h.readable; others = h.others };
      held = refl;
    };
  }

  pub sync_dir-Tidy : Moves Tidy sync_dir
  unfolding sync_dir
  sync_dir-Tidy = then_call system_call system_call-Tidy

  pub write_atomic-Tidy :
      (f : Files → Files)
      → ((g : Files) → IsReadable g → IsReadable (f g))
      → Moves Tidy (write_atomic f)
  unfolding write_atomic
  write_atomic-Tidy f keeps = then_call _ (
      then_call _ (
        then_call _ (
          then_call _ (
            then_call _ (
              then_call _ (
                and_then (change f) (λ _. sync_dir) (change-Tidy f keeps) (λ _. sync_dir-Tidy)))))))
