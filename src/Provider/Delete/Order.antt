-- ===== src/Provider/Delete/Order.antt =====
-- The order of a deletion: `deleteRecord` of internal/provider/provider.go.
use garm_provider_orbstack.Prelude.{
  List, [], ◌∷◌, String, Bool, true, false, not, ◌≡◌, refl, ◌==◌, ◌||◌, ap, ◌∙◌,
}
use garm_provider_orbstack.Error.{Error, Result, ok, err, entity_not_found, is}
use garm_provider_orbstack.Exec.{Exec, lift, attempt, continue, ◌>>=◌, refuse_if, raise_if}
use garm_provider_orbstack.Exec.Keeps.{
  Moves, Preorder, Moves-pure, Moves-raise, Moves-lift, Moves-bind, Moves-if,
}
use garm_provider_orbstack.Platform.{Platform}
use garm_provider_orbstack.Disk.{Disk}
use garm_provider_orbstack.State.Record.{Record, deleting}
use garm_provider_orbstack.State.Registry.{save, remove, clear_clone_intent}
use garm_provider_orbstack.Orbstack.{Info}
use garm_provider_orbstack.Provider.World.{
  World, Machines, Provider, Request, delete_request, info_request, list_request, on_disk,
  on_machines,
}
use garm_provider_orbstack.Provider.Owned.{inventory, owned_info, is_template, lists_id}
use garm_provider_orbstack.Provider.Owned.Seen.{Seen, owned_info-Seen}
use garm_provider_orbstack.Provider.Delete.{delete_machine, delete_observed, gone_is_fine}

abbrev pub with_deleted : Request → List String → List String
with_deleted (delete_request id) ids = id ∷ ids
with_deleted _ ids = ids

abbrev pub deleted_ids : List Request → List String
deleted_ids [] = []
deleted_ids (q ∷ rest) = with_deleted q (deleted_ids rest)

-- the machines whose deletion was asked for, the last one first
abbrev pub deletions : {O : Type 0} → World O → List String
deletions w = deleted_ids w.requests

-- no deletion was asked for
abbrev Quiet : {O : Type 0} → World O → World O → Type 0
Quiet s t = deletions t ≡ deletions s

Quiet-order : {O : Type 0} → Preorder (Quiet {O = O})
Quiet-order = record { same = λ s. refl; chain = λ a b. b ∙ a }

module _ {O : Type 0} where
  on_disk-Quiet : {A : Type 0} (m : Exec Disk A) → Moves (Quiet {O = O}) (on_disk m)
  unfolding on_disk
  on_disk-Quiet m = record { at = λ s. refl }

  on_machines-Quiet :
      {A : Type 0} (q : Request) (m : Exec O A)
      → ((ids : List String) → with_deleted q ids ≡ ids)
      → Moves (Quiet {O = O}) (on_machines q m)
  unfolding on_machines
  on_machines-Quiet q m other = record { at = λ s. other (deletions s) }

  refuse_if-Quiet : (b : Bool) (m : String) → Moves (Quiet {O = O}) (refuse_if b m)
  refuse_if-Quiet true m = Moves-raise Quiet-order _
  refuse_if-Quiet false m = Moves-pure Quiet-order tt

  raise_if-Quiet : (b : Bool) (e : Error) → Moves (Quiet {O = O}) (raise_if b e)
  raise_if-Quiet true e = Moves-raise Quiet-order e
  raise_if-Quiet false e = Moves-pure Quiet-order tt

  -- a step that asks for one deletion, and one that asks for none
  grown_then :
      {A B : Type 0} (id : String) (m : Exec (World O) A) (f : A → Exec (World O) B) (s : World O)
      → deletions (m s).1 ≡ id ∷ deletions s
      → ((a : A) → Moves (Quiet {O = O}) (f a))
      → deletions ((m >>= f) s).1 ≡ id ∷ deletions s
  grown_then {A} id m f s grown quiet = go (m s).0
    where
      go : (r : Result A) → deletions (continue r f (m s).1).1 ≡ id ∷ deletions s
      go (ok a) = (quiet a).at (m s).1 ∙ grown
      go (err e) = grown

module _ {O : Type 0} ⦃platform : Platform⦄ (orb : Machines O) (p : Provider) where
  inventory-Quiet : Moves (Quiet {O = O}) (inventory orb p)
  unfolding inventory
  inventory-Quiet =
      Moves-bind Quiet-order _ _ (on_machines-Quiet list_request orb.list (λ _. refl)) λ machines.
        Moves-bind Quiet-order _ _ (refuse_if-Quiet _ _) λ _. Moves-pure Quiet-order machines

  -- what `deleteRecord` does behind the deletion
  abbrev confirm : Record → Exec (World O) (Unit {0})
  confirm r = inventory orb p >>= λ machines.
      refuse_if (lists_id r.machine_id machines) "owned machine remains after delete" >>= λ _.
      on_disk (clear_clone_intent p.registry r.runner_name) >>= λ _.
      on_disk (remove p.registry r.runner_name)

  confirm-Quiet : (r : Record) → Moves (Quiet {O = O}) (confirm r)
  confirm-Quiet r = Moves-bind Quiet-order _ _ inventory-Quiet λ machines.
      Moves-bind Quiet-order _ _
        (refuse_if-Quiet (lists_id r.machine_id machines) "owned machine remains after delete")
        λ _.
          Moves-bind Quiet-order _ _ (on_disk-Quiet (clear_clone_intent p.registry r.runner_name))
            λ _. on_disk-Quiet (remove p.registry r.runner_name)

  owned_info-Quiet : (r : Record) → Moves (Quiet {O = O}) (owned_info orb p r)
  unfolding owned_info
  owned_info-Quiet r = Moves-bind Quiet-order _ _ (refuse_if-Quiet _ _) λ _.
      Moves-bind Quiet-order _ _ inventory-Quiet λ machines.
        Moves-bind Quiet-order _ _ (raise_if-Quiet _ _) λ _.
          Moves-bind Quiet-order _ _
            (on_machines-Quiet (info_request r.machine_id) (orb.info r.machine_id) (λ _. refl))
            λ info.
              Moves-bind Quiet-order _ _
                (refuse_if-Quiet (not (info.machine.id == r.machine_id))
                  "OrbStack machine identity changed")
                λ _. Moves-pure Quiet-order info

  -- the record as it is saved before its machine is deleted
  abbrev pub doomed : Record → Record
  doomed r = record r { phase = deleting }

  abbrev saving : Record → Exec (World O) (Unit {0})
  saving r = on_disk (save p.registry (doomed r))

  abbrev behind : Record → Result Info → Exec (World O) (Unit {0})
  behind r seen = delete_observed orb p seen (doomed r) >>= λ _. confirm r

  -- How a deletion went: nothing was asked of the machines, or one deletion by the ID, after the record
  -- was saved as one that is being deleted and the machine was seen under its ID.
  pub data Went (r : Record) (w after : World O) : Type 0 where
    unasked : deletions after ≡ deletions w → Went r w after
    asked :
        (seen : Info)
        → (save p.registry (doomed r) w.disk).0 ≡ ok tt
        → Seen orb p (doomed r) (saving r w).1 seen
        → deletions after ≡ r.machine_id ∷ deletions w
        → Went r w after

  behind-Went :
      (r : Record) (w : World O) (seen : Result Info) (t : World O)
      → (save p.registry (doomed r) w.disk).0 ≡ ok tt
      → (owned_info orb p (doomed r) (saving r w).1).0 ≡ seen
      → deletions t ≡ deletions w
      → Went r w (behind r seen t).1
  unfolding on_machines
  behind-Went r w (ok i) t saved looked same =
      asked i saved (owned_info-Seen orb p (doomed r) (saving r w).1 looked) (
        grown_then r.machine_id (delete_observed orb p (ok i) (doomed r)) (λ _. confirm r) t
          (grown_then r.machine_id
            (attempt (on_machines (delete_request r.machine_id) (orb.delete r.machine_id)))
            (λ outcome. lift (gone_is_fine orb p outcome)) t refl
            (λ outcome. Moves-lift Quiet-order (gone_is_fine orb p outcome)))
          (λ _. confirm-Quiet r)
        ∙ ap (◌∷◌ r.machine_id) same)
  behind-Went r w (err e) t saved looked same = unasked (
      (Moves-bind Quiet-order _ _
          (Moves-if Quiet-order (is e entity_not_found) _ _ (λ _. Moves-pure Quiet-order tt)
            (λ _. Moves-raise Quiet-order e))
          (λ _. confirm-Quiet r)).at
        t
      ∙ same)

  -- the deletion behind its check of the record
  saved-Went :
      (r : Record) (w : World O) (saved : Result (Unit {0}))
      → (save p.registry (doomed r) w.disk).0 ≡ saved
      → Went r w
          (continue saved
            (λ _. attempt (owned_info orb p (doomed r)) >>= λ seen. behind r seen)
            (saving r w).1).1
  unfolding on_disk
  saved-Went r w (ok _) e =
      behind-Went r w (owned_info orb p (doomed r) (saving r w).1).0
        (owned_info orb p (doomed r) (saving r w).1).1 e refl
        ((owned_info-Quiet (doomed r)).at (saving r w).1)
  saved-Went r w (err x) e = unasked refl

  checked-Went :
      (r : Record) (b : Bool) (w : World O)
      → Went r w
          (continue
            (refuse_if b "refusing deletion of an unowned machine or template" w).0
            (λ _. saving r >>= λ _. attempt (owned_info orb p (doomed r)) >>= λ seen. behind r seen)
            (refuse_if b "refusing deletion of an unowned machine or template" w).1).1
  unfolding on_disk
  checked-Went r true w = unasked refl
  checked-Went r false w = saved-Went r w (save p.registry (doomed r) w.disk).0 refl

  -- Whatever fails on the way: deleting a record's machine asks for one deletion at most, and that one is
  -- of the machine ID of the record. It is asked for only after the record was saved as one that is being
  -- deleted, with the controller's record and no template, and after OrbStack had the ID in a listing and
  -- answered a lookup of the ID with that ID.
  pub delete_machine-Went : (r : Record) (w : World O) → Went r w (delete_machine orb p r w).1
  unfolding delete_machine
  delete_machine-Went r w =
      checked-Went r
        (not (r.controller_id == p.host.controller_id) || is_template orb p r.machine_id) w
