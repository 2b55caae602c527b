-- ===== src/Database/Attachment.antt =====
-- The database that app/database_integration.go attaches.
use mini_deploy.Prelude.{
  refl, ◌≡◌, Bool-cases, true, false, ◌&&◌, not, List, [], ◌∷◌, inl, inr, arith,
}
use mathlib.Core.List.{Mem, mem-cons_self, mem-cons_of_mem}
use mini_deploy.Text.{Text, codes, ◌==◌, eq_iff}
use mini_deploy.Records.{DatabaseAttachmentRecord}
use mini_deploy.Result.{Result, ok, err, Error, mini_base_operation}
use mini_deploy.World.{World}
use mini_deploy.World.Returns.{
  Returns, returned, Returns-pure, Returns-fail, Returns-if, Returns-bind, Returns-then,
  Returns-lift, Returns-if_of, Returns-of, Returns-try,
}
use mini_deploy.MiniBase
use mini_deploy.MiniBase.{
  binding_primary, matches_attachment_id, is_attachment_of, valid_mini_base_binding,
  valid_mini_base_database, checked, do_json,
}
use mini_deploy.MiniBase.Data.{MiniBaseAttachment, MiniBaseDatabase}
use mini_deploy.Database.{
  create_existing_mini_base_attachment, available_existing_mini_base_database, reported,
  find_available,
}

-- What makes a database the one that is attached, of those that are listed.
pub record IsAvailable (id : Text) (databases : List MiniBaseDatabase) (database : MiniBaseDatabase)
    : Type 0 where
  pub listed : Mem database databases
  pub same_id : database.id ≡ id
  pub ready : database.status ≡ codes "ready"
  pub free : database.attached ≡ false

find_available_existing_mini_base_database-IsAvailable :
    (id : Text) (databases : List MiniBaseDatabase) (d : MiniBaseDatabase)
    → find_available id databases ≡ ok d
    → IsAvailable id databases d
unfolding find_available
find_available_existing_mini_base_database-IsAvailable id [] d h = cc
find_available_existing_mini_base_database-IsAvailable id (c ∷ cs) d h =
    elim (Bool-cases (c.id == id && c.status == codes "ready" && not c.attached)) [
      | inl t ↦
          let e : c ≡ d = ground (arith, h, t) in
          rw⁻¹ e (record {
            listed = mem-cons_self;
            same_id = ground (arith, t, eq_iff c.id id);
            ready = ground (arith, t, eq_iff c.status (codes "ready"));
            free = ground (arith, t);
          })
      | inr t ↦
          let later =
            find_available_existing_mini_base_database-IsAvailable id cs d (ground (arith, h, t)) in
          record {
            listed = mem-cons_of_mem c later.listed;
            same_id = later.same_id;
            ready = later.ready;
            free = later.free;
          }
    ]

reported_ok {ℓ} : {A : Type ℓ} (r : Result A) (e : Error) (a : A) → reported r e ≡ ok a → r ≡ ok a
reported_ok (ok b) e a h = h
reported_ok (err x) e a h = cc

-- The database is one of those that MiniBase lists when it is asked in `w`.
pub record IsListed (id : Text) (w : World) (database : MiniBaseDatabase) : Type 0 where
  pub databases : List MiniBaseDatabase
  pub answer : (MiniBase.list_databases w).0 ≡ ok databases
  pub available : IsAvailable id databases database

available_existing_mini_base_database-IsListed :
    (id : Text) (w : World)
    → Returns (λ d _. IsListed id w d) (available_existing_mini_base_database id) w
unfolding available_existing_mini_base_database
available_existing_mini_base_database-IsListed id w = Returns-if _ _ _ _ w (Returns-fail _ _ w) (
    Returns-bind
      (λ r _. (ds : List MiniBaseDatabase) → r ≡ ok ds → (MiniBase.list_databases w).0 ≡ ok ds) _ _
      _ w
      (Returns-try (λ ds _. (MiniBase.list_databases w).0 ≡ ok ds) _ w
        (Returns-of _ MiniBase.list_databases w λ ds e. e))
      λ listed w1 answer.
        Returns-bind (λ ds _. (MiniBase.list_databases w).0 ≡ ok ds) _ _ _ w1
          (Returns-lift _ _ w1 λ ds e. answer ds (reported_ok listed mini_base_operation ds e))
          λ databases w2 e. Returns-lift _ _ w2 λ d h. record {
            databases = databases;
            answer = e;
            available = find_available_existing_mini_base_database-IsAvailable id databases d h;
          })

-- What makes an attachment the one of an application to a database that MiniBase lists in `w`.
pub record IsAttached (id : Text) (w : World) (a : DatabaseAttachmentRecord) : Type 0 where
  pub same_database : a.database_id ≡ id
  pub primary : a.binding_name ≡ binding_primary
  pub valid_id : matches_attachment_id a.attachment_id ≡ true
  pub database : MiniBaseDatabase
  pub listed : IsListed id w database
  pub same_name : a.display_name ≡ database.display_name

created-valid :
    (id app : Text) (w : World)
    → Returns (λ a _. is_attachment_of id app a ≡ true) (MiniBase.create_attachment id app) w
unfolding MiniBase.create_attachment
created-valid id app w = Returns-then _ _ _ w λ a w1.
    Returns-if_of _ (is_attachment_of id app a) _ _ w1 (λ h. Returns-pure _ a w1 h)
      (λ h. Returns-fail _ _ w1)

attachment_id-valid :
    (id app : Text) (a : MiniBaseAttachment)
    → is_attachment_of id app a ≡ true
    → matches_attachment_id a.id ≡ true
unfolding is_attachment_of
attachment_id-valid id app a h = ground arith

create_existing-IsAttached :
    (app id : Text) (w : World)
    → Returns (λ a _. IsAttached id w a) (create_existing_mini_base_attachment app id) w
unfolding create_existing_mini_base_attachment
create_existing-IsAttached app id w =
    Returns-bind (λ d _. IsListed id w d) _ _ _ w
      (available_existing_mini_base_database-IsListed id w)
      λ d w1 listed.
        Returns-bind
          (λ r _. (a : MiniBaseAttachment) → r ≡ ok a → is_attachment_of d.id app a ≡ true) _ _ _ w1
          (Returns-try _ _ w1 (created-valid d.id app w1))
          λ created w2 valid.
            Returns-bind (λ a _. is_attachment_of d.id app a ≡ true) _ _ _ w2
              (Returns-lift _ _ w2 λ a h. valid a (reported_ok created mini_base_operation a h))
              λ a w3 h. Returns-pure _ _ w3 (record {
                same_database = listed.available.same_id;
                primary = refl;
                valid_id = attachment_id-valid d.id app a h;
                database = d;
                listed = listed;
                same_name = refl;
              })

-- An attachment that is created without an error is one to the database that was asked for, which is in the list
-- with which MiniBase answers, there as ready and free; it has a well-formed identity, the primary binding,
-- and the name that the database has in the list.
pub create_existing_mini_base_attachment-IsAttached :
    (app id : Text) (w : World) (a : DatabaseAttachmentRecord)
    → (create_existing_mini_base_attachment app id w).0 ≡ ok a
    → IsAttached id w a
create_existing_mini_base_attachment-IsAttached app id w a h =
    returned (λ b _. IsAttached id w b) (create_existing_mini_base_attachment app id) w a
      (create_existing-IsAttached app id w) h
