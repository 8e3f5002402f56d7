-- ===== src/Admin/Frames/Consumers.antt =====
-- src/admin/routes: what the handlers of consumers keep.
use ferrumgw.Common.{ℕ, String, false, Result, ok, err, arith, string_eq}
use ferrumgw.Config.{Consumer, Configuration}
use ferrumgw.Admin.Api.{OperationMode}
use ferrumgw.Admin.Consumers
use ferrumgw.Admin.Consumers.{ConsumerTable}
use ferrumgw.Admin.Frames.{unless_file_mode-keeps, reply_json-keeps}

module _ {Db Error : Type 0} (P : Db → Type 0) where
  module _ (T : ConsumerTable Db Error) (mode : OperationMode) where
    after_create_consumer :
        (c : Consumer) (r : Db × Result Error String)
        → P r.0
        → P (Consumers.after_create T mode c r).db
    unfolding Consumers.after_create
    after_create_consumer c (db, ok id) p = reply_json-keeps P db false 201 _ p
    after_create_consumer c (db, err e) p = p

    after_update_consumer :
        (c : Consumer) (r : Db × Result Error (Unit {0}))
        → P r.0
        → P (Consumers.after_update T mode c r).db
    unfolding Consumers.after_update
    after_update_consumer c (db, ok _) p = reply_json-keeps P db false 200 _ p
    after_update_consumer c (db, err e) p = p

    after_delete_consumer :
        (r : Db × Result Error (Unit {0})) → P r.0 → P (Consumers.after_delete T mode r).db
    unfolding Consumers.after_delete
    after_delete_consumer (db, ok _) p = p
    after_delete_consumer (db, err e) p = p

    pub create_consumer-keeps :
        (config : Configuration) (now : ℕ) (db : Db) (parsed : Result Error Consumer)
        → P db
        → ((c : Consumer) → P (T.create_consumer db c).0)
        → P (Consumers.create_consumer T mode config now db parsed).db
    unfolding Consumers.create_consumer Consumers.insert_consumer
    create_consumer-keeps config now db (err e) p keep = unless_file_mode-keeps P mode db _ p p
    create_consumer-keeps config now db (ok c) p keep =
        let stamped = Consumers.stamped c.id now now c in
        unless_file_mode-keeps P mode db _ p (
          ground
            (arith, after_create_consumer stamped (T.create_consumer db stamped) (keep stamped)))

    pub update_consumer-keeps :
        (id : String) (config : Configuration) (now : ℕ) (db : Db) (parsed : Result Error Consumer)
        → P db
        → ((c : Consumer) → P (T.update_consumer db c).0)
        → P (Consumers.update_consumer T mode id config now db parsed).db
    unfolding Consumers.update_consumer Consumers.replace_consumer
    update_consumer-keeps id config now db (err e) p keep = unless_file_mode-keeps P mode db _ p p
    update_consumer-keeps id config now db (ok c) p keep =
        let stamped = Consumers.stamped c.id c.created_at now c in
        unless_file_mode-keeps P mode db _ p (
          ground
            (arith, after_update_consumer stamped (T.update_consumer db stamped) (keep stamped)))

    pub delete_consumer-keeps :
        (id : String) (config : Configuration) (db : Db)
        → P db
        → P (T.delete_consumer db id).0
        → P (Consumers.delete_consumer T mode id config db).db
    unfolding Consumers.delete_consumer
    delete_consumer-keeps id config db p keep =
        unless_file_mode-keeps P mode db _ p
          (ground (arith, after_delete_consumer (T.delete_consumer db id) keep))
