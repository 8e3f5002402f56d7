-- ===== src/Admin/Frames/Proxies.antt =====
-- src/admin/routes: what the handlers of proxies keep.
use ferrumgw.Common.{ℕ, String, Bool, Result, ok, err, arith, string_eq}
use ferrumgw.Config.{Proxy, Configuration}
use ferrumgw.Admin.Api.{OperationMode}
use ferrumgw.Admin.Proxies
use ferrumgw.Admin.Proxies.{ProxyTable}
use ferrumgw.Admin.Frames.{unless_file_mode-keeps, reply_json-keeps}

module _ {Db Error : Type 0} (P : Db → Type 0) where
  module _ (T : ProxyTable Db Error) (mode : OperationMode) (subscribed : Bool) where
    after_create_proxy :
        (r : Db × Result Error Proxy) → P r.0 → P (Proxies.after_create T mode subscribed r).db
    unfolding Proxies.after_create
    after_create_proxy (db, ok q) p = reply_json-keeps P db subscribed 201 _ p
    after_create_proxy (db, err e) p = p

    after_update_proxy :
        (q : Proxy) (r : Db × Result Error (Unit {0}))
        → P r.0
        → P (Proxies.after_update T mode subscribed q r).db
    unfolding Proxies.after_update
    after_update_proxy q (db, ok _) p = reply_json-keeps P db subscribed 200 _ p
    after_update_proxy q (db, err e) p = p

    after_delete_proxy :
        (r : Db × Result Error (Unit {0})) → P r.0 → P (Proxies.after_delete T mode subscribed r).db
    unfolding Proxies.after_delete
    after_delete_proxy (db, ok _) p = p
    after_delete_proxy (db, err e) p = p

    pub create_proxy-keeps :
        (config : Configuration) (now : ℕ) (db : Db) (parsed : Result Error Proxy)
        → P db
        → ((q : Proxy) → P (T.create_proxy db q).0)
        → P (Proxies.create_proxy T mode subscribed config now db parsed).db
    unfolding Proxies.create_proxy Proxies.insert_proxy
    create_proxy-keeps config now db (err e) p keep = unless_file_mode-keeps P mode db _ p p
    create_proxy-keeps config now db (ok q) p keep =
        let stamped = Proxies.with_times now now q in
        unless_file_mode-keeps P mode db _ p
          (ground (arith, after_create_proxy (T.create_proxy db stamped) (keep stamped)))

    pub update_proxy-keeps :
        (id : String) (config : Configuration) (now : ℕ) (db : Db) (parsed : Result Error Proxy)
        → P db
        → ((q : Proxy) → P (T.update_proxy db q).0)
        → P (Proxies.update_proxy T mode subscribed id config now db parsed).db
    unfolding Proxies.update_proxy Proxies.replace_proxy
    update_proxy-keeps id config now db (err e) p keep = unless_file_mode-keeps P mode db _ p p
    update_proxy-keeps id config now db (ok q) p keep =
        let stamped = Proxies.with_times q.created_at now q in
        unless_file_mode-keeps P mode db _ p
          (ground (arith, after_update_proxy stamped (T.update_proxy db stamped) (keep stamped)))

    pub delete_proxy-keeps :
        (id : String) (config : Configuration) (db : Db)
        → P db
        → P (T.delete_proxy db id).0
        → P (Proxies.delete_proxy T mode subscribed id config db).db
    unfolding Proxies.delete_proxy
    delete_proxy-keeps id config db p keep =
        unless_file_mode-keeps P mode db _ p
          (ground (arith, after_delete_proxy (T.delete_proxy db id) keep))
