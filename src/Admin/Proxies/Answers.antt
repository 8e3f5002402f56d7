-- ===== src/Admin/Proxies/Answers.antt =====
-- src/admin/routes/proxies.rs: the answers to writes, and the notification of the router.
use ferrumgw.Common.{
  ℕ, ◌≤◌, ◌<◌, String, ◌≡◌, refl, Bool, false, inl, inr, Bool-cases, Result, ok, err, ◌==◌,
  string_eq, bytes_eq, arith,
}
use ferrumgw.Config.{Proxy, Configuration}
use ferrumgw.Config.Paths.{has_path}
use ferrumgw.Admin.Api.{
  OperationMode, file, Done, Response, Body, reply, fail, read_only, reply_json, unless_file_mode,
}
use ferrumgw.Admin.Proxies.{
  ProxyTable, with_times, exists_proxy, has_other_path, create_proxy, insert_proxy, after_create,
  update_proxy, replace_proxy, after_update, delete_proxy, after_delete,
}
use ferrumgw.Admin.Proxies.Guards.{Write, create, update, delete, write, unless_file_mode-Holds}

module _ {Db Error : Type 0} (T : ProxyTable Db Error) (mode : OperationMode)
    (subscribed : Bool) where
  -- A successful response comes with a notification, where there is a sender.
  abbrev pub IsNotified : Done Db Error → Type 0
  IsNotified d = (r : Response Error) → d.response ≡ ok r → r.status < 300 → d.notified ≡ subscribed

  reply_json-IsNotified :
      (db : Db) (status : ℕ) (o : Result Error String)
      → IsNotified (reply_json db subscribed status o)
  reply_json-IsNotified db status (ok text) r eq lt = refl
  reply_json-IsNotified db status (err e) r eq lt = ground arith

  reply-IsNotified :
      (db : Db) (status : ℕ) (body : Body Error)
      → 300 ≤ status
      → IsNotified (reply db false status body)
  reply-IsNotified db status body le r eq lt = ground arith

  fail-IsNotified : (db : Db) (e : Error) → IsNotified (fail db e)
  fail-IsNotified db e r eq lt = ground arith

  after_create-IsNotified :
      (r : Db × Result Error Proxy) → IsNotified (after_create T mode subscribed r)
  unfolding after_create
  after_create-IsNotified (db, ok p) = reply_json-IsNotified db 201 (T.to_json p)
  after_create-IsNotified (db, err e) = reply-IsNotified db 500 _ (omega arith)

  after_update-IsNotified :
      (p : Proxy) (r : Db × Result Error (Unit {0}))
      → IsNotified (after_update T mode subscribed p r)
  unfolding after_update
  after_update-IsNotified p (db, ok u) = reply_json-IsNotified db 200 (T.to_json p)
  after_update-IsNotified p (db, err e) = reply-IsNotified db 500 _ (omega arith)

  after_delete-IsNotified :
      (r : Db × Result Error (Unit {0})) → IsNotified (after_delete T mode subscribed r)
  unfolding after_delete
  after_delete-IsNotified (db, ok u) r eq lt = refl
  after_delete-IsNotified (db, err e) r eq lt = ground arith

  insert_proxy-IsNotified :
      (config : Configuration) (now : ℕ) (db : Db) (parsed : Result Error Proxy)
      → IsNotified (insert_proxy T mode subscribed config now db parsed)
  unfolding insert_proxy
  insert_proxy-IsNotified config now db (err e) = fail-IsNotified db e
  insert_proxy-IsNotified config now db (ok p) =
      elim (Bool-cases (has_path p.listen_path config.proxies)) [
        | inl h ↦ rw h (reply-IsNotified db 409 _ (omega arith))
        | inr h ↦ rw h (after_create-IsNotified (T.create_proxy db (with_times now now p)))
      ]

  replace_proxy-IsNotified :
      (id : String) (config : Configuration) (now : ℕ) (db : Db) (parsed : Result Error Proxy)
      → IsNotified (replace_proxy T mode subscribed id config now db parsed)
  unfolding replace_proxy
  replace_proxy-IsNotified id config now db (err e) = fail-IsNotified db e
  replace_proxy-IsNotified id config now db (ok p) = elim (Bool-cases (p.id == id)) [
    | inr h ↦ rw h (reply-IsNotified db 400 _ (omega arith))
    | inl h ↦ rw h (elim (Bool-cases (has_other_path id p.listen_path config)) [
      | inl g ↦ rw g (reply-IsNotified db 409 _ (omega arith))
      | inr g ↦ rw g (elim (Bool-cases (exists_proxy id config)) [
        | inr f ↦ rw f (reply-IsNotified db 404 _ (omega arith))
        | inl f ↦ rw f (
            after_update-IsNotified (with_times p.created_at now p)
              (T.update_proxy db (with_times p.created_at now p)))
      ])
    ])
  ]

  delete_proxy-IsNotified :
      (id : String) (config : Configuration) (db : Db)
      → IsNotified (delete_proxy T mode subscribed id config db)
  unfolding delete_proxy
  delete_proxy-IsNotified id config db =
      unless_file_mode-Holds T mode subscribed IsNotified mode db _
        (reply-IsNotified db 409 _ (omega arith))
        (elim (Bool-cases (exists_proxy id config)) [
          | inl h ↦ rw h (after_delete-IsNotified (T.delete_proxy db id))
          | inr h ↦ rw h (reply-IsNotified db 404 _ (omega arith))
        ])

  -- Whichever request that writes a proxy is answered with a status below 300, the router is
  -- notified of the change, where the interface has a sender for updates, and only there.
  pub success_notifies :
      (w : Write Error) (config : Configuration) (now : ℕ) (db : Db) (r : Response Error)
      → (write T mode subscribed w config now db).response ≡ ok r
      → r.status < 300
      → (write T mode subscribed w config now db).notified ≡ subscribed
  unfolding create_proxy update_proxy
  success_notifies (create parsed) config now db =
      unless_file_mode-Holds T mode subscribed IsNotified mode db _
        (reply-IsNotified db 409 _ (omega arith)) (insert_proxy-IsNotified config now db parsed)
  success_notifies (update id parsed) config now db =
      unless_file_mode-Holds T mode subscribed IsNotified mode db _
        (reply-IsNotified db 409 _ (omega arith)) (replace_proxy-IsNotified id config now db parsed)
  success_notifies (delete id) config now db = delete_proxy-IsNotified id config db

-- In file mode every request that writes a proxy is refused with 409, whatever it asks, and leaves
-- the database alone.
pub file_mode_is_read_only :
    {Db Error : Type 0} (T : ProxyTable Db Error) (subscribed : Bool) (w : Write Error)
    (config : Configuration) (now : ℕ) (db : Db)
    → write T file subscribed w config now db ≡ read_only db
unfolding create_proxy update_proxy delete_proxy unless_file_mode
file_mode_is_read_only T subscribed (create parsed) config now db = refl
file_mode_is_read_only T subscribed (update id parsed) config now db = refl
file_mode_is_read_only T subscribed (delete id) config now db = refl
