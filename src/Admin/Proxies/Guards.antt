-- ===== src/Admin/Proxies/Guards.antt =====
-- src/admin/routes/proxies.rs: what a write through the interface can do.
use ferrumgw.Common.{
  ℕ, String, ◌≡◌, refl, ap, ◌∙◌, Bool, ◌⊎◌, inl, inr, Bool-cases, List, [], ◌∷◌, Result, ok, err,
  ◌==◌, ==_iff, string_eq, bytes_eq,
}
use ferrumgw.Config.{Proxy, Configuration}
use ferrumgw.Config.Delta.{upsert, remove_ids}
use ferrumgw.Config.Delta.Lookup.{IsKeyed}
use ferrumgw.Config.Paths.{has_path, HasUniquePaths}
use ferrumgw.Admin.Api.{OperationMode, Done, read_only, reply_json, unless_file_mode}
use ferrumgw.Admin.Proxies.{
  ProxyTable, with_times, exists_proxy, has_other_path, create_proxy, insert_proxy, after_create,
  update_proxy, replace_proxy, after_update, delete_proxy, after_delete,
}
use ferrumgw.Admin.Proxies.UniquePaths.{upsert-HasUniquePaths, retain-HasUniquePaths}

-- The requests that write, and the handler of each.
pub data Write (Error : Type 0) : Type 0 where
  create : Result Error Proxy → Write Error
  update : String → Result Error Proxy → Write Error
  delete : String → Write Error

-- What a write asks of the database.
pub data Change : Type 0 where
  inserted : Proxy → Change
  replaced : Proxy → Change
  removed : String → Change

-- What a change makes of the proxies.
abbrev pub apply_change : Change → List Proxy → List Proxy
apply_change (inserted p) ps = p ∷ ps
apply_change (replaced p) ps = upsert (λ x. x.id) p ps
apply_change (removed id) ps = remove_ids (λ x. x.id) (id ∷ []) ps

module _ {Db Error : Type 0} (T : ProxyTable Db Error) (mode : OperationMode)
    (subscribed : Bool) where
  abbrev pub write : Write Error → Configuration → ℕ → Db → Done Db Error
  write (create parsed) config now db = create_proxy T mode subscribed config now db parsed
  write (update id parsed) config now db = update_proxy T mode subscribed id config now db parsed
  write (delete id) config now db = delete_proxy T mode subscribed id config db

  abbrev pub perform : Change → Db → Db
  perform (inserted p) db = (T.create_proxy db p).0
  perform (replaced p) db = (T.update_proxy db p).0
  perform (removed id) db = (T.delete_proxy db id).0

  -- The database is as it was, or one change was asked of it, after which the proxies of the
  -- configuration in memory would still have different listen paths.
  abbrev pub IsGuarded : Configuration → Db → Done Db Error → Type 0
  IsGuarded config db d =
      (d.db ≡ db)
      ⊎ ((c : Change) × (d.db ≡ perform c db) × HasUniquePaths (apply_change c config.proxies))

  -- A reply that did not write.
  pub unless_file_mode-Holds :
      (P : Done Db Error → Type 0) (m : OperationMode) (db : Db) (rest : Done Db Error)
      → P (read_only db)
      → P rest
      → P (unless_file_mode m db rest)
  unfolding unless_file_mode
  unless_file_mode-Holds P OperationMode.file db rest p q = p
  unless_file_mode-Holds P OperationMode.database db rest p q = q
  unless_file_mode-Holds P OperationMode.control_plane db rest p q = q
  unless_file_mode-Holds P OperationMode.data_plane db rest p q = q

  reply_json-db :
      (db : Db) (notified : Bool) (status : ℕ) (o : Result Error String)
      → (reply_json db notified status o).db ≡ db
  reply_json-db db notified status (ok text) = refl
  reply_json-db db notified status (err e) = refl

  after_create-db : (r : Db × Result Error Proxy) → (after_create T mode subscribed r).db ≡ r.0
  unfolding after_create
  after_create-db (db, ok p) = reply_json-db db subscribed 201 (T.to_json p)
  after_create-db (db, err e) = refl

  after_update-db :
      (p : Proxy) (r : Db × Result Error (Unit {0})) → (after_update T mode subscribed p r).db ≡ r.0
  unfolding after_update
  after_update-db p (db, ok u) = reply_json-db db subscribed 200 (T.to_json p)
  after_update-db p (db, err e) = refl

  after_delete-db : (r : Db × Result Error (Unit {0})) → (after_delete T mode subscribed r).db ≡ r.0
  unfolding after_delete
  after_delete-db (db, ok u) = refl
  after_delete-db (db, err e) = refl

  insert_proxy-IsGuarded :
      (config : Configuration) (now : ℕ) (db : Db) (parsed : Result Error Proxy)
      → HasUniquePaths config.proxies
      → IsGuarded config db (insert_proxy T mode subscribed config now db parsed)
  unfolding insert_proxy
  insert_proxy-IsGuarded config now db (err e) u = inl refl
  insert_proxy-IsGuarded config now db (ok p) u =
      elim (Bool-cases (has_path p.listen_path config.proxies)) [
        | inl h ↦ rw h (inl refl)
        | inr h ↦ rw h (
            inr (
              inserted (with_times now now p),
              after_create-db (T.create_proxy db (with_times now now p)),
              (h, u),
            ))
      ]

  replace_proxy-IsGuarded :
      (id : String) (config : Configuration) (now : ℕ) (db : Db) (parsed : Result Error Proxy)
      → IsKeyed (λ x. x.id) config.proxies
      → HasUniquePaths config.proxies
      → IsGuarded config db (replace_proxy T mode subscribed id config now db parsed)
  unfolding replace_proxy
  replace_proxy-IsGuarded id config now db (err e) k u = inl refl
  replace_proxy-IsGuarded id config now db (ok p) k u = elim (Bool-cases (p.id == id)) [
    | inr h ↦ rw h (inl refl)
    | inl h ↦ rw h (elim (Bool-cases (has_other_path id p.listen_path config)) [
      | inl g ↦ rw g (inl refl)
      | inr g ↦ rw g (elim (Bool-cases (exists_proxy id config)) [
        | inr f ↦ rw f (inl refl)
        | inl f ↦ rw f (
            inr (
              replaced (stamped p),
              after_update-db (stamped p) (T.update_proxy db (stamped p)),
              upsert-HasUniquePaths (stamped p) config.proxies k u (
                  ap (λ name. has_other_path name p.listen_path config) ((==_iff p.id id).0 h) ∙ g),
            ))
      ])
    ])
  ]
    where
      stamped : Proxy → Proxy
      stamped q = with_times q.created_at now q

  delete_proxy-IsGuarded :
      (id : String) (config : Configuration) (db : Db)
      → HasUniquePaths config.proxies
      → IsGuarded config db (delete_proxy T mode subscribed id config db)
  unfolding delete_proxy remove_ids
  delete_proxy-IsGuarded id config db u =
      unless_file_mode-Holds (IsGuarded config db) mode db _ (inl refl)
        (elim (Bool-cases (exists_proxy id config)) [
          | inl h ↦ rw h (
              inr (
                removed id,
                after_delete-db (T.delete_proxy db id),
                retain-HasUniquePaths _ config.proxies u,
              ))
          | inr h ↦ rw h (inl refl)
        ])

  -- Where the configuration in memory has proxies with different ids and different listen paths, a
  -- request that creates, updates or deletes a proxy leaves the database alone or asks one change of
  -- it, and the proxies with that change have different listen paths again.
  pub write-IsGuarded :
      (w : Write Error) (config : Configuration) (now : ℕ) (db : Db)
      → IsKeyed (λ x. x.id) config.proxies
      → HasUniquePaths config.proxies
      → IsGuarded config db (write w config now db)
  unfolding create_proxy update_proxy
  write-IsGuarded (create parsed) config now db k u =
      unless_file_mode-Holds (IsGuarded config db) mode db _ (inl refl)
        (insert_proxy-IsGuarded config now db parsed u)
  write-IsGuarded (update id parsed) config now db k u =
      unless_file_mode-Holds (IsGuarded config db) mode db _ (inl refl)
        (replace_proxy-IsGuarded id config now db parsed k u)
  write-IsGuarded (delete id) config now db k u = delete_proxy-IsGuarded id config db u
