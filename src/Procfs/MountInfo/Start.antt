-- ===== src/Procfs/MountInfo/Start.antt =====
-- What the readers find while the refreshes go on.
use acadock_monitoring.Prelude.{
  List, [], ◌∷◌, ◌++◌, Bytes, codes, All, Outcome, ok, err, panic, wrap, ◌>>=◌, >>=-ext, StringMap,
  ◌≡◌, ◌≢◌, refl, sym, ap, ◌∙◌,
}
use acadock_monitoring.Prelude.Dict
use acadock_monitoring.Procfs.MountInfo.{
  Environment, MountInfoReader, join, mapper_paths, add_mapper_paths, device_path_of, add_devices,
  device_paths, add_mount_infos, read_infos, store_infos, refresh, start,
}

-- The reader with other maps.
abbrev pub with_maps : StringMap Bytes × StringMap Bytes → MountInfoReader → MountInfoReader
with_maps (infos, devices) r = record r { mount_infos = infos; devices = devices }

module _ (env : Environment) (maps : StringMap Bytes × StringMap Bytes) (r : MountInfoReader) where
  add_mapper_paths-with_maps :
      (names : List Bytes) (paths : StringMap Bytes)
      → add_mapper_paths env (with_maps maps r) names paths ≡ add_mapper_paths env r names paths
  unfolding add_mapper_paths
  add_mapper_paths-with_maps [] paths = refl
  add_mapper_paths-with_maps (name ∷ names) paths =
      >>=-ext
        (wrap (codes "resolve device mapper symlink " ++ join r.dev_mapper name)
          (env.eval_symlinks (join r.dev_mapper name)))
        _ _
        (λ target.
          add_mapper_paths-with_maps names (Dict.insert target (join r.dev_mapper name) paths))

  add_devices-with_maps :
      (mapper : StringMap Bytes) (names : List Bytes) (devices : StringMap Bytes)
      → add_devices env (with_maps maps r) mapper names devices
        ≡ add_devices env r mapper names devices
  unfolding add_devices device_path_of
  add_devices-with_maps mapper [] devices = refl
  add_devices-with_maps mapper (name ∷ names) devices =
      >>=-ext (wrap (codes "get device path for " ++ name) (device_path_of env r mapper name)) _ _
        (λ path. add_devices-with_maps mapper names (Dict.insert name path devices))

  -- What a refresh reads does not depend on the maps.
  read_infos-with_maps : read_infos env (with_maps maps r) ≡ read_infos env r
  unfolding read_infos mapper_paths device_paths
  read_infos-with_maps = >>=-ext (wrap (codes "get mount infos") env.get_mount_infos) _ _ λ mounts.
      ap
        (λ (paths : Outcome (StringMap Bytes)).
          wrap (codes "get device mapper paths") paths >>= (λ mapper.
            wrap (codes "get device paths") (device_paths env (with_maps maps r) mapper)
            >>= (λ devices. ok (add_mount_infos mounts [], devices))))
        (>>=-ext (wrap (codes "read device mapper directory") (env.read_dir r.dev_mapper)) _ _
          (λ entries. add_mapper_paths-with_maps entries []))
      ∙ >>=-ext (wrap (codes "get device mapper paths") (mapper_paths env r)) _ _ λ mapper.
        ap
          (λ (paths : Outcome (StringMap Bytes)).
            wrap (codes "get device paths") paths
            >>= (λ devices. ok (add_mount_infos mounts [], devices)))
          (>>=-ext (wrap (codes "read sysfs device block directory") (env.read_dir r.sys_dev_block))
            _ _ (λ entries. add_devices-with_maps mapper entries []))

-- The refresh does not succeed.
abbrev pub Fails : MountInfoReader → Environment → Type 0
Fails r env = (m : StringMap Bytes × StringMap Bytes) → read_infos env r ≢ ok m

store_infos-fails :
    (r : MountInfoReader) (o : Outcome (StringMap Bytes × StringMap Bytes))
    → ((m : StringMap Bytes × StringMap Bytes) → o ≢ ok m)
    → (store_infos r o).0 ≡ r
unfolding store_infos
store_infos-fails r (ok m) h = absurd (h m refl)
store_infos-fails r (err e) h = refl
store_infos-fails r panic h = refl

start-append :
    (before after : List Environment) (r : MountInfoReader)
    → start (before ++ after) r ≡ start after (start before r)
unfolding start
start-append [] after r = refl
start-append (env ∷ before) after r = start-append before after (refresh env r).0

start-Fails :
    (envs : List Environment) (r : MountInfoReader) → All (Fails r) envs → start envs r ≡ r
unfolding start refresh
start-Fails [] r _ = refl
start-Fails (env ∷ envs) r (h, hs) =
    ap (start envs) (store_infos-fails r (read_infos env r) h) ∙ start-Fails envs r hs

store_infos-with_maps :
    (r : MountInfoReader) (o : Outcome (StringMap Bytes × StringMap Bytes))
    → (maps : StringMap Bytes × StringMap Bytes) × ((store_infos r o).0 ≡ with_maps maps r)
unfolding store_infos
store_infos-with_maps r (ok maps) = (maps, refl)
store_infos-with_maps r (err e) = ((r.mount_infos, r.devices), refl)
store_infos-with_maps r panic = ((r.mount_infos, r.devices), refl)

-- Refreshes leave the reader with some maps, and its directories.
start-with_maps :
    (envs : List Environment) (r : MountInfoReader)
    → (maps : StringMap Bytes × StringMap Bytes) × (start envs r ≡ with_maps maps r)
unfolding start refresh
start-with_maps [] r = ((r.mount_infos, r.devices), refl)
start-with_maps (env ∷ envs) r =
    let (_, stored) = store_infos-with_maps r (read_infos env r) in
    let (maps, later) = start-with_maps envs (store_infos r (read_infos env r)).0 in
    (maps, later ∙ ap (with_maps maps) stored)

Fails-with_maps :
    (maps : StringMap Bytes × StringMap Bytes) (r : MountInfoReader) (envs : List Environment)
    → All (Fails r) envs
    → All (Fails (with_maps maps r)) envs
Fails-with_maps maps r [] _ = tt
Fails-with_maps maps r (env ∷ envs) (h, hs) =
    (λ m e. h m (sym (read_infos-with_maps env maps r) ∙ e), Fails-with_maps maps r envs hs)

-- After refreshes of which one succeeded and all later ones failed, the readers find what this one
-- read, whatever the refreshes before it did.
pub start-last_success :
    (before after : List Environment) (env : Environment) (r : MountInfoReader)
    (maps : StringMap Bytes × StringMap Bytes)
    → read_infos env r ≡ ok maps
    → All (Fails r) after
    → start (before ++ env ∷ after) r ≡ with_maps maps r
unfolding start refresh store_infos
start-last_success before after env r maps found failed =
    let (old, earlier) = start-with_maps before r in
    start-append before (env ∷ after) r
    ∙ ap (start (env ∷ after)) earlier
    ∙ ap
        (λ (o : Outcome (StringMap Bytes × StringMap Bytes)).
          start after (store_infos (with_maps old r) o).0)
        (read_infos-with_maps env old r ∙ found)
    ∙ start-Fails after (with_maps maps r) (Fails-with_maps maps r after failed)
