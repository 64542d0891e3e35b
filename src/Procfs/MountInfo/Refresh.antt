-- ===== src/Procfs/MountInfo/Refresh.antt =====
-- What a refresh that succeeds leaves: two maps that describe what was read.
use acadock_monitoring.Prelude.Word.{Word}
use acadock_monitoring.Prelude.Dict
use acadock_monitoring.Prelude.Dict.{get_or-insert, get_or-insert_all_nil}
use acadock_monitoring.Prelude.{
  List, [], ◌∷◌, ◌++◌, any, Bytes, bytes_eq, bytes_eq_iff, codes, if◌then◌else◌, Outcome, ok, err,
  panic, wrap, ◌>>=◌, StringMap, ◌≡◌, ◌≢◌, refl, sym, subst, ap, ◌∙◌, arith, inl, inr, Bool-cases,
}
use acadock_monitoring.Text.Decimal.{format_uint}
use acadock_monitoring.Procfs.MountInfo.{
  MountEntry, Environment, MountInfoReader, device_key, mapper_paths, device_path_of, add_devices,
  device_paths, add_mount_infos, read_infos, store_infos, refresh, mountpoint, device_path,
}

-- The text of the numbers of a device in the mount infos and in the sysfs directory: both in decimal,
-- with a colon between them.
abbrev pub numbers : Word → Word → Bytes
numbers major minor = format_uint major ++ b':' ∷ format_uint minor

abbrev pub path_or : Outcome Bytes → Bytes
path_or (ok path) = path
path_or _ = []

abbrev map_or : StringMap Bytes → Outcome (StringMap Bytes) → StringMap Bytes
map_or old (ok m) = m
map_or old _ = old

-- The mount points with their keys.
abbrev pub entries : List MountEntry → List (Bytes × Bytes)
entries [] = []
entries (i ∷ is) = (i.major_minor_ver, i.mount_point) ∷ entries is

add_mount_infos-insert_all :
    (is : List MountEntry) (m : StringMap Bytes)
    → add_mount_infos is m ≡ Dict.insert_all (entries is) m
unfolding add_mount_infos Dict.insert_all
add_mount_infos-insert_all [] m = refl
add_mount_infos-insert_all (i ∷ is) m =
    add_mount_infos-insert_all is (Dict.insert i.major_minor_ver i.mount_point m)

module _ (env : Environment) (r : MountInfoReader) (mapper : StringMap Bytes) where
  add_devices-lookup :
      (names : List Bytes) (devices out : StringMap Bytes) (key : Bytes)
      → add_devices env r mapper names devices ≡ ok out
      → Dict.get_or [] key out ≡ (
          if any (λ (n : Bytes). bytes_eq n key) names
          then path_or (device_path_of env r mapper key)
          else Dict.get_or [] key devices)
  unfolding add_devices
  add_devices-lookup [] devices out key h =
      ap (λ (o : Outcome (StringMap Bytes)). Dict.get_or [] key (map_or devices o)) (sym h)
  add_devices-lookup (name ∷ names) devices out key h =
      step (device_path_of env r mapper name) refl h (λ d. add_devices-lookup names d out key)
    where
      step :
          (o : Outcome Bytes)
          → device_path_of env r mapper name ≡ o
          → (wrap (codes "get device path for " ++ name) o
              >>= (λ path. add_devices env r mapper names (Dict.insert name path devices)))
            ≡ ok out
          → ((d : StringMap Bytes)
              → add_devices env r mapper names d ≡ ok out
              → Dict.get_or [] key out ≡ (
                  if any (λ (n : Bytes). bytes_eq n key) names
                  then path_or (device_path_of env r mapper key)
                  else Dict.get_or [] key d))
          → Dict.get_or [] key out ≡ (
              if any (λ (n : Bytes). bytes_eq n key) (name ∷ names)
              then path_or (device_path_of env r mapper key)
              else Dict.get_or [] key devices)
      step (ok path) e g ih =
          ih (Dict.insert name path devices) g ∙ elim (Bool-cases (bytes_eq name key)) [
            | inl same ↦
                let found : path_or (device_path_of env r mapper key) ≡ path =
                  subst (λ (k : Bytes). path_or (device_path_of env r mapper k) ≡ path)
                    (ground (arith, bytes_eq_iff name key)) (ap path_or e) in
                ground (arith, get_or-insert [] name key path devices)
            | inr different ↦ ground (arith, get_or-insert [] name key path devices)
          ]
      step (err x) e g ih = cc
      step panic e g ih = cc

  device_paths-lookup :
      (names : List Bytes) (out : StringMap Bytes)
      → env.read_dir r.sys_dev_block ≡ ok names
      → device_paths env r mapper ≡ ok out
      → (key : Bytes)
      → Dict.get_or [] key out ≡ (
          if any (λ (n : Bytes). bytes_eq n key) names
          then path_or (device_path_of env r mapper key)
          else [])
  unfolding device_paths Dict.get_or
  device_paths-lookup names out listed h key = add_devices-lookup names [] out key (
      sym (
        ap
          (λ (o : Outcome (List Bytes)).
            wrap (codes "read sysfs device block directory") o
            >>= (λ names. add_devices env r mapper names []))
          listed)
      ∙ h)

module _ (env : Environment) (r : MountInfoReader) where
  read_infos-ok :
      (mounts : List MountEntry) (mapper devices : StringMap Bytes)
      → env.get_mount_infos ≡ ok mounts
      → mapper_paths env r ≡ ok mapper
      → device_paths env r mapper ≡ ok devices
      → read_infos env r ≡ ok (add_mount_infos mounts [], devices)
  unfolding read_infos
  read_infos-ok mounts mapper devices a c d = simp (a, c, d)

  -- A refresh that fails changes nothing.
  pub refresh-ne-ok : (refresh env r).1 ≢ ok tt → (refresh env r).0 ≡ r
  unfolding refresh store_infos
  refresh-ne-ok h = go (read_infos env r) h
    where
      go :
          (o : Outcome (StringMap Bytes × StringMap Bytes))
          → (store_infos r o).1 ≢ ok tt
          → (store_infos r o).0 ≡ r
      go (ok maps) h = absurd (h refl)
      go (err e) h = refl
      go panic h = refl

  -- After a refresh that succeeds, the mount point of a device is that of the last entry whose
  -- device is written as its major and minor number in decimal with a colon between them, and its
  -- path is that of the entry of the sysfs directory of this name; either is empty where there is
  -- none.
  pub refresh-lookup :
      (mounts : List MountEntry) (names : List Bytes) (mapper devices : StringMap Bytes)
      → env.get_mount_infos ≡ ok mounts
      → env.read_dir r.sys_dev_block ≡ ok names
      → mapper_paths env r ≡ ok mapper
      → device_paths env r mapper ≡ ok devices
      → ((refresh env r).1 ≡ ok tt)
        × ((major minor : Word)
            → (mountpoint (refresh env r).0 major minor
                ≡ Dict.last_of (numbers major minor) (entries mounts) [])
              × (device_path (refresh env r).0 major minor ≡ (
                  if any (λ (n : Bytes). bytes_eq n (numbers major minor)) names
                  then path_or (device_path_of env r mapper (numbers major minor))
                  else [])))
  unfolding refresh store_infos mountpoint device_path device_key
  refresh-lookup mounts names mapper devices a b c d =
      rw (read_infos-ok mounts mapper devices a c d) (
        refl,
        λ major minor. (
          ap (λ (m : StringMap Bytes). Dict.get_or [] (numbers major minor) m)
                (add_mount_infos-insert_all mounts [])
              ∙ get_or-insert_all_nil [] (numbers major minor) (entries mounts),
          device_paths-lookup env r mapper names devices b d (numbers major minor),
        ),
      )
