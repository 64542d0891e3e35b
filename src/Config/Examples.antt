-- ===== src/Config/Examples.antt =====
-- Settings from the defaults and from an environment.
use acadock_monitoring.Prelude.Word.{Word}
use acadock_monitoring.Prelude.Dict
use acadock_monitoring.Prelude.{
  ℕ, false, [], ◌∷◌, Bytes, codes, bytes_eq, ok, panic, StringMap, ◌⊎◌, ◌≡◌, refl,
}
use acadock_monitoring.Config.{defaults, Variables, Config, value_of, merge, init, cgroup_path}
use acadock_monitoring.Config.Merge.{defaults-IsDistinct, merge-chosen}
use acadock_monitoring.Config.Settings.{IsUnreadable, init-ends}

abbrev no_fraction : ℕ → ℕ → ℕ → Word
no_fraction f scale unit = 0

abbrev two_set : StringMap Bytes
two_set = (codes "REFRESH_TIME", codes "1m30s") ∷ (codes "DEBUG", codes "1") ∷ []

abbrev port_order : StringMap Bytes
port_order = (codes "PORT", codes "4244") ∷ (codes "DEBUG", codes "false") ∷ []

abbrev at_start : Variables
at_start = record { env = defaults; os_env = two_set }

merge-chosen_example :
    (value_of (codes "DEBUG") (merge port_order at_start).env ≡ codes "1")
    × (value_of (codes "DEBUG") (merge port_order at_start).os_env ≡ codes "1")
unfolding Dict.lookup Dict.get_or bytes_eq
merge-chosen_example =
    merge-chosen port_order at_start (codes "DEBUG") (codes "false") (refl, (refl, tt)) refl refl

init-ends_example :
    ((c : Config) × (init no_fraction false defaults [] ≡ ok c))
    ⊎ ((init no_fraction false defaults [] ≡ panic) × IsUnreadable no_fraction [])
init-ends_example = init-ends no_fraction false defaults [] defaults-IsDistinct (λ k. refl)

cgroup_path_test :
    cgroup_path defaults (codes "cpu") (codes "1a") ≡ ok (codes "/sys/fs/cgroup/cpu/docker/1a")
unfolding cgroup_path Dict.get_or bytes_eq
cgroup_path_test = refl
