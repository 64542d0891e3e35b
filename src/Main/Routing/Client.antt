-- ===== src/Main/Routing/Client.antt =====
-- Each path of the client, in the table of the routes.
use acadock_monitoring.Prelude.{
  List, [], ◌∷◌, ◌++◌, Option, some, Bytes, bytes_eq, codes, StringMap, ◌≡◌, ◌≢◌, refl, ap, ◌∙◌,
  sym,
}
use mathlib.Core.List.{append_cancel_left}
use acadock_monitoring.Client.Requests.{resource_path}
use acadock_monitoring.Client.Requests.Url.{slash_inside, behind, containers}
use acadock_monitoring.Main.{
  Handler, container_mem, container_io, container_cpu, container_net, container_usage,
  containers_usage, host_resources, not_found, routes,
}
use acadock_monitoring.Main.Routing.{
  IsSegment, plain-HasNoSlash, IsRouter, other_resource, own_resource, no_container,
}

module _ {find : List (Bytes × Handler) → Bytes → Option (Handler × StringMap Bytes)}
    (router : IsRouter find) where
  mem_route :
      (id : Bytes)
      → IsSegment id
      → find routes (containers ++ (id ++ b'/' ∷ codes "mem"))
        ≡ some (container_mem, (codes "id", id) ∷ [])
  unfolding routes bytes_eq
  mem_route id h = own_resource router id (codes "mem") container_mem _ h refl

  cpu_route :
      (id : Bytes)
      → IsSegment id
      → find routes (containers ++ (id ++ b'/' ∷ codes "cpu"))
        ≡ some (container_cpu, (codes "id", id) ∷ [])
  unfolding routes bytes_eq
  cpu_route id h =
      other_resource router id (codes "cpu") (codes "mem") container_mem _ h refl refl
      ∙ other_resource router id (codes "cpu") (codes "io") container_io _ h refl refl
      ∙ own_resource router id (codes "cpu") container_cpu _ h refl

  net_route :
      (id : Bytes)
      → IsSegment id
      → find routes (containers ++ (id ++ b'/' ∷ codes "net"))
        ≡ some (container_net, (codes "id", id) ∷ [])
  unfolding routes bytes_eq
  net_route id h =
      other_resource router id (codes "net") (codes "mem") container_mem _ h refl refl
      ∙ other_resource router id (codes "net") (codes "io") container_io _ h refl refl
      ∙ other_resource router id (codes "net") (codes "cpu") container_cpu _ h refl refl
      ∙ own_resource router id (codes "net") container_net _ h refl

  io_route :
      (id : Bytes)
      → IsSegment id
      → find routes (containers ++ (id ++ b'/' ∷ codes "io"))
        ≡ some (container_io, (codes "id", id) ∷ [])
  unfolding routes bytes_eq
  io_route id h =
      other_resource router id (codes "io") (codes "mem") container_mem _ h refl refl
      ∙ own_resource router id (codes "io") container_io _ h refl

  usage_route :
      (id : Bytes)
      → IsSegment id
      → find routes (containers ++ (id ++ b'/' ∷ codes "usage"))
        ≡ some (container_usage, (codes "id", id) ∷ [])
  unfolding routes bytes_eq
  usage_route id h =
      other_resource router id (codes "usage") (codes "mem") container_mem _ h refl refl
      ∙ other_resource router id (codes "usage") (codes "io") container_io _ h refl refl
      ∙ other_resource router id (codes "usage") (codes "cpu") container_cpu _ h refl refl
      ∙ other_resource router id (codes "usage") (codes "net") container_net _ h refl refl
      ∙ own_resource router id (codes "usage") container_usage _ h refl

  no_containers :
      (path : Bytes)
      → ((s j : Bytes) → path ≢ containers ++ (j ++ b'/' ∷ s))
      → find routes path
        ≡ find
            ((codes "/containers/usage", containers_usage)
              ∷ (codes "/host/usage", host_resources)
              ∷ (codes "/{any:.*}", not_found)
              ∷ [])
            path
  unfolding routes bytes_eq
  no_containers path other =
      no_container router path (codes "mem") container_mem _ refl (other (codes "mem"))
      ∙ no_container router path (codes "io") container_io _ refl (other (codes "io"))
      ∙ no_container router path (codes "cpu") container_cpu _ refl (other (codes "cpu"))
      ∙ no_container router path (codes "net") container_net _ refl (other (codes "net"))
      ∙ no_container router path (codes "usage") container_usage _ refl (other (codes "usage"))

  all_usages_route : find routes (codes "/containers/usage") ≡ some (containers_usage, [])
  all_usages_route =
      no_containers (codes "/containers/usage") (λ s j e.
        slash_inside j s (codes "usage")
          (plain-HasNoSlash (codes "usage") (refl, (refl, (refl, (refl, (refl, tt))))))
          (sym (append_cancel_left containers _ _ e)))
      ∙ router.literal _ _ _ refl

  host_route : find routes (codes "/host/usage") ≡ some (host_resources, [])
  host_route =
      no_containers (codes "/host/usage") (λ s j e. cc)
      ∙ router.literal_skip (codes "/containers/usage") (codes "/host/usage") _ _ refl (λ e. cc)
      ∙ router.literal _ _ _ refl

  -- The path of a resource of a container, in the shape of a route.
  shaped :
      (id r : Bytes) {result : Option (Handler × StringMap Bytes)}
      → IsSegment id
      → find routes (containers ++ (id ++ b'/' ∷ r)) ≡ result
      → find routes (resource_path id r) ≡ result
  unfolding resource_path bytes_eq
  shaped [] r (h, _) e = absurd (h refl)
  shaped (c ∷ id) r h e = ap (find routes) (behind (c ∷ id) r) ∙ e

  -- With a router as mux documents it: each path that the client asks for comes to the handler of this
  -- resource, with the name of the container, if this is of digits and small letters and not empty.
  pub find-resource_path :
      (id : Bytes)
      → IsSegment id
      → (find routes (resource_path id (codes "mem")) ≡ some (container_mem, (codes "id", id) ∷ []))
        × (find routes (resource_path id (codes "io")) ≡ some (container_io, (codes "id", id) ∷ []))
        × (find routes (resource_path id (codes "cpu"))
            ≡ some (container_cpu, (codes "id", id) ∷ []))
        × (find routes (resource_path id (codes "net"))
            ≡ some (container_net, (codes "id", id) ∷ []))
        × (find routes (resource_path id (codes "usage"))
            ≡ some (container_usage, (codes "id", id) ∷ []))
  find-resource_path id h = (
    shaped id (codes "mem") h (mem_route id h),
    shaped id (codes "io") h (io_route id h),
    shaped id (codes "cpu") h (cpu_route id h),
    shaped id (codes "net") h (net_route id h),
    shaped id (codes "usage") h (usage_route id h),
  )

  -- So do the paths for all containers and for the host.
  pub find-no_container :
      (find routes (resource_path [] (codes "usage")) ≡ some (containers_usage, []))
      × (find routes (codes "/host/usage") ≡ some (host_resources, []))
  unfolding resource_path bytes_eq
  find-no_container = (all_usages_route, host_route)
