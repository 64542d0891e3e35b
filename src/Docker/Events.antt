-- ===== src/Docker/Events.antt =====
-- docker/container_repository.go: the events, and their actions.
use acadock_monitoring.Prelude.{Bytes}

-- The actions that the program tells apart.
pub data ContainerAction : Type 0 where
  action_start action_stop : ContainerAction
  other_action : Bytes → ContainerAction

pub record ContainerEvent : Type 0 where
  pub container_id : Bytes
  pub action : ContainerAction
