-- ===== src/Net.antt =====
-- net/net.go: the network monitor. What `netstat.Stats` returns and the interface of a container
-- are inputs.
pub mod Usage
pub mod Iface
mod Examples
use acadock_monitoring.Prelude.Word
use acadock_monitoring.Prelude.Word.{Word}
use acadock_monitoring.Prelude.Dict
use acadock_monitoring.Prelude.{
  ℕ, Bool, true, false, List, [], ◌∷◌, Bytes, bytes_eq, if◌then◌else◌, ltb, Outcome, ok, err, panic,
  StringMap,
}
use acadock_monitoring.Float.{Float64}
use acadock_monitoring.Client.Types.{NetworkInfo, NetworkStat, NetUsage}
use acadock_monitoring.Docker.Events.{
  ContainerEvent, ContainerAction, action_start, action_stop, other_action,
}

pub record NetMonitor : Type 0 where
  pub net_usages : StringMap NetworkStat
  pub previous_net_usages : StringMap NetworkStat
  pub container_ifaces : StringMap Bytes

abbrev pub zero_info : NetworkInfo
zero_info = record {
  bytes = 0;
  packets = 0;
  drop = 0;
  errs = 0;
  fifo = 0;
  frame = 0;
  compressed = 0;
  multicast = 0;
}

abbrev pub zero_stat : NetworkStat
zero_stat = record { interface = []; received = zero_info; transmit = zero_info }

unfoldable pub new_net_monitor : NetMonitor
new_net_monitor = record { net_usages = []; previous_net_usages = []; container_ifaces = [] }

unfoldable pub store_stat : NetworkStat → Bytes → NetMonitor → NetMonitor
store_stat stat container_id m = if bytes_eq container_id [] then m else record m {
  previous_net_usages =
      Dict.insert container_id (Dict.get_or zero_stat container_id m.net_usages)
        m.previous_net_usages;
  net_usages = Dict.insert container_id stat m.net_usages;
}

-- The loop over the interfaces.
unfoldable pub store_stats : List NetworkStat → NetMonitor → NetMonitor
store_stats [] m = m
store_stats (stat ∷ stats) m =
    store_stats stats (store_stat stat (Dict.get_or [] stat.interface m.container_ifaces) m)

-- A tick of `Start`, with what `netstat.Stats` returns.
unfoldable pub tick : Outcome (List NetworkStat) → NetMonitor → NetMonitor
tick (ok stats) m = store_stats stats m
tick (err e) m = m
tick panic m = m

-- With what `getContainerIface` returns.
unfoldable pub start_monitoring_container : Outcome Bytes → Bytes → NetMonitor → NetMonitor
start_monitoring_container (ok iface) container_id m = record m {
  container_ifaces = Dict.insert iface container_id m.container_ifaces;
}
start_monitoring_container (err e) container_id m = m
start_monitoring_container panic container_id m = m

-- The loop of `cleanMonitoringData` over the interfaces, in the order in which Go visits them: it
-- deletes the first one of the container.
delete_first : List Bytes → Bytes → StringMap Bytes → StringMap Bytes
delete_first [] container_id ifaces = ifaces
delete_first (iface ∷ order) container_id ifaces =
    let rest = delete_first order container_id ifaces in
    if bytes_eq (Dict.get_or [] iface ifaces) container_id then Dict.delete iface ifaces else rest

unfoldable pub clean_monitoring_data : List Bytes → Bytes → NetMonitor → NetMonitor
unfolding delete_first
clean_monitoring_data order container_id m = record m {
  container_ifaces = delete_first order container_id m.container_ifaces;
}

-- What `listeningNewInterfaces` does with an event.
on_action : Outcome Bytes → List Bytes → ContainerAction → Bytes → NetMonitor → NetMonitor
on_action iface order action_start id m = start_monitoring_container iface id m
on_action iface order action_stop id m = clean_monitoring_data order id m
on_action iface order (other_action name) id m = m

unfoldable pub handle_event : Outcome Bytes → List Bytes → ContainerEvent → NetMonitor → NetMonitor
unfolding on_action
handle_event iface order event m = on_action iface order event.action event.container_id m

module _ (fl : Float64) where
  open fl use {F, of_uint64, div, to_int64}

  -- The growth of a counter in a second, 0 where there is no earlier value.
  unfoldable pub bytes_per_second : F → Word → Word → Word
  bytes_per_second seconds previous current =
      if ltb 0 previous then to_int64 (div (of_uint64 (Word.sub current previous)) seconds) else 0

  -- `GetUsage`, with `config.RefreshTime` in seconds.
  unfoldable pub get_usage : F → Bytes → NetMonitor → NetUsage
  unfolding bytes_per_second
  get_usage seconds id m =
      let current = Dict.get_or zero_stat id m.net_usages in
      let previous = Dict.get_or zero_stat id m.previous_net_usages in
      record {
        network_stat = current;
        rx_bps = bytes_per_second seconds previous.received.bytes current.received.bytes;
        tx_bps = bytes_per_second seconds previous.transmit.bytes current.transmit.bytes;
      }
