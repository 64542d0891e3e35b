-- ===== src/Net/Examples.antt =====
-- Runs of the network monitor: a container behind one interface, and another beside it.
use acadock_monitoring.Prelude.Word.{Word}
use acadock_monitoring.Prelude.Dict
use acadock_monitoring.Prelude.{[], ◌∷◌, ◌++◌, Bytes, bytes_eq, codes, ok, ◌≡◌, refl}
use acadock_monitoring.Float.{whole}
use acadock_monitoring.Client.Types.{NetworkStat}
use acadock_monitoring.Net.{
  NetMonitor, new_net_monitor, start_monitoring_container, zero_info, tick, get_usage,
}
use acadock_monitoring.Net.Usage.{IsOther, rate, get_usage-two_ticks}

abbrev watched : NetMonitor
watched =
    start_monitoring_container (ok (codes "veth1")) (codes "a")
      (start_monitoring_container (ok (codes "veth2")) (codes "b") new_net_monitor)

abbrev sample : Bytes → Word → NetworkStat
sample interface bytes = record {
  interface = interface;
  received = record zero_info { bytes = bytes };
  transmit = record zero_info { bytes = bytes };
}

own : Dict.get_or [] (codes "veth1") watched.container_ifaces ≡ codes "a"
unfolding Dict.get_or Dict.insert start_monitoring_container new_net_monitor bytes_eq
own = refl

other : IsOther watched.container_ifaces (codes "a") (sample (codes "veth2") 5)
unfolding Dict.get_or Dict.insert start_monitoring_container new_net_monitor bytes_eq
other = refl

nobody : IsOther watched.container_ifaces (codes "a") (sample (codes "lo") 5)
unfolding Dict.get_or Dict.insert start_monitoring_container new_net_monitor bytes_eq
nobody = refl

get_usage-two_ticks_example :
    get_usage whole 10 (codes "a") (
      tick (ok ([] ++ sample (codes "veth1") 80 ∷ sample (codes "lo") 5 ∷ [])) (
        tick
          (ok (
            (sample (codes "lo") 5 ∷ [])
            ++ sample (codes "veth1") 30 ∷ sample (codes "veth2") 5 ∷ []))
          watched))
    ≡ record {
      network_stat = sample (codes "veth1") 80;
      rx_bps = rate whole 10 30 80;
      tx_bps = rate whole 10 30 80;
    }
unfolding bytes_eq
get_usage-two_ticks_example =
    get_usage-two_ticks whole 10 (codes "a") watched (sample (codes "lo") 5 ∷ [])
      (sample (codes "veth2") 5 ∷ []) [] (sample (codes "lo") 5 ∷ []) (sample (codes "veth1") 30)
      (sample (codes "veth1") 80) refl own own (nobody, tt) (other, tt) tt (nobody, tt)
