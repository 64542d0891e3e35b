-- ===== src/Net/Iface/Examples.antt =====
-- Searches in a listing of links.
use acadock_monitoring.Prelude.{true, false, [], ◌∷◌, codes, ok, ◌≡◌, refl, arith}
use acadock_monitoring.Text.{text}
use acadock_monitoring.Text.Split.{split_on, trim_space}
use acadock_monitoring.Net.Iface.{Links, get_container_iface_id, get_container_iface}
use acadock_monitoring.Net.Iface.Listing.{Link, print_links}
use acadock_monitoring.Net.Iface.Lookup.{get_container_iface-print_links}

abbrev lo : Link
lo = record {
  index = 1;
  first = b'l';
  others = codes "o";
  peer = false;
  more = [];
  detail = codes "x";
}

abbrev veth : Link
veth = record {
  index = 12;
  first = b'v';
  others = codes "e";
  peer = true;
  more = codes "if2:";
  detail = codes "y";
}

abbrev other_veth : Link
other_veth = record {
  index = 120;
  first = b'w';
  others = [];
  peer = true;
  more = codes "if3:";
  detail = [];
}

abbrev to_twelve : Links (Unit {0}) (Unit {0})
to_twelve = record {
  get_from_docker = λ _. ok tt;
  new_handle_at = λ _. ok tt;
  link_by_name = λ _ _. ok 12;
}

get_container_iface-print_links_example :
    get_container_iface to_twelve (ok (print_links (lo ∷ veth ∷ other_veth ∷ []))) (codes "id")
    ≡ ok (codes "ve")
get_container_iface-print_links_example =
    get_container_iface-print_links to_twelve (codes "id") tt tt (lo ∷ []) (other_veth ∷ []) veth
      refl refl refl (omega arith)
      (
        record {
          small = omega arith;
          named = (
            ((omega arith, omega arith), ((λ e. omega (arith, e)), (λ e. omega (arith, e)))),
            (((omega arith, omega arith), ((λ e. omega (arith, e)), (λ e. omega (arith, e)))), tt),
          );
          more_line = tt;
          detail_line = ((λ e. omega (arith, e)), tt);
        },
        tt,
      )
      (omega arith, tt)
      (record {
        small = omega arith;
        named = (
          ((omega arith, omega arith), ((λ e. omega (arith, e)), (λ e. omega (arith, e)))),
          (((omega arith, omega arith), ((λ e. omega (arith, e)), (λ e. omega (arith, e)))), tt),
        );
        more_line = (
          (λ e. omega (arith, e)),
          ((λ e. omega (arith, e)), ((λ e. omega (arith, e)), ((λ e. omega (arith, e)), tt))),
        );
        detail_line = ((λ e. omega (arith, e)), tt);
      })

-- Without its link, an index finds one that starts with its digits.
another_found :
    get_container_iface to_twelve (ok (print_links (lo ∷ other_veth ∷ []))) (codes "id")
    ≡ ok (codes "w")
unfolding get_container_iface get_container_iface_id text split_on trim_space print_links
another_found = refl
