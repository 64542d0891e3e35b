-- ===== src/Net/Iface.antt =====
-- net/iface.go: the interface of a container on the host. The namespace, the netlink handle and the
-- output of `ip link show` are a library's and the system's, and are inputs.
pub mod Listing
pub mod Lookup
mod Examples
use acadock_monitoring.Prelude.Word.{Word}
use acadock_monitoring.Prelude.{
  ℕ, Bool, true, false, List, [], ◌∷◌, ◌++◌, Option, none, some, Bytes, codes, ◌==◌, if◌then◌else◌,
  get_elem?, Error, message, Outcome, ok, err, panic, wrap, ◌>>=◌,
}
use acadock_monitoring.Text.Decimal.{format_int}
use acadock_monitoring.Text.Fields.{has_prefix}
use acadock_monitoring.Text.Split.{split_on, trim_space}

-- What the libraries return: the namespace of a container, a handle on it, and the parent's index
-- that a link of a name has.
pub record Links (N H : Type 0) : Type 0 where
  pub get_from_docker : Bytes → Outcome N
  pub new_handle_at : N → Outcome H
  pub link_by_name : H → Bytes → Outcome Word

unfoldable pub get_container_iface_id : {N H : Type 0} → Links N H → Bytes → Outcome Bytes
get_container_iface_id links id = do
  namespace ← wrap (codes "could not get network namespace") (links.get_from_docker id)
  handle ← wrap (codes "could not create netlink handle") (links.new_handle_at namespace)
  index ← wrap (codes "could not get eth0 link") (links.link_by_name handle (codes "eth0"))
  (if index == 0
      then err (message (codes "could not get veth parent index"))
      else ok (format_int index))

-- A part of a split text, which panics if it is not there.
part_of : Option Bytes → Outcome Bytes
part_of none = panic
part_of (some part) = ok part

-- `strings.TrimSpace(strings.Split(strings.Split(line, "@")[0], ":")[1])`
unfoldable pub name_of_line : Bytes → Outcome Bytes
unfolding part_of
name_of_line line = do
  front ← part_of (get_elem? (split_on b'@' line) 0)
  name ← part_of (get_elem? (split_on b':' front) 1)
  ok (trim_space name)

-- The loop over the lines.
pub find_iface : Bytes → List Bytes → Outcome Bytes
unfolding name_of_line
find_iface iface_id [] = err (message (codes "interface not found"))
find_iface iface_id (line ∷ lines) =
    let more = find_iface iface_id lines in
    if has_prefix line iface_id then name_of_line line else more

-- With the output of `ip link show`, or the error of the command.
unfoldable pub get_container_iface :
    {N H : Type 0} → Links N H → Outcome Bytes → Bytes → Outcome Bytes
unfolding find_iface
get_container_iface links ip_link_show id = do
  iface_id ← wrap (codes "get container interface") (get_container_iface_id links id)
  stdout ← ip_link_show
  find_iface iface_id (split_on b'\n' stdout)
