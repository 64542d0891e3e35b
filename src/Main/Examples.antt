-- ===== src/Main/Examples.antt =====
-- A start with the defaults, and a client that is let in.
use acadock_monitoring.Prelude.Word.{Word}
use acadock_monitoring.Prelude.Dict
use acadock_monitoring.Prelude.{
  ℕ, any, ◌==◌, Bool, true, false, [], ◌∷◌, Option, some, none, Bytes, codes, bytes_eq,
  if◌then◌else◌, Outcome, ok, StringMap, ◌≡◌, refl, ap, arith,
}
use acadock_monitoring.Text.Decimal.{format_uint}
use acadock_monitoring.Text.Duration.Print.{second, print_parts}
use acadock_monitoring.Config.{defaults, init, merge_one, read_config}
use acadock_monitoring.Config.Merge.{defaults-IsDistinct}
use acadock_monitoring.Filters.{new_exponential_smoothing, with_queue_length, with_average_config}
use acadock_monitoring.Client.Requests.{Client, Request, Response, HttpLibrary, basic_auth, prepare}
use acadock_monitoring.Procfs.Readers.{
  Os, new_cpu_stat_reader, new_mem_info_reader, new_load_avg_reader, filter_wrap,
}
use acadock_monitoring.Procfs.MountInfo.{open_mount_info_reader}
use acadock_monitoring.Text.Duration.{parse_duration}
use acadock_monitoring.Text.Decimal.Integer.{atoi}
use acadock_monitoring.Docker.Repository.{new_container_repository}
use acadock_monitoring.Cpu.{new_cpu_usage_monitor}
use acadock_monitoring.Net.{new_net_monitor}
use acadock_monitoring.Main.{Started, admits, boot, requires_auth, mount_info_pid}
use acadock_monitoring.Main.Access.{IsUser, IsSender, IsAuthMiddleware, admits-prepare}
use acadock_monitoring.Main.Startup.{IsSetUp, boot-IsSetUp}

-- The text in front of the first colon, and what stands behind it.
cut : Bytes → Bytes × Bytes
cut [] = ([], [])
cut (c ∷ s) = let (user, password) = cut s in if c == b':' then ([], s) else (c ∷ user, password)

pub middleware : (Bytes → Bytes → Bool) → Option Bytes → Bool
unfolding cut
middleware check none = false
middleware check (some text) = check (cut text).0 (cut text).1

cut-basic_auth :
    (user password : Bytes) → IsUser user → cut (basic_auth user password) ≡ (user, password)
unfolding cut
cut-basic_auth [] password h = refl
cut-basic_auth (c ∷ user) password ((_, h), hs) = ground (arith, cut-basic_auth user password hs)

pub middleware-IsAuthMiddleware : IsAuthMiddleware middleware
unfolding middleware
middleware-IsAuthMiddleware = record {
  checks = λ check user password h _.
      ap (λ (p : Bytes × Bytes). check p.0 p.1) (cut-basic_auth user password h);
  refuses = λ check. refl;
}

abbrev pub secured : StringMap Bytes
secured = (codes "HTTP_USERNAME", codes "u") ∷ (codes "HTTP_PASSWORD", codes "p") ∷ []

abbrev pub visitor : Client
visitor = record { endpoint = codes "http://h"; username = codes "u"; password = codes "p" }

-- A library that takes an "@" for a user, and sends that if a request has no authorization.
abbrev pub names_user : Bytes → Bool
names_user url = any (λ c. c == b'@') url

pub sent_by : Request → Option Bytes
sent_by req = elim req.authorization [
  | some a ↦ some a
  | none ↦ if names_user req.url then some req.url else none
]

abbrev pub sender : (Bytes → Outcome (Unit {0})) → (Request → Outcome Response) → HttpLibrary
sender new_request do_default = record {
  new_request = new_request;
  do_default = do_default;
  has_user_info = names_user;
  sent_authorization = sent_by;
}

pub sender-IsSender :
    (new_request : Bytes → Outcome (Unit {0})) (do_default : Request → Outcome Response)
    → IsSender (sender new_request do_default)
unfolding sent_by
sender-IsSender new_request do_default = record {
  keeps = λ req a h. rw h refl;
  adds_none = λ req h. with_none req.url req.authorization h;
}
  where
    with_none :
        (url : Bytes) (o : Option Bytes)
        → names_user url ≡ false
        → (elim o [ some a ↦ some a | none ↦ if names_user url then some url else none ]) ≡ o
    with_none url (some a) h = refl
    with_none url none h = rw h refl

abbrev silent : HttpLibrary
silent = sender (λ url. ok tt) (λ req. ok (record { status = []; body = [] }))

admits-prepare_example :
    admits middleware secured
      (silent.sent_authorization (prepare visitor (codes "http://h/host/usage")))
    ≡ true
unfolding requires_auth bytes_eq Dict.get_or
admits-prepare_example =
    admits-prepare middleware-IsAuthMiddleware secured
      (sender-IsSender (λ url. ok tt) (λ req. ok (record { status = []; body = [] }))) visitor
      (codes "http://h/host/usage") refl (((λ h. omega (arith, h)), (λ h. omega (arith, h))), tt)
      ((λ h. omega (arith, h)), tt)

abbrev pub no_fraction : ℕ → ℕ → ℕ → Word
no_fraction f scale unit = 0

abbrev pub proc : Bytes → Outcome (Unit {0})
proc dir = ok tt

abbrev pub os : Os
os = record { os_open = λ _. ok (record { content = []; fault = none }); clk_tck = ok 100 }

-- The defaults: 6 averages, each of 5 readings in 5 seconds.
abbrev pub service : Started ℕ (Unit {0})
service = record {
  host_cpu = new_cpu_stat_reader os;
  host_memory = new_mem_info_reader os;
  host_load_avg = filter_wrap (new_load_avg_reader os);
  queue_length = record {
    average_length = 5;
    average_interval = 5000000000;
    queue_length = 6;
    stopped = false;
    queue = [];
    last_sample_time = 0;
    last_average_time = 0;
  };
  proc_fs = tt;
  pid = 1;
  repository = new_container_repository;
  cgroup_settings = record { is_using_cgroup_v2 = false; cgroup_source = codes "docker" };
  cpu_monitor = new_cpu_usage_monitor 4;
  net_monitor = new_net_monitor;
  mount_infos = record {
    sys_dev_block = codes "/sys/dev/block";
    dev = codes "/dev";
    dev_mapper = codes "/dev/mapper";
    mount_infos = [];
    devices = [];
  };
  address = codes ":4244";
}

pub service-boots : boot no_fraction false defaults [] (λ _. []) 0 os proc 1 4 ≡ ok service
unfolding boot init merge_one read_config parse_duration atoi Dict.lookup Dict.get_or Dict.insert
    bytes_eq new_exponential_smoothing with_queue_length with_average_config mount_info_pid
    open_mount_info_reader
service-boots = refl

boot-IsSetUp_example : IsSetUp service.queue_length 6 5 5000000000
unfolding Dict.lookup Dict.get_or bytes_eq format_uint print_parts
boot-IsSetUp_example =
    boot-IsSetUp (λ _. []) 0 os proc 1 4 no_fraction false defaults [] 20 5 second second [] [] 6 5
      defaults-IsDistinct (λ k. refl) (omega arith) (omega arith) (omega arith) (omega arith) refl
      refl refl refl service-boots
