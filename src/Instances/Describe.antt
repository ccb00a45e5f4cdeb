-- ===== src/Instances/Describe.antt =====
-- pkg/dc2/dispatcher_instance.go: what the API says of an instance (apiInstance and
-- terminatedInstanceFromStorage).
pub mod Filters
pub mod Handlers
use Prim.Native.String as Text
use Prim.Native.String.{◌++◌}
use dc.Prelude.{
  ◌%◌, ℕ, zero, suc, ◌+◌, ◌*◌, ◌/◌, String, Bool, true, false, ◌||◌, ◌&&◌, Option, none, some, List,
  [], ◌∷◌, ◌==◌, take, if◌then◌else◌,
}
use dc.Prelude.Text.{trim_space, equal_fold, after_prefix?}
use dc.Prelude.Int.{ℤ, pos, ltb_ℤ}
use dc.Prelude.Strconv.{format_uint}
use dc.Api.{Error, Result, ok, err, wrap, wrapped, plain, is_not_found, ◌>>=◌}
use dc.Api.Exec.{Exec}
use dc.Storage.{Storage, Attributes, resource_attributes, remove_resource, find_key, key_or_empty}
use dc.Imds.{enabled}
use dc.Dispatcher.{Tag, instance_id_prefix}
use dc.Dispatcher.Names
use dc.Spot.{spot}
use dc.Volumes.Data.{tags_in}
use dc.Executor.{World, Description, imds_of, in_storage, api_instance_id, terminated}

-- What the code asks of Go's libraries: the text of an IPv4 address, none for any other text; the
-- bytes of a SHA-1 sum; a stored time in nanoseconds, none if it cannot be read; the time between it
-- and the current one, which comes as its text; the decoders of padded and of raw base64.
pub record Library : Type 0 where
  pub ipv4 : String → Option String
  pub sha1 : String → List ℕ
  pub parse_time : String → Option ℤ
  pub since : String → ℤ → ℤ
  pub decode : String → Option String
  pub decode_raw : String → Option String

-- 3 seconds in nanoseconds
abbrev terminated_instance_ttl : ℤ
terminated_instance_ttl = pos 3000000000

abbrev pub default_subnet_id : String
default_subnet_id = "subnet-00000000000000000"

abbrev pub default_subnet_vpc_id : String
default_subnet_vpc_id = "vpc-00000000000000000"

abbrev pub or_given : String → String → String
or_given value default = if value == "" then default else value

-- The first characters of a text.
unfoldable pub first_of_text : ℕ → String → String
first_of_text zero s = ""
first_of_text (suc n) Text.[] = ""
first_of_text (suc n) (Text.◌∷◌ c s) = Text.◌∷◌ c (first_of_text n s)

-- `%02x` of a byte
hex_byte : ℕ → String
hex_byte b = format_uint 16 (b / 16) ++ format_uint 16 (b % 16)

hex : String → List ℕ → String
unfolding hex_byte
hex separator [] = ""
hex separator (b ∷ []) = hex_byte b
hex separator (b ∷ c ∷ bs) = hex_byte b ++ separator ++ hex separator (c ∷ bs)

-- strings.ReplaceAll(s, ".", "-")
dashed : String → String
dashed Text.[] = ""
dashed (Text.◌∷◌ c s) =
    let rest = dashed s in if Text.◌∷◌ c "" == "." then "-" ++ rest else Text.◌∷◌ c rest

module _ (lib : Library) where
  unfoldable pub subnet_vpc_id : String → String
  unfolding hex first_of_text
  subnet_vpc_id subnet =
      let id = trim_space subnet in
      if id == "" || id == default_subnet_id
      then default_subnet_vpc_id
      else "vpc-" ++ first_of_text 17 (hex "" (lib.sha1 id))

  -- dashedIPv4ForDNS
  dashed_ipv4_for_dns : String → Option String
  unfolding dashed
  dashed_ipv4_for_dns ip = elim (lib.ipv4 ip) [ none ↦ none | some a ↦ some (dashed a) ]

  -- privateDNSNameFromIP and publicDNSNameFromIP
  dns_name : String → String → String → String → String
  unfolding dashed_ipv4_for_dns
  dns_name prefix ip region fallback = elim (dashed_ipv4_for_dns ip) [
    | none ↦ fallback
    | some part ↦ prefix ++ part ++ "." ++ region ++ ".compute.internal"
  ]

  -- `sum[0] = (sum[0] | 0x02) & 0xfe`, which sets the second bit and clears the first
  local_bytes : List ℕ → List ℕ
  local_bytes [] = []
  local_bytes (b ∷ bs) = (b / 4 * 4 + 2) ∷ bs

  synthetic_mac_address : String → String
  unfolding local_bytes hex
  synthetic_mac_address id = hex ":" (take 6 (local_bytes (lib.sha1 id)))

-- api.InstanceNetworkInterface, without the fields that are constants
pub record NetworkInterface : Type 0 where
  pub id : String
  pub attachment_id : String
  pub mac_address : String
  pub private_dns_name : String
  pub private_ip : String
  -- the public name and address, if there is an address
  pub association : Option (String × String)

-- api.Instance, with the name of its state and whether its metadata endpoint is enabled
pub record Instance : Type 0 where
  pub id : String
  pub image_id : String
  pub state : String
  pub transition_reason : String
  pub state_reason : Option (String × String)
  pub private_dns_name : String
  pub dns_name : String
  pub key_name : String
  pub instance_kind : String
  pub lifecycle : Option String
  pub launch_time : String
  pub architecture : String
  pub subnet_id : String
  pub vpc_id : String
  pub private_ip : String
  pub public_ip : String
  pub interfaces : List NetworkInterface
  pub endpoint : Option Bool
  pub tags : List Tag
  pub availability_zone : String

-- stateReasonFromAttributes
state_reason_from : Attributes → Option (String × String)
state_reason_from attrs =
    let code = key_or_empty attrs Names.reason_code in
    let message = key_or_empty attrs Names.reason_message in
    if code == "" && message == "" then none else some (code, message)

abbrev lifecycle_of : Attributes → Option String
lifecycle_of attrs =
    if equal_fold (key_or_empty attrs Names.market_type) spot then some spot else none

abbrev subnet_of : Attributes → String
subnet_of attrs = or_given (key_or_empty attrs Names.subnet_id) default_subnet_id

-- strings.TrimPrefix
abbrev without_prefix : String → String → String
without_prefix s p = elim (after_prefix? p s) [ none ↦ s | some r ↦ r ]

module _ (lib : Library) where
  primary_network_interface : String → String → String → String → String → NetworkInterface
  unfolding synthetic_mac_address first_of_text
  primary_network_interface id private_ip public_ip private_name public_name =
      let suffix = first_of_text 17 (without_prefix id instance_id_prefix) in
      record {
        id = "eni-" ++ suffix;
        attachment_id = "eni-attach-" ++ suffix;
        mac_address = synthetic_mac_address lib id;
        private_dns_name = private_name;
        private_ip = private_ip;
        association = if public_ip == "" then none else some (public_name, public_ip);
      }

  instance_with : String → Bool → Description → Attributes → Instance
  unfolding primary_network_interface dns_name state_reason_from
  instance_with region endpoint d attrs =
      let id = api_instance_id d.id in
      let subnet = subnet_of attrs in
      let private_name = dns_name lib "ip-" d.private_ip region d.private_dns_name in
      let public_name = dns_name lib "ec2-" d.public_ip region d.private_dns_name in
      record {
        id = id;
        image_id = d.image_id;
        state = d.state;
        transition_reason = key_or_empty attrs Names.transition_reason;
        state_reason = state_reason_from attrs;
        private_dns_name = private_name;
        dns_name = public_name;
        key_name = key_or_empty attrs Names.key_name;
        instance_kind = d.instance_kind;
        lifecycle = lifecycle_of attrs;
        launch_time = d.launch_time;
        architecture = d.architecture;
        subnet_id = subnet;
        vpc_id = or_given (key_or_empty attrs Names.vpc_id) (subnet_vpc_id lib subnet);
        private_ip = d.private_ip;
        public_ip = d.public_ip;
        interfaces =
            primary_network_interface id d.private_ip d.public_ip private_name public_name ∷ [];
        endpoint = some endpoint;
        tags = tags_in attrs;
        availability_zone = key_or_empty attrs Names.availability_zone;
      }

  -- apiInstance
  unfoldable pub api_instance : {E : Type 0} → String → World E → Description → Result Instance
  unfolding instance_with
  api_instance region w d = do
    attrs ← wrap (resource_attributes w.storage (api_instance_id d.id))
    ok (instance_with region (enabled (imds_of w) d.id) d attrs)

  terminated_instance : String → String → Attributes → Instance
  unfolding state_reason_from
  terminated_instance id terminated_at attrs =
      let subnet = subnet_of attrs in
      record {
        id = id;
        image_id = "";
        state = terminated;
        transition_reason = key_or_empty attrs Names.transition_reason;
        state_reason = state_reason_from attrs;
        private_dns_name = "";
        dns_name = "";
        key_name = "";
        instance_kind = "";
        lifecycle = lifecycle_of attrs;
        launch_time = terminated_at;
        architecture = "";
        subnet_id = subnet;
        vpc_id = or_given (key_or_empty attrs Names.vpc_id) (subnet_vpc_id lib subnet);
        private_ip = "";
        public_ip = "";
        interfaces = [];
        endpoint = none;
        tags = [];
        availability_zone = key_or_empty attrs Names.availability_zone;
      }

  -- terminatedInstanceFromStorage at a time: the record of an instance is removed once it has been
  -- terminated for long enough.
  unfoldable pub terminated_instance_from_storage : String → String → Exec Storage (Option Instance)
  unfolding terminated_instance
  terminated_instance_from_storage now id s = elim (resource_attributes s id) [
    | err e ↦ (s, if is_not_found e then ok none else err (wrapped e))
    | ok attrs ↦
        let raw = key_or_empty attrs Names.terminated_at in
        if raw == "" then (s, ok none) else elim (lib.parse_time raw) [
          | none ↦ (s, err (wrapped (plain "time")))
          | some at ↦
              if ltb_ℤ terminated_instance_ttl (lib.since now at)
              then ((remove_resource id s).0, ok none)
              else (s, ok (some (terminated_instance id raw attrs)))
        ]
  ]
