-- ===== src/SystemInfo.antt =====
-- worker/system_info.py: `get_ip_address`, by the network interfaces that `psutil` lists and the address
-- that a socket to the internet gets, or the `OSError` of that socket. The other readings of the machine are not modelled.
use pi_ssm.Base.{
  String, Bool, false, Option, none, some, is_some, List, [], ◌∷◌, ◌||◌, ◌==◌, if◌then◌else◌,
}
use pi_ssm.Base.Dict.{Dict}
use pi_ssm.Base.Result.{Result, ok}
use pi_ssm.Shard.Locations.{behind}

-- An address of an interface; the families but `AF_INET` are one.
pub record Address : Type 0 where
  pub is_inet : Bool
  pub address : String

abbrev pub ethernet_prefixes : List String
ethernet_prefixes = "eth" ∷ "en" ∷ []

-- `name.startswith(prefixes)`
abbrev pub starts_with : String → List String → Bool
starts_with name [] = false
starts_with name (prefix ∷ prefixes) = is_some (behind prefix name) || starts_with name prefixes

abbrev pub or_else : Option String → Option String → Option String
or_else (some address) other = some address
or_else none other = other

-- The loop over the addresses of an interface.
unfoldable pub first_inet : List Address → Option String
first_inet [] = none
first_inet (a ∷ rest) = let others = first_inet rest in if a.is_inet then some a.address else others

-- The loop over the interfaces.
unfoldable pub wired_address : Dict (List Address) → Option String
wired_address [] = none
wired_address ((name, addresses) ∷ rest) =
    let others = wired_address rest in
    if starts_with name ethernet_prefixes then or_else (first_inet addresses) others else others

pub data AddressFault : Type 0 where
  os_error : AddressFault

abbrev pub or_outbound : Result AddressFault String → Option String → Result AddressFault String
or_outbound outbound none = outbound
or_outbound outbound (some address) = ok address

abbrev pub detected : Dict (List Address) → Result AddressFault String → Result AddressFault String
detected interfaces outbound = or_outbound outbound (wired_address interfaces)

-- `get_ip_address`; an empty override is none.
unfoldable pub get_ip_address :
    Option String → Dict (List Address) → Result AddressFault String → Result AddressFault String
get_ip_address none interfaces outbound = detected interfaces outbound
get_ip_address (some override) interfaces outbound =
    if override == "" then detected interfaces outbound else ok override
