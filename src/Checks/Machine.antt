-- ===== src/Checks/Machine.antt =====
-- The address of a machine with a wired and a wireless interface.
use pi_ssm.Base.{true, false, none, some, List, [], ◌∷◌, ◌≡◌, refl}
use pi_ssm.Base.Dict.{Dict}
use pi_ssm.Base.Result.{ok, raise}
use pi_ssm.Shard.Locations.{behind}
use pi_ssm.SystemInfo.{Address, os_error, first_inet, wired_address, get_ip_address}

abbrev wired : List Address
wired =
    record { is_inet = false; address = "fe80::1" }
    ∷ record { is_inet = true; address = "192.168.0.7" }
    ∷ []

abbrev interfaces : Dict (List Address)
interfaces =
    ("wlan0", record { is_inet = true; address = "192.168.1.9" } ∷ []) ∷ ("enp3s0", wired) ∷ []

wired_first : get_ip_address none interfaces (ok "192.168.1.9") ≡ ok "192.168.0.7"
unfolding get_ip_address wired_address first_inet behind
wired_first = refl

overridden : get_ip_address (some "10.0.0.4") interfaces (ok "192.168.1.9") ≡ ok "10.0.0.4"
unfolding get_ip_address
overridden = refl

only_wireless : get_ip_address (some "") [] (ok "192.168.1.9") ≡ ok "192.168.1.9"
unfolding get_ip_address wired_address
only_wireless = refl

no_route : get_ip_address none [] (raise os_error) ≡ raise os_error
unfolding get_ip_address wired_address
no_route = refl
