-- ===== src/Campaign/Environment.antt =====
-- `check_environment`, on what the commands print. A key or an item that is not there, for which
-- the code raises another exception, is outside the model.
use qos_extended_mros2_esp.Base.{
  String, not, ◌||◌, List, Option, some, ◌==◌, contains, string_eq, option_eq,
}
use qos_extended_mros2_esp.Base.Result.{Result, ◌>>◌, raise_if}
use qos_extended_mros2_esp.Base.Text.{lower, strip}
use qos_extended_mros2_esp.Board.{occurs}

-- One constructor for each `raise`.
pub data CampaignError : Type 0 where
  serial_differs interface_differs qdisc_differs board_differs access_point_differs : CampaignError
  multiple_passing cannot_accept path_drift file_drift firmware_drift : CampaignError
  no_receipt bad_maximum output_exists : CampaignError

-- `design["hardware_and_network_gate"]`
pub record Gate : Type 0 where
  pub serial_resolved : String
  pub host_ip : String
  pub host_mac : String
  pub qdisc_sha256 : String
  pub board_mac : String
  pub ap_ssid : String
  pub ap_bssid : String

-- What the machine shows: where the serial device leads, if it is there; the address and the IPv4
-- addresses of the interface; and what `tc`, `ip neigh` and `netsh` print.
pub record Machine : Type 0 where
  pub serial : Option String
  pub address : String
  pub ipv4 : List String
  pub qdisc : String
  pub neighbor : String
  pub wlan : String

-- The digest of a value's canonical text is a parameter.
unfoldable pub check_environment :
    (String → String) → Gate → Machine → Result CampaignError (Unit {0})
check_environment canonical_sha256 gate machine = do
  raise_if (not (machine.serial == some gate.serial_resolved)) serial_differs
  raise_if
      (not (lower machine.address == lower gate.host_mac)
        || not (contains machine.ipv4 gate.host_ip))
      interface_differs
  raise_if (not (canonical_sha256 (strip machine.qdisc) == gate.qdisc_sha256)) qdisc_differs
  raise_if (not (occurs (lower gate.board_mac) (lower machine.neighbor))) board_differs
  raise_if
      (not (occurs (lower gate.ap_ssid) (lower machine.wlan))
        || not (occurs (lower gate.ap_bssid) (lower machine.wlan)))
      access_point_differs
