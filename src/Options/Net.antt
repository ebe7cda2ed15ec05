-- ===== src/Options/Net.antt =====
-- `NetConfig`, the MAC addresses and the names of the tap devices, of src/util.rs.
use qemu_test.Prelude.{ℕ, ◌+◌, ◌/◌, ◌%◌, [], ◌∷◌, ◌++◌, Text, codes, ltb, if◌then◌else◌}

pub data NetConfig : Type 0 where
  user_net : Text → NetConfig
  -- mac, ifname, guest_ip, gateway
  tap : Text → Text → Text → Text → NetConfig

unfoldable pub mac_of : NetConfig → Text
mac_of (user_net mac) = mac
mac_of (tap mac ifname guest_ip gateway) = mac

-- one digit of `{:x}`
abbrev pub hex_digit : ℕ → ℕ
hex_digit d = if ltb d 10 then b'0' + d else 87 + d

-- `{:02x}` of a byte
abbrev pub hex2 : ℕ → Text
hex2 b = hex_digit (b / 16) ∷ hex_digit (b % 16) ∷ []

-- the three bytes are the random ones
unfoldable pub generate_mac : ℕ → ℕ → ℕ → Text
generate_mac a b c =
    codes "52:54:00:" ++ (hex2 a ++ (codes ":" ++ (hex2 b ++ (codes ":" ++ hex2 c))))

-- `NetConfig::tap(ifname, guest_ip, gateway, mac)`
unfoldable pub tap_config : Text → Text → Text → Text → NetConfig
tap_config ifname guest_ip gateway mac = tap mac ifname guest_ip gateway

-- `NetConfig::user_net()`
unfoldable pub user_net_config : ℕ → ℕ → ℕ → NetConfig
unfolding generate_mac
user_net_config a b c = user_net (generate_mac a b c)
