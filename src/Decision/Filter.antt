-- ===== src/Decision/Filter.antt =====
-- src/lbdecision.cc: `LBDecision::get_application_cmd` and `LBDecision::get_limit_cmd`, the matching
-- part of an iptables rule.
use vyatta_wanloadbalance.Common.{
  ℕ, ◌==◌, Bool, false, not, ◌&&◌, ◌||◌, [], ◌∷◌, ◌++◌, Text, lit, is_empty, text_eq, drop,
  if◌then◌else◌,
}
use vyatta_wanloadbalance.Data.{Rule, LimitPeriod, k_second, k_minute, k_hour}

-- `tmp.find(c) != string::npos` for one character.
unfoldable pub has_char : ℕ → Text → Bool
has_char c [] = false
has_char c (x ∷ xs) = x == c || has_char c xs

-- `filter += word + value + " "`.
option : Text → Text → Text
option word value = word ++ (value ++ lit " ")

-- The interface part.
unfoldable pub iface_filter : Rule → Bool → Bool → Text
unfolding option
iface_filter rule local exclude =
    if is_empty rule.in_iface
    then []
    else if local
    then if exclude then [] else lit " ! -o " ++ (rule.in_iface ++ lit " ")
    else option (lit "-i ") rule.in_iface

unfoldable pub proto_filter : Rule → Text
unfolding option
proto_filter rule =
    (if is_empty rule.proto then [] else option (lit "--proto ") rule.proto)
    ++ (if text_eq rule.proto (lit "icmp") then lit "--icmp-type any " else [])

-- An address that holds a `!` is negated and loses its first byte; one that holds a `-` is a range.
address_filter : Text → Text → Text → Text → Text → Text
unfolding option
address_filter range_not range single_not single addr =
    if is_empty addr
    then []
    else let negate = has_char b'!' addr in
      let tmp = if negate then drop 1 addr else addr in
      if has_char b'-' tmp
      then option (if negate then range_not else range) tmp
      else option (if negate then single_not else single) tmp

unfoldable pub source_filter : Text → Text
unfolding address_filter
source_filter =
    address_filter (lit "-m iprange ! --src-range ") (lit "-m iprange --src-range ")
      (lit "--source ! ") (lit "--source ")

unfoldable pub destination_filter : Text → Text
unfolding address_filter
destination_filter =
    address_filter (lit "-m iprange ! --dst-range ") (lit "-m iprange --dst-range ")
      (lit "! --destination  ") (lit "--destination ")

-- A port list in iptables' own words has precedence.
port_filter : Text → Text → Text → Text
unfolding option
port_filter word port port_ipt =
    if not (is_empty port) && is_empty port_ipt
    then option word port
    else if not (is_empty port_ipt)
    then port_ipt ++ lit " "
    else []

unfoldable pub ports_filter : Rule → Text
unfolding port_filter
ports_filter rule =
    if text_eq rule.proto (lit "udp") || text_eq rule.proto (lit "tcp")
    then port_filter (lit "-m multiport --source-port ") rule.s_port rule.s_port_ipt
      ++ port_filter (lit "-m multiport --destination-port ") rule.d_port rule.d_port_ipt
    else []

-- `LBDecision::get_application_cmd`.
unfoldable pub get_application_cmd : Rule → Bool → Bool → Text
get_application_cmd rule local exclude =
    iface_filter rule local exclude
    ++ (proto_filter rule
        ++ (source_filter rule.s_addr ++ (destination_filter rule.d_addr ++ ports_filter rule)))

unfoldable pub period_name : LimitPeriod → Text
period_name k_second = lit "second "
period_name k_minute = lit "minute "
period_name k_hour = lit "hour "

-- `LBDecision::get_limit_cmd`.
unfoldable pub get_limit_cmd : Rule → Text
unfolding period_name
get_limit_cmd rule =
    if rule.limit
    then lit "-m limit "
      ++ ((if rule.limit_mode then lit "! " else [])
          ++ (lit "--limit "
              ++ (rule.limit_rate
                  ++ (lit "/"
                      ++ (period_name rule.limit_period
                          ++ (lit "--limit-burst " ++ rule.limit_burst))))))
    else []
