-- ===== src/Ipv4options/Tests.antt =====
-- Runs of the ipv4options match (extensions/xt_ipv4options.c), and its theorems at concrete options.
use xtables_addons.Common.{◌≡◌, refl, true, some, List, [], ◌∷◌, ◌++◌, arith}
use xtables_addons.Ipv4options.{MtInfo1, rd_loop, ipv4options_rd, ipv4options_mt}
use xtables_addons.Ipv4options.Read.{IpOption, noop, option, encode, collect, ipv4options_rd-encode}

-- Padding, a router alert, and a record-route option.
abbrev options : List IpOption
options = noop ∷ option 148 (0 ∷ 0 ∷ []) ∷ option 7 (4 ∷ []) ∷ []

read_test : ipv4options_rd (encode options ++ 0 ∷ 7 ∷ []) ≡ some 0x100080
unfolding ipv4options_rd rd_loop
read_test = refl

-- An option that claims more bytes than there are ends the walk.
short_test : ipv4options_rd (148 ∷ 9 ∷ 0 ∷ []) ≡ some 0
unfolding ipv4options_rd rd_loop
short_test = refl

ipv4options_rd-encode_example :
    ipv4options_rd (encode options ++ 0 ∷ 7 ∷ []) ≡ some (collect options 0)
ipv4options_rd-encode_example = ipv4options_rd-encode options (7 ∷ []) (omega arith)

abbrev info : MtInfo1
info = record { opts = 0x100000; invert = 0; flags = 2 }

match_test : ipv4options_mt info 32 (encode options ++ 0 ∷ 0 ∷ 0 ∷ 0 ∷ []) ≡ some true
unfolding ipv4options_mt ipv4options_rd rd_loop
match_test = refl
