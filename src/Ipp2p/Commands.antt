-- ===== src/Ipp2p/Commands.antt =====
-- The commands of extensions/xt_ipp2p.h, one bit each.
use Prim.Native.Nat.{ℕ, ◌^◌}

abbrev pub ipp2p_edk : ℕ
ipp2p_edk = 2 ^ 0

abbrev pub ipp2p_data_kazaa : ℕ
ipp2p_data_kazaa = 2 ^ 1

abbrev pub ipp2p_data_edk : ℕ
ipp2p_data_edk = 2 ^ 2

abbrev pub ipp2p_data_dc : ℕ
ipp2p_data_dc = 2 ^ 3

abbrev pub ipp2p_dc : ℕ
ipp2p_dc = 2 ^ 4

abbrev pub ipp2p_data_gnu : ℕ
ipp2p_data_gnu = 2 ^ 5

abbrev pub ipp2p_gnu : ℕ
ipp2p_gnu = 2 ^ 6

abbrev pub ipp2p_kazaa : ℕ
ipp2p_kazaa = 2 ^ 7

abbrev pub ipp2p_bit : ℕ
ipp2p_bit = 2 ^ 8

abbrev pub ipp2p_apple : ℕ
ipp2p_apple = 2 ^ 9

abbrev pub ipp2p_soul : ℕ
ipp2p_soul = 2 ^ 10

abbrev pub ipp2p_winmx : ℕ
ipp2p_winmx = 2 ^ 11

abbrev pub ipp2p_ares : ℕ
ipp2p_ares = 2 ^ 12

abbrev pub ipp2p_mute : ℕ
ipp2p_mute = 2 ^ 13

abbrev pub ipp2p_waste : ℕ
ipp2p_waste = 2 ^ 14

abbrev pub ipp2p_xdcc : ℕ
ipp2p_xdcc = 2 ^ 15
