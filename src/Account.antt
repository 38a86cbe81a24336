-- ===== src/Account.antt =====
-- The ACCOUNT target (extensions/ACCOUNT/xt_ACCOUNT.c): the tables of a network namespace and the
-- counting of packets in them. Addresses and masks are in network order, as the source keeps them.
pub mod Tables
pub mod Count
pub mod Handles
pub mod Sockopt
pub mod Pages
mod Tests
use xtables_addons.Common.{Option, none, ℕ}

-- struct ipt_acc_ip
pub record AccIp : Type 0 where
  pub src_packets : ℕ
  pub src_bytes : ℕ
  pub dst_packets : ℕ
  pub dst_bytes : ℕ

abbrev pub zero_ip : AccIp
zero_ip = record { src_packets = 0; src_bytes = 0; dst_packets = 0; dst_bytes = 0 }

-- The pages, by slot; a slot without a page is NULL in the source.
abbrev pub Mask24 : Type 0
Mask24 = ℕ → AccIp

abbrev pub Mask16 : Type 0
Mask16 = ℕ → Option Mask24

abbrev pub Mask8 : Type 0
Mask8 = ℕ → Option Mask16

-- What `data` points to at the depths 0, 1 and 2.
pub data AccData : Type 0 where
  depth0 : Mask24 → AccData
  depth1 : Mask16 → AccData
  depth2 : Mask8 → AccData

-- A zeroed page
abbrev pub zero_24 : Mask24
zero_24 slot = zero_ip

abbrev pub zero_16 : Mask16
zero_16 slot = none

abbrev pub zero_8 : Mask8
zero_8 slot = none
