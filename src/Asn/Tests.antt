-- ===== src/Asn/Tests.antt =====
-- Runs of the asn match (extensions/xt_asn.c) on small inputs.
use xtables_addons.Common.{arith, ◌≡◌, true, some, List, [], ◌∷◌}
use xtables_addons.Refs.{Node}
use xtables_addons.Geoip.Search.{Subnet4}
use xtables_addons.Geoip.Load.{xt_geoip_mt_checkentry}
use xtables_addons.Asn.Match.{AsnNumber}
use xtables_addons.Asn.Load.{AsnEnv, AsnHead, xt_asn_mt_checkentry}
use xtables_addons.Asn.Same.{as_heads, as_env, as_result, xt_asn_mt_checkentry-geoip}

abbrev numbers : List (Node (AsnNumber Subnet4))
numbers =
    record {
      id = 7;
      ref = 1;
      body = record {
        asn = 64512;
        count = 1;
        subnets = record { begin = 0xa000000; end = 0xa0000ff } ∷ [];
      };
    }
    ∷ []

abbrev env : AsnEnv Subnet4
env = record {
  subnet_size = 8;
  number_at = λ ptr. some (record { subnets = 96; count = 1; asn = 64513 });
  subnets_at = λ ptr count. some (record { begin = 1; end = 2 } ∷ []);
  kmalloc_ok = λ ptr. true;
  vmalloc_ok = λ ptr size. true;
}

abbrev head : AsnHead Subnet4
head = record { next = 8; nodes = numbers }

xt_asn_mt_checkentry-geoip_example :
    as_result (xt_asn_mt_checkentry env ((64512, 32) ∷ (64513, 64) ∷ []) head)
    ≡ xt_geoip_mt_checkentry (as_env env) ((64512, 32) ∷ (64513, 64) ∷ []) (as_heads head)
xt_asn_mt_checkentry-geoip_example =
    xt_asn_mt_checkentry-geoip env ((64512, 32) ∷ (64513, 64) ∷ []) head
      (omega arith, (omega arith, tt)) (λ p. omega arith)
