-- ===== src/Quota2.antt =====
-- The quota2 match (extensions/xt_quota2.c): counters that count down or up, on their own or shared
-- by name between rules, and written through procfs. Text is a list of bytes up to its NUL.
pub mod Budget
pub mod Counters
pub mod Write
mod Tests
use xtables_addons.Common.{
  ℕ, suc, ◌+◌, ◌-◌, ◌%◌, ◌^◌, Bool, true, false, not, ◌&&◌, ◌||◌, Option, some, none, List, [], ◌∷◌,
  ◌++◌, min, ltb, leb, ◌==◌, has_flag, if◌then◌else◌, take, length,
}
use xtables_addons.Common.Words.{u64_mod}
use xtables_addons.Refs.{Node, get_ref, put_ref}

-- struct xt_quota_counter of a named counter; `ref` and the place on the list are the node's.
pub record Counter : Type 0 where
  pub quota : ℕ
  pub name : List ℕ

-- What `master` points to: a counter of the rule alone, or one on the list.
pub data Master : Type 0 where
  anonymous : ℕ → Master
  named : ℕ → Master

-- struct xt_quota_mtinfo2; `master` is what the check sets.
pub record MtInfo2 : Type 0 where
  pub name : List ℕ
  pub flags : ℕ
  pub quota : ℕ

-- `counter_list`, and the pointer that the next allocation returns.
pub record Quota2Net : Type 0 where
  pub next : ℕ
  pub counter_list : List (Node Counter)

-- What kmalloc and proc_create_data do.
pub record Env : Type 0 where
  pub kmalloc_ok : Bool
  pub proc_create_ok : Bool

pub data Errno : Type 0 where
  einval enomem : Errno

pub data Checked : Type 0 where
  checked : Master → Quota2Net → Checked
  rejected : Errno → Checked

abbrev pub xt_quota_invert : ℕ
xt_quota_invert = 1

abbrev pub xt_quota_grow : ℕ
xt_quota_grow = 2

abbrev pub xt_quota_packet : ℕ
xt_quota_packet = 4

abbrev pub xt_quota_no_change : ℕ
xt_quota_no_change = 8

abbrev pub xt_quota_mask : ℕ
xt_quota_mask = 0x0f

abbrev pub same_name : List ℕ → List ℕ → Bool
same_name [] [] = true
same_name [] (c ∷ cs) = false
same_name (c ∷ cs) [] = false
same_name (c ∷ cs) (d ∷ ds) = (c == d) && same_name cs ds

-- `strchr` finds the character.
abbrev pub has_char : ℕ → List ℕ → Bool
has_char c [] = false
has_char c (d ∷ ds) = (d == c) || has_char c ds

-- `*s`
abbrev pub first_char : List ℕ → ℕ
first_char [] = 0
first_char (c ∷ cs) = c

abbrev pub name_size : ℕ
name_size = 15

-- `proc_create_data` under the name of the counter, and `list_add_tail`
publish : Env → MtInfo2 → Quota2Net → Checked
publish env q net =
    if not env.kmalloc_ok || not env.proc_create_ok
    then rejected enomem
    else checked (named net.next) (record {
      next = suc net.next;
      counter_list =
          net.counter_list
          ++ record { id = net.next; ref = 1; body = record { quota = q.quota; name = q.name } }
            ∷ [];
    })

join : Env → MtInfo2 → Quota2Net → Option (ℕ × List (Node Counter)) → Checked
join env q net none = publish env q net
join env q net (some (i, counters)) = checked (named i) (record net { counter_list = counters })

unfoldable pub q2_get_counter : Env → MtInfo2 → Quota2Net → Checked
unfolding join publish
q2_get_counter env q net =
    if first_char q.name == 0
    then (if env.kmalloc_ok then checked (anonymous q.quota) net else rejected enomem)
    else join env q net (get_ref (λ e. same_name e.name q.name) net.counter_list)

check_name : Env → MtInfo2 → Quota2Net → Checked
check_name env q net =
    if (first_char q.name == 0x2e) || has_char 0x2f q.name
    then rejected einval
    else q2_get_counter env q net

-- `flags & ~XT_QUOTA_MASK` tests the bits above the low four; the name is cut to its last byte.
unfoldable pub quota_mt2_check : Env → MtInfo2 → Quota2Net → Checked
unfolding check_name
quota_mt2_check env q net =
    if leb (xt_quota_mask + 1) q.flags
    then rejected einval
    else check_name env (record q { name = take (name_size - 1) q.name }) net

unfoldable pub quota_mt2_destroy : Master → Quota2Net → Quota2Net
quota_mt2_destroy (anonymous quota) net = net
quota_mt2_destroy (named i) net = record net { counter_list = put_ref i net.counter_list }

abbrev pub charge : MtInfo2 → ℕ → ℕ
charge q len = if has_flag q.flags xt_quota_packet then 1 else len

count_up : MtInfo2 → ℕ → ℕ → Bool × MtInfo2 × ℕ
count_up q len quota =
    if has_flag q.flags xt_quota_no_change
    then (true, q, quota)
    else let quota' = (quota + charge q len) % u64_mod in
      (true, record q { quota = quota' }, quota')

count_down : MtInfo2 → ℕ → ℕ → Bool × MtInfo2 × ℕ
count_down q len quota =
    let ret = has_flag q.flags xt_quota_invert in
    let enough = leb (charge q len) quota in
    let left = if enough then quota - charge q len else 0 in
    let quota' = if has_flag q.flags xt_quota_no_change then quota else left in
    (if enough then not ret else ret, record q { quota = quota' }, quota')

-- `quota_mt2` on a rule, the packet's `skb->len` and the counter's quota.
unfoldable pub quota_mt2 : MtInfo2 → ℕ → ℕ → Bool × MtInfo2 × ℕ
unfolding count_up count_down
quota_mt2 q len quota =
    if has_flag q.flags xt_quota_grow then count_up q len quota else count_down q len quota

-- The kernel's number readers: `simple_strtoll` as the bits of its 64-bit result.
pub record Strto : Type 0 where
  pub simple_strtoll : List ℕ → ℕ
  pub simple_strtoull : List ℕ → ℕ

-- A 64-bit pattern as int64_t is negative.
abbrev pub is_negative : ℕ → Bool
is_negative t = leb (2 ^ 63) t

abbrev pub buf_size : ℕ
buf_size = 23

-- The bytes up to the first NUL.
abbrev pub c_string : List ℕ → List ℕ
c_string [] = []
c_string (c ∷ cs) = if c == 0 then [] else c ∷ c_string cs

-- `e->quota += temp`, or 0
unfoldable pub add_quota : ℕ → ℕ → ℕ
add_quota temp quota =
    if (not (temp == 0) && not (is_negative temp)) || ltb ((u64_mod - temp) % u64_mod) quota
    then (quota + temp) % u64_mod
    else 0

-- `e->quota -= temp`, or 0
unfoldable pub sub_quota : ℕ → ℕ → ℕ
sub_quota temp quota =
    if is_negative temp || ltb temp quota then (quota + u64_mod - temp) % u64_mod else 0

write_text : Strto → List ℕ → ℕ → ℕ
write_text s [] quota = s.simple_strtoull [] % u64_mod
write_text s (c ∷ cs) quota =
    if c == b'+'
    then add_quota (s.simple_strtoll cs % u64_mod) quota
    else if c == b'-'
    then sub_quota (s.simple_strtoll cs % u64_mod) quota
    else s.simple_strtoull (c ∷ cs) % u64_mod

-- `quota_proc_write` of the bytes that `copy_from_user` brings, at most `buf_size`; `none` is
-- EFAULT. It returns the size and the new quota.
unfoldable pub quota_proc_write : Strto → (ℕ → Option (List ℕ)) → ℕ → ℕ → Option (ℕ × ℕ)
unfolding write_text
quota_proc_write s input size quota =
    let n = min size buf_size in
    elim (input n) [
      | none ↦ none
      | some buf ↦ some (n, write_text s (c_string (take (buf_size - 1) buf)) quota)
    ]

-- What the file of a counter shows.
unfoldable pub quota_proc_show : ℕ → ℕ
quota_proc_show quota = quota

-- A namespace without counters; `none` is -EACCES.
unfoldable pub quota2_net_init : Bool → Quota2Net → Option Quota2Net
quota2_net_init proc_mkdir_ok net =
    if proc_mkdir_ok then some (record net { counter_list = [] }) else none

-- The loop that frees every counter, whatever its references.
unfoldable pub free_counters : List (Node Counter) → List (Node Counter)
free_counters [] = []
free_counters (n ∷ ns) = free_counters ns

unfoldable pub quota2_net_exit : Quota2Net → Quota2Net
quota2_net_exit net = record net { counter_list = free_counters net.counter_list }
