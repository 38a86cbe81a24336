-- ===== src/Condition.antt =====
-- The condition match (extensions/xt_condition.c): variables that rules share by name and that user
-- space sets through files.
pub mod Shared
mod Tests
use xtables_addons.Common.{
  ℕ, suc, ◌≡◌, Bool, true, false, not, Option, some, none, List, [], ◌∷◌, ◌==◌, if◌then◌else◌, xor,
}
use xtables_addons.Refs.{Node, get_ref, put_ref, deref}
use xtables_addons.Quota2.{same_name}

-- struct condition_variable, without its list links and its reference count, which `Node` has.
pub record Variable : Type 0 where
  pub name : List ℕ
  pub enabled : Bool

-- struct condition_net, and the pointer that the next allocation returns.
pub record ConditionNet : Type 0 where
  pub next : ℕ
  pub conditions_list : List (Node Variable)

-- What a check meets in the kernel: `xt_check_proc_name`, the allocator and the proc file system.
pub record Kernel : Type 0 where
  pub name_ok : List ℕ → Bool
  pub kmalloc_ok : Bool
  pub proc_ok : Bool

pub data Errno : Type 0 where
  einval enomem efault : Errno

-- The end of a check: `info->condvar` and the namespace, or an error.
pub data Checked : Type 0 where
  accepted : ℕ → ConditionNet → Checked
  rejected : Errno → Checked

abbrev pub is_named : List ℕ → Variable → Bool
is_named name var = same_name name var.name

-- `list_add` of a new variable
new_variable : Kernel → List ℕ → ConditionNet → Checked
new_variable kernel name net =
    if not kernel.kmalloc_ok
    then rejected enomem
    else if not kernel.proc_ok
    then rejected enomem
    else accepted net.next (record {
      next = suc net.next;
      conditions_list =
          record { id = net.next; ref = 1; body = record { name = name; enabled = false } }
          ∷ net.conditions_list;
    })

find_or_new : Kernel → List ℕ → ConditionNet → Option (ℕ × List (Node Variable)) → Checked
find_or_new kernel name net none = new_variable kernel name net
find_or_new kernel name net (some (i, vars)) = accepted i (record net { conditions_list = vars })

unfoldable pub condition_mt_check : Kernel → List ℕ → ConditionNet → Checked
unfolding find_or_new new_variable
condition_mt_check kernel name net =
    if not (kernel.name_ok name)
    then rejected einval
    else find_or_new kernel name net (get_ref (is_named name) net.conditions_list)

unfoldable pub condition_mt_destroy : ℕ → ConditionNet → ConditionNet
condition_mt_destroy i net = record net { conditions_list = put_ref i net.conditions_list }

-- The variable at a pointer is set.
unfoldable pub set_enabled : ℕ → Bool → List (Node Variable) → List (Node Variable)
set_enabled i b [] = []
set_enabled i b (n ∷ vars) =
    if n.id == i
    then record n { body = record (n.body) { enabled = b } } ∷ vars
    else n ∷ set_enabled i b vars

on_char : ℕ → ℕ → ConditionNet → ConditionNet
on_char i newval net =
    if newval == b'0'
    then record net { conditions_list = set_enabled i false net.conditions_list }
    else if newval == b'1'
    then record net { conditions_list = set_enabled i true net.conditions_list }
    else net

-- The file of the variable at a pointer is write_char to; `none` is a user pointer that cannot be read.
-- The answer is the number of bytes taken, or an error.
write_char : ℕ → ℕ → ConditionNet → Option ℕ → (Option ℕ) × ConditionNet
write_char i size net none = (none, net)
write_char i size net (some newval) = (some size, on_char i newval net)

unfoldable pub condition_proc_write : ℕ → ℕ → Option ℕ → ConditionNet → (Option ℕ) × ConditionNet
unfolding write_char on_char
condition_proc_write i size buffer net =
    if size == 0 then (some size, net) else write_char i size net buffer

-- The match of a rule with the pointer `i`; `none` is a variable that was freed.
answer : Bool → Option Variable → Option Bool
answer inverted none = none
answer inverted (some var) = some (xor var.enabled inverted)

unfoldable pub condition_mt : Bool → ℕ → ConditionNet → Option Bool
unfolding answer
condition_mt inverted i net = answer inverted (deref i net.conditions_list)

-- What a reader of the file of a variable gets.
shown : Option Variable → Option (List ℕ)
shown none = none
shown (some var) = some (if var.enabled then b'1' ∷ b'\n' ∷ [] else b'0' ∷ b'\n' ∷ [])

unfoldable pub condition_proc_show : ℕ → ConditionNet → Option (List ℕ)
unfolding shown
condition_proc_show i net = shown (deref i net.conditions_list)

-- A namespace without variables; `none` is -EACCES.
unfoldable pub condition_net_init : Bool → ConditionNet → Option ConditionNet
condition_net_init proc_mkdir_ok net =
    if proc_mkdir_ok then some (record net { conditions_list = [] }) else none

-- Only the directory goes; the variables stay on the list.
unfoldable pub condition_net_exit : ConditionNet → ConditionNet
condition_net_exit net = net
