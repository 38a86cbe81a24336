-- ===== src/Quota2/Counters.antt =====
-- The lifetime of counters across `quota_mt2_check` and `quota_mt2_destroy`
-- (extensions/xt_quota2.c).
use xtables_addons.Common.{
  ℕ, ◌+◌, ◌-◌, ◌≤◌, ◌<◌, ◌≡◌, refl, ap, Bool, not, ◌||◌, Option, some, none, List, ◌==◌, leb, take,
  arith, Bool-cases, inl, inr,
}
use xtables_addons.Refs.{Node, deref, refs, get_ref}
use xtables_addons.Refs.Laws.{IsLive, put_ref-get_ref, put_ref-add}
use xtables_addons.Quota2.{
  Counter, Master, MtInfo2, Quota2Net, Env, Checked, checked, rejected, same_name, has_char,
  first_char, xt_quota_mask, name_size, publish, join, q2_get_counter, check_name, quota_mt2_check,
  quota_mt2_destroy,
}

-- The counters in order, and no pointer given out that is still to be allocated.
pub record IsNet (net : Quota2Net) : Type 0 where
  pub live : IsLive net.counter_list
  pub fresh : (j : ℕ) → net.next ≤ j → refs j net.counter_list ≡ 0

-- The release of an accepted rule leaves the counters as they were before its check.
abbrev Undone : Quota2Net → Checked → Type 0
Undone net (rejected e) = Unit
Undone net (checked master after) = (quota_mt2_destroy master after).counter_list ≡ net.counter_list

publish-Undone :
    (env : Env) (q : MtInfo2) (net : Quota2Net) → IsNet net → Undone net (publish env q net)
unfolding publish quota_mt2_destroy
publish-Undone env q net ok = elim (Bool-cases (not env.kmalloc_ok || not env.proc_create_ok)) [
  | inl e ↦ rw e tt
  | inr e ↦ rw e (
      put_ref-add net.counter_list net.next (record { quota = q.quota; name = q.name }) ok.live
        (ok.fresh net.next (omega arith)))
]

join-Undone :
    (env : Env) (q : MtInfo2) (net : Quota2Net) (test : Counter → Bool)
    (found : Option (ℕ × List (Node Counter)))
    → IsNet net
    → get_ref test net.counter_list ≡ found
    → Undone net (join env q net found)
unfolding join quota_mt2_destroy
join-Undone env q net test none ok e = publish-Undone env q net ok
join-Undone env q net test (some (i, counters)) ok e =
    put_ref-get_ref test net.counter_list counters i ok.live e

q2_get_counter-Undone :
    (env : Env) (q : MtInfo2) (net : Quota2Net) → IsNet net → Undone net (q2_get_counter env q net)
unfolding q2_get_counter quota_mt2_destroy
q2_get_counter-Undone env q net ok = elim (Bool-cases (first_char q.name == 0)) [
  | inl e ↦ rw e (elim (Bool-cases env.kmalloc_ok) [ inl k ↦ rw k refl | inr k ↦ rw k tt ])
  | inr e ↦ rw e (
      join-Undone env q net (λ c. same_name c.name q.name)
        (get_ref (λ c. same_name c.name q.name) net.counter_list) ok refl)
]

check_name-Undone :
    (env : Env) (q : MtInfo2) (net : Quota2Net) → IsNet net → Undone net (check_name env q net)
unfolding check_name
check_name-Undone env q net ok =
    elim (Bool-cases ((first_char q.name == 0x2e) || has_char 0x2f q.name)) [
      | inl e ↦ rw e tt
      | inr e ↦ rw e (q2_get_counter-Undone env q net ok)
    ]

quota_mt2_check-Undone :
    (env : Env) (q : MtInfo2) (net : Quota2Net) → IsNet net → Undone net (quota_mt2_check env q net)
unfolding quota_mt2_check
quota_mt2_check-Undone env q net ok = elim (Bool-cases (leb (xt_quota_mask + 1) q.flags)) [
  | inl e ↦ rw e tt
  | inr e ↦ rw e (check_name-Undone env (record q { name = take (name_size - 1) q.name }) net ok)
]

-- On counters in order, releasing a rule that the check accepted brings the reference count of every
-- counter back to what it was before the check, even where one wraps, and a counter in use before is
-- there unchanged.
pub check_released :
    (env : Env) (q : MtInfo2) (net after : Quota2Net) (master : Master)
    → IsNet net
    → quota_mt2_check env q net ≡ checked master after
    → (j : ℕ)
    → (refs j (quota_mt2_destroy master after).counter_list ≡ refs j net.counter_list)
      × (0 < refs j net.counter_list
          → deref j (quota_mt2_destroy master after).counter_list ≡ deref j net.counter_list)
check_released env q net after master ok e j =
    let undone_if = quota_mt2_check-Undone env q net ok in
    let undone : Undone net (checked master after) = (rw e at undone_if) in
    (ap (refs j) undone, λ used. ap (deref j) undone)
