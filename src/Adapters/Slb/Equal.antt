-- ===== src/Adapters/Slb/Equal.antt =====
-- `EmployeeEqual` of pkg/adapters/alibabacloudslb/types.go.
use resourceconsist.Base.{
  ◌≡◌, ◌↔◌, Bool, true, false, not, ◌||◌, arith, if◌then◌else◌, ◌==◌, string_eq, bool_eq, ok,
}
use resourceconsist.Controller.Types.{PodEmployeeStatuses}
use resourceconsist.Adapters.Slb.{
  ExtraStatus, extra_eq, AlibabaSlbPodStatus, employee_equal_to, employee_equal,
}

-- The four tests, in one.
statuses_equal : PodEmployeeStatuses ExtraStatus → PodEmployeeStatuses ExtraStatus → Bool
statuses_equal s t =
    if not (s.ip == t.ip)
      || (not (s.lifecycle_ready == t.lifecycle_ready) || not (s.ipv6 == t.ipv6))
    then false
    else s.extra_status == t.extra_status

eq_of_statuses_equal :
    (s t : PodEmployeeStatuses ExtraStatus) → (statuses_equal s t ≡ true) ↔ (s ≡ t)
unfolding statuses_equal
eq_of_statuses_equal s t = (λ h. ground (arith, h), λ h. ground (arith, h))

employee_equal-statuses :
    (a b : AlibabaSlbPodStatus)
    → employee_equal a b
      ≡ ok (
          if a.employee_name == b.employee_name
          then statuses_equal a.employee_statuses b.employee_statuses
          else false)
unfolding employee_equal employee_equal_to statuses_equal
employee_equal-statuses a b = ground arith

-- Two employees have the same name and the same statuses.
abbrev pub Same : AlibabaSlbPodStatus → AlibabaSlbPodStatus → Type 0
Same a b = (a.employee_name ≡ b.employee_name) × (a.employee_statuses ≡ b.employee_statuses)

-- EmployeeEqual of two employees of this adapter ends without an error, and is true exactly if they
-- have the same name and the same statuses, the extra status included. It does not compare their ids.
pub employee_equal-Same :
    (a b : AlibabaSlbPodStatus)
    → (b' : Bool) × (employee_equal a b ≡ ok b') × ((b' ≡ true) ↔ Same a b)
employee_equal-Same a b = elim (string_eq.dec a.employee_name b.employee_name) [
  | yes p ↦ (
    statuses_equal a.employee_statuses b.employee_statuses,
    ground (arith, employee_equal-statuses a b, p),
    (
      λ h. (p, (eq_of_statuses_equal a.employee_statuses b.employee_statuses).0 h),
      λ (n, s). (eq_of_statuses_equal a.employee_statuses b.employee_statuses).1 s,
    ),
  )
  | no p ↦
      (false, ground (arith, employee_equal-statuses a b, p), (λ h. cc h, λ (n, s). absurd (p n)))
]
